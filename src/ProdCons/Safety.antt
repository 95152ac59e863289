-- ===== src/ProdCons/Safety.antt =====
-- What every interleaving of the producers and consumers of lab3_1 guarantees, for calls of semop that
-- keep to IsSystemV; Undo/Safety.antt has this with SEM_UNDO.
use os_bmstu.Common.{
  ℕ, suc, ◌+◌, ◌≤◌, ◌<◌, ◌≡◌, ◌⊎◌, Option, none, some, inl, inr, true, false, arith, count,
  count-find, dec_lt,
}
use os_bmstu.Semaphore.{SemApi, IsSystemV}
use os_bmstu.ProdCons.{
  Shared, Pc, acquire_empty, store, report_write, acquire_full, load, report_read, advance_head,
  wrap_head, release_empty, exited, critical, buf_size,
}
use os_bmstu.ProdCons.System.{System, Reach, IsForked}
use os_bmstu.ProdCons.View.{View, QuietIfFree, letters}
use os_bmstu.ProdCons.Invariant.{Inv, Reach-Inv}

-- The consumers have read the first `q` letters and the producers have written the first `p`.
abbrev pub InOrder : Shared → ℕ → ℕ → Type 0
InOrder m p q = (m.wrote ≡ letters p) × (m.read ≡ letters q) × (q ≤ p) × (p ≤ q + 5)

quiet-InOrder :
    {m : Shared}
    → QuietIfFree m
    → (false ≡ true) ⊎ (m.sems 2 ≡ 1)
    → (p : ℕ) × (q : ℕ) × InOrder m p q
quiet-InOrder v (inl c) = cc
quiet-InOrder v (inr free) = let (w, r, q) = v free in (w, r, ground arith)

View-InOrder :
    (m : Shared) (p : Pc)
    → View m p
    → (critical p ≡ true) ⊎ (m.sems 2 ≡ 1)
    → (p : ℕ) × (q : ℕ) × InOrder m p q
View-InOrder m acquire_empty v c = quiet-InOrder v c
View-InOrder m acquire_full v c = quiet-InOrder v c
View-InOrder m exited v c = quiet-InOrder v c
View-InOrder m store (w, r, v) c = (w, r, ground arith)
View-InOrder m report_write (w, r, v) c = (w, r, ground arith)
View-InOrder m load (w, r, v) c = (w, r, ground arith)
View-InOrder m (report_read x) (w, r, v) c = (w, r, ground arith)
View-InOrder m advance_head (w, r, v) c = (w, suc r, ground arith)
View-InOrder m wrap_head (w, r, v) c = (w, suc r, ground arith)
View-InOrder m release_empty (w, r, v) c = (w, suc r, ground arith)
View-InOrder m _ (w, r, v) c = (suc w, r, ground arith)

-- The cell of the ring that the next line of a process touches.
abbrev pub accessed : Pc → Shared → Option ℕ
accessed store m = some (m.buf 2)
accessed load m = some (m.buf 1)
accessed _ m = none

View-bounds_cell :
    (m : Shared) (p : Pc) (k : ℕ) → View m p → accessed p m ≡ some k → (3 ≤ k) × (k < buf_size)
View-bounds_cell m store k (w, r, v) e = ground arith
View-bounds_cell m load k (w, r, v) e = ground arith
View-bounds_cell m _ k v e = cc

-- Some process sees the memory as it is: one that is inside, or any one while nobody is.
witness_process :
    {n : ℕ} {s : System}
    → Inv n s
    → 0 < n
    → (i : ℕ) × (i < n) × ((critical (s.pc i) ≡ true) ⊎ (s.mem.sems 2 ≡ 1))
witness_process {n} {s} inv some_process = elim (dec_lt 0 (count critical n s.pc)) [
  | yes busy ↦ let (i, h, c) = count-find critical n s.pc busy in (i, h, inl c)
  | no idle ↦ (0, some_process, inr (omega (arith, inv.exclusive)))
]

module _ {api : SemApi} {n : ℕ} {roles : ℕ → Pc} {s : System} where
  -- In every state that any number of producers and consumers can reach, in any order of their
  -- steps, the letters written are the alphabet from 'A' to 'Z' over and over, the letters read are
  -- a prefix of the letters written, none lost, doubled or out of order, and at most five are
  -- written and not yet read.
  pub fifo :
      IsSystemV api
      → ((i : ℕ) → IsForked (roles i))
      → Reach api n roles s
      → 0 < n
      → (p : ℕ) × (q : ℕ) × InOrder s.mem p q
  fifo law forked r some_process =
      let inv = Reach-Inv law forked r in
      let (i, h, c) = witness_process inv some_process in
      View-InOrder s.mem (s.pc i) (inv.views i h) c

  -- Wherever a process stores a letter or loads one, the index lies in the ring of five cells, inside
  -- the shared segment and behind the three bytes of bookkeeping.
  pub in_bounds :
      IsSystemV api
      → ((i : ℕ) → IsForked (roles i))
      → Reach api n roles s
      → (i k : ℕ) → i < n
      → accessed (s.pc i) s.mem ≡ some k
      → (3 ≤ k) × (k < buf_size)
  in_bounds law forked r i k h e =
      View-bounds_cell s.mem (s.pc i) k ((Reach-Inv law forked r).views i h) e
