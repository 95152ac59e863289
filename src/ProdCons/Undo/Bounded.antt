-- ===== src/ProdCons/Undo/Bounded.antt =====
-- The semadj values of a process of lab3_1 in terms of the letters written and read, and what its
-- lines then do.
use os_bmstu.Common.{ℕ, ◌+◌, ◌≤◌, ◌<◌, ◌≡◌, arith, some, length}
use os_bmstu.Semaphore.{semvmx}
use os_bmstu.Semaphore.Undo.{Adj, UndoApi, met_by}
use os_bmstu.ProdCons.{
  Shared, Pc, acquire_empty, store, report_write, advance_tail, wrap_tail, advance_letter,
  wrap_letter, release_full, acquire_full, load, report_read, advance_head, wrap_head,
  release_empty, exited, step,
}
use os_bmstu.ProdCons.Undo.{adj_after}

-- `taken` units of the first semaphore are not given back yet, and `given` units of the second were
-- given, for a count `k` of letters; `inside` says whether the binary semaphore is taken.
pub record Moved (taken given bin k more less inside : ℕ) : Type 0 where
  pub taken_le : taken ≤ 32768 + k + more
  pub given_le : 32768 + less ≤ given + k
  pub bin_is : bin ≡ 32768 + inside

-- The semadj values of a process at this line, when `w` letters are written and `r` are read.
abbrev pub Bounded : ℕ → ℕ → Adj → Pc → Type 0
Bounded w r a acquire_empty = Moved (a 1) (a 0) (a 2) w 0 0 0
Bounded w r a store = Moved (a 1) (a 0) (a 2) w 1 0 1
Bounded w r a report_write = Moved (a 1) (a 0) (a 2) w 1 0 1
Bounded w r a advance_tail = Moved (a 1) (a 0) (a 2) w 0 1 1
Bounded w r a wrap_tail = Moved (a 1) (a 0) (a 2) w 0 1 1
Bounded w r a advance_letter = Moved (a 1) (a 0) (a 2) w 0 1 1
Bounded w r a wrap_letter = Moved (a 1) (a 0) (a 2) w 0 1 1
Bounded w r a release_full = Moved (a 1) (a 0) (a 2) w 0 1 1
Bounded w r a acquire_full = Moved (a 0) (a 1) (a 2) r 0 0 0
Bounded w r a load = Moved (a 0) (a 1) (a 2) r 1 0 1
Bounded w r a (report_read c) = Moved (a 0) (a 1) (a 2) r 1 0 1
Bounded w r a advance_head = Moved (a 0) (a 1) (a 2) r 0 1 1
Bounded w r a wrap_head = Moved (a 0) (a 1) (a 2) r 0 1 1
Bounded w r a release_empty = Moved (a 0) (a 1) (a 2) r 0 1 1
Bounded w r a exited = Unit {0}

Moved-later :
    {taken given bin k k' more less inside : ℕ}
    → k ≤ k'
    → Moved taken given bin k more less inside
    → Moved taken given bin k' more less inside
Moved-later h v = record {
  taken_le = omega (arith, v.taken_le);
  given_le = omega (arith, v.given_le);
  bin_is = v.bin_is;
}

-- More letters only widen the bounds.
pub Bounded-later :
    (w r w' r' : ℕ) (a : Adj) (p : Pc) → w ≤ w' → r ≤ r' → Bounded w r a p → Bounded w' r' a p
Bounded-later w r w' r' a acquire_empty h k v = Moved-later h v
Bounded-later w r w' r' a store h k v = Moved-later h v
Bounded-later w r w' r' a report_write h k v = Moved-later h v
Bounded-later w r w' r' a advance_tail h k v = Moved-later h v
Bounded-later w r w' r' a wrap_tail h k v = Moved-later h v
Bounded-later w r w' r' a advance_letter h k v = Moved-later h v
Bounded-later w r w' r' a wrap_letter h k v = Moved-later h v
Bounded-later w r w' r' a release_full h k v = Moved-later h v
Bounded-later w r w' r' a acquire_full h k v = Moved-later k v
Bounded-later w r w' r' a load h k v = Moved-later k v
Bounded-later w r w' r' a (report_read c) h k v = Moved-later k v
Bounded-later w r w' r' a advance_head h k v = Moved-later k v
Bounded-later w r w' r' a wrap_head h k v = Moved-later k v
Bounded-later w r w' r' a release_empty h k v = Moved-later k v
Bounded-later w r w' r' a exited h k v = tt

-- The semaphores are far from their limit.
pub record Low (m : Shared) : Type 0 where
  pub full_low : m.sems 0 < semvmx
  pub empt_low : m.sems 1 < semvmx
  pub bin_low : m.sems 2 < semvmx

-- A line that is executed: as without SEM_UNDO, and with semadj values in their bounds.
abbrev pub Keeps : UndoApi → Pc → Adj → Shared → Pc → Shared → Type 0
Keeps api p a m p' m' =
    (step (met_by a api) p m ≡ some (p', m'))
    × Bounded (length m'.wrote) (length m'.read) (adj_after api p a m) p'
