-- ===== src/ProdCons/View.antt =====
-- What the shared memory looks like to a process of lab3_1, line by line.
use os_bmstu.Common.{
  ℕ, zero, suc, ◌+◌, ◌%◌, ◌≤◌, ◌<◌, ◌≡◌, ◌⊎◌, inl, inr, true, false, List, [], ◌∷◌, ◌++◌, arith,
}
use os_bmstu.ProdCons.{
  Shared, Pc, acquire_empty, store, report_write, advance_tail, wrap_tail, advance_letter,
  wrap_letter, release_full, acquire_full, load, report_read, advance_head, wrap_head,
  release_empty, exited, critical,
}

-- The letter number `j`: the alphabet, over and over.
abbrev pub letter_at : ℕ → ℕ
letter_at j = b'A' + j % 26

-- The first `n` letters.
abbrev pub letters : ℕ → List ℕ
letters zero = []
letters (suc n) = letters n ++ letter_at n ∷ []

-- The index in `buf` of the cell for letter number `j`.
abbrev pub cell_at : ℕ → ℕ
cell_at j = 3 + j % 5

-- `w` letters stored, `p` of them reported; `r` cells given back, `q` letters reported read; and
-- the three bytes of bookkeeping.
pub record Holds (m : Shared) (letter head tail w p r q : ℕ) : Type 0 where
  pub letter_byte : m.buf 0 ≡ letter
  pub head_byte : m.buf 1 ≡ head
  pub tail_byte : m.buf 2 ≡ tail
  pub cells : (j : ℕ) → r ≤ j → j < w → m.buf (cell_at j) ≡ letter_at j
  pub wrote : m.wrote ≡ letters p
  pub read : m.read ≡ letters q
  pub order : r ≤ w
  pub room : w ≤ r + 5

-- The values of the semaphores.
pub record Counts (m : Shared) (full empt bin : ℕ) : Type 0 where
  pub full_value : m.sems 0 ≡ full
  pub empt_value : m.sems 1 ≡ empt
  pub bin_value : m.sems 2 ≡ bin

-- No process is in its critical section: `w` letters written and `r` read.
pub record Quiet (m : Shared) (w r : ℕ) : Type 0 where
  pub holds : Holds m (letter_at w) (cell_at r) (cell_at w) w w r r
  pub full_sum : m.sems 0 + r ≡ w
  pub empt_sum : m.sems 1 + w ≡ r + 5

-- A producer at work on letter `w`.
pub record Producing (m : Shared) (letter tail w' p w r : ℕ) : Type 0 where
  pub holds : Holds m letter (cell_at r) tail w' p r r
  pub full_sum : m.sems 0 + r ≡ w
  pub empt_sum : m.sems 1 + suc w ≡ r + 5

-- A consumer at work on letter `r`.
pub record Consuming (m : Shared) (head q w r : ℕ) : Type 0 where
  pub holds : Holds m (letter_at w) head (cell_at w) w w r q
  pub full_sum : m.sems 0 + suc r ≡ w
  pub empt_sum : m.sems 1 + w ≡ r + 5

-- What a process at `p` may rely on, with `w` letters written and `r` read before its round.
abbrev pub ViewAt : Shared → Pc → ℕ → ℕ → Type 0
ViewAt m store w r = Producing m (letter_at w) (cell_at w) w w w r
ViewAt m report_write w r = Producing m (letter_at w) (cell_at w) (suc w) w w r
ViewAt m advance_tail w r = Producing m (letter_at w) (cell_at w) (suc w) (suc w) w r
ViewAt m wrap_tail w r = Producing m (letter_at w) 8 (suc w) (suc w) w r × (cell_at (suc w) ≡ 3)
ViewAt m advance_letter w r = Producing m (letter_at w) (cell_at (suc w)) (suc w) (suc w) w r
ViewAt m wrap_letter w r =
    Producing m 91 (cell_at (suc w)) (suc w) (suc w) w r × (letter_at (suc w) ≡ b'A')
ViewAt m release_full w r = Producing m (letter_at (suc w)) (cell_at (suc w)) (suc w) (suc w) w r
ViewAt m load w r = Consuming m (cell_at r) r w r
ViewAt m (report_read c) w r = Consuming m (cell_at r) r w r × (c ≡ letter_at r)
ViewAt m advance_head w r = Consuming m (cell_at r) (suc r) w r
ViewAt m wrap_head w r = Consuming m 8 (suc r) w r × (cell_at (suc r) ≡ 3)
ViewAt m release_empty w r = Consuming m (cell_at (suc r)) (suc r) w r
ViewAt m _ w r = Quiet m w r

-- Whenever the binary semaphore is free, the memory is quiet.
abbrev pub QuietIfFree : Shared → Type 0
QuietIfFree m = m.sems 2 ≡ 1 → (w : ℕ) × (r : ℕ) × Quiet m w r

-- What a process at `p` may rely on.
abbrev pub View : Shared → Pc → Type 0
View m acquire_empty = QuietIfFree m
View m acquire_full = QuietIfFree m
View m exited = QuietIfFree m
View m p = (w : ℕ) × (r : ℕ) × ViewAt m p w r

-- Outside the critical section every process has the same view.
pub View-outside : (m : Shared) (p : Pc) → critical p ≡ false → View m p → QuietIfFree m
View-outside m acquire_empty c v = v
View-outside m acquire_full c v = v
View-outside m exited c v = v
View-outside m _ c v = cc

pub outside-View : (m : Shared) (p : Pc) → critical p ≡ false → QuietIfFree m → View m p
outside-View m acquire_empty c v = v
outside-View m acquire_full c v = v
outside-View m exited c v = v
outside-View m _ c v = cc

quiet_bounds :
    {m : Shared} → QuietIfFree m → (false ≡ true) ⊎ (m.sems 2 ≡ 1) → (m.sems 0 ≤ 5) × (m.sems 1 ≤ 5)
quiet_bounds v (inl c) = cc
quiet_bounds v (inr free) = let (w, r, q) = v free in omega arith

-- The bounds of the counting semaphores, inside or while the memory is quiet.
pub View-bounds :
    (m : Shared) (p : Pc)
    → View m p
    → (critical p ≡ true) ⊎ (m.sems 2 ≡ 1)
    → (m.sems 0 ≤ 5) × (m.sems 1 ≤ 5)
View-bounds m acquire_empty v c = quiet_bounds v c
View-bounds m acquire_full v c = quiet_bounds v c
View-bounds m exited v c = quiet_bounds v c
View-bounds m _ (w, r, v) c = omega arith
