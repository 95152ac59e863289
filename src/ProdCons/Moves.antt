-- ===== src/ProdCons/Moves.antt =====
-- What a line of lab3_1 that does not sleep leads to.
pub mod Producer
pub mod Consumer
use os_bmstu.Common.{
  ℕ, suc, ◌+◌, ◌-◌, ◌%◌, ◌≤◌, ◌<◌, ◌≡◌, ◌⊎◌, inl, inr, none, some, Bool, true, false, arith, one_if,
  ℕ_discrete, refl, ◌++◌, ◌∷◌, [], dec_lt, update,
}
use os_bmstu.Semaphore.{system_v}
use os_bmstu.ProdCons.{
  Shared, Pc, acquire_empty, store, report_write, advance_tail, wrap_tail, advance_letter,
  wrap_letter, release_full, acquire_full, load, report_read, advance_head, wrap_head,
  release_empty, exited, step, critical, inc_char,
}
use os_bmstu.ProdCons.View.{View, ViewAt, cell_at}

abbrev pub IsAlive : Pc → Type 0
IsAlive exited = ⊥
IsAlive _ = Unit {0}

-- The lines of `prod_func`.
abbrev pub produces : Pc → Bool
produces acquire_full = false
produces load = false
produces (report_read c) = false
produces advance_head = false
produces wrap_head = false
produces release_empty = false
produces exited = false
produces _ = true

-- Two letters that are both in the ring have different cells.
pub cell_at-ne : (i j : ℕ) → i < j → j < i + 5 → cell_at i ≡ cell_at j → ⊥
cell_at-ne i j h k e = omega arith

-- A line that does not sleep: where it leads, and what is true there.
pub record Goes (m : Shared) (p : Pc) : Type 0 where
  pub next : Pc
  pub mem : Shared
  pub runs : step system_v p m ≡ some (next, mem)
  pub view : View mem next
  pub bin : mem.sems 2 + one_if (critical next) ≡ m.sems 2 + one_if (critical p)
  pub alive : IsAlive next
  pub role : produces next ≡ produces p
  pub inside : (critical p ≡ true) ⊎ (critical next ≡ true)

-- The next line and the next memory are those that `Goes` names.
pub Goes-lands :
    {m m' : Shared} {p p' : Pc}
    → (g : Goes m p) → step system_v p m ≡ some (p', m')
    → (g.next ≡ p') × (g.mem ≡ m')
Goes-lands g e = ground (arith, g.runs)
