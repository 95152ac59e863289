-- ===== src/ProdCons/Undo.antt =====
-- The processes of lab3_1 with SEM_UNDO: each has its semadj values, and its exit undoes them. System
-- has the same processes for as long as no call of semop fails.
pub mod Pairs
pub mod Bounded
pub mod Lines
pub mod Simulation
pub mod Safety
mod Examples
use mathlib.Core.Option
use os_bmstu.Common.{ℕ, ◌<◌, ◌≡◌, Option, some, update}
use os_bmstu.Semaphore.Undo.{Adj, unadjusted, undo_all, UndoApi, met_by}
use os_bmstu.ProdCons.{
  Shared, Pc, acquire_empty, release_full, acquire_full, release_empty, exited, step, prod_pre_sem,
  prod_post_sem, cons_pre_sem, cons_post_sem,
}
use os_bmstu.ProdCons.System.{fresh}

-- The semadj values of a process after its next line.
abbrev pub adj_after : UndoApi → Pc → Adj → Shared → Adj
adj_after api acquire_empty a m = (api.semop m.sems a prod_pre_sem).1
adj_after api release_full a m = (api.semop m.sems a prod_post_sem).1
adj_after api acquire_full a m = (api.semop m.sems a cons_pre_sem).1
adj_after api release_empty a m = (api.semop m.sems a cons_post_sem).1
adj_after api _ a m = a

-- `exit(1)` undoes what the process has done to the semaphores.
abbrev pub leave : Pc → Adj → Shared → Shared
leave exited a m = record m { sems = undo_all a m.sems }
leave _ a m = m

-- One line of a process with these semadj values; `none` if it sleeps in `semop`.
unfoldable pub process_step : UndoApi → Pc → Adj → Shared → Option (Pc × Adj × Shared)
unfolding step
process_step api p a m =
    let a' = adj_after api p a m in
    Option.map (λ (p', m'). (p', a', leave p' a' m')) (step (met_by a api) p m)

pub record System : Type 0 where
  pub mem : Shared
  pub pc : ℕ → Pc
  pub adj : ℕ → Adj

-- Process `i` of `n` executes its next line.
pub data Step (api : UndoApi) (n : ℕ) (s t : System) : Type 0 where
  pick :
      (i : ℕ) (p : Pc) (a : Adj) (m : Shared)
      → i < n
      → process_step api (s.pc i) (s.adj i) s.mem ≡ some (p, a, m)
      → t ≡ record { mem = m; pc = update s.pc i p; adj = update s.adj i a }
      → Step api n s t

-- The processes begin with semadj values 0.
pub data Reach (api : UndoApi) (n : ℕ) (roles : ℕ → Pc) : System → Type 0 where
  start : Reach api n roles (record { mem = fresh; pc = roles; adj = λ _. unadjusted })
  later : {s t : System} → Reach api n roles s → Step api n s t → Reach api n roles t
