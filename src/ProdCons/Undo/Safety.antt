-- ===== src/ProdCons/Undo/Safety.antt =====
-- What the producers and consumers of lab3_1 guarantee before a call of semop can fail.
use mathlib.Core.Path.{subst}
use os_bmstu.Common.{ℕ, ◌<◌, ◌≡◌, ◌≢◌, some, length}
use os_bmstu.Semaphore.{system_v-IsSystemV}
use os_bmstu.Semaphore.Undo.{Adj, UndoApi, IsSystemVUndo}
use os_bmstu.ProdCons.{Shared, Pc, acquire_empty, acquire_full, exited}
use os_bmstu.ProdCons.System.{IsForked}
use os_bmstu.ProdCons.Invariant.{Reach-Inv}
use os_bmstu.ProdCons.Safety
use os_bmstu.ProdCons.Safety.{InOrder}
use os_bmstu.ProdCons.Progress
use os_bmstu.ProdCons.Moves.{IsAlive}
use os_bmstu.ProdCons.Undo.{System, Reach, process_step, adj_after}
use os_bmstu.ProdCons.Undo.Simulation.{Reach-Tracks, plain_line}

module _ {api : UndoApi} {n : ℕ} {roles : ℕ → Pc} {s : System} where
  -- In every state that any number of producers and consumers reach, in any order of their lines,
  -- with SEM_UNDO, and with fewer than 32767 letters written: the letters written are the alphabet
  -- from 'A' to 'Z' over and over, the letters read are a prefix of the letters written, none lost,
  -- doubled or out of order, at most five are written and not yet read, and no process has exited.
  pub fifo_before_limit :
      IsSystemVUndo api
      → ((i : ℕ) → IsForked (roles i))
      → Reach api n roles s
      → 0 < n
      → length s.mem.wrote < 32767
      → ((p : ℕ) × (q : ℕ) × InOrder s.mem p q) × ((i : ℕ) → i < n → s.pc i ≢ exited)
  fifo_before_limit law forked r some_process few =
      let k = Reach-Tracks law forked r few in
      (
        Safety.fifo system_v-IsSystemV forked k.reached some_process,
        λ i h e. subst IsAlive e ((Reach-Inv system_v-IsSystemV forked k.reached).alive i h),
      )

  -- With SEM_UNDO, while fewer than 32767 letters are written, and while one of the forked processes
  -- is a producer and one is a consumer, some process can execute its next line in every reachable
  -- state.
  pub no_deadlock_before_limit :
      IsSystemVUndo api
      → ((i : ℕ) → IsForked (roles i))
      → Reach api n roles s
      → length s.mem.wrote < 32767
      → (i j : ℕ) → i < n
      → j < n
      → roles i ≡ acquire_empty
      → roles j ≡ acquire_full
      → (k : ℕ) × (k < n)
        × (p : Pc) × (a : Adj) × (m : Shared) × (process_step api (s.pc k) (s.adj k) s.mem
            ≡ some (p, a, m))
  no_deadlock_before_limit law forked r few i j hi hj producer consumer =
      let t = Reach-Tracks law forked r few in
      let (k, h, p, m, e) =
        Progress.no_deadlock system_v-IsSystemV forked t.reached i j hi hj producer consumer in
      let a = adj_after api (s.pc k) (s.adj k) s.mem in
      (k, h, p, a, m, (plain_line law forked t few k h p m e).0)
