-- ===== src/ProdCons/System.antt =====
-- The processes that `main` forks, interleaved in any order. What SEM_UNDO adds to this is in Undo.
use os_bmstu.Common.{ℕ, ◌%◌, ◌<◌, ◌≡◌, ◌⊎◌, some, [], ◌==◌, if◌then◌else◌, update}
use os_bmstu.Semaphore.{SemApi}
use os_bmstu.ProdCons.{
  Shared, Pc, acquire_empty, acquire_full, step, full_semn, empt_semn, bin_semn, queue_size,
}

pub record System : Type 0 where
  pub mem : Shared
  pub pc : ℕ → Pc

-- Process `i` of `n` executes its next line.
pub data Step (api : SemApi) (n : ℕ) (s t : System) : Type 0 where
  pick :
      (i : ℕ) (p : Pc) (m : Shared)
      → i < n
      → step api (s.pc i) s.mem ≡ some (p, m)
      → t ≡ record { mem = m; pc = update s.pc i p }
      → Step api n s t

-- The shared state when `main` begins to fork.
abbrev pub fresh : Shared
fresh = record {
  sems = update (update (update (λ _. 0) full_semn 0) empt_semn queue_size) bin_semn 1;
  buf = update (update (update (λ _. 0) 0 b'A') 1 3) 2 3;
  wrote = [];
  read = [];
}

-- A process that has just been forked, as a producer or as a consumer.
abbrev pub IsForked : Pc → Type 0
IsForked p = (p ≡ acquire_empty) ⊎ (p ≡ acquire_full)

-- The loop of `main` forks a producer and a consumer in turn.
abbrev pub forked : ℕ → Pc
forked i = if i % 2 == 0 then acquire_empty else acquire_full

-- PROC_N pairs of processes.
abbrev pub proc_n : ℕ
proc_n = 3

pub data Reach (api : SemApi) (n : ℕ) (roles : ℕ → Pc) : System → Type 0 where
  start : Reach api n roles (record { mem = fresh; pc = roles })
  later : {s t : System} → Reach api n roles s → Step api n s t → Reach api n roles t
