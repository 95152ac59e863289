-- ===== src/ReadWrite/System.antt =====
-- The processes that `main` of lab3_2 forks, interleaved in any order.
use os_bmstu.Common.{ℕ, ◌<◌, ◌≡◌, ◌⊎◌, some, [], ltb, if◌then◌else◌, update}
use os_bmstu.Semaphore.{SemApi}
use os_bmstu.ReadWrite.{Shared, Pc, read_direct, write_direct, step}

pub record System : Type 0 where
  pub mem : Shared
  pub pc : ℕ → Pc

-- Process `i` of `n` makes its next call, with `r` for the number that `rand` returns.
pub data Step (api : SemApi) (n : ℕ) (s t : System) : Type 0 where
  pick :
      (i r : ℕ) (p : Pc) (m : Shared)
      → i < n
      → step api r (s.pc i) s.mem ≡ some (p, m)
      → t ≡ record { mem = m; pc = update s.pc i p }
      → Step api n s t

-- The shared state when `main` begins to fork: every semaphore 0, the byte '!'.
abbrev pub fresh : Shared
fresh = record { sems = λ _. 0; buf = b'!'; printed = [] }

-- A process that has just been forked.
abbrev pub IsForked : Pc → Type 0
IsForked p = (p ≡ read_direct) ⊎ (p ≡ write_direct)

abbrev pub writer_n : ℕ
writer_n = 2

abbrev pub reader_n : ℕ
reader_n = 5

-- The loops of `main` fork the writers, then the readers.
abbrev pub forked : ℕ → Pc
forked i = if ltb i writer_n then write_direct else read_direct

pub data Reach (api : SemApi) (n : ℕ) (roles : ℕ → Pc) : System → Type 0 where
  start : Reach api n roles (record { mem = fresh; pc = roles })
  later : {s t : System} → Reach api n roles s → Step api n s t → Reach api n roles t
