-- ===== src/ReadWrite.antt =====
-- sem_5/lab3_2: readers and writers of one shared byte, with a set of six semaphores. A process
-- moves by one system call or one access to the byte at a time; any process may move next.
pub mod System
pub mod Accounts
pub mod Safety
pub mod Launch
mod Examples
use os_bmstu.Common.{
  ℕ, ◌+◌, ◌-◌, ◌%◌, Bool, true, false, Option, none, some, List, [], ◌∷◌, ◌++◌, ◌==◌, if◌then◌else◌,
}
use os_bmstu.Semaphore.{Sems, pos, negsuc, SemBuf, Outcome, done, again, asleep, failed, SemApi}

abbrev pub act_w_semn : ℕ
act_w_semn = 0

abbrev pub act_r_semn : ℕ
act_r_semn = 1

abbrev pub wai_w_semn : ℕ
wai_w_semn = 2

abbrev pub wai_r_semn : ℕ
wai_r_semn = 3

abbrev pub can_w_semn : ℕ
can_w_semn = 4

abbrev pub can_r_semn : ℕ
can_r_semn = 5

-- The semaphores, the shared byte, and the letters in the lines printed so far, oldest first.
pub record Shared : Type 0 where
  pub sems : Sems
  pub buf : ℕ
  pub printed : List ℕ

-- The call that a process makes next. Readers: `start_read` (`read_direct` to `read_rearm`), the
-- `printf` of `read_func`, `stop_read` (`read_leave` to `read_signal`). Writers: `start_write`
-- (`write_direct` to `write_awake`), the two lines of `write_func`, `stop_write` (`write_check` to
-- `write_leave`).
pub data Pc : Type 0 where
  read_direct read_queue read_clear read_awake read_rearm reading read_leave read_count : Pc
  read_signal write_direct write_queue write_clear write_awake writing write_print write_check : Pc
  signal_readers signal_writers write_leave exited : Pc

-- Wait until the semaphore is 0.
abbrev zero_of : ℕ → Bool → SemBuf
zero_of k nowait = record { sem_num = k; sem_op = pos 0; nowait = nowait; undo = true }

abbrev plus_one : ℕ → SemBuf
plus_one k = record { sem_num = k; sem_op = pos 1; nowait = false; undo = true }

abbrev pub minus_one : ℕ → SemBuf
minus_one k = record { sem_num = k; sem_op = negsuc 0; nowait = false; undo = true }

-- The arrays of `start_read`.
abbrev pub read_dir_sem : List SemBuf
read_dir_sem = zero_of act_w_semn true ∷ zero_of wai_w_semn true ∷ plus_one act_r_semn ∷ []

abbrev pub read_wait_sem : List SemBuf
read_wait_sem = plus_one wai_r_semn ∷ []

abbrev pub read_awake_sem : List SemBuf
read_awake_sem =
    zero_of act_w_semn false
    ∷ minus_one can_r_semn
    ∷ plus_one act_r_semn
    ∷ minus_one wai_r_semn
    ∷ []

-- The arrays of `start_write`.
abbrev pub write_dir_sem : List SemBuf
write_dir_sem = zero_of act_r_semn true ∷ zero_of act_w_semn true ∷ plus_one act_w_semn ∷ []

abbrev pub write_wait_sem : List SemBuf
write_wait_sem = plus_one wai_w_semn ∷ []

abbrev pub write_awake_sem : List SemBuf
write_awake_sem =
    zero_of act_w_semn false
    ∷ minus_one can_w_semn
    ∷ plus_one act_w_semn
    ∷ minus_one wai_w_semn
    ∷ []

-- After `semop`: go on at `next`, sleep on (`none`), or go to `otherwise` on the result -1.
abbrev pub after_semop : Outcome → Pc → Pc → Shared → Option (Pc × Shared)
after_semop (done s) next otherwise m = some (next, record m { sems = s })
after_semop asleep next otherwise m = none
after_semop again next otherwise m = some (otherwise, m)
after_semop failed next otherwise m = some (otherwise, m)

-- After `semctl` with SETVAL; on -1 the process calls `perror` and `exit(1)`.
abbrev pub after_setval : Option Sems → Pc → Shared → Option (Pc × Shared)
after_setval (some s) next m = some (next, record m { sems = s })
after_setval none next m = some (exited, m)

-- After `semctl` with GETVAL: the first line for the value 0, the second for any other.
abbrev pub after_getval : Option ℕ → Pc → Pc → Shared → Option (Pc × Shared)
after_getval (some v) if_zero if_not m = some (if v == 0 then if_zero else if_not, m)
after_getval none if_zero if_not m = some (exited, m)

-- `(char)(rand() % ('z' - 'a') + 'a')`, for the number that `rand` returns.
abbrev pub random_letter : ℕ → ℕ
random_letter r = r % (b'z' - b'a') + b'a'

-- One call of `read_func` or `write_func`, `r` the number that `rand` would return; `none` if the
-- process sleeps in `semop`.
unfoldable pub step : SemApi → ℕ → Pc → Shared → Option (Pc × Shared)
step api r read_direct m = after_semop (api.semop m.sems read_dir_sem) reading read_queue m
step api r read_queue m = after_semop (api.semop m.sems read_wait_sem) read_clear exited m
step api r read_clear m = after_setval (api.setval m.sems can_r_semn 0) read_awake m
step api r read_awake m = after_semop (api.semop m.sems read_awake_sem) read_rearm exited m
step api r read_rearm m = after_setval (api.setval m.sems can_r_semn 1) reading m
step api r reading m = some (read_leave, record m { printed = m.printed ++ m.buf ∷ [] })
step api r read_leave m =
    after_semop (api.semop m.sems (minus_one act_r_semn ∷ [])) read_count exited m
step api r read_count m = after_getval (api.getval m.sems act_r_semn) read_signal read_direct m
step api r read_signal m = after_setval (api.setval m.sems can_w_semn 1) read_direct m
step api r write_direct m = after_semop (api.semop m.sems write_dir_sem) writing write_queue m
step api r write_queue m = after_semop (api.semop m.sems write_wait_sem) write_clear exited m
step api r write_clear m = after_setval (api.setval m.sems can_w_semn 0) write_awake m
step api r write_awake m = after_semop (api.semop m.sems write_awake_sem) writing exited m
step api r writing m = some (write_print, record m { buf = random_letter r })
step api r write_print m = some (write_check, record m { printed = m.printed ++ m.buf ∷ [] })
step api r write_check m =
    after_getval (api.getval m.sems wai_r_semn) signal_writers signal_readers m
step api r signal_readers m = after_setval (api.setval m.sems can_r_semn 1) write_leave m
step api r signal_writers m = after_setval (api.setval m.sems can_w_semn 1) write_leave m
step api r write_leave m =
    after_semop (api.semop m.sems (minus_one act_w_semn ∷ [])) write_direct exited m
step api r exited m = none

-- A reader between `start_read` and the call that leaves, counted by ACT_R_SEMN.
abbrev pub reads : Pc → Bool
reads read_rearm = true
reads reading = true
reads read_leave = true
reads _ = false

-- A writer between `start_write` and the call that leaves, counted by ACT_W_SEMN.
abbrev pub writes : Pc → Bool
writes writing = true
writes write_print = true
writes write_check = true
writes signal_readers = true
writes signal_writers = true
writes write_leave = true
writes _ = false

-- A reader that has queued up, counted by WAI_R_SEMN.
abbrev pub waits_to_read : Pc → Bool
waits_to_read read_clear = true
waits_to_read read_awake = true
waits_to_read _ = false

-- A writer that has queued up, counted by WAI_W_SEMN.
abbrev pub waits_to_write : Pc → Bool
waits_to_write write_clear = true
waits_to_write write_awake = true
waits_to_write _ = false
