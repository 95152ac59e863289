-- ===== src/ProdCons.antt =====
-- sem_5/lab3_1: producers and consumers over a ring of five cells in shared memory, guarded by
-- three semaphores. A process moves by one shared access at a time; any process may move next.
pub mod System
pub mod View
pub mod Moves
pub mod Steps
pub mod Invariant
pub mod Safety
pub mod Progress
pub mod Launch
pub mod Undo
mod Examples
use os_bmstu.Common.{
  ℕ, ◌+◌, ◌%◌, Bool, true, false, ◌&&◌, Option, none, some, List, [], ◌∷◌, ◌++◌, ltb, leb, ◌==◌,
  if◌then◌else◌, update,
}
use os_bmstu.Semaphore.{Sems, ℤ, pos, negsuc, SemBuf, Outcome, done, again, asleep, failed, SemApi}

abbrev pub full_semn : ℕ
full_semn = 0

abbrev pub empt_semn : ℕ
empt_semn = 1

abbrev pub bin_semn : ℕ
bin_semn = 2

abbrev pub queue_size : ℕ
queue_size = 5

abbrev pub buf_size : ℕ
buf_size = 3 + queue_size

-- The semaphores, the shared bytes by their index in `buf`, and the letters that the `printf` lines
-- of the producers and of the consumers have shown, in order.
pub record Shared : Type 0 where
  pub sems : Sems
  pub buf : ℕ → ℕ
  pub wrote : List ℕ
  pub read : List ℕ

-- The line that a process executes next: from `acquire_empty` to `release_full` those of
-- `prod_func`, from `acquire_full` to `release_empty` those of `cons_func`.
pub data Pc : Type 0 where
  acquire_empty store report_write advance_tail wrap_tail advance_letter wrap_letter release_full :
      Pc
  acquire_full load : Pc
  report_read : (cur_letter : ℕ) → Pc
  advance_head wrap_head release_empty exited : Pc

abbrev minus_one : ℕ → SemBuf
minus_one k = record { sem_num = k; sem_op = negsuc 0; nowait = false; undo = true }

abbrev plus_one : ℕ → SemBuf
plus_one k = record { sem_num = k; sem_op = pos 1; nowait = false; undo = true }

abbrev pub prod_pre_sem : List SemBuf
prod_pre_sem = minus_one empt_semn ∷ minus_one bin_semn ∷ []

abbrev pub prod_post_sem : List SemBuf
prod_post_sem = plus_one full_semn ∷ plus_one bin_semn ∷ []

abbrev pub cons_pre_sem : List SemBuf
cons_pre_sem = minus_one full_semn ∷ minus_one bin_semn ∷ []

abbrev pub cons_post_sem : List SemBuf
cons_post_sem = plus_one empt_semn ∷ plus_one bin_semn ∷ []

-- After `semop`: go on at `next`, sleep on (`none`), or `perror` and `exit(1)`.
abbrev pub after_semop : Outcome → Pc → Shared → Option (Pc × Shared)
after_semop (done s) next m = some (next, record m { sems = s })
after_semop asleep next m = none
after_semop again next m = some (exited, m)
after_semop failed next m = some (exited, m)

-- `++c` on a `char`; a value from 128 on stands for a negative one.
abbrev pub inc_char : ℕ → ℕ
inc_char c = (c + 1) % 256

-- `c >= b_size`: the comparison is made in `size_t`, where a negative `char` is a huge number.
abbrev pub at_end : ℕ → Bool
at_end c = leb buf_size c

-- `c > 'Z'`: the comparison is made in `int`.
abbrev pub past_z : ℕ → Bool
past_z c = ltb b'Z' c && ltb c 128

-- One line of `prod_func` or `cons_func`; `none` if the process sleeps in `semop`.
unfoldable pub step : SemApi → Pc → Shared → Option (Pc × Shared)
step api acquire_empty m = after_semop (api.semop m.sems prod_pre_sem) store m
step api store m = some (report_write, record m { buf = update m.buf (m.buf 2) (m.buf 0) })
step api report_write m = some (advance_tail, record m { wrote = m.wrote ++ m.buf 0 ∷ [] })
step api advance_tail m =
    let c = inc_char (m.buf 2) in
    some (if at_end c then wrap_tail else advance_letter, record m { buf = update m.buf 2 c })
step api wrap_tail m = some (advance_letter, record m { buf = update m.buf 2 3 })
step api advance_letter m =
    let c = inc_char (m.buf 0) in
    some (if past_z c then wrap_letter else release_full, record m { buf = update m.buf 0 c })
step api wrap_letter m = some (release_full, record m { buf = update m.buf 0 b'A' })
step api release_full m = after_semop (api.semop m.sems prod_post_sem) acquire_empty m
step api acquire_full m = after_semop (api.semop m.sems cons_pre_sem) load m
step api load m = some (report_read (m.buf (m.buf 1)), m)
step api (report_read c) m = some (advance_head, record m { read = m.read ++ c ∷ [] })
step api advance_head m =
    let c = inc_char (m.buf 1) in
    some (if at_end c then wrap_head else release_empty, record m { buf = update m.buf 1 c })
step api wrap_head m = some (release_empty, record m { buf = update m.buf 1 3 })
step api release_empty m = after_semop (api.semop m.sems cons_post_sem) acquire_full m
step api exited m = none

-- Between the two calls of `semop`.
abbrev pub critical : Pc → Bool
critical acquire_empty = false
critical acquire_full = false
critical exited = false
critical _ = true
