-- ===== src/TaskList.antt =====
-- sem_6/lab3_1/md.c: a kernel module that prints the list of all tasks when it is loaded. A task is
-- known by a number, and what the kernel holds of tasks is a parameter.
pub mod Once
mod Examples
use os_bmstu.Common.{ℕ, zero, suc, Option, none, some, List, [], ◌∷◌, ◌++◌, ◌==◌, if◌then◌else◌}
use mathlib.Core.Option

-- `next_task`, `comm`, `pid` and `parent` of each task, the task `init_task`, and `current`.
pub record Tasks : Type 0 where
  pub next_task : ℕ → ℕ
  pub comm : ℕ → List ℕ
  pub pid : ℕ → ℕ
  pub parent : ℕ → ℕ
  pub init_task : ℕ
  pub current : ℕ

pub data Output : Type 0 where
  loaded : Output
  task_line : (comm : List ℕ) → (pid : ℕ) → (parent_comm : List ℕ) → (parent_pid : ℕ) → Output
  current_line : (comm : List ℕ) → (pid : ℕ) → Output
  unloaded : Output

abbrev pub line_of : Tasks → ℕ → Output
line_of k task =
    task_line (k.comm task) (k.pid task) (k.comm (k.parent task)) (k.pid (k.parent task))

-- The do-while loop from a task on; `none` if it makes more than `fuel` rounds.
unfoldable pub print_tasks : ℕ → Tasks → ℕ → List Output → Option (List Output)
print_tasks zero k task out = none
print_tasks (suc fuel) k task out =
    let out' = out ++ line_of k task ∷ [] in
    let rest = print_tasks fuel k (k.next_task task) out' in
    if k.next_task task == k.init_task then some out' else rest

-- What `md_init` prints before it returns 0.
unfoldable pub md_init : ℕ → Tasks → Option (List Output)
unfolding print_tasks
md_init fuel k =
    Option.map (λ out. out ++ current_line (k.comm k.current) (k.pid k.current) ∷ [])
      (print_tasks fuel k k.init_task (loaded ∷ []))

abbrev pub md_exit : List Output
md_exit = unloaded ∷ []
