-- ===== src/TaskList/Examples.antt =====
-- A list of three tasks.
use os_bmstu.Common.{◌+◌, ◌≡◌, some, [], ◌∷◌, ◌++◌, ◌==◌, if◌then◌else◌, map, arith}
use os_bmstu.TaskList.{Tasks, loaded, current_line, line_of, md_init}
use os_bmstu.TaskList.Once.{md_init-Circular}

-- Task 0 is init_task, and task 2, its grandchild, is the current one.
abbrev three : Tasks
three = record {
  next_task = λ task. if task == 2 then 0 else task + 1;
  comm = λ task. (b'a' + task) ∷ [];
  pid = λ task. task;
  parent = λ task. if task == 2 then 1 else 0;
  init_task = 0;
  current = 2;
}

md_init-Circular_example :
    md_init 3 three
    ≡ some (loaded ∷ map (line_of three) (0 ∷ 1 ∷ 2 ∷ []) ++ current_line (b'c' ∷ []) 2 ∷ [])
md_init-Circular_example = md_init-Circular 3 three (1 ∷ 2 ∷ []) (omega arith) (ground arith)
