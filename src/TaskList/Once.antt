-- ===== src/TaskList/Once.antt =====
-- The loop prints each task of a circular list once.
use mathlib.Core.List.{append_assoc}
use mathlib.Core.Path.{subst}
use os_bmstu.Common.{
  ℕ, zero, suc, ◌<◌, ◌≡◌, ◌≢◌, ◌∙◌, refl, sym, ap, true, false, some, List, [], ◌∷◌, ◌++◌, ◌==◌,
  if◌then◌else◌, length, map, arith,
}
use os_bmstu.TaskList.{Tasks, Output, loaded, current_line, line_of, print_tasks, md_init}

-- From `task` on the kernel's list has these tasks, none of them `init_task`, and then ends in it.
abbrev pub Circular : Tasks → ℕ → List ℕ → Type 0
Circular k task [] = k.next_task task ≡ k.init_task
Circular k task (t ∷ ts) = (k.next_task task ≡ t) × (t ≢ k.init_task) × Circular k t ts

print_tasks-Circular :
    (fuel : ℕ) (k : Tasks) (task : ℕ) (ts : List ℕ) (out : List Output)
    → length ts < fuel
    → Circular k task ts
    → print_tasks fuel k task out ≡ some (out ++ map (line_of k) (task ∷ ts))
unfolding print_tasks
print_tasks-Circular zero k task ts out enough list = absurd (omega arith)
print_tasks-Circular (suc fuel) k task [] out enough list =
    let ends : (k.next_task task == k.init_task) ≡ true = ground arith in rw ends refl
print_tasks-Circular (suc fuel) k task (t ∷ ts) out enough (link, other, list) =
    let on : (k.next_task task == k.init_task) ≡ false = ground (arith, other) in
    subst
      (λ b.
        (if b
          then some (out ++ line_of k task ∷ [])
          else print_tasks fuel k (k.next_task task) (out ++ line_of k task ∷ []))
        ≡ some (out ++ map (line_of k) (task ∷ t ∷ ts)))
      (sym on)
      (ap (λ n. print_tasks fuel k n (out ++ line_of k task ∷ [])) link
        ∙ print_tasks-Circular fuel k t ts (out ++ line_of k task ∷ []) (omega arith) list
        ∙ ap some (append_assoc out (line_of k task ∷ []) (map (line_of k) (t ∷ ts))))

-- If the list that begins at init_task comes back to it behind the tasks `ts`, and the fuel is more
-- than their number: md_init ends, and has printed a line for init_task and for each of them, once
-- and in the order of the list, between the message of its loading and the line of the current task.
pub md_init-Circular :
    (fuel : ℕ) (k : Tasks) (ts : List ℕ)
    → length ts < fuel
    → Circular k k.init_task ts
    → md_init fuel k
      ≡ some (
          loaded ∷ map (line_of k) (k.init_task ∷ ts)
          ++ current_line (k.comm k.current) (k.pid k.current) ∷ [])
unfolding md_init
md_init-Circular fuel k ts enough list =
    rw (print_tasks-Circular fuel k k.init_task ts (loaded ∷ []) enough list) refl
