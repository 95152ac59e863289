-- ===== src/Forks/Examples.antt =====
-- Runs of prog1.c and prog3.c, and the theorems at them.
use os_bmstu.Common.{
  ℕ, suc, ◌≤◌, ◌≡◌, ◌≢◌, ◌⊎◌, refl, true, false, Option, none, some, List, [], ◌∷◌,
}
use os_bmstu.Forks.{
  Program, prog1, prog3, Answers, parent_id, adopter_id, Child, spinning, exited, reaped, Parent,
  waiting, Output, parent_info, child_info, child_exited, demo_line, rule_line, message_line, gone,
  child_step,
}
use os_bmstu.Forks.System.{
  System, parent_step, Step, by_parent, by_child1, by_child2, reaps1, reaps2, Steps, none_yet,
  one_more, fresh,
}
use os_bmstu.Forks.Accounts.{exits}
use os_bmstu.Forks.Reaping.{all_reaped}
use os_bmstu.Forks.Orphans.{Late, told_after_exit, child_of-Late}
use os_bmstu.Forks.Ending.{over, runs_end}

-- A run of a program from a state on.
record Run (p : Program) (s : System) : Type 0 where
  rounds : ℕ
  last : System
  steps : Steps p s rounds last

abbrev all_succeed : Answers
all_succeed = record { fork = true; wait = true; exec = true }

data Turn : Type 0 where
  parent : Turn
  child1 : Turn
  child2 : Turn
  reap1 : Turn
  reap2 : Turn

module _ {p : Program} {s : System} where
  extend : (r : Run p s) {t : System} → Step p r.last t → Run p s
  extend r step = record { rounds = suc r.rounds; last = _; steps = one_more r.steps step }

  parent_turn :
      (r : Run p s) (o : Option System)
      → parent_step p all_succeed r.last.parent r.last.child1 r.last.child2 r.last.out ≡ o
      → Run p s
  unfolding extend
  parent_turn r none e = r
  parent_turn r (some t) e = extend r (by_parent all_succeed e)

  child1_turn :
      (r : Run p s) (o : Option (Child × List Output))
      → child_step p all_succeed 1 (gone r.last.parent) r.last.child1 r.last.out ≡ o
      → Run p s
  unfolding extend
  child1_turn r none e = r
  child1_turn r (some (c, out)) e = extend r (by_child1 all_succeed c out e refl)

  child2_turn :
      (r : Run p s) (o : Option (Child × List Output))
      → child_step p all_succeed 2 (gone r.last.parent) r.last.child2 r.last.out ≡ o
      → Run p s
  unfolding extend
  child2_turn r none e = r
  child2_turn r (some (c, out)) e = extend r (by_child2 all_succeed c out e refl)

  reap1_turn :
      (r : Run p s) (l : Parent) (c : Child) → r.last.parent ≡ l → r.last.child1 ≡ c → Run p s
  unfolding extend
  reap1_turn r (waiting (suc k)) (exited success) e e' = extend r (reaps1 k success e e' refl)
  reap1_turn r l c e e' = r

  reap2_turn :
      (r : Run p s) (l : Parent) (c : Child) → r.last.parent ≡ l → r.last.child2 ≡ c → Run p s
  unfolding extend
  reap2_turn r (waiting (suc k)) (exited success) e e' = extend r (reaps2 k success e e' refl)
  reap2_turn r l c e e' = r

  turn : Run p s → Turn → Run p s
  unfolding parent_turn child1_turn child2_turn reap1_turn reap2_turn parent_step child_step
  turn r parent = parent_turn r _ refl
  turn r child1 = child1_turn r _ refl
  turn r child2 = child2_turn r _ refl
  turn r reap1 = reap1_turn r _ _ refl refl
  turn r reap2 = reap2_turn r _ _ refl refl

  run : Run p s → List Turn → Run p s
  unfolding turn
  run r [] = r
  run r (t ∷ ts) = run (turn r t) ts

abbrev begin : {p : Program} {s : System} → Run p s
begin = record { rounds = 0; last = _; steps = none_yet }

-- The whole of a run of prog3.c.
abbrev both_exec : Run prog3 fresh
both_exec = run begin (
    parent ∷ child1 ∷ parent ∷ child2 ∷ parent ∷ child2 ∷ child1 ∷ child2 ∷ child2 ∷ child2 ∷ child2
    ∷ reap2 ∷ child1 ∷ child1 ∷ child1 ∷ child1 ∷ reap1 ∷ [])

both_exec_output :
    both_exec.last.out
    ≡ child_info 1 parent_id
      ∷ child_info 2 parent_id
      ∷ parent_info
      ∷ demo_line 2 rule_line
      ∷ demo_line 2 message_line
      ∷ demo_line 2 rule_line
      ∷ child_exited true
      ∷ demo_line 1 rule_line
      ∷ demo_line 1 message_line
      ∷ demo_line 1 rule_line
      ∷ child_exited true
      ∷ []
unfolding run
both_exec_output = refl

prog3-ne-prog1 : prog3 ≢ prog1
prog3-ne-prog1 e = cc

all_reaped_example :
    (both_exec.last.child1 ≡ reaped)
    × (both_exec.last.child2 ≡ reaped)
    × (exits both_exec.last.out ≡ 2)
unfolding run
all_reaped_example =
    all_reaped prog3 both_exec.last prog3-ne-prog1 (both_exec.rounds, both_exec.steps) refl

runs_end_example :
    (both_exec.rounds ≤ 17)
    × ((over both_exec.last ≡ true) ⊎ ((t : System) × Step prog3 both_exec.last t))
runs_end_example = runs_end prog3 both_exec.rounds both_exec.last prog3-ne-prog1 both_exec.steps

-- The first child of prog1.c stores PPID while its parent lives, and then sees it change.
abbrev sees_exit : Run prog1 fresh
sees_exit = run begin (parent ∷ child1 ∷ child1 ∷ child1 ∷ parent ∷ parent ∷ child1 ∷ child1 ∷ [])

told_after_exit_example : (gone sees_exit.last.parent ≡ true) × (adopter_id ≡ adopter_id)
unfolding run
told_after_exit_example =
    told_after_exit prog1 sees_exit.last (child_info 1 parent_id ∷ parent_info ∷ []) [] 1 adopter_id
      (sees_exit.rounds, sees_exit.steps) refl

-- The second child has not stored PPID when the parent returns, and goes round its loop.
abbrev late : Run prog1 sees_exit.last
late = run begin (child2 ∷ child2 ∷ child2 ∷ child2 ∷ [])

child_of-Late_example : Late late.last.child2
unfolding run
child_of-Late_example =
    child_of-Late prog1 false late.rounds sees_exit.last late.last refl refl late.steps

late_state : late.last.child2 ≡ spinning adopter_id
unfolding run
late_state = refl
