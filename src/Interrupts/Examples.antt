-- ===== src/Interrupts/Examples.antt =====
-- Runs of lab9_2, and the theorem at one of them.
use os_bmstu.Common.{
  ◌≤◌, ◌⊎◌, ◌≡◌, refl, Bool, true, false, not, Option, none, some, List, [], ◌∷◌, Bool-cases, inl,
  inr,
}
use os_bmstu.Interrupts.{
  lab9_2, Line, draining, unloaded, faulted, Module, Answers, md_step, my_interrupt, my_work_func,
  counted, deferred, total,
}
use os_bmstu.Interrupts.System.{
  System, Step, by_module, interrupted, worked, Reach, start, later, setting_up,
}
use os_bmstu.Interrupts.Closing.{one_more, none_yet, exit_ends}
use os_bmstu.Interrupts.Invariant.{Counted}
use os_bmstu.Interrupts.Lifetime.{Ended, Reach-Ended}

abbrev all_succeed : Answers
all_succeed = record { request_irq = true; create_workqueue = true }

-- A state of lab9_2 that is reached, with interrupts at these lines.
record Run (arrives : Line → Bool) : Type 0 where
  last : System
  reach : Reach lab9_2 arrives last

data Turn : Type 0 where
  call : Turn
  interrupt : Turn
  work : Turn

module_turn :
    {arrives : Line → Bool} (r : Run arrives) (o : Option (Line × Module))
    → md_step lab9_2 all_succeed r.last.line r.last.mem ≡ o
    → Run arrives
module_turn r none e = r
module_turn r (some (l, m)) e = record {
  last = _;
  reach = later r.reach (by_module all_succeed l m e refl);
}

interrupt_turn :
    {arrives : Line → Bool} (r : Run arrives) (on now : Bool)
    → r.last.mem.registered ≡ on
    → arrives r.last.line ≡ now
    → Run arrives
interrupt_turn r true true e e' = record {
  last = _;
  reach = later r.reach (interrupted _ _ e e' refl refl);
}
interrupt_turn r on now e e' = r

work_turn :
    {arrives : Line → Bool} (r : Run arrives) (busy : Bool)
    → r.last.mem.pending ≡ busy
    → Run arrives
work_turn r true e = record { last = _; reach = later r.reach (worked e refl) }
work_turn r false e = r

turn : {arrives : Line → Bool} → Run arrives → Turn → Run arrives
unfolding module_turn interrupt_turn work_turn md_step my_interrupt my_work_func
turn r call = module_turn r _ refl
turn r interrupt = interrupt_turn r _ _ refl refl
turn r work = work_turn r _ refl

run : {arrives : Line → Bool} → Run arrives → List Turn → Run arrives
unfolding turn
run r [] = r
run r (t ∷ ts) = run (turn r t) ts

abbrev quiet : Line → Bool
quiet l = not (setting_up l)

quiet_lem : (l : Line) → quiet l ≡ true → setting_up l ≡ false
quiet_lem l h = elim (Bool-cases (setting_up l)) [ inl e ↦ cc | inr e ↦ e ]

-- Two interrupts come before the work is done once; a third one is dealt with while md_exit waits.
abbrev three_interrupts : Run quiet
three_interrupts =
    run (record { last = _; reach = start })
      (call ∷ call ∷ call ∷ interrupt ∷ interrupt ∷ work ∷ call ∷ interrupt ∷ call ∷ call ∷ call
        ∷ work ∷ call ∷ call ∷ call ∷ [])

three_interrupts_state :
    (three_interrupts.last.line ≡ unloaded)
    × (three_interrupts.last.mem.out
        ≡ counted 1 ∷ counted 2 ∷ deferred ∷ counted 3 ∷ deferred ∷ total 3 ∷ [])
unfolding run
three_interrupts_state = (refl, refl)

Reach-Ended_example :
    Counted three_interrupts.last.mem × Ended three_interrupts.last.line three_interrupts.last.mem
Reach-Ended_example =
    Reach-Ended lab9_2 quiet three_interrupts.last quiet_lem three_interrupts.reach

-- The handler is freed while the work is scheduled.
abbrev freed : Run quiet
freed =
    run (record { last = _; reach = start })
      (call ∷ call ∷ call ∷ interrupt ∷ call ∷ call ∷ call ∷ [])

abbrev freed_and_worked : System
freed_and_worked = record { line = draining; mem = my_work_func freed.last.mem }

exit_ends_example :
    (1 ≤ 4) × ((draining ≡ unloaded) ⊎ ((u : System) × Step lab9_2 quiet freed_and_worked u))
unfolding run
exit_ends_example =
    exit_ends lab9_2 quiet 1 freed.last freed_and_worked quiet_lem freed.reach refl
      (one_more none_yet (worked refl refl))

-- An interrupt that arrives before create_workqueue finds no queue.
abbrev early : Run (λ _. true)
early = run (record { last = _; reach = start }) (call ∷ interrupt ∷ [])

early_interrupt : early.last.line ≡ faulted
unfolding run
early_interrupt = refl
