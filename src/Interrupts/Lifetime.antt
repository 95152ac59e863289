-- ===== src/Interrupts/Lifetime.antt =====
-- What holds from the loading of the module to its end.
use os_bmstu.Common.{◌≡◌, Bool, true, false, refl, arith}
use mathlib.Core.Path.{subst}
use os_bmstu.Interrupts.{
  Program, Line, requesting, creating, undo_synchronizing, undo_freeing, failed, initialising,
  loaded, synchronizing, freeing, draining, destroying, printing, unloaded, faulted, Module,
}
use os_bmstu.Interrupts.System.{
  System, Step, by_module, interrupted, worked, Reach, start, later, setting_up,
}
use os_bmstu.Interrupts.Invariant.{
  Gone, Reported, At, Counted, Inv, KeepsInv, md_step-Inv, my_interrupt-Inv, my_work_func-At,
  my_work_func-Counted,
}

Step-Inv :
    (p : Program) (arrives : Line → Bool) (s t : System)
    → ((l : Line) → arrives l ≡ true → setting_up l ≡ false)
    → Step p arrives s t
    → Inv p (s.line, s.mem)
    → Inv p (t.line, t.mem)
Step-Inv p arrives s t quiet (by_module a l m e same) inv =
    rw same (subst (KeepsInv p) e (md_step-Inv p a s.line s.mem inv))
Step-Inv p arrives s t quiet (interrupted l m on now e same) inv =
    rw same (subst (Inv p) e (my_interrupt-Inv p s.line s.mem on (quiet s.line now) inv))
Step-Inv p arrives s t quiet (worked busy same) inv =
    rw same (my_work_func-At p s.line s.mem busy inv.0, my_work_func-Counted s.mem busy inv.1)

pub Reach-Inv :
    (p : Program) (arrives : Line → Bool) (s : System)
    → ((l : Line) → arrives l ≡ true → setting_up l ≡ false)
    → Reach p arrives s
    → Inv p (s.line, s.mem)
Reach-Inv p arrives s quiet start = ((refl, refl, refl), (refl, omega arith))
Reach-Inv p arrives s quiet (later {s = before} r step) =
    Step-Inv p arrives before s quiet step (Reach-Inv p arrives before quiet r)

-- Where `md_init` has failed or `md_exit` has returned.
abbrev pub Ended : Line → Module → Type 0
Ended failed m = Gone m
Ended unloaded m = Gone m × Reported m
Ended faulted m = ⊥
Ended _ m = Unit {0}

At-Ended : (p : Program) (l : Line) (m : Module) → At p l m → Ended l m
At-Ended p requesting m at = tt
At-Ended p creating m at = tt
At-Ended p undo_synchronizing m at = tt
At-Ended p undo_freeing m at = tt
At-Ended p failed m at = at
At-Ended p initialising m at = tt
At-Ended p loaded m at = tt
At-Ended p synchronizing m at = tt
At-Ended p freeing m at = tt
At-Ended p draining m at = tt
At-Ended p destroying m at = tt
At-Ended p printing m at = tt
At-Ended p unloaded m at = at
At-Ended p faulted m at = at

-- In lab9_1 and lab9_2, whichever calls fail, if no interrupt arrives while md_init is between
-- request_irq and the initialisation of the tasklet or the work: the kernel never fails;
-- irq_counter is the number of interrupts modulo 2 ^ 32; the deferred function has run at most
-- once for each interrupt; a failed md_init, and md_exit, leave no handler, no queue and nothing
-- scheduled; and md_exit prints irq_counter last.
pub Reach-Ended :
    (p : Program) (arrives : Line → Bool) (s : System)
    → ((l : Line) → arrives l ≡ true → setting_up l ≡ false)
    → Reach p arrives s
    → Counted s.mem × Ended s.line s.mem
Reach-Ended p arrives s quiet r =
    let inv = Reach-Inv p arrives s quiet r in (inv.1, At-Ended p s.line s.mem inv.0)
