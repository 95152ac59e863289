-- ===== src/Pipe/Delivery.antt =====
-- The parent of prog4.c and prog5.c prints the two messages, each of them once and whole.
use mathlib.Core.Path.{subst}
use os_bmstu.Common.{
  ℕ, zero, suc, ◌+◌, ◌≡◌, ◌⊎◌, refl, ap, true, none, some, List, [], ◌∷◌, ◌++◌, arith,
}
use os_bmstu.Pipe.{
  message, Program, Child, unborn, writing, telling, closing, exited, reaped, Parent, forking1,
  forking2, waiting, reading1, reading2, testing, finishing, returned, Output, child_exited,
  messages, Shared, say,
}
use os_bmstu.Pipe.System.{
  System, after_wait, Step, by_parent, by_child1, by_child2, reaps1, reaps2, signalled, Reach,
  start, later,
}
use os_bmstu.Pipe.Content.{Content, unreaped, At, Fine, AllFine, AllFine-append, Inv, InvBy}
use os_bmstu.Pipe.ParentSteps.{parent_step-Inv}
use os_bmstu.Pipe.ChildSteps.{Child1By, Child2By, child1_step-Inv, child2_step-Inv}

-- Nothing is left to reap: both children are reaped.
reaped_all : (c1 c2 : Child) → unreaped c1 + unreaped c2 ≡ 0 → (c1 ≡ reaped) × (c2 ≡ reaped)
reaped_all c1 c2 none_left = (is_reaped c1 (omega arith), is_reaped c2 (omega arith))
  where
    is_reaped : (c : Child) → unreaped c ≡ 0 → c ≡ reaped
    is_reaped reaped e = refl
    is_reaped unborn e = absurd (omega arith)
    is_reaped writing e = absurd (omega arith)
    is_reaped telling e = absurd (omega arith)
    is_reaped closing e = absurd (omega arith)
    is_reaped (exited success) e = absurd (omega arith)

after_wait-At :
    (k : ℕ) (c1 c2 : Child) (m : Shared)
    → Content m.sent1 m.sent2 m.pipe
    → unreaped c1 + unreaped c2 ≡ k
    → At (after_wait k) c1 c2 m
after_wait-At zero c1 c2 m content count =
    let (first, second) = reaped_all c1 c2 count in (content, first, second)
after_wait-At (suc k) c1 c2 m content count = (content, count)

along-At : (l l' : Parent) (c1 c2 : Child) (m : Shared) → l ≡ l' → At l c1 c2 m → At l' c1 c2 m
along-At l l' c1 c2 m e at = subst (λ k. At k c1 c2 m) e at

signal-At :
    (l : Parent) (c1 c2 : Child) (m : Shared)
    → At l c1 c2 m
    → At l c1 c2 (record m { send_flag = true })
signal-At forking1 c1 c2 m at = at
signal-At forking2 c1 c2 m at = at
signal-At (waiting k) c1 c2 m at = at
signal-At reading1 c1 c2 m at = at
signal-At (reading2 none) c1 c2 m at = at
signal-At (reading2 (some x)) c1 c2 m at = at
signal-At (testing none y) c1 c2 m at = tt
signal-At (testing (some x) none) c1 c2 m at = tt
signal-At (testing (some x) (some y)) c1 c2 m at = at
signal-At finishing c1 c2 m at = tt
signal-At (returned success) c1 c2 m at = tt

Step-Inv : (p : Program) (s t : System) → Step p s t → Inv s → Inv t
Step-Inv p s t (by_parent a e) inv =
    subst InvBy e (parent_step-Inv a s.parent s.child1 s.child2 s.shared inv)
Step-Inv p s t (by_child1 a c m e same) inv = rw same (
    unfold Child1By in
    subst (Child1By s.parent s.child2) e
      (child1_step-Inv p a s.parent s.child1 s.child2 s.shared inv))
Step-Inv p s t (by_child2 a c m e same) inv = rw same (
    unfold Child2By in
    subst (Child2By s.parent s.child1) e
      (child2_step-Inv a s.parent s.child1 s.child2 s.shared inv))
Step-Inv p s t (reaps1 k success waits gone same) inv =
    let at = along-At s.parent (waiting (suc k)) s.child1 s.child2 s.shared waits inv.at in
    rw same (record {
      at =
          after_wait-At k reaped s.child2 (say (child_exited success) s.shared) at.0
            (omega (arith, at.1, ap unreaped gone));
      not_yet1 = tt;
      not_yet2 = inv.not_yet2;
      fine = AllFine-append s.shared.out (child_exited success) inv.fine tt;
    })
Step-Inv p s t (reaps2 k success waits gone same) inv =
    let at = along-At s.parent (waiting (suc k)) s.child1 s.child2 s.shared waits inv.at in
    rw same (record {
      at =
          after_wait-At k s.child1 reaped (say (child_exited success) s.shared) at.0
            (omega (arith, at.1, ap unreaped gone));
      not_yet1 = inv.not_yet1;
      not_yet2 = tt;
      fine = AllFine-append s.shared.out (child_exited success) inv.fine tt;
    })
Step-Inv p s t (signalled same) inv = rw same (record {
  at = signal-At s.parent s.child1 s.child2 s.shared inv.at;
  not_yet1 = inv.not_yet1;
  not_yet2 = inv.not_yet2;
  fine = inv.fine;
})

Reach-Inv : (p : Program) (s : System) → Reach p s → Inv s
Reach-Inv p s start = record {
  at = (refl, refl, refl);
  not_yet1 = refl;
  not_yet2 = refl;
  fine = tt;
}
Reach-Inv p s (later {s = before} r st) = Step-Inv p before s st (Reach-Inv p before r)

AllFine-inside : (before after : List Output) (o : Output) → AllFine (before ++ o ∷ after) → Fine o
AllFine-inside [] after o (fine, rest) = fine
AllFine-inside (x ∷ before) after o (first, rest) = AllFine-inside before after o rest

-- In prog4.c and prog5.c, whichever calls fail, in whichever order the processes execute their lines
-- and whenever SIGINT arrives: if the parent prints what two successful calls of read gave, then
-- these are the messages of the two children, each of them once and whole, in one order or the
-- other.
pub messages_delivered :
    (p : Program) (s : System) (before after : List Output) (x y : List ℕ)
    → Reach p s
    → s.shared.out ≡ before ++ messages (some x) (some y) ∷ after
    → ((x ≡ message 1) × (y ≡ message 2)) ⊎ ((x ≡ message 2) × (y ≡ message 1))
messages_delivered p s before after x y r e =
    AllFine-inside before after (messages (some x) (some y))
      (subst AllFine e (Reach-Inv p s r).fine)
