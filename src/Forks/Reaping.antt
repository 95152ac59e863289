-- ===== src/Forks/Reaping.antt =====
-- The parent of wait.c and prog3.c returns 0 only when it has waited for both children.
use os_bmstu.Common.{
  ℕ, zero, suc, ◌+◌, ◌≡◌, ◌≢◌, inl, inr, refl, ap, Bool-cases, true, Option, none, some, List,
  arith,
}
use mathlib.Core.Path.{subst}
use os_bmstu.Forks.{
  Program, prog1, prog3, wait_prog, Answers, Child, unborn, saving, greeting_saved, spinning,
  leaving, greeting, executing, showing, exited, reaped, Parent, forking1, forking2, printing,
  waiting, returned, Output, child_exited, gone, first_line, after_printing, after_wait,
}
use os_bmstu.Forks.System.{
  System, parent_step, Step, by_parent, by_child1, by_child2, reaps1, reaps2, Steps, none_yet,
  one_more, Reach, fresh,
}
use os_bmstu.Forks.Accounts.{
  exits, exits-snoc, unreaped, born, At, Inv, Runs, child_step-Runs, At-child1, At-child2,
}

abbrev KeepsInv : Program → Option System → Type 0
KeepsInv p none = Unit {0}
KeepsInv p (some s) = Inv p s

first_line-born : (p : Program) → (born (first_line p) ≡ true) × (unreaped (first_line p) ≡ 1)
first_line-born prog1 = (refl, refl)
first_line-born prog3 = (refl, refl)
first_line-born wait_prog = (refl, refl)

after_printing-At :
    (p : Program) (c1 c2 : Child) → At p printing c1 c2 → At p (after_printing p) c1 c2
after_printing-At prog1 c1 c2 at = inl refl
after_printing-At prog3 c1 c2 at = (at.0, at.1, at.2, omega arith)
after_printing-At wait_prog c1 c2 at = (at.0, at.1, at.2, omega arith)

parent_step-Inv :
    (p : Program) (a : Answers) (parent : Parent) (c1 c2 : Child) (out : List Output)
    → At p parent c1 c2
    → exits out + (unreaped c1 + unreaped c2) ≡ 2
    → KeepsInv p (parent_step p a parent c1 c2 out)
unfolding parent_step
parent_step-Inv p a forking1 c1 c2 out at sum = elim (Bool-cases a.fork) [
  | inr fails ↦
      rw fails (record { at = tt; sum = omega (arith, sum, exits-snoc out Output.fork_error) })
  | inl forks ↦
      let (b, u) = first_line-born p in
      rw forks (record { at = (b, u, at.1); sum = omega (arith, sum, u, ap unreaped at.0) })
]
parent_step-Inv p a forking2 c1 c2 out at sum = elim (Bool-cases a.fork) [
  | inr fails ↦
      rw fails (record { at = tt; sum = omega (arith, sum, exits-snoc out Output.fork_error) })
  | inl forks ↦
      let (b, u) = first_line-born p in
      rw forks (record {
        at = (at.0, b, omega (arith, at.1, u));
        sum = omega (arith, sum, u, ap unreaped at.2);
      })
]
parent_step-Inv p a printing c1 c2 out at sum = record {
  at = after_printing-At p c1 c2 at;
  sum = omega (arith, sum, exits-snoc out Output.parent_info);
}
parent_step-Inv p a (waiting k) c1 c2 out at sum = elim (Bool-cases a.wait) [
  | inl waits ↦ rw waits tt
  | inr fails ↦
      rw fails (record { at = tt; sum = omega (arith, sum, exits-snoc out Output.wait_error) })
]
parent_step-Inv p a (returned success) c1 c2 out at sum = tt

-- After a wait that found a child.
after_wait-At :
    (p : Program) (k : ℕ) (c1 c2 : Child)
    → born c1 ≡ true
    → born c2 ≡ true
    → unreaped c1 + unreaped c2 ≡ k
    → At p (after_wait k) c1 c2
after_wait-At p zero c1 c2 b1 b2 sum = inr sum
after_wait-At p (suc k) c1 c2 b1 b2 sum = (b1, b2, sum, omega arith)

along-At : (p : Program) (l l' : Parent) (c1 c2 : Child) → l ≡ l' → At p l c1 c2 → At p l' c1 c2
along-At p l l' c1 c2 e at = subst (λ x. At p x c1 c2) e at

Step-Inv : (p : Program) (s t : System) → Step p s t → Inv p s → Inv p t
Step-Inv p s t (by_parent a e) inv =
    subst (KeepsInv p) e (parent_step-Inv p a s.parent s.child1 s.child2 s.out inv.at inv.sum)
Step-Inv p s t (by_child1 a c out e same) inv =
    let (b, u, b', u', kept) =
      subst (Runs s.child1 s.out) e (child_step-Runs p a 1 (gone s.parent) s.child1 s.out) in
    rw same (record {
      at = At-child1 p s.parent s.child1 c s.child2 b u b' u' inv.at;
      sum = omega (arith, inv.sum, u, u', kept);
    })
Step-Inv p s t (by_child2 a c out e same) inv =
    let (b, u, b', u', kept) =
      subst (Runs s.child2 s.out) e (child_step-Runs p a 2 (gone s.parent) s.child2 s.out) in
    rw same (record {
      at = At-child2 p s.parent s.child1 s.child2 c b u b' u' inv.at;
      sum = omega (arith, inv.sum, u, u', kept);
    })
Step-Inv p s t (reaps1 k success waits ended same) inv =
    let at = along-At p s.parent (waiting (suc k)) s.child1 s.child2 waits inv.at in
    let one = ap unreaped ended in
    rw same (record {
      at = after_wait-At p k reaped s.child2 refl at.1 (omega (arith, at.2, one));
      sum = omega (arith, inv.sum, one, exits-snoc s.out (child_exited success));
    })
Step-Inv p s t (reaps2 k success waits ended same) inv =
    let at = along-At p s.parent (waiting (suc k)) s.child1 s.child2 waits inv.at in
    let one = ap unreaped ended in
    rw same (record {
      at = after_wait-At p k s.child1 reaped at.0 refl (omega (arith, at.2, one));
      sum = omega (arith, inv.sum, one, exits-snoc s.out (child_exited success));
    })

pub Steps-Inv : (p : Program) (n : ℕ) (s : System) → Steps p fresh n s → Inv p s
Steps-Inv p n s none_yet = record { at = (refl, refl); sum = refl }
Steps-Inv p n s (one_more {t = before} steps step) =
    Step-Inv p before s step (Steps-Inv p _ before steps)

unreaped-reaped : (c : Child) → unreaped c ≡ 0 → c ≡ reaped
unreaped-reaped reaped e = refl
unreaped-reaped unborn e = absurd (omega arith)
unreaped-reaped saving e = absurd (omega arith)
unreaped-reaped (greeting_saved ppid) e = absurd (omega arith)
unreaped-reaped (spinning ppid) e = absurd (omega arith)
unreaped-reaped leaving e = absurd (omega arith)
unreaped-reaped greeting e = absurd (omega arith)
unreaped-reaped executing e = absurd (omega arith)
unreaped-reaped (showing ls) e = absurd (omega arith)
unreaped-reaped (exited success) e = absurd (omega arith)

-- In wait.c and prog3.c, whichever calls fail and in whichever order the processes execute their
-- lines: where main has returned 0, it has waited for both of its children, and has reported
-- exactly two exits.
pub all_reaped :
    (p : Program) (s : System)
    → p ≢ prog1
    → Reach p s
    → s.parent ≡ returned true
    → (s.child1 ≡ reaped) × (s.child2 ≡ reaped) × (exits s.out ≡ 2)
all_reaped p s other (n, steps) ended =
    let inv = Steps-Inv p n s steps in
    elim (along-At p s.parent (returned true) s.child1 s.child2 ended inv.at) [
      | inl e ↦ absurd (other e)
      | inr none_left ↦ (
        unreaped-reaped s.child1 (omega arith),
        unreaped-reaped s.child2 (omega arith),
        omega (arith, inv.sum),
      )
    ]
