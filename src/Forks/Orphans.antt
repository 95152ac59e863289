-- ===== src/Forks/Orphans.antt =====
-- What the children of prog1.c learn of their parent's exit.
use os_bmstu.Common.{
  ℕ, suc, ◌≡◌, refl, ap, sym, Bool, Bool-cases, inl, inr, true, false, Option, none, some, List, [],
  ◌∷◌, ◌++◌,
}
use mathlib.Core.Path.{subst}
use os_bmstu.Forks.{
  Program, Answers, ParentId, adopter_id, Child, unborn, saving, greeting_saved, spinning, leaving,
  greeting, executing, showing, exited, reaped, Parent, forking1, forking2, printing, waiting,
  returned, Output, after_parent_exit, gone, first_line, after_printing, after_wait, child_step,
}
use os_bmstu.Forks.System.{
  System, parent_step, Step, by_parent, by_child1, by_child2, reaps1, reaps2, Steps, none_yet,
  one_more, Reach, fresh,
}
use os_bmstu.Forks.Knowing.{
  Fine, AllFine, Knows, KeepsKnowing, AllFine-snoc, first_line-Knows, child_step-Knows, Inv,
  KeepsInv, move-Inv,
}

parent_step-Inv :
    (p : Program) (a : Answers) (parent : Parent) (c1 c2 : Child) (out : List Output)
    → Inv (record { parent = parent; child1 = c1; child2 = c2; out = out })
    → KeepsInv (parent_step p a parent c1 c2 out)
unfolding parent_step
parent_step-Inv p a forking1 c1 c2 out inv = elim (Bool-cases a.fork) [
  | inr fails ↦ rw fails (
      move-Inv (returned false) c1 c2 _ inv.knows1 inv.knows2
        (AllFine-snoc false out _ inv.fine tt))
  | inl forks ↦
      rw forks
        (move-Inv forking2 (first_line p) c2 out (first_line-Knows p false) inv.knows2 inv.fine)
]
parent_step-Inv p a forking2 c1 c2 out inv = elim (Bool-cases a.fork) [
  | inr fails ↦ rw fails (
      move-Inv (returned false) c1 c2 _ inv.knows1 inv.knows2
        (AllFine-snoc false out _ inv.fine tt))
  | inl forks ↦
      rw forks
        (move-Inv printing c1 (first_line p) out inv.knows1 (first_line-Knows p false) inv.fine)
]
parent_step-Inv p a printing c1 c2 out inv =
    move-Inv (after_printing p) c1 c2 _ inv.knows1 inv.knows2 (AllFine-snoc false out _ inv.fine tt)
parent_step-Inv p a (waiting k) c1 c2 out inv = elim (Bool-cases a.wait) [
  | inl waits ↦ rw waits tt
  | inr fails ↦ rw fails (
      move-Inv (returned false) c1 c2 _ inv.knows1 inv.knows2
        (AllFine-snoc false out _ inv.fine tt))
]
parent_step-Inv p a (returned success) c1 c2 out inv = tt

-- A wait that found a child, for the first and for the second.
waited-Inv :
    (l : Parent) (k : ℕ) (c1 c2 c1' c2' : Child) (out : List Output) (success : Bool)
    → l ≡ waiting (suc k)
    → Inv (record { parent = l; child1 = c1; child2 = c2; out = out })
    → (Knows false c1 → Knows false c1')
    → (Knows false c2 → Knows false c2')
    → Inv (record {
      parent = after_wait k;
      child1 = c1';
      child2 = c2';
      out = out ++ Output.child_exited success ∷ [];
    })
waited-Inv l k c1 c2 c1' c2' out success waits inv keep1 keep2 =
    let here =
      subst (λ x. Inv (record { parent = x; child1 = c1; child2 = c2; out = out })) waits inv in
    move-Inv (after_wait k) c1' c2' _ (keep1 here.knows1) (keep2 here.knows2)
      (AllFine-snoc false out _ here.fine tt)

Step-Inv : (p : Program) (s t : System) → Step p s t → Inv s → Inv t
Step-Inv p s t (by_parent a e) inv =
    subst KeepsInv e (parent_step-Inv p a s.parent s.child1 s.child2 s.out inv)
Step-Inv p s t (by_child1 a c out e same) inv =
    let (k, f) =
      subst (KeepsKnowing (gone s.parent)) e
        (child_step-Knows p a 1 (gone s.parent) s.child1 s.out inv.knows1 inv.fine) in
    rw same (record { knows1 = k; knows2 = inv.knows2; fine = f })
Step-Inv p s t (by_child2 a c out e same) inv =
    let (k, f) =
      subst (KeepsKnowing (gone s.parent)) e
        (child_step-Knows p a 2 (gone s.parent) s.child2 s.out inv.knows2 inv.fine) in
    rw same (record { knows1 = inv.knows1; knows2 = k; fine = f })
Step-Inv p s t (reaps1 k success waits ended same) inv = rw same (
    waited-Inv s.parent k s.child1 s.child2 reaped s.child2 s.out success waits inv (λ h. tt)
      (λ h. h))
Step-Inv p s t (reaps2 k success waits ended same) inv = rw same (
    waited-Inv s.parent k s.child1 s.child2 s.child1 reaped s.out success waits inv (λ h. h)
      (λ h. tt))

Steps-Inv : (p : Program) (n : ℕ) (s : System) → Steps p fresh n s → Inv s
Steps-Inv p n s none_yet = record { knows1 = tt; knows2 = tt; fine = tt }
Steps-Inv p n s (one_more {n = k} {t = before} steps step) =
    Step-Inv p before s step (Steps-Inv p k before steps)

AllFine-inside :
    (orphan : Bool) (before after : List Output) (o : Output)
    → AllFine orphan (before ++ o ∷ after)
    → Fine orphan o
AllFine-inside orphan [] after o (fine, rest) = fine
AllFine-inside orphan (x ∷ before) after o (first, rest) = AllFine-inside orphan before after o rest

-- In prog1.c, wait.c and prog3.c, whichever calls fail and in whichever order the processes execute
-- their lines: if a child has printed a line about the exit of its parent, the parent has returned,
-- and the id in the line is that of the process that has adopted the child.
pub told_after_exit :
    (p : Program) (s : System) (before after : List Output) (n : ℕ) (id : ParentId)
    → Reach p s
    → s.out ≡ before ++ after_parent_exit n id ∷ after
    → (gone s.parent ≡ true) × (id ≡ adopter_id)
told_after_exit p s before after n id (k, steps) e =
    AllFine-inside (gone s.parent) before after (after_parent_exit n id)
      (subst (AllFine (gone s.parent)) e (Steps-Inv p k s steps).fine)

abbrev pub child_of : Bool → System → Child
child_of true s = s.child1
child_of false s = s.child2

-- A child that takes the id of its adopter for that of its parent, or will.
abbrev pub Late : Child → Type 0
Late saving = Unit {0}
Late (greeting_saved ppid) = ppid ≡ adopter_id
Late (spinning ppid) = ppid ≡ adopter_id
Late _ = ⊥

abbrev StaysLate : Option (Child × List Output) → Type 0
StaysLate none = Unit {0}
StaysLate (some (c, out)) = Late c

child_step-Late :
    (p : Program) (a : Answers) (n : ℕ) (c : Child) (out : List Output)
    → Late c
    → StaysLate (child_step p a n true c out)
unfolding child_step
child_step-Late p a n saving out late = refl
child_step-Late p a n (greeting_saved ppid) out late = late
child_step-Late p a n (spinning ppid) out late = rw late refl
child_step-Late p a n unborn out late = tt
child_step-Late p a n leaving out late = absurd late
child_step-Late p a n greeting out late = absurd late
child_step-Late p a n executing out late = absurd late
child_step-Late p a n (showing ls) out late = absurd late
child_step-Late p a n (exited success) out late = tt
child_step-Late p a n reaped out late = tt

abbrev BothLate : Bool → System → Type 0
BothLate which s = (gone s.parent ≡ true) × Late (child_of which s)

gone-stays :
    (p : Program) (a : Answers) (parent : Parent) (c1 c2 : Child) (out : List Output)
    → gone parent ≡ true
    → parent_step p a parent c1 c2 out ≡ none
unfolding parent_step
gone-stays p a forking1 c1 c2 out e = cc
gone-stays p a forking2 c1 c2 out e = cc
gone-stays p a printing c1 c2 out e = cc
gone-stays p a (waiting k) c1 c2 out e = cc
gone-stays p a (returned success) c1 c2 out e = refl

orphan-Late :
    (p : Program) (a : Answers) (n : ℕ) (orphan : Bool) (c : Child) (out : List Output)
    → orphan ≡ true
    → Late c
    → StaysLate (child_step p a n orphan c out)
orphan-Late p a n orphan c out e late = rw e (child_step-Late p a n c out late)

Step-Late :
    (p : Program) (which : Bool) (s t : System) → Step p s t → BothLate which s → BothLate which t
Step-Late p which s t (by_parent a e) (exit, late) =
    absurd (cc (e, gone-stays p a s.parent s.child1 s.child2 s.out exit))
Step-Late p true s t (by_child1 a c out e same) (exit, late) =
    rw same (exit, subst StaysLate e (orphan-Late p a 1 (gone s.parent) s.child1 s.out exit late))
Step-Late p false s t (by_child1 a c out e same) (exit, late) = rw same (exit, late)
Step-Late p true s t (by_child2 a c out e same) (exit, late) = rw same (exit, late)
Step-Late p false s t (by_child2 a c out e same) (exit, late) =
    rw same (exit, subst StaysLate e (orphan-Late p a 2 (gone s.parent) s.child2 s.out exit late))
Step-Late p which s t (reaps1 k success waits ended same) (exit, late) =
    absurd (cc (exit, ap gone waits))
Step-Late p which s t (reaps2 k success waits ended same) (exit, late) =
    absurd (cc (exit, ap gone waits))

Steps-Late :
    (p : Program) (which : Bool) (s : System) (n : ℕ) (t : System)
    → Steps p s n t
    → BothLate which s
    → BothLate which t
Steps-Late p which s n t none_yet late = late
Steps-Late p which s n t (one_more {n = k} {t = before} steps step) late =
    Step-Late p which before t step (Steps-Late p which s k before steps late)

-- In prog1.c, a child that has not yet stored PPID when its parent returns stores the id of its
-- adopter, and from then on is in its empty loop for ever, or on the line before it: in no later
-- state has it left the loop.
pub child_of-Late :
    (p : Program) (which : Bool) (n : ℕ) (s t : System)
    → gone s.parent ≡ true
    → child_of which s ≡ saving
    → Steps p s n t
    → Late (child_of which t)
child_of-Late p which n s t exit here steps =
    (Steps-Late p which s n t steps (exit, subst Late (sym here) tt)).1
