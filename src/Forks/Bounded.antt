-- ===== src/Forks/Bounded.antt =====
-- Each step of wait.c and of prog3.c brings it nearer to its end.
use os_bmstu.Common.{
  ℕ, zero, suc, ◌+◌, ◌≤◌, ◌<◌, ◌≡◌, ◌≢◌, inl, inr, refl, ap, Bool, Bool-cases, true, false, Option,
  none, some, List, [], ◌∷◌, length, arith,
}
use mathlib.Core.Path.{subst}
use os_bmstu.Forks.{
  Program, prog1, prog3, wait_prog, Answers, Child, unborn, saving, greeting_saved, spinning,
  leaving, greeting, executing, showing, exited, reaped, Parent, forking1, forking2, printing,
  waiting, returned, Output, gone, first_line, after_execl, after_printing, after_wait, child_step,
}
use os_bmstu.Forks.System.{
  System, parent_step, Step, by_parent, by_child1, by_child2, reaps1, reaps2, Steps, none_yet,
  one_more, fresh,
}
use os_bmstu.Forks.Accounts.{At}
use os_bmstu.Forks.Reaping.{Steps-Inv}

-- The lines of a child that does not wait for its parent.
abbrev pub straight : Child → Bool
straight saving = false
straight (greeting_saved ppid) = false
straight (spinning ppid) = false
straight leaving = false
straight _ = true

-- How many steps a child has left at most, its birth not counted.
abbrev pub child_left : Child → ℕ
child_left unborn = 6
child_left greeting = 6
child_left executing = 5
child_left (showing ls) = suc (length ls)
child_left _ = 0

abbrev pub parent_left : Parent → ℕ
parent_left forking1 = 5
parent_left forking2 = 4
parent_left printing = 3
parent_left (waiting k) = k
parent_left (returned success) = 0

abbrev pub steps_left : System → ℕ
steps_left s = parent_left s.parent + (child_left s.child1 + child_left s.child2)

-- A child's line brings it nearer to its end.
abbrev Nearer : ℕ → Option (Child × List Output) → Type 0
Nearer n none = Unit {0}
Nearer n (some (c, out)) = (straight c ≡ true) × (child_left c < n)

child_step-Nearer :
    (p : Program) (a : Answers) (n : ℕ) (orphan : Bool) (c : Child) (out : List Output)
    → p ≢ prog1
    → straight c ≡ true
    → Nearer (child_left c) (child_step p a n orphan c out)
unfolding child_step
child_step-Nearer p a n orphan unborn out other s = tt
child_step-Nearer p a n orphan saving out other s = cc
child_step-Nearer p a n orphan (greeting_saved ppid) out other s = cc
child_step-Nearer p a n orphan (spinning ppid) out other s = cc
child_step-Nearer p a n orphan leaving out other s = cc
child_step-Nearer prog1 a n orphan greeting out other s = absurd (other refl)
child_step-Nearer prog3 a n orphan greeting out other s = (refl, omega arith)
child_step-Nearer wait_prog a n orphan greeting out other s = (refl, omega arith)
child_step-Nearer p a n orphan executing out other s = execs a.exec
  where
    execs : (b : Bool) → Nearer 5 (some (after_execl b out))
    execs true = (refl, omega arith)
    execs false = (refl, omega arith)
child_step-Nearer p a n orphan (showing []) out other s = (refl, omega arith)
child_step-Nearer p a n orphan (showing (l ∷ ls)) out other s = (refl, omega arith)
child_step-Nearer p a n orphan (exited success) out other s = tt
child_step-Nearer p a n orphan reaped out other s = tt

abbrev pub Straight : System → Type 0
Straight s = (straight s.child1 ≡ true) × (straight s.child2 ≡ true)

abbrev NearerAll : ℕ → Option System → Type 0
NearerAll n none = Unit {0}
NearerAll n (some s) = Straight s × (steps_left s < n)

first_line-straight :
    (p : Program) → p ≢ prog1 → (straight (first_line p) ≡ true) × (child_left (first_line p) ≡ 6)
first_line-straight prog1 other = absurd (other refl)
first_line-straight prog3 other = (refl, refl)
first_line-straight wait_prog other = (refl, refl)

after_printing-left : (p : Program) → parent_left (after_printing p) < 3
after_printing-left prog1 = omega arith
after_printing-left prog3 = omega arith
after_printing-left wait_prog = omega arith

after_wait-left : (k : ℕ) → parent_left (after_wait k) ≡ k
after_wait-left zero = refl
after_wait-left (suc k) = refl

parent_step-Nearer :
    (p : Program) (a : Answers) (parent : Parent) (c1 c2 : Child) (out : List Output)
    → p ≢ prog1
    → At p parent c1 c2
    → straight c1 ≡ true
    → straight c2 ≡ true
    → NearerAll
        (parent_left parent + (child_left c1 + child_left c2))
        (parent_step p a parent c1 c2 out)
unfolding parent_step
parent_step-Nearer p a forking1 c1 c2 out other at s1 s2 = elim (Bool-cases a.fork) [
  | inr fails ↦ rw fails ((s1, s2), omega arith)
  | inl forks ↦
      let (s, left) = first_line-straight p other in
      rw forks ((s, s2), omega (arith, left, ap child_left at.0))
]
parent_step-Nearer p a forking2 c1 c2 out other at s1 s2 = elim (Bool-cases a.fork) [
  | inr fails ↦ rw fails ((s1, s2), omega arith)
  | inl forks ↦
      let (s, left) = first_line-straight p other in
      rw forks ((s1, s), omega (arith, left, ap child_left at.2))
]
parent_step-Nearer p a printing c1 c2 out other at s1 s2 =
    ((s1, s2), omega (arith, after_printing-left p))
parent_step-Nearer p a (waiting k) c1 c2 out other at s1 s2 = elim (Bool-cases a.wait) [
  | inl waits ↦ rw waits tt
  | inr fails ↦ rw fails ((s1, s2), omega (arith, at.3))
]
parent_step-Nearer p a (returned success) c1 c2 out other at s1 s2 = tt

Step-Nearer :
    (p : Program) (s t : System)
    → p ≢ prog1
    → At p s.parent s.child1 s.child2
    → Straight s
    → Step p s t
    → Straight t × (steps_left t < steps_left s)
Step-Nearer p s t other at (s1, s2) (by_parent a e) =
    subst (NearerAll (steps_left s)) e
      (parent_step-Nearer p a s.parent s.child1 s.child2 s.out other at s1 s2)
Step-Nearer p s t other at (s1, s2) (by_child1 a c out e same) =
    let (s', less) =
      subst (Nearer (child_left s.child1)) e
        (child_step-Nearer p a 1 (gone s.parent) s.child1 s.out other s1) in
    rw same ((s', s2), omega (arith, less))
Step-Nearer p s t other at (s1, s2) (by_child2 a c out e same) =
    let (s', less) =
      subst (Nearer (child_left s.child2)) e
        (child_step-Nearer p a 2 (gone s.parent) s.child2 s.out other s2) in
    rw same ((s1, s'), omega (arith, less))
Step-Nearer p s t other at (s1, s2) (reaps1 k success waits ended same) =
    rw same ((refl, s2), omega (arith, ap parent_left waits, after_wait-left k))
Step-Nearer p s t other at (s1, s2) (reaps2 k success waits ended same) =
    rw same ((s1, refl), omega (arith, ap parent_left waits, after_wait-left k))

pub Steps-Nearer :
    (p : Program) (n : ℕ) (s : System)
    → p ≢ prog1
    → Steps p fresh n s
    → Straight s × (n + steps_left s ≤ 17)
Steps-Nearer p n s other none_yet = ((refl, refl), omega arith)
Steps-Nearer p n s other (one_more {n = k} {t = before} steps step) =
    let (straight_on, bound) = Steps-Nearer p k before other steps in
    let (s', less) =
      Step-Nearer p before s other (Steps-Inv p k before steps).at straight_on step in
    (s', omega (arith, bound, less))
