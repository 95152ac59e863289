-- ===== src/Forks/Ending.antt =====
-- Every run of wait.c and of prog3.c comes to its end.
use os_bmstu.Common.{
  ℕ, zero, suc, ◌≤◌, ◌≡◌, ◌≢◌, ◌⊎◌, inl, inr, refl, ap, Bool, Bool-cases, true, false, some, List,
  [], ◌∷◌, ◌&&◌, arith,
}
use os_bmstu.Forks.{
  Program, prog1, Answers, Child, unborn, saving, greeting_saved, spinning, leaving, greeting,
  executing, showing, exited, reaped, Parent, forking1, forking2, printing, waiting, returned,
  Output, gone, child_step,
}
use os_bmstu.Forks.System.{
  System, parent_step, Step, by_parent, by_child1, by_child2, reaps1, reaps2, Steps, fresh,
}
use os_bmstu.Forks.Accounts.{unreaped, born, At}
use os_bmstu.Forks.Reaping.{Steps-Inv}
use os_bmstu.Forks.Bounded.{Steps-Nearer}

-- A child that executes no further line.
abbrev pub ended : Child → Bool
ended unborn = true
ended (exited success) = true
ended reaped = true
ended _ = false

-- The parent has returned, and so has every child that it has forked.
abbrev pub over : System → Bool
over s = gone s.parent && (ended s.child1 && ended s.child2)

abbrev any_answers : Answers
any_answers = record { fork = true; wait = true; exec = true }

abbrev ChildMoves : Program → ℕ → Bool → Child → List Output → Type 0
ChildMoves p n orphan c out =
    (c' : Child) × (out' : List Output) × (child_step p any_answers n orphan c out
      ≡ some (c', out'))

child-moves :
    (p : Program) (n : ℕ) (orphan : Bool) (c : Child) (out : List Output)
    → ended c ≡ false
    → ChildMoves p n orphan c out
unfolding child_step
child-moves p n orphan unborn out e = cc
child-moves p n orphan saving out e = (_, _, refl)
child-moves p n orphan (greeting_saved ppid) out e = (_, _, refl)
child-moves p n orphan (spinning ppid) out e = (_, _, refl)
child-moves p n orphan leaving out e = (_, _, refl)
child-moves p n orphan greeting out e = (_, _, refl)
child-moves p n orphan executing out e = (_, _, refl)
child-moves p n orphan (showing []) out e = (_, _, refl)
child-moves p n orphan (showing (l ∷ ls)) out e = (_, _, refl)
child-moves p n orphan (exited success) out e = cc
child-moves p n orphan reaped out e = cc

-- A child that has ended, but is neither unborn nor reaped.
exited_of :
    (c : Child)
    → born c ≡ true
    → ended c ≡ true
    → (c ≡ reaped) ⊎ ((success : Bool) × (c ≡ exited success))
exited_of unborn b e = cc
exited_of saving b e = cc
exited_of (greeting_saved ppid) b e = cc
exited_of (spinning ppid) b e = cc
exited_of leaving b e = cc
exited_of greeting b e = cc
exited_of executing b e = cc
exited_of (showing ls) b e = cc
exited_of (exited success) b e = inr (success, refl)
exited_of reaped b e = inl refl

-- Where both children have ended, the parent has returned or goes on.
parent-moves :
    (p : Program) (parent : Parent) (c1 c2 : Child) (out : List Output)
    → At p parent c1 c2
    → ended c1 ≡ true
    → ended c2 ≡ true
    → (gone parent ≡ true)
      ⊎ ((t : System) × Step p (record { parent = parent; child1 = c1; child2 = c2; out = out }) t)
unfolding parent_step
parent-moves p forking1 c1 c2 out at e1 e2 = inr (_, by_parent any_answers refl)
parent-moves p forking2 c1 c2 out at e1 e2 = inr (_, by_parent any_answers refl)
parent-moves p printing c1 c2 out at e1 e2 = inr (_, by_parent any_answers refl)
parent-moves p (waiting zero) c1 c2 out at e1 e2 = absurd (omega (arith, at.3))
parent-moves p (waiting (suc k)) c1 c2 out at e1 e2 = elim (exited_of c1 at.0 e1) [
  | inr (success, e) ↦ inr (_, reaps1 k success refl e refl)
  | inl gone1 ↦ elim (exited_of c2 at.1 e2) [
    | inr (success, e) ↦ inr (_, reaps2 k success refl e refl)
    | inl gone2 ↦ absurd (omega (arith, at.2, ap unreaped gone1, ap unreaped gone2))
  ]
]
parent-moves p (returned success) c1 c2 out at e1 e2 = inl refl

system-moves :
    (p : Program) (s : System)
    → At p s.parent s.child1 s.child2
    → (over s ≡ true) ⊎ ((t : System) × Step p s t)
system-moves p s at = elim (Bool-cases (ended s.child1)) [
  | inr lives ↦
      let (c, out, e) = child-moves p 1 (gone s.parent) s.child1 s.out lives in
      inr (_, by_child1 any_answers c out e refl)
  | inl e1 ↦ elim (Bool-cases (ended s.child2)) [
    | inr lives ↦
        let (c, out, e) = child-moves p 2 (gone s.parent) s.child2 s.out lives in
        inr (_, by_child2 any_answers c out e refl)
    | inl e2 ↦ elim (parent-moves p s.parent s.child1 s.child2 s.out at e1 e2) [
      | inl returns ↦ inl (rw (returns, e1, e2) refl)
      | inr goes_on ↦ inr goes_on
    ]
  ]
]

-- In wait.c and prog3.c, whichever calls fail and in whichever order the processes execute their
-- lines: a run has at most 17 steps, and it can go on until the parent and its children have
-- returned.
pub runs_end :
    (p : Program) (n : ℕ) (s : System)
    → p ≢ prog1
    → Steps p fresh n s
    → (n ≤ 17) × ((over s ≡ true) ⊎ ((t : System) × Step p s t))
runs_end p n s other steps =
    (omega (arith, (Steps-Nearer p n s other steps).1), system-moves p s (Steps-Inv p n s steps).at)
