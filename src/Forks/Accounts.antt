-- ===== src/Forks/Accounts.antt =====
-- How many children are left to wait for, line by line of the parent.
use os_bmstu.Common.{
  ℕ, ◌+◌, ◌<◌, ◌≡◌, ◌⊎◌, inl, inr, refl, Bool, true, false, Option, none, some, List, [], ◌∷◌, ◌++◌,
  if◌then◌else◌, arith,
}
use os_bmstu.Forks.{
  Program, prog1, prog3, wait_prog, Answers, Child, unborn, saving, greeting_saved, spinning,
  leaving, greeting, executing, showing, exited, reaped, Parent, forking1, forking2, printing,
  waiting, returned, Output, child_exited, same_id, getppid, after_greeting, after_execl,
  child_step,
}
use os_bmstu.Forks.System.{System}

abbrev pub is_exit : Output → ℕ
is_exit (child_exited success) = 1
is_exit _ = 0

-- How many exits of children the parent has reported.
abbrev pub exits : List Output → ℕ
exits [] = 0
exits (o ∷ out) = is_exit o + exits out

abbrev pub unreaped : Child → ℕ
unreaped reaped = 0
unreaped _ = 1

abbrev pub born : Child → Bool
born unborn = false
born _ = true

pub exits-snoc : (out : List Output) (o : Output) → exits (out ++ o ∷ []) ≡ exits out + is_exit o
exits-snoc [] o = omega arith
exits-snoc (x ∷ out) o = omega (arith, exits-snoc out o)

-- What holds of the children where the parent stands at a line.
abbrev pub At : Program → Parent → Child → Child → Type 0
At p forking1 c1 c2 = (c1 ≡ unborn) × (c2 ≡ unborn)
At p forking2 c1 c2 = (born c1 ≡ true) × (unreaped c1 ≡ 1) × (c2 ≡ unborn)
At p printing c1 c2 = (born c1 ≡ true) × (born c2 ≡ true) × (unreaped c1 + unreaped c2 ≡ 2)
At p (waiting k) c1 c2 =
    (born c1 ≡ true) × (born c2 ≡ true) × (unreaped c1 + unreaped c2 ≡ k) × (0 < k)
At p (returned true) c1 c2 = (p ≡ prog1) ⊎ (unreaped c1 + unreaped c2 ≡ 0)
At p (returned false) c1 c2 = Unit {0}

pub record Inv (p : Program) (s : System) : Type 0 where
  pub at : At p s.parent s.child1 s.child2
  pub sum : exits s.out + (unreaped s.child1 + unreaped s.child2) ≡ 2

-- A child that executes a line has been born, and is neither before nor after it reaped.
abbrev pub Runs : Child → List Output → Option (Child × List Output) → Type 0
Runs c out none = Unit {0}
Runs c out (some (c', out')) =
    (born c ≡ true)
    × (unreaped c ≡ 1)
    × (born c' ≡ true)
    × (unreaped c' ≡ 1)
    × (exits out' ≡ exits out)

pub child_step-Runs :
    (p : Program) (a : Answers) (n : ℕ) (orphan : Bool) (c : Child) (out : List Output)
    → Runs c out (child_step p a n orphan c out)
unfolding child_step
child_step-Runs p a n orphan unborn out = tt
child_step-Runs p a n orphan saving out = (refl, refl, refl, refl, refl)
child_step-Runs p a n orphan (greeting_saved ppid) out =
    (refl, refl, refl, refl, omega (arith, exits-snoc out (Output.child_info n (getppid orphan))))
child_step-Runs p a n orphan (spinning ppid) out = spins (same_id ppid (getppid orphan))
  where
    spins : (b : Bool) → Runs (spinning ppid) out (some (if b then spinning ppid else leaving, out))
    spins true = (refl, refl, refl, refl, refl)
    spins false = (refl, refl, refl, refl, refl)
child_step-Runs p a n orphan leaving out = (
  refl,
  refl,
  refl,
  refl,
  omega (arith, exits-snoc out (Output.after_parent_exit n (getppid orphan))),
)
child_step-Runs p a n orphan greeting out = greets p
  where
    greets :
        (q : Program)
        → Runs greeting out
            (some (after_greeting q, out ++ Output.child_info n (getppid orphan) ∷ []))
    greets prog1 = (
      refl,
      refl,
      refl,
      refl,
      omega (arith, exits-snoc out (Output.child_info n (getppid orphan))),
    )
    greets prog3 = (
      refl,
      refl,
      refl,
      refl,
      omega (arith, exits-snoc out (Output.child_info n (getppid orphan))),
    )
    greets wait_prog = (
      refl,
      refl,
      refl,
      refl,
      omega (arith, exits-snoc out (Output.child_info n (getppid orphan))),
    )
child_step-Runs p a n orphan executing out = execs a.exec
  where
    execs : (b : Bool) → Runs executing out (some (after_execl b out))
    execs true = (refl, refl, refl, refl, refl)
    execs false = (refl, refl, refl, refl, omega (arith, exits-snoc out Output.exec_error))
child_step-Runs p a n orphan (showing []) out = (refl, refl, refl, refl, refl)
child_step-Runs p a n orphan (showing (l ∷ ls)) out =
    (refl, refl, refl, refl, omega (arith, exits-snoc out (Output.demo_line n l)))
child_step-Runs p a n orphan (exited success) out = tt
child_step-Runs p a n orphan reaped out = tt

-- What a child's line leaves true.
pub At-child1 :
    (p : Program) (parent : Parent) (c c' c2 : Child)
    → born c ≡ true
    → unreaped c ≡ 1
    → born c' ≡ true
    → unreaped c' ≡ 1
    → At p parent c c2
    → At p parent c' c2
At-child1 p forking1 c c' c2 b u b' u' at = absurd (cc (at.0, b))
At-child1 p forking2 c c' c2 b u b' u' at = (b', u', at.2)
At-child1 p printing c c' c2 b u b' u' at = (b', at.1, omega arith)
At-child1 p (waiting k) c c' c2 b u b' u' at = (b', at.1, omega arith, at.3)
At-child1 p (returned true) c c' c2 b u b' u' (inl e) = inl e
At-child1 p (returned true) c c' c2 b u b' u' (inr none_left) = absurd (omega arith)
At-child1 p (returned false) c c' c2 b u b' u' at = tt

pub At-child2 :
    (p : Program) (parent : Parent) (c1 c c' : Child)
    → born c ≡ true
    → unreaped c ≡ 1
    → born c' ≡ true
    → unreaped c' ≡ 1
    → At p parent c1 c
    → At p parent c1 c'
At-child2 p forking1 c1 c c' b u b' u' at = absurd (cc (at.1, b))
At-child2 p forking2 c1 c c' b u b' u' at = absurd (cc (at.2, b))
At-child2 p printing c1 c c' b u b' u' at = (at.0, b', omega arith)
At-child2 p (waiting k) c1 c c' b u b' u' at = (at.0, b', omega arith, at.3)
At-child2 p (returned true) c1 c c' b u b' u' (inl e) = inl e
At-child2 p (returned true) c1 c c' b u b' u' (inr none_left) = absurd (omega arith)
At-child2 p (returned false) c1 c c' b u b' u' at = tt
