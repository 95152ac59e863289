-- ===== src/Forks/System.antt =====
-- The parent and its two children, interleaved in any order.
use os_bmstu.Common.{
  ℕ, suc, ◌≡◌, Bool, false, Option, none, some, List, [], ◌∷◌, ◌++◌, if◌then◌else◌,
}
use os_bmstu.Forks.{
  Program, Answers, Child, unborn, exited, reaped, Parent, forking1, forking2, printing, waiting,
  returned, Output, parent_info, fork_error, wait_error, child_exited, gone, first_line,
  after_printing, after_wait, child_step,
}

pub record System : Type 0 where
  pub parent : Parent
  pub child1 : Child
  pub child2 : Child
  pub out : List Output

-- One line of the parent, but for a wait that finds a child. It sleeps, `none`, in a wait that does
-- not fail.
unfoldable pub parent_step :
    Program → Answers → Parent → Child → Child → List Output → Option System
parent_step p a forking1 c1 c2 out = some (
    if a.fork
    then record { parent = forking2; child1 = first_line p; child2 = c2; out = out }
    else record { parent = returned false; child1 = c1; child2 = c2; out = out ++ fork_error ∷ [] })
parent_step p a forking2 c1 c2 out = some (
    if a.fork
    then record { parent = printing; child1 = c1; child2 = first_line p; out = out }
    else record { parent = returned false; child1 = c1; child2 = c2; out = out ++ fork_error ∷ [] })
parent_step p a printing c1 c2 out =
    some (record {
      parent = after_printing p;
      child1 = c1;
      child2 = c2;
      out = out ++ parent_info ∷ [];
    })
parent_step p a (waiting children) c1 c2 out =
    if a.wait
    then none
    else some
        (record { parent = returned false; child1 = c1; child2 = c2; out = out ++ wait_error ∷ [] })
parent_step p a (returned success) c1 c2 out = none

-- A process executes its next line. `wait` takes either child that has exited.
pub data Step (p : Program) (s t : System) : Type 0 where
  by_parent : (a : Answers) → parent_step p a s.parent s.child1 s.child2 s.out ≡ some t → Step p s t
  by_child1 :
      (a : Answers) (c : Child) (out : List Output)
      → child_step p a 1 (gone s.parent) s.child1 s.out ≡ some (c, out)
      → t ≡ record s { child1 = c; out = out }
      → Step p s t
  by_child2 :
      (a : Answers) (c : Child) (out : List Output)
      → child_step p a 2 (gone s.parent) s.child2 s.out ≡ some (c, out)
      → t ≡ record s { child2 = c; out = out }
      → Step p s t
  reaps1 :
      (children : ℕ) (success : Bool)
      → s.parent ≡ waiting (suc children)
      → s.child1 ≡ exited success
      → t ≡ record s {
        parent = after_wait children;
        child1 = reaped;
        out = s.out ++ child_exited success ∷ [];
      }
      → Step p s t
  reaps2 :
      (children : ℕ) (success : Bool)
      → s.parent ≡ waiting (suc children)
      → s.child2 ≡ exited success
      → t ≡ record s {
        parent = after_wait children;
        child2 = reaped;
        out = s.out ++ child_exited success ∷ [];
      }
      → Step p s t

abbrev pub fresh : System
fresh = record { parent = forking1; child1 = unborn; child2 = unborn; out = [] }

-- `n` steps from `s` on.
pub data Steps (p : Program) (s : System) : ℕ → System → Type 0 where
  none_yet : Steps p s 0 s
  one_more : {n : ℕ} {t u : System} → Steps p s n t → Step p t u → Steps p s (suc n) u

-- What `main` can reach.
abbrev pub Reach : Program → System → Type 0
Reach p s = (n : ℕ) × Steps p fresh n s
