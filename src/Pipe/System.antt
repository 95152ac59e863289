-- ===== src/Pipe/System.antt =====
-- The parent and its two children, interleaved in any order.
use mathlib.Core.Option
use os_bmstu.Common.{ℕ, zero, suc, ◌≡◌, Bool, true, false, Option, none, some, [], if◌then◌else◌}
use os_bmstu.Pipe.{
  Program, Answers, Child, unborn, writing, exited, reaped, Parent, forking1, forking2, waiting,
  reading1, reading2, testing, finishing, returned, fork_error, wait_error, child_exited,
  read_error, messages, Shared, say, child1_step, child2_step, read, close_fails, close_error,
}

pub record System : Type 0 where
  pub parent : Parent
  pub child1 : Child
  pub child2 : Child
  pub shared : Shared

-- After a wait, with so many children left to wait for.
abbrev pub after_wait : ℕ → Parent
after_wait zero = reading1
after_wait (suc children) = waiting (suc children)

-- One line of the parent, but for a wait that finds a child. It sleeps, `none`, in read, and in wait
-- unless that fails. The test behind the two reads names code1 twice, and code2 not at all.
unfoldable pub parent_step : Answers → Parent → Child → Child → Shared → Option System
unfolding read
parent_step a forking1 c1 c2 m = some (
    if a.fork
    then record { parent = forking2; child1 = writing; child2 = c2; shared = m }
    else record { parent = returned false; child1 = c1; child2 = c2; shared = say fork_error m })
parent_step a forking2 c1 c2 m = some (
    if a.fork
    then record { parent = waiting 2; child1 = c1; child2 = writing; shared = m }
    else record { parent = returned false; child1 = c1; child2 = c2; shared = say fork_error m })
parent_step a (waiting children) c1 c2 m =
    if a.wait
    then none
    else some
        (record { parent = returned false; child1 = c1; child2 = c2; shared = say wait_error m })
parent_step a reading1 c1 c2 m =
    Option.map
      (λ (res, m'). record { parent = reading2 res; child1 = c1; child2 = c2; shared = m' })
      (read a m)
parent_step a (reading2 res1) c1 c2 m =
    Option.map
      (λ (res, m'). record { parent = testing res1 res; child1 = c1; child2 = c2; shared = m' })
      (read a m)
parent_step a (testing none res2) c1 c2 m =
    some (record { parent = returned false; child1 = c1; child2 = c2; shared = say read_error m })
parent_step a (testing (some res1) res2) c1 c2 m = some (record {
  parent = finishing;
  child1 = c1;
  child2 = c2;
  shared = say (messages (some res1) res2) m;
})
parent_step a finishing c1 c2 m = some (
    if close_fails a
    then record { parent = returned false; child1 = c1; child2 = c2; shared = say close_error m }
    else record { parent = returned true; child1 = c1; child2 = c2; shared = m })
parent_step a (returned success) c1 c2 m = none

-- A process executes its next line, or SIGINT arrives. `wait` takes either child that has exited.
pub data Step (p : Program) (s t : System) : Type 0 where
  by_parent :
      (a : Answers) → parent_step a s.parent s.child1 s.child2 s.shared ≡ some t → Step p s t
  by_child1 :
      (a : Answers) (c : Child) (m : Shared)
      → child1_step p a s.child1 s.shared ≡ some (c, m)
      → t ≡ record s { child1 = c; shared = m }
      → Step p s t
  by_child2 :
      (a : Answers) (c : Child) (m : Shared)
      → child2_step a s.child2 s.shared ≡ some (c, m)
      → t ≡ record s { child2 = c; shared = m }
      → Step p s t
  reaps1 :
      (children : ℕ) (success : Bool)
      → s.parent ≡ waiting (suc children)
      → s.child1 ≡ exited success
      → t ≡ record s {
        parent = after_wait children;
        child1 = reaped;
        shared = say (child_exited success) s.shared;
      }
      → Step p s t
  reaps2 :
      (children : ℕ) (success : Bool)
      → s.parent ≡ waiting (suc children)
      → s.child2 ≡ exited success
      → t ≡ record s {
        parent = after_wait children;
        child2 = reaped;
        shared = say (child_exited success) s.shared;
      }
      → Step p s t
  signalled : t ≡ record s { shared = record s.shared { send_flag = true } } → Step p s t

abbrev pub empty_pipe : Shared
empty_pipe = record { pipe = []; send_flag = false; out = []; sent1 = false; sent2 = false }

-- The states after `pipe`.
pub data Reach (p : Program) : System → Type 0 where
  start :
      Reach p (record { parent = forking1; child1 = unborn; child2 = unborn; shared = empty_pipe })
  later : {s t : System} → Reach p s → Step p s t → Reach p t
