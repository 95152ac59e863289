-- ===== src/Forks.antt =====
-- sem_5/lab2/prog1.c, wait.c and prog3.c, with demo1.c and demo2.c: a parent forks two children. In
-- prog1.c each child waits for its parent to exit, in wait.c and prog3.c the parent waits for its
-- children, and in prog3.c the children become demo1 and demo2. Every line is taken to be out at
-- once, as on a terminal.
pub mod System
pub mod Accounts
pub mod Reaping
pub mod Knowing
pub mod Orphans
pub mod Bounded
pub mod Ending
mod Examples
use os_bmstu.Common.{
  ℕ, zero, suc, Bool, true, false, Option, none, some, List, [], ◌∷◌, ◌++◌, ◌==◌, if◌then◌else◌,
}

pub data Program : Type 0 where
  prog1 : Program
  prog3 : Program
  wait_prog : Program

-- What `getppid` tells a child: its parent, or the process that adopts it when that has exited.
pub data ParentId : Type 0 where
  parent_id : ParentId
  adopter_id : ParentId

-- The lines of demo1.c and demo2.c.
pub data DemoLine : Type 0 where
  rule_line : DemoLine
  message_line : DemoLine

pub data Output : Type 0 where
  parent_info : Output
  child_info : (n : ℕ) → ParentId → Output
  after_parent_exit : (n : ℕ) → ParentId → Output
  child_exited : (success : Bool) → Output
  demo_line : (n : ℕ) → DemoLine → Output
  exec_error : Output
  fork_error : Output
  wait_error : Output

-- The line that a child executes next. It is unborn before its fork, and reaped after its wait.
-- `saving` to `leaving` are those of prog1.c, with the value of PPID; `showing` has the lines that
-- its new program will still print; the code of `exited` says whether it returned 0.
pub data Child : Type 0 where
  unborn : Child
  saving : Child
  greeting_saved : (ppid : ParentId) → Child
  spinning : (ppid : ParentId) → Child
  leaving : Child
  greeting : Child
  executing : Child
  showing : List DemoLine → Child
  exited : (success : Bool) → Child
  reaped : Child

-- The line that the parent executes next.
pub data Parent : Type 0 where
  forking1 : Parent
  forking2 : Parent
  printing : Parent
  waiting : (children : ℕ) → Parent
  returned : (success : Bool) → Parent

pub record Answers : Type 0 where
  pub fork : Bool
  pub wait : Bool
  pub exec : Bool

abbrev pub gone : Parent → Bool
gone (returned success) = true
gone _ = false

abbrev pub getppid : Bool → ParentId
getppid true = adopter_id
getppid false = parent_id

-- `PPID == getppid()`.
abbrev pub same_id : ParentId → ParentId → Bool
same_id parent_id parent_id = true
same_id adopter_id adopter_id = true
same_id _ _ = false

-- `main` of demo1.c and of demo2.c.
abbrev pub demo : List DemoLine
demo = rule_line ∷ message_line ∷ rule_line ∷ []

-- The first line of a child.
abbrev pub first_line : Program → Child
first_line prog1 = saving
first_line prog3 = greeting
first_line wait_prog = greeting

abbrev pub after_greeting : Program → Child
after_greeting prog1 = exited true
after_greeting prog3 = executing
after_greeting wait_prog = exited true

abbrev pub after_execl : Bool → List Output → Child × List Output
after_execl true out = (showing demo, out)
after_execl false out = (exited false, out ++ exec_error ∷ [])

-- One line of child `n`, where `orphan` says whether its parent has exited.
unfoldable pub child_step :
    Program → Answers → ℕ → Bool → Child → List Output → Option (Child × List Output)
child_step p a n orphan unborn out = none
child_step p a n orphan saving out = some (greeting_saved (getppid orphan), out)
child_step p a n orphan (greeting_saved ppid) out =
    some (spinning ppid, out ++ child_info n (getppid orphan) ∷ [])
child_step p a n orphan (spinning ppid) out =
    some (if same_id ppid (getppid orphan) then spinning ppid else leaving, out)
child_step p a n orphan leaving out =
    some (exited true, out ++ after_parent_exit n (getppid orphan) ∷ [])
child_step p a n orphan greeting out =
    some (after_greeting p, out ++ child_info n (getppid orphan) ∷ [])
child_step p a n orphan executing out = some (after_execl a.exec out)
child_step p a n orphan (showing []) out = some (exited true, out)
child_step p a n orphan (showing (l ∷ ls)) out = some (showing ls, out ++ demo_line n l ∷ [])
child_step p a n orphan (exited success) out = none
child_step p a n orphan reaped out = none

-- Behind the line that the parent prints.
abbrev pub after_printing : Program → Parent
after_printing prog1 = returned true
after_printing prog3 = waiting 2
after_printing wait_prog = waiting 2

-- After a wait, with so many children left to wait for.
abbrev pub after_wait : ℕ → Parent
after_wait zero = returned true
after_wait (suc children) = waiting (suc children)
