-- ===== src/Pipe.antt =====
-- sem_5/lab2/prog4.c and prog5.c: two children send their parent a message through a pipe. In prog5.c
-- the first child also tells whether SIGINT has arrived.
pub mod System
pub mod Content
pub mod ParentSteps
pub mod ChildSteps
pub mod Delivery
mod Examples
use os_bmstu.Common.{
  ℕ, zero, suc, ◌+◌, Bool, true, false, Option, none, some, List, [], ◌∷◌, ◌++◌, take, drop,
  if◌then◌else◌, ◌||◌, not, ◌&&◌,
}

-- The bytes of "Data from child №n" in UTF-8 and the 0 behind them.
abbrev pub message : ℕ → List ℕ
message n =
    b'D'
    ∷ b'a'
    ∷ b't'
    ∷ b'a'
    ∷ 32
    ∷ b'f'
    ∷ b'r'
    ∷ b'o'
    ∷ b'm'
    ∷ 32
    ∷ b'c'
    ∷ b'h'
    ∷ b'i'
    ∷ b'l'
    ∷ b'd'
    ∷ 32
    ∷ 226
    ∷ 132
    ∷ 150
    ∷ (b'0' + n)
    ∷ 0
    ∷ []

abbrev pub msg_size : ℕ
msg_size = 21

pub data Program : Type 0 where
  prog4 : Program
  prog5 : Program

-- The line that a child executes next. It is unborn before its fork and reaped after its wait; the
-- code of `exited` says whether it returned 0.
pub data Child : Type 0 where
  unborn : Child
  writing : Child
  telling : Child
  closing : Child
  exited : (success : Bool) → Child
  reaped : Child

-- The line that the parent executes next; `printing` has what the two calls of read gave.
pub data Parent : Type 0 where
  forking1 : Parent
  forking2 : Parent
  waiting : (children : ℕ) → Parent
  reading1 : Parent
  reading2 : (res1 : Option (List ℕ)) → Parent
  testing : (res1 res2 : Option (List ℕ)) → Parent
  finishing : Parent
  returned : (success : Bool) → Parent

-- What the processes print. A result of read that failed is `none`: its buffer was never written.
pub data Output : Type 0 where
  sent_message : (n : ℕ) → Output
  write_error : Output
  flag_was : Bool → Output
  close_error : Output
  fork_error : Output
  wait_error : Output
  child_exited : (success : Bool) → Output
  read_error : Output
  messages : (res1 res2 : Option (List ℕ)) → Output

-- Two calls of close, `||` between them.
pub record Answers : Type 0 where
  pub write : Bool
  pub close_in : Bool
  pub close_out : Bool
  pub fork : Bool
  pub wait : Bool
  pub read : Bool

-- `if (close(fd[1]) || close(fd[0]))`, the test of an error.
abbrev pub close_fails : Answers → Bool
close_fails a = not a.close_in || not a.close_out

-- What the processes share: the bytes in the pipe, whether SIGINT set send_flag, the output, and for
-- each child whether its message went into the pipe.
pub record Shared : Type 0 where
  pub pipe : List ℕ
  pub send_flag : Bool
  pub out : List Output
  pub sent1 : Bool
  pub sent2 : Bool

abbrev pub say : Output → Shared → Shared
say line m = record m { out = m.out ++ line ∷ [] }

-- Child `n` has written its message.
abbrev pub send : ℕ → Shared → Shared
send n m = record m { pipe = m.pipe ++ message n; out = m.out ++ sent_message n ∷ [] }

abbrev pub after_write : Program → Child
after_write prog4 = closing
after_write prog5 = telling

abbrev pub exit_close : Answers → Shared → Child × Shared
exit_close a m = if close_fails a then (exited false, say close_error m) else (exited true, m)

-- One line of the first child.
unfoldable pub child1_step : Program → Answers → Child → Shared → Option (Child × Shared)
child1_step p a unborn m = none
child1_step p a writing m = some (
    if a.write
    then (after_write p, record (send 1 m) { sent1 = true })
    else (exited false, say write_error m))
child1_step p a telling m = some (closing, say (flag_was m.send_flag) m)
child1_step p a closing m = some (exit_close a m)
child1_step p a (exited success) m = none
child1_step p a reaped m = none

-- One line of the second child.
unfoldable pub child2_step : Answers → Child → Shared → Option (Child × Shared)
child2_step a unborn m = none
child2_step a writing m = some (
    if a.write
    then (closing, record (send 2 m) { sent2 = true })
    else (exited false, say write_error m))
child2_step a telling m = none
child2_step a closing m = some (exit_close a m)
child2_step a (exited success) m = none
child2_step a reaped m = none

-- `read(fd[0], res, MSG_SIZE)`: it sleeps, `none`, while the pipe is empty, since the parent itself
-- keeps the end open that is for writing; else it takes what is there, at most MSG_SIZE bytes.
unfoldable pub read_pipe : List ℕ → Shared → Option (Option (List ℕ) × Shared)
read_pipe [] m = none
read_pipe (b ∷ bs) m =
    some (some (take msg_size (b ∷ bs)), record m { pipe = drop msg_size (b ∷ bs) })

unfoldable pub read : Answers → Shared → Option (Option (List ℕ) × Shared)
unfolding read_pipe
read a m = elim a.read [ false ↦ some (none, m) | true ↦ read_pipe m.pipe m ]
