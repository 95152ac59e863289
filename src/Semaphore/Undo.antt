-- ===== src/Semaphore/Undo.antt =====
-- SEM_UNDO: the semadj values of a process, the calls of semop that change them, and its exit. The
-- programs give no semaphore number twice in one array.
use os_bmstu.Common.{
  ℕ, suc, ◌+◌, ◌-◌, ◌≡◌, Bool, true, false, Option, none, some, List, [], ◌∷◌, leb, ltb,
  if◌then◌else◌, update, refl,
}
use os_bmstu.Semaphore.{
  Sems, ℤ, pos, negsuc, SemBuf, Outcome, done, again, asleep, failed, SemApi, semvmx, operate,
}

-- The semadj value of each semaphore for one process, a `short`, with 32768 added to it.
abbrev pub Adj : Type 0
Adj = ℕ → ℕ

-- semadj 0.
abbrev pub unadjusted : Adj
unadjusted k = 32768

-- semadj minus `sem_op`; `none` if that leaves the range from -32768 to SEMVMX.
abbrev pub adjust : ℤ → ℕ → Option ℕ
adjust (pos k) a = if leb k a then some (a - k) else none
adjust (negsuc k) a = if leb (a + suc k) 65535 then some (a + suc k) else none

abbrev pub adjust_if : Bool → ℤ → ℕ → Option ℕ
adjust_if true op a = adjust op a
adjust_if false op a = some a

abbrev pub unless_stuck : Option ℕ → Bool → Adj → (ℕ → Outcome × Adj) → Outcome × Adj
unless_stuck (some v) nowait a rest = if leb v semvmx then rest v else (failed, a)
unless_stuck none true a rest = (again, a)
unless_stuck none false a rest = (asleep, a)

abbrev pub unless_out : Option ℕ → Adj → (ℕ → Outcome × Adj) → Outcome × Adj
unless_out (some x) a rest = rest x
unless_out none a rest = (failed, a)

-- The operations in the order of the array. An operation waits, or fails with ERANGE because the
-- value or, with SEM_UNDO, the semadj value would leave its range.
abbrev pub perform_from : Sems → Adj → List SemBuf → Outcome × Adj
perform_from s a [] = (done s, a)
perform_from s a (b ∷ bs) = unless_stuck (operate b.sem_op (s b.sem_num)) b.nowait a λ v.
    unless_out (adjust_if b.undo b.sem_op (a b.sem_num)) a
      λ x. perform_from (update s b.sem_num v) (update a b.sem_num x) bs

-- All of them or none.
abbrev pub all_or_none : Adj → Outcome × Adj → Outcome × Adj
all_or_none a (done s, a') = (done s, a')
all_or_none a (again, a') = (again, a)
all_or_none a (asleep, a') = (asleep, a)
all_or_none a (failed, a') = (failed, a)

-- semop(2) for a process with these semadj values.
unfoldable pub perform_undo : Sems → Adj → List SemBuf → Outcome × Adj
perform_undo s a ops = all_or_none a (perform_from s a ops)

-- What the exit of a process adds to a semaphore: the result is kept between 0 and SEMVMX.
abbrev pub undone : ℕ → ℕ → ℕ
undone v a =
    if ltb (v + a) 32768
    then 0
    else (if leb (v + a) (32768 + semvmx) then v + a - 32768 else semvmx)

abbrev pub undo_all : Adj → Sems → Sems
undo_all a s = λ k. undone (s k) (a k)

-- The calls, where `semop` depends on the semadj values of the caller and changes them.
pub record UndoApi : Type 0 where
  pub semop : Sems → Adj → List SemBuf → Outcome × Adj
  pub setval : Sems → ℕ → ℕ → Option Sems
  pub getval : Sems → ℕ → Option ℕ

-- The documented behaviour of `semop` on a set that exists, with no signal in between.
pub record IsSystemVUndo (api : UndoApi) : Type 0 where
  pub semop_lem :
      (s : Sems) (a : Adj) (ops : List SemBuf) → api.semop s a ops ≡ perform_undo s a ops

-- The calls as a process with these semadj values meets them.
abbrev pub met_by : Adj → UndoApi → SemApi
met_by a api = record {
  semop = λ s ops. (api.semop s a ops).0;
  setval = api.setval;
  getval = api.getval;
}

-- Calls that behave so.
abbrev pub system_v_undo : UndoApi
system_v_undo = record {
  semop = perform_undo;
  setval = λ s k v. some (update s k v);
  getval = λ s k. some (s k);
}

pub system_v_undo-IsSystemVUndo : IsSystemVUndo system_v_undo
system_v_undo-IsSystemVUndo = record { semop_lem = λ s a ops. refl }
