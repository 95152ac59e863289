-- ===== src/Semaphore.antt =====
-- System V semaphore sets, as sem_5/lab3_1/main.c and sem_5/lab3_2/main.c call them. The calls are
-- those of the operating system, so they are parameters (`SemApi`); `IsSystemV` is what their manual
-- pages promise and the programs rely on, for a process none of whose semadj values would leave its
-- range: Semaphore/Undo.antt has what SEM_UNDO does.
pub mod Undo
use os_bmstu.Common.{
  ℕ, zero, suc, ◌+◌, ◌-◌, ◌≤◌, ◌<◌, ◌≡◌, ◌⊎◌, inl, Bool, true, false, Option, none, some, List, [],
  ◌∷◌, leb, ◌==◌, if◌then◌else◌, update, refl,
}

-- The value of each semaphore of the set, by its number.
abbrev pub Sems : Type 0
Sems = ℕ → ℕ

-- `short`: `negsuc n` is -(n + 1).
pub data ℤ : Type 0 where
  pos : ℕ → ℤ
  negsuc : ℕ → ℤ

-- `struct sembuf`, its flags as Booleans.
pub record SemBuf : Type 0 where
  pub sem_num : ℕ
  pub sem_op : ℤ
  pub nowait : Bool
  pub undo : Bool

-- What a call of `semop` does: it returns 0 with new values; it returns -1 with EAGAIN; the caller
-- sleeps; it returns -1 for another reason.
pub data Outcome : Type 0 where
  done : Sems → Outcome
  again : Outcome
  asleep : Outcome
  failed : Outcome

-- The calls: `semop`, and `semctl` with SETVAL and GETVAL, where `none` is the result -1.
pub record SemApi : Type 0 where
  pub semop : Sems → List SemBuf → Outcome
  pub setval : Sems → ℕ → ℕ → Option Sems
  pub getval : Sems → ℕ → Option ℕ

-- SEMVMX, the largest value of a semaphore.
abbrev pub semvmx : ℕ
semvmx = 32767

-- One operation at a semaphore of value `v`; `none` says that it has to wait.
abbrev pub operate : ℤ → ℕ → Option ℕ
operate (pos zero) v = if v == 0 then some v else none
operate (pos (suc k)) v = some (v + suc k)
operate (negsuc k) v = if leb (suc k) v then some (v - suc k) else none

abbrev pub unless_waiting : Option ℕ → Bool → (ℕ → Outcome) → Outcome
unless_waiting (some v) nowait rest = rest v
unless_waiting none true rest = again
unless_waiting none false rest = asleep

-- semop(2): the operations take place in the order of the array, all of them or none.
abbrev pub perform : Sems → List SemBuf → Outcome
perform s [] = done s
perform s (b ∷ bs) =
    unless_waiting (operate b.sem_op (s b.sem_num)) b.nowait
      (λ v. perform (update s b.sem_num v) bs)

-- Each semaphore that the array names is below its limit, so that adding 1 to it cannot fail.
abbrev pub InRange : Sems → List SemBuf → Type 0
InRange s [] = Unit {0}
InRange s (b ∷ bs) = (s b.sem_num < semvmx) × InRange s bs

-- The documented behaviour of the calls on a set that exists, with no signal in between.
pub record IsSystemV (api : SemApi) : Type 0 where
  pub semop_lem : (s : Sems) (ops : List SemBuf) → InRange s ops → api.semop s ops ≡ perform s ops
  pub setval_lem : (s : Sems) (k v : ℕ) → v ≤ semvmx → api.setval s k v ≡ some (update s k v)
  pub getval_lem : (s : Sems) (k : ℕ) → api.getval s k ≡ some (s k)

-- SETVAL within the limit: it sets the value, or fails and changes nothing.
pub record MaySet (api : SemApi) : Type 0 where
  pub setval_or_fail :
      (s : Sems) (k v : ℕ)
      → v ≤ semvmx
      → (api.setval s k v ≡ some (update s k v)) ⊎ (api.setval s k v ≡ none)

-- Calls that behave so.
abbrev pub system_v : SemApi
system_v = record {
  semop = perform;
  setval = λ s k v. some (update s k v);
  getval = λ s k. some (s k);
}

pub system_v-IsSystemV : IsSystemV system_v
system_v-IsSystemV = record {
  semop_lem = λ s ops h. refl;
  setval_lem = λ s k v h. refl;
  getval_lem = λ s k. refl;
}

pub system_v-MaySet : MaySet system_v
system_v-MaySet = record { setval_or_fail = λ s k v h. inl refl }
