-- ===== src/Ipc.antt =====
-- What `main` of sem_5/lab3_1/main.c and of sem_5/lab3_2/main.c holds of the kernel, and the loops and
-- the clean-up that both have.
use os_bmstu.Common.{
  ℕ, zero, suc, ◌+◌, ◌≡◌, ◌≤◌, update, refl, sym, ◌⊎◌, inl, inr, Bool-cases, Bool, true, false,
  none, some, List, [], ◌∷◌, ◌++◌, if◌then◌else◌, length,
}
use mathlib.Core.Path.{subst}
use mathlib.Core.List.{append-nil, append_assoc}
use os_bmstu.Semaphore.{Sems, SemApi, IsSystemV, MaySet, semvmx}

-- Whether the semaphore set, the shared segment and its attachment are there, what they hold, and
-- the processes forked, by the line that each begins with.
pub record Kernel (P : Type 0) : Type 0 where
  pub sem_set : Bool
  pub segment : Bool
  pub attached : Bool
  pub sems : Sems
  pub bytes : ℕ → ℕ
  pub children : List P

-- Which calls of `main` succeed, the calls of fork and wait by their number.
pub record Calls : Type 0 where
  pub semget : Bool
  pub shmget : Bool
  pub shmat : Bool
  pub fork : ℕ → Bool
  pub wait : ℕ → Bool
  pub remove_set : Bool
  pub remove_segment : Bool
  pub shmdt : Bool

-- Before `main` has made a call. A new set and a new segment are filled with 0.
abbrev pub nothing : {P : Type 0} → Kernel P
nothing = record {
  sem_set = false;
  segment = false;
  attached = false;
  sems = λ _. 0;
  bytes = λ _. 0;
  children = [];
}

-- `semctl(isem_descry, k, SETVAL, v)`: whether it succeeds, and the values after it.
abbrev pub set_value : SemApi → ℕ → ℕ → Sems → Bool × Sems
set_value api k v s = elim (api.setval s k v) [ none ↦ (false, s) | some s' ↦ (true, s') ]

pub set_value_lem :
    {api : SemApi}
    → IsSystemV api
    → (k v : ℕ) (s : Sems) → v ≤ semvmx
    → set_value api k v s ≡ (true, update s k v)
set_value_lem {api} h k v s bound = rw (h.setval_lem s k v bound, set_value) refl

pub set_value-MaySet :
    {api : SemApi}
    → MaySet api
    → (k v : ℕ) (s : Sems) → v ≤ semvmx
    → (set_value api k v s ≡ (true, update s k v)) ⊎ (set_value api k v s ≡ (false, s))
set_value-MaySet {api} h k v s bound = elim (h.setval_or_fail s k v bound) [
  | inl set ↦ inl (rw (set, set_value) refl)
  | inr fails ↦ inr (rw (fails, set_value) refl)
]

-- How `main` ends: with 0 or 1, and with this left in the kernel.
pub data Ended (P : Type 0) : Type 0 where
  returned : (code : ℕ) → Kernel P → Ended P

-- The return of `main`: the exit of the process detaches the segment.
abbrev pub return_with : {P : Type 0} → ℕ → Kernel P → Ended P
return_with code k = returned code (record k { attached = false })

-- The loop over wait.
unfoldable pub wait_all : (ℕ → Bool) → ℕ → ℕ → Bool
wait_all wait i zero = true
wait_all wait i (suc n) = let rest = wait_all wait (i + 1) n in if wait i then rest else false

-- The first `n` processes of a table, from number `i` on.
abbrev pub processes : {P : Type 0} → (ℕ → P) → ℕ → ℕ → List P
processes pc i zero = []
processes pc i (suc n) = pc i ∷ processes pc (i + 1) n

module _ {P : Type 0} where
  -- The loop over fork, from call `i` on: it stops at the first that fails.
  unfoldable pub fork_all : (ℕ → Bool) → ℕ → List P → List P → Bool × List P
  fork_all fork i [] started = (true, started)
  fork_all fork i (role ∷ roles) started =
      let rest = fork_all fork (i + 1) roles (started ++ role ∷ []) in
      if fork i then rest else (false, started)

  -- The removal of the set and of the segment, and shmdt.
  unfoldable pub clean_up : Calls → Kernel P → Ended P
  clean_up calls k =
      if calls.remove_set
      then (let k1 = record k { sem_set = false } in
          if calls.remove_segment
          then (let k2 = record k1 { segment = false } in
              if calls.shmdt
              then return_with 0 (record k2 { attached = false })
              else return_with 1 k2)
          else return_with 1 k1)
      else return_with 1 k

  -- From the loop over fork on.
  unfoldable pub run : Calls → List P → Kernel P → Ended P
  unfolding fork_all wait_all clean_up
  run calls roles k =
      let (all, started) = fork_all calls.fork 0 roles [] in
      let k' = record k { children = started } in
      if all
      then (if wait_all calls.wait 0 (length roles) then clean_up calls k' else return_with 1 k')
      else return_with 1 k'

  -- The end, for a `main` that had got the set. With 0, all is given back, and the processes were
  -- forked by these roles, with this in the semaphores and the segment. With 1, the set or the segment
  -- is left, or both are removed and shmdt has failed. In no case is the segment still attached.
  abbrev pub Settled : List P → Sems → (ℕ → ℕ) → Bool → Ended P → Type 0
  Settled roles sems bytes shmdt (returned code k) =
      (k.attached ≡ false)
      × (((code ≡ 0)
            × (k.sem_set ≡ false)
            × (k.segment ≡ false)
            × (k.children ≡ roles)
            × (k.sems ≡ sems)
            × (k.bytes ≡ bytes))
          ⊎ ((code ≡ 1)
              × ((k.sem_set ≡ true)
                  ⊎ (k.segment ≡ true)
                  ⊎ ((shmdt ≡ false) × (k.sem_set ≡ false) × (k.segment ≡ false)))))

  clean_up-Settled :
      (calls : Calls) (k : Kernel P)
      → k.sem_set ≡ true
      → k.segment ≡ true
      → Settled k.children k.sems k.bytes calls.shmdt (clean_up calls k)
  unfolding clean_up
  clean_up-Settled calls k set segment = elim (Bool-cases calls.remove_set) [
    | inr fails ↦ rw fails (refl, inr (refl, inl set))
    | inl removed ↦ elim (Bool-cases calls.remove_segment) [
      | inr fails ↦ rw (removed, fails) (refl, inr (refl, inr (inl segment)))
      | inl removed' ↦ elim (Bool-cases calls.shmdt) [
        | inr fails ↦ rw (removed, removed', fails) (refl, inr (refl, inr (inr (refl, refl, refl))))
        | inl detached ↦
            rw (removed, removed', detached) (refl, inl (refl, refl, refl, refl, refl, refl))
      ]
    ]
  ]

  -- A loop over fork that does not stop has forked a process for each role.
  abbrev Forked : List P → Bool × List P → Type 0
  Forked roles (true, started) = started ≡ roles
  Forked roles (false, started) = Unit {0}

  fork_all-Forked :
      (fork : ℕ → Bool) (i : ℕ) (roles started : List P)
      → Forked (started ++ roles) (fork_all fork i roles started)
  unfolding fork_all
  fork_all-Forked fork i [] started = sym (append-nil started)
  fork_all-Forked fork i (role ∷ roles) started = elim (Bool-cases (fork i)) [
    | inr fails ↦ rw fails tt
    | inl forks ↦
        rw (forks, ← append_assoc started (role ∷ []) roles)
          (fork_all-Forked fork (i + 1) roles (started ++ role ∷ []))
  ]

  pub run-Settled :
      (calls : Calls) (roles : List P) (k : Kernel P)
      → k.sem_set ≡ true
      → k.segment ≡ true
      → Settled roles k.sems k.bytes calls.shmdt (run calls roles k)
  unfolding run
  run-Settled calls roles k set segment =
      settled (fork_all calls.fork 0 roles []) (fork_all-Forked calls.fork 0 roles [])
    where
      settled :
          (r : Bool × List P)
          → Forked roles r
          → Settled roles k.sems k.bytes calls.shmdt (
              if r.0
              then (if wait_all calls.wait 0 (length roles)
                  then clean_up calls (record k { children = r.1 })
                  else return_with 1 (record k { children = r.1 }))
              else return_with 1 (record k { children = r.1 }))
      settled (false, started) forked = (refl, inr (refl, inl set))
      settled (true, started) forked = elim (Bool-cases (wait_all calls.wait 0 (length roles))) [
        | inr fails ↦ rw fails (refl, inr (refl, inl set))
        | inl waited ↦ rw waited (
            subst
              (λ l.
                Settled l k.sems k.bytes calls.shmdt
                  (clean_up calls (record k { children = started })))
              forked (clean_up-Settled calls (record k { children = started }) set segment))
      ]

  -- shmget, shmat and the stores through `addr`, and the rest of `main`.
  unfoldable pub attach : Calls → List P → ((ℕ → ℕ) → ℕ → ℕ) → Kernel P → Ended P
  attach calls roles store k =
      if calls.shmget
      then (let k1 = record k { segment = true } in
          if calls.shmat
          then run calls roles (record k1 { attached = true; bytes = store k1.bytes })
          else return_with 1 k1)
      else return_with 1 k

  pub attach-Settled :
      (calls : Calls) (roles : List P) (store : (ℕ → ℕ) → ℕ → ℕ) (k : Kernel P)
      → k.sem_set ≡ true
      → Settled roles k.sems (store k.bytes) calls.shmdt (attach calls roles store k)
  unfolding attach
  attach-Settled calls roles store k set = elim (Bool-cases calls.shmget) [
    | inr fails ↦ rw fails (refl, inr (refl, inl set))
    | inl gets ↦ elim (Bool-cases calls.shmat) [
      | inr fails ↦ rw (gets, fails) (refl, inr (refl, inl set))
      | inl attaches ↦
          subst (Settled roles k.sems (store k.bytes) calls.shmdt) (rw (gets, attaches) refl) (
            run-Settled calls roles
              (record k { segment = true; attached = true; bytes = store k.bytes }) set refl)
    ]
  ]
