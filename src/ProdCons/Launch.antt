-- ===== src/ProdCons/Launch.antt =====
-- `main` of lab3_1: what it sets up, the processes that it forks, and what it gives back.
use os_bmstu.Common.{
  ℕ, zero, suc, sym, ◌+◌, ◌≡◌, refl, Bool, true, false, inl, inr, List, [], ◌∷◌, if◌then◌else◌,
  update, ◌&&◌, arith,
}
use mathlib.Core.Path.{subst}
use os_bmstu.Semaphore.{SemApi, MaySet}
use os_bmstu.Ipc.{
  Kernel, Calls, nothing, set_value, set_value-MaySet, attach, Ended, returned, processes, Settled,
  attach-Settled,
}
use os_bmstu.ProdCons.{Pc, acquire_empty, acquire_full, full_semn, empt_semn, bin_semn, queue_size}
use os_bmstu.ProdCons.System.{fresh, forked, proc_n}

-- The loop over fork: a producer and a consumer in each round.
abbrev pub roles : ℕ → List Pc
roles zero = []
roles (suc n) = acquire_empty ∷ acquire_full ∷ roles n

-- The three calls of semctl are all made before their results are tested.
unfoldable pub set_values : SemApi → Kernel Pc → Bool × Kernel Pc
set_values api k =
    let (full_ctl, s1) = set_value api full_semn 0 k.sems in
    let (empt_ctl, s2) = set_value api empt_semn queue_size s1 in
    let (bin_ctl, s3) = set_value api bin_semn 1 s2 in
    (full_ctl && empt_ctl && bin_ctl, record k { sems = s3 })

-- `addr[0] = 'A'`, `addr[1] = 3` and `addr[2] = 3`.
abbrev pub store_start : (ℕ → ℕ) → ℕ → ℕ
store_start bytes = update (update (update bytes 0 b'A') 1 3) 2 3

-- From the calls of semctl on.
unfoldable pub after_semget : SemApi → Calls → Ended Pc
after_semget api calls =
    let (set, k) = set_values api (record nothing { sem_set = true }) in
    if set then attach calls (roles proc_n) store_start k else returned 1 k

unfoldable pub main : SemApi → Calls → Ended Pc
main api calls = if calls.semget then after_semget api calls else returned 1 nothing

-- What the calls of semctl leave: the start values, or a failure.
abbrev SetBy : Kernel Pc → Bool × Kernel Pc → Type 0
SetBy k (true, k') = k' ≡ record k {
  sems = update (update (update k.sems full_semn 0) empt_semn queue_size) bin_semn 1;
}
SetBy k (false, k') = (k'.sem_set ≡ k.sem_set) × (k'.attached ≡ k.attached)

set_values-SetBy : {api : SemApi} → MaySet api → (k : Kernel Pc) → SetBy k (set_values api k)
unfolding set_values
set_values-SetBy {api} h k =
    let s1 = update k.sems full_semn 0 in
    let s2 = update s1 empt_semn queue_size in
    elim (set_value-MaySet h full_semn 0 k.sems (omega arith)) [
      | inr fails ↦ rw fails (refl, refl)
      | inl set ↦ elim (set_value-MaySet h empt_semn queue_size s1 (omega arith)) [
        | inr fails ↦ rw (set, fails) (refl, refl)
        | inl set' ↦ elim (set_value-MaySet h bin_semn 1 s2 (omega arith)) [
          | inr fails ↦ rw (set, set', fails) (refl, refl)
          | inl set'' ↦ rw (set, set', set'') refl
        ]
      ]
    ]

after_semget-Settled :
    {api : SemApi}
    → MaySet api
    → (calls : Calls)
    → Settled
        (processes forked 0 (proc_n + proc_n))
        fresh.sems
        fresh.buf
        calls.shmdt
        (after_semget api calls)
unfolding after_semget
after_semget-Settled {api} h calls = settled (set_values api begun) (set_values-SetBy h begun)
  where
    begun : Kernel Pc
    begun = record nothing { sem_set = true }

    settled :
        (r : Bool × Kernel Pc)
        → SetBy begun r
        → Settled
            (processes forked 0 (proc_n + proc_n))
            fresh.sems
            fresh.buf
            calls.shmdt
            (if r.0 then attach calls (roles proc_n) store_start r.1 else returned 1 r.1)
    settled (true, k) set = rw set (attach-Settled calls (roles proc_n) store_start _ refl)
    settled (false, k) (kept, detached) = (detached, inr (refl, inl kept))

-- However semctl, shmget, shmat, fork, wait, the removals and shmdt answer, once semget has
-- succeeded: main returns 0 with the set and the segment removed, and then it had set the semaphores
-- and the bytes to the values of `fresh` and forked the processes that `forked` lists; or it returns 1
-- and leaves the set or the segment behind, or has removed both and shmdt has failed. After its exit
-- it has no segment attached.
pub main-Settled :
    {api : SemApi}
    → MaySet api
    → (calls : Calls) → calls.semget ≡ true
    → Settled
        (processes forked 0 (proc_n + proc_n))
        fresh.sems
        fresh.buf
        calls.shmdt
        (main api calls)
unfolding main
main-Settled {api} h calls got =
    subst
      (λ b.
        Settled (processes forked 0 (proc_n + proc_n)) fresh.sems fresh.buf calls.shmdt
          (if b then after_semget api calls else returned 1 nothing))
      (sym got) (after_semget-Settled h calls)
