-- ===== src/ReadWrite/Launch.antt =====
-- `main` of lab3_2: what it sets up, the processes that it forks, and what it gives back.
use os_bmstu.Common.{
  ℕ, zero, suc, sym, ◌+◌, ◌≡◌, refl, Bool, true, false, List, [], ◌∷◌, if◌then◌else◌, update, arith,
}
use mathlib.Core.Path.{subst, fun_ext}
use os_bmstu.Semaphore.{Sems, SemApi, IsSystemV}
use os_bmstu.Ipc.{
  Calls, nothing, set_value, set_value_lem, attach, Ended, returned, processes, Settled,
  attach-Settled,
}
use os_bmstu.ReadWrite.{Pc, read_direct, write_direct}
use os_bmstu.ReadWrite.System.{fresh, forked, writer_n, reader_n}

abbrev pub semn : ℕ
semn = 6

-- One loop over fork: `n` processes that begin with `pc`, before the others.
abbrev pub several : ℕ → Pc → List Pc → List Pc
several zero pc rest = rest
several (suc n) pc rest = pc ∷ several n pc rest

-- The loop over semctl, from semaphore `i` on: it stops at the first that fails.
unfoldable pub clear_all : SemApi → ℕ → ℕ → Sems → Bool × Sems
clear_all api i zero s = (true, s)
clear_all api i (suc n) s =
    let (cleared, s') = set_value api i 0 s in
    let rest = clear_all api (i + 1) n s' in if cleared then rest else (false, s')

-- `*addr = '!'`.
abbrev pub store_start : (ℕ → ℕ) → ℕ → ℕ
store_start bytes = update bytes 0 b'!'

-- From the calls of semctl on.
unfoldable pub after_semget : SemApi → Calls → Ended Pc
after_semget api calls =
    let k = record nothing { sem_set = true } in
    let (cleared, s) = clear_all api 0 semn k.sems in
    if cleared
    then attach calls (several writer_n write_direct (several reader_n read_direct [])) store_start
        (record k { sems = s })
    else returned 1 (record k { sems = s })

unfoldable pub main : SemApi → Calls → Ended Pc
main api calls = if calls.semget then after_semget api calls else returned 1 nothing

update-zero : (k : ℕ) → update {A = ℕ} (λ _. 0) k 0 ≡ (λ _. 0)
update-zero k = fun_ext (λ i. ground arith)

clear_all-zero :
    {api : SemApi} → IsSystemV api → (i n : ℕ) → clear_all api i n (λ _. 0) ≡ (true, λ _. 0)
unfolding clear_all
clear_all-zero h i zero = refl
clear_all-zero {api} h i (suc n) =
    rw (set_value_lem h i 0 (λ _. 0) (omega arith), update-zero i) (clear_all-zero h (i + 1) n)

after_semget-Settled :
    {api : SemApi}
    → IsSystemV api
    → (calls : Calls)
    → Settled
        (processes forked 0 (writer_n + reader_n))
        fresh.sems
        (update (λ _. 0) 0 fresh.buf)
        calls.shmdt
        (after_semget api calls)
unfolding after_semget
after_semget-Settled h calls = rw (clear_all-zero h 0 semn) (
    attach-Settled calls (several writer_n write_direct (several reader_n read_direct []))
      store_start (record nothing { sem_set = true }) refl)

-- If the calls of semctl succeed, then however the other calls of main after semget answer: main
-- returns 0 with the set and the segment removed, and then the semaphores and the byte had the values
-- of `fresh` and the processes forked are those that `forked` lists; or it returns 1 and leaves the set
-- or the segment behind, or has removed both and shmdt has failed.
pub launch-Settled :
    {api : SemApi}
    → IsSystemV api
    → (calls : Calls) → calls.semget ≡ true
    → Settled
        (processes forked 0 (writer_n + reader_n))
        fresh.sems
        (update (λ _. 0) 0 fresh.buf)
        calls.shmdt
        (main api calls)
unfolding main
launch-Settled {api} h calls got =
    subst
      (λ b.
        Settled (processes forked 0 (writer_n + reader_n)) fresh.sems (update (λ _. 0) 0 fresh.buf)
          calls.shmdt (if b then after_semget api calls else returned 1 nothing))
      (sym got) (after_semget-Settled h calls)
