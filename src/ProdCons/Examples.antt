-- ===== src/ProdCons/Examples.antt =====
-- Runs of lab3_1, and the theorems at states that they reach.
use os_bmstu.Common.{
  ℕ, ◌<◌, ◌≡◌, Option, none, some, List, [], ◌∷◌, ℕ_discrete, dec_lt, refl, ◌==◌, true, false, ◌+◌,
  if◌then◌else◌,
}
use os_bmstu.Semaphore.{system_v, system_v-MaySet}
use os_bmstu.ProdCons.{Shared, Pc, load, step, acquire_empty, acquire_full}
use os_bmstu.Ipc
use os_bmstu.Ipc.{attach, Calls, returned, processes, Settled}
use os_bmstu.ProdCons.Launch.{main, main-Settled, after_semget, set_values}
use os_bmstu.ProdCons.System.{System, pick, Reach, start, later, forked, fresh, proc_n}

-- Run the processes in the given order, as far as none of them sleeps.
record Run : Type 0 where
  last : System
  reach : Reach system_v 6 forked last

turn_to :
    (r : Run) (i : ℕ) (o : Option (Pc × Shared))
    → step system_v (r.last.pc i) r.last.mem ≡ o
    → i < 6
    → Run
turn_to r i none e h = r
turn_to r i (some (p, m)) e h = record { last = _; reach = later r.reach (pick i p m h e refl) }

turn : Run → ℕ → Run
unfolding turn_to dec_lt step ℕ_discrete
turn r i = elim (dec_lt i 6) [ yes h ↦ turn_to r i _ refl h | no _ ↦ r ]

run : Run → List ℕ → Run
unfolding turn
run r [] = r
run r (i ∷ is) = run (turn r i) is

-- Producer 0 makes a whole round; then consumer 1 has taken the semaphores, and is about to load.
abbrev one_letter : Run
one_letter = run (record { last = _; reach = start }) (0 ∷ 0 ∷ 0 ∷ 0 ∷ 0 ∷ 0 ∷ 1 ∷ [])

one_letter_state : (one_letter.last.mem.wrote ≡ b'A' ∷ []) × (one_letter.last.pc 1 ≡ load)
unfolding run
one_letter_state = (refl, refl)

-- Every call succeeds but the third fork.
abbrev third_fork_fails : Calls
third_fork_fails = record {
  semget = true;
  shmget = true;
  shmat = true;
  fork = λ i. if i == 2 then false else true;
  wait = λ _. true;
  remove_set = true;
  remove_segment = true;
  shmdt = true;
}

main-Settled_example :
    Settled
      (processes forked 0 (proc_n + proc_n))
      fresh.sems
      fresh.buf
      third_fork_fails.shmdt
      (main system_v third_fork_fails)
main-Settled_example = main-Settled system_v-MaySet third_fork_fails refl

-- The two processes forked before run on, and the set and the segment stay.
left_behind :
    main system_v third_fork_fails
    ≡ returned 1 (record {
      sem_set = true;
      segment = true;
      attached = false;
      sems = fresh.sems;
      bytes = fresh.buf;
      children = acquire_empty ∷ acquire_full ∷ [];
    })
unfolding main after_semget set_values attach Ipc.run
left_behind = refl
