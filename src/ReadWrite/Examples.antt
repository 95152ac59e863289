-- ===== src/ReadWrite/Examples.antt =====
-- Runs of the two writers (processes 0 and 1) and five readers (2 to 6) of lab3_2, and the theorems
-- at states that they reach.
use os_bmstu.Common.{
  ℕ, ◌≤◌, ◌<◌, ◌≡◌, inl, inr, Option, none, some, List, [], ◌∷◌, true, arith, ℕ_discrete, dec_lt,
  refl, update, Bool-cases, ltb, count,
}
use os_bmstu.Semaphore.{system_v, system_v-IsSystemV}
use os_bmstu.ReadWrite.{
  Shared, Pc, write_awake, writing, reads, writes, waits_to_read, waits_to_write, step,
}
use os_bmstu.ReadWrite.System.{System, Step, pick, Reach, IsForked, start, later, forked, writer_n}
use os_bmstu.ReadWrite.Safety.{semaphores_count, entry_without_writer, overlap_only_by_awake}

abbrev process_n : ℕ
process_n = 7

forked-IsForked : (i : ℕ) → IsForked (forked i)
forked-IsForked i = elim (Bool-cases (ltb i writer_n)) [
  | inl e ↦ inr (rw e refl)
  | inr e ↦ inl (rw e refl)
]

-- Run the processes in the given order, as far as none of them sleeps; `rand` returns 3 each time.
record Run : Type 0 where
  last : System
  reach : Reach system_v process_n forked last

turn_to :
    (r : Run) (i : ℕ) (o : Option (Pc × Shared))
    → step system_v 3 (r.last.pc i) r.last.mem ≡ o
    → i < process_n
    → Run
turn_to r i none e h = r
turn_to r i (some (p, m)) e h = record { last = _; reach = later r.reach (pick i 3 p m h e refl) }

turn : Run → ℕ → Run
unfolding turn_to dec_lt step ℕ_discrete
turn r i = elim (dec_lt i process_n) [ yes h ↦ turn_to r i _ refl h | no _ ↦ r ]

run : Run → List ℕ → Run
unfolding turn
run r [] = r
run r (i ∷ is) = run (turn r i) is

abbrev fresh_run : Run
fresh_run = record { last = _; reach = start }

-- Reader 2 reads; writer 0 queues up; the reader leaves; writer 1 enters; reader 3 queues up; the
-- writer leaves and the reader wakes. CAN_W_SEMN, raised by reader 2, is still up.
abbrev before_overlap : Run
before_overlap =
    run fresh_run (2 ∷ 0 ∷ 0 ∷ 0 ∷ 2 ∷ 2 ∷ 2 ∷ 2 ∷ 1 ∷ 3 ∷ 3 ∷ 3 ∷ 1 ∷ 1 ∷ 1 ∷ 1 ∷ 1 ∷ 3 ∷ 3 ∷ [])

abbrev overlap : Run
overlap = run before_overlap (0 ∷ [])

-- A reader and a writer inside together.
overlap_reached : (reads (overlap.last.pc 3) ≡ true) × (writes (overlap.last.pc 0) ≡ true)
unfolding run
overlap_reached = (refl, refl)

-- Both writers have queued up when the last reader raises CAN_W_SEMN; then they clear it. From here
-- everybody sleeps.
abbrev all_asleep : Run
all_asleep = run fresh_run (
    2 ∷ 0 ∷ 0 ∷ 1 ∷ 1 ∷ 2 ∷ 2 ∷ 2 ∷ 2 ∷ 0 ∷ 1 ∷ 2 ∷ 2 ∷ 2 ∷ 3 ∷ 3 ∷ 3 ∷ 4 ∷ 4 ∷ 4 ∷ 5 ∷ 5 ∷ 5 ∷ 6
    ∷ 6 ∷ 6 ∷ [])

AsleepIn : (s : System) → ℕ → Type 0
AsleepIn s i = step system_v 3 (s.pc i) s.mem ≡ none

deadlock_reached :
    AsleepIn all_asleep.last 0
    × AsleepIn all_asleep.last 1
    × AsleepIn all_asleep.last 2
    × AsleepIn all_asleep.last 3
    × AsleepIn all_asleep.last 4
    × AsleepIn all_asleep.last 5
    × AsleepIn all_asleep.last 6
unfolding run AsleepIn
deadlock_reached = (refl, refl, refl, refl, refl, refl, refl)

-- One step of a run.
step_of :
    (r : Run) (i : ℕ) (p : Pc) (m : Shared)
    → i < process_n
    → step system_v 3 (r.last.pc i) r.last.mem ≡ some (p, m)
    → Step system_v process_n r.last (record { mem = m; pc = update r.last.pc i p })
step_of r i p m h e = pick i 3 p m h e refl

semaphores_count_example :
    let s = overlap.last in
    (s.mem.sems 1 ≡ count reads 7 s.pc)
    × (s.mem.sems 0 ≡ count writes 7 s.pc)
    × (s.mem.sems 3 ≡ count waits_to_read 7 s.pc)
    × (s.mem.sems 2 ≡ count waits_to_write 7 s.pc)
    × (s.mem.sems 5 ≤ 1)
    × (s.mem.sems 4 ≤ 1)
semaphores_count_example =
    semaphores_count system_v-IsSystemV (omega arith) forked-IsForked overlap.reach

entry_without_writer_example : count writes 7 before_overlap.last.pc ≡ 0
unfolding run step ℕ_discrete
entry_without_writer_example =
    entry_without_writer system_v-IsSystemV (omega arith) forked-IsForked before_overlap.reach
      (step_of before_overlap 0 _ _ (omega arith) refl) 0 refl refl (inr refl)

overlap_only_by_awake_example :
    (i : ℕ) × (i < 7)
    × (before_overlap.last.pc i ≡ write_awake)
    × (update before_overlap.last.pc 0 writing i ≡ writing)
unfolding run step ℕ_discrete count
overlap_only_by_awake_example =
    overlap_only_by_awake system_v-IsSystemV (omega arith) forked-IsForked before_overlap.reach
      (step_of before_overlap 0 _ _ (omega arith) refl) (inr refl) (omega arith) (omega arith)
