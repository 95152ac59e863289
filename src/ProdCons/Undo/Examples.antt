-- ===== src/ProdCons/Undo/Examples.antt =====
-- Runs of lab3_1 with SEM_UNDO, and the theorems at a state that they reach.
use mathlib.Core.Option
use os_bmstu.Common.{
  ℕ, ◌%◌, ◌<◌, ◌≡◌, ◌≢◌, inl, inr, Option, none, some, List, [], ◌∷◌, arith, ℕ_discrete, dec_lt,
  refl, Bool-cases, ◌==◌, update,
}
use os_bmstu.Semaphore.Undo.{
  Adj, unadjusted, system_v_undo, system_v_undo-IsSystemVUndo, perform_undo,
}
use os_bmstu.ProdCons.{Shared, Pc, load, step, acquire_empty, exited}
use os_bmstu.ProdCons.System.{IsForked, forked, fresh}
use os_bmstu.ProdCons.Safety.{InOrder}
use os_bmstu.ProdCons.Undo.{System, pick, Reach, start, later, process_step}
use os_bmstu.ProdCons.Undo.Safety.{fifo_before_limit, no_deadlock_before_limit}

all_forked : (i : ℕ) → IsForked (forked i)
all_forked i = elim (Bool-cases (i % 2 == 0)) [ inl e ↦ inl (rw e refl) | inr e ↦ inr (rw e refl) ]

-- Run the processes in the given order, as far as none of them sleeps.
record Run : Type 0 where
  last : System
  reach : Reach system_v_undo 6 forked last

turn_to :
    (r : Run) (i : ℕ) (o : Option (Pc × Adj × Shared))
    → process_step system_v_undo (r.last.pc i) (r.last.adj i) r.last.mem ≡ o
    → i < 6
    → Run
turn_to r i none e h = r
turn_to r i (some (p, a, m)) e h = record {
  last = _;
  reach = later r.reach (pick i p a m h e refl);
}

turn : Run → ℕ → Run
unfolding turn_to dec_lt process_step perform_undo ℕ_discrete
turn r i = elim (dec_lt i 6) [ yes h ↦ turn_to r i _ refl h | no _ ↦ r ]

run : Run → List ℕ → Run
unfolding turn
run r [] = r
run r (i ∷ is) = run (turn r i) is

-- Producer 0 makes a whole round; then consumer 1 has taken the semaphores, and is about to load.
abbrev one_letter : Run
one_letter = run (record { last = _; reach = start }) (0 ∷ 0 ∷ 0 ∷ 0 ∷ 0 ∷ 0 ∷ 1 ∷ [])

-- The producer has taken a unit of EMPT_SEMN and given one of FULL_SEMN.
one_letter_state :
    (one_letter.last.mem.wrote ≡ b'A' ∷ [])
    × (one_letter.last.pc 1 ≡ load)
    × (one_letter.last.adj 0 1 ≡ 32769)
    × (one_letter.last.adj 0 0 ≡ 32767)
unfolding run
one_letter_state = (refl, refl, refl, refl)

fifo_before_limit_example :
    ((p : ℕ) × (q : ℕ) × InOrder one_letter.last.mem p q)
    × ((i : ℕ) → i < 6 → one_letter.last.pc i ≢ exited)
unfolding run
fifo_before_limit_example =
    fifo_before_limit system_v_undo-IsSystemVUndo all_forked one_letter.reach (omega arith)
      (omega arith)

no_deadlock_before_limit_example :
    (k : ℕ) × (k < 6)
    × (p : Pc) × (a : Adj) × (m : Shared) × (process_step system_v_undo
          (one_letter.last.pc k)
          (one_letter.last.adj k)
          one_letter.last.mem
        ≡ some (p, a, m))
unfolding run
no_deadlock_before_limit_example =
    no_deadlock_before_limit system_v_undo-IsSystemVUndo all_forked one_letter.reach (omega arith) 0
      1 (omega arith) (omega arith) refl refl

-- A producer after 32767 rounds.
abbrev after_many : Adj
after_many = update (update unadjusted 0 1) 1 65535

-- Its next semop fails, although a cell is free, and its exit gives EMPT_SEMN 32767 units back.
limit_reached :
    Option.map {B = Pc × ℕ × ℕ}
      (λ (p, a, m). (p, m.sems 0, m.sems 1))
      (process_step system_v_undo acquire_empty after_many fresh)
    ≡ some (exited, 0, 32767)
unfolding process_step perform_undo step ℕ_discrete
limit_reached = refl
