-- ===== src/ProdCons/Undo/Simulation.antt =====
-- Until 32767 letters are written, no call of semop fails in lab3_1, and SEM_UNDO makes no
-- difference.
use mathlib.Core.Option
use mathlib.Core.Path.{subst}
use mathlib.Core.Logic.{if_pos, if_neg}
use os_bmstu.Common.{
  ℕ, zero, suc, ◌≤◌, ◌<◌, ◌≡◌, ◌∙◌, inl, inr, refl, sym, ap, arith, none, some, Option, length,
  length-append, [], ◌∷◌, update, ℕ_discrete, Option-cases,
}
use os_bmstu.Semaphore.{SemApi, Outcome, done, again, asleep, failed, system_v, system_v-IsSystemV}
use os_bmstu.Semaphore.Undo.{Adj, UndoApi, IsSystemVUndo, met_by}
use os_bmstu.ProdCons.{
  Shared, Pc, acquire_empty, report_write, release_full, acquire_full, report_read, release_empty,
  exited, step, after_semop,
}
use os_bmstu.ProdCons.System
use os_bmstu.ProdCons.System.{IsForked}
use os_bmstu.ProdCons.View.{letters}
use os_bmstu.ProdCons.Moves.{IsAlive, Goes-lands}
use os_bmstu.ProdCons.Steps.{step-Goes}
use os_bmstu.ProdCons.Invariant.{Inv, Reach-Inv}
use os_bmstu.ProdCons.Safety.{fifo}
use os_bmstu.ProdCons.Undo.{System, Step, pick, Reach, start, later, adj_after, leave, process_step}
use os_bmstu.ProdCons.Undo.Bounded.{Bounded, Bounded-later, Low}
use os_bmstu.ProdCons.Undo.Lines.{step-Keeps, step-Sleeps}

-- A process that goes on undoes nothing.
leave-IsAlive : (p : Pc) (a : Adj) (m : Shared) → IsAlive p → leave p a m ≡ m
leave-IsAlive exited a m alive = absurd alive
leave-IsAlive _ a m alive = refl

length-letters : (n : ℕ) → length (letters n) ≡ n
length-letters zero = refl
length-letters (suc n) = omega (arith, length-append (letters n) _, length-letters n)

-- A line takes no letter away.
abbrev NoFewer : Shared → Option (Pc × Shared) → Type 0
NoFewer m none = Unit {0}
NoFewer m (some (p, m')) = (length m.wrote ≤ length m'.wrote) × (length m.read ≤ length m'.read)

after_semop-NoFewer : (o : Outcome) (p : Pc) (m : Shared) → NoFewer m (after_semop o p m)
after_semop-NoFewer (done s) p m = (omega arith, omega arith)
after_semop-NoFewer again p m = (omega arith, omega arith)
after_semop-NoFewer asleep p m = tt
after_semop-NoFewer failed p m = (omega arith, omega arith)

step-NoFewer : (api : SemApi) (p : Pc) (m : Shared) → NoFewer m (step api p m)
unfolding step
step-NoFewer api acquire_empty m = after_semop-NoFewer _ _ m
step-NoFewer api release_full m = after_semop-NoFewer _ _ m
step-NoFewer api acquire_full m = after_semop-NoFewer _ _ m
step-NoFewer api release_empty m = after_semop-NoFewer _ _ m
step-NoFewer api report_write m = (omega (arith, length-append m.wrote (m.buf 0 ∷ [])), omega arith)
step-NoFewer api (report_read c) m = (omega arith, omega (arith, length-append m.read (c ∷ [])))
step-NoFewer api exited m = tt
step-NoFewer api _ m = (omega arith, omega arith)

-- The state without the semadj values.
abbrev pub plain : System → System.System
plain s = record { mem = s.mem; pc = s.pc }

-- A run in which nothing has been undone, with all semadj values in their bounds.
pub record Tracks (n : ℕ) (roles : ℕ → Pc) (s : System) : Type 0 where
  pub reached : System.Reach system_v n roles (plain s)
  pub bounded :
      (i : ℕ) → i < n → Bounded (length s.mem.wrote) (length s.mem.read) (s.adj i) (s.pc i)

fewer_read :
    {n : ℕ} {roles : ℕ → Pc} {s : System}
    → ((i : ℕ) → IsForked (roles i))
    → 0 < n
    → Tracks n roles s
    → length s.mem.read ≤ length s.mem.wrote
fewer_read forked some_process k =
    let (p, q, (w, r, q_le, p_le)) = fifo system_v-IsSystemV forked k.reached some_process in
    rw (w, r) (omega (arith, length-letters p, length-letters q))

Inv-Low : {n : ℕ} {s : System.System} → Inv n s → Low s.mem
Inv-Low inv = record {
  full_low = omega (arith, inv.full_le);
  empt_low = omega (arith, inv.empt_le);
  bin_low = omega (arith, inv.exclusive);
}

leave-wrote : (p : Pc) (a : Adj) (m : Shared) → (leave p a m).wrote ≡ m.wrote
leave-wrote exited a m = refl
leave-wrote _ a m = refl

abbrev NotShorter : Shared → Option (Pc × Adj × Shared) → Type 0
NotShorter m none = Unit {0}
NotShorter m (some (p, a, m')) = length m.wrote ≤ length m'.wrote

process_step-NotShorter :
    (api : UndoApi) (p : Pc) (a : Adj) (m : Shared) → NotShorter m (process_step api p a m)
unfolding process_step
process_step-NotShorter api p a m = left (step (met_by a api) p m) (step-NoFewer (met_by a api) p m)
  where
    left :
        (r : Option (Pc × Shared))
        → NoFewer m r
        → NotShorter m (
            Option.map (λ (p', m'). (p', adj_after api p a m, leave p' (adj_after api p a m) m')) r)
    left none k = tt
    left (some (p', m')) k = omega (arith, k.0, ap length (leave-wrote p' (adj_after api p a m) m'))

-- With everything in its bounds, process `i` does what it does without SEM_UNDO.
module _ {api : UndoApi} {n : ℕ} {roles : ℕ → Pc} {s : System} (law : IsSystemVUndo api)
    (forked : (i : ℕ) → IsForked (roles i)) (k : Tracks n roles s)
    (few : length s.mem.wrote < 32767) (i : ℕ) (below : i < n) where
  inv : Inv n (plain s)
  inv = Reach-Inv system_v-IsSystemV forked k.reached

  few_read : length s.mem.read < 32767
  few_read = omega (arith, fewer_read forked (omega arith) k)

  pub plain_line :
      (p : Pc) (m : Shared)
      → step system_v (s.pc i) s.mem ≡ some (p, m)
      → let a = adj_after api (s.pc i) (s.adj i) s.mem in
        (process_step api (s.pc i) (s.adj i) s.mem ≡ some (p, a, m))
        × Bounded (length m.wrote) (length m.read) a p
  unfolding process_step
  plain_line p m e =
      let a = adj_after api (s.pc i) (s.adj i) s.mem in
      let (runs, kept) =
        step-Keeps api (s.pc i) p (s.adj i) s.mem m law (Inv-Low inv) few few_read
          (k.bounded i below) e in
      let g = step-Goes (s.pc i) (inv.views i below) (omega (arith, inv.exclusive)) e in
      let alive : IsAlive p = subst IsAlive (Goes-lands g e).0 g.alive in
      (rw (runs, leave-IsAlive p a m alive) refl, kept)

  pub undo_line :
      (p : Pc) (a : Adj) (m : Shared)
      → process_step api (s.pc i) (s.adj i) s.mem ≡ some (p, a, m)
      → (step system_v (s.pc i) s.mem ≡ some (p, m)) × Bounded (length m.wrote) (length m.read) a p
  undo_line p a m e = elim (Option-cases (step system_v (s.pc i) s.mem)) [
    | inl sleeps ↦ absurd (
        cc (
          e,
          asleep_too (
              step-Sleeps api (s.pc i) (s.adj i) s.mem law (Inv-Low inv) few few_read
                (k.bounded i below) sleeps),
        ))
    | inr ((p', m'), runs) ↦
        let (e', kept) = plain_line p' m' runs in
        let same =
          Option.some-injective (p', adj_after api (s.pc i) (s.adj i) s.mem, m') (p, a, m)
            (sym e' ∙ e) in
        subst
          (λ x.
            (step system_v (s.pc i) s.mem ≡ some (x.0, x.2))
            × Bounded (length x.2.wrote) (length x.2.read) x.1 x.0)
          same (runs, kept)
  ]
    where
      asleep_too :
          step (met_by (s.adj i) api) (s.pc i) s.mem ≡ none
          → process_step api (s.pc i) (s.adj i) s.mem ≡ none
      asleep_too sleeps = unfold process_step in rw sleeps refl

Step-Tracks :
    {api : UndoApi} {n : ℕ} {roles : ℕ → Pc} {s t : System}
    → IsSystemVUndo api
    → ((i : ℕ) → IsForked (roles i))
    → length s.mem.wrote < 32767
    → Tracks n roles s
    → Step api n s t
    → Tracks n roles t
Step-Tracks {api} {n} {roles} {s} {t} law forked few k (pick i p a m below e q) =
    let (runs, kept) = undo_line law forked k few i below p a m e in
    rw q (record {
      reached = System.later k.reached (System.pick i p m below runs refl);
      bounded = λ j h. bounds runs kept j h;
    })
  where
    bounds :
        step system_v (s.pc i) s.mem ≡ some (p, m)
        → Bounded (length m.wrote) (length m.read) a p
        → (j : ℕ) → j < n
        → Bounded (length m.wrote) (length m.read) (update s.adj i a j) (update s.pc i p j)
    bounds runs kept j h = elim (ℕ_discrete j i) [
      | yes same ↦
          rw (if_pos {C = Adj} (ℕ_discrete j i) same, if_pos {C = Pc} (ℕ_discrete j i) same) kept
      | no ne ↦
          rw (if_neg {C = Adj} (ℕ_discrete j i) ne, if_neg {C = Pc} (ℕ_discrete j i) ne)
            (let (w, r) = subst (NoFewer s.mem) runs (step-NoFewer system_v (s.pc i) s.mem) in
              Bounded-later _ _ _ _ (s.adj j) (s.pc j) w r (k.bounded j h))
    ]

longer :
    {api : UndoApi} {n : ℕ} {s t : System}
    → Step api n s t
    → length s.mem.wrote ≤ length t.mem.wrote
longer {api} {n} {s} {t} (pick i p a m below e q) =
    rw q (subst (NotShorter s.mem) e (process_step-NotShorter api (s.pc i) (s.adj i) s.mem))

start-Bounded : (p : Pc) → IsForked p → Bounded 0 0 (λ k. 32768) p
start-Bounded p (inl e) =
    rw e (record { taken_le = omega arith; given_le = omega arith; bin_is = omega arith })
start-Bounded p (inr e) =
    rw e (record { taken_le = omega arith; given_le = omega arith; bin_is = omega arith })

pub Reach-Tracks :
    {api : UndoApi} {n : ℕ} {roles : ℕ → Pc} {s : System}
    → IsSystemVUndo api
    → ((i : ℕ) → IsForked (roles i))
    → Reach api n roles s
    → length s.mem.wrote < 32767
    → Tracks n roles s
Reach-Tracks {roles = roles} law forked start few = record {
  reached = System.start;
  bounded = λ i h. start-Bounded (roles i) (forked i);
}
Reach-Tracks law forked (later r st) few =
    let before : _ < 32767 = omega (arith, longer st) in
    Step-Tracks law forked before (Reach-Tracks law forked r before) st
