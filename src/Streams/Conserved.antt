-- ===== src/Streams/Conserved.antt =====
-- In th1.c of lab5 no byte is lost or doubled, in whichever order the two threads run.
use mathlib.Core.Path.{subst}
use os_bmstu.Common.{
  ℕ, ◌+◌, ◌≡◌, refl, ap, Option, none, some, List, [], ◌∷◌, take, drop, occurs, occurs-append,
  take-drop-occurs, arith,
}
use os_bmstu.Streams.{scan, refill, buff_size}
use os_bmstu.Streams.Threads.{
  Line, scanning, printing, ended, Reader, after_scan, step_at, step, System, Step, by_main,
  by_thread, Reach, start, later,
}

-- What a reader has read and not yet printed.
abbrev in_hand : Line → List ℕ
in_hand scanning = []
in_hand (printing c) = c ∷ []
in_hand ended = []

abbrev held : ℕ → Reader → ℕ
held a r = occurs a (in_hand r.line) + occurs a r.buff

-- A reader that has ended came to the end of the file.
abbrev Drained : Line → List ℕ → List ℕ → Type 0
Drained ended buff rest = (buff ≡ []) × (rest ≡ [])
Drained scanning buff rest = Unit {0}
Drained (printing c) buff rest = Unit {0}

refill-occurs :
    (a : ℕ) (block rest : List ℕ)
    → occurs a (in_hand (after_scan (refill block rest).0))
        + occurs a (refill block rest).1
        + occurs a (refill block rest).2
      ≡ occurs a block + occurs a rest
unfolding refill occurs
refill-occurs a [] rest = refl
refill-occurs a (c ∷ block) rest = omega arith

scan-occurs :
    (a : ℕ) (buff rest : List ℕ)
    → occurs a (in_hand (after_scan (scan buff rest).0))
        + occurs a (scan buff rest).1
        + occurs a (scan buff rest).2
      ≡ occurs a buff + occurs a rest
unfolding scan occurs
scan-occurs a (c ∷ buff) rest = omega arith
scan-occurs a [] rest = omega (
  arith,
  refill-occurs a (take buff_size rest) (drop buff_size rest),
  take-drop-occurs a buff_size rest,
)

-- At the end of the file a stream that has nothing left gets nothing, and one that gets nothing is
-- there.
scan-nil : (buff : List ℕ) → (scan buff []).2 ≡ []
unfolding scan refill
scan-nil [] = refl
scan-nil (c ∷ buff) = refl

scan-Drained :
    (buff rest : List ℕ)
    → Drained (after_scan (scan buff rest).0) (scan buff rest).1 (scan buff rest).2
unfolding scan refill
scan-Drained (c ∷ buff) rest = tt
scan-Drained [] [] = (refl, refl)
scan-Drained [] (c ∷ rest) = tt

-- What one line keeps.
record Keeps (r : Reader) (rest out : List ℕ) (r' : Reader) (rest' out' : List ℕ) : Type 0 where
  conserved :
      (a : ℕ) → occurs a out' + held a r' + occurs a rest' ≡ occurs a out + held a r + occurs a rest
  drained : Drained r'.line r'.buff rest'
  at_end : rest ≡ [] → rest' ≡ []

abbrev KeepsBy : Reader → List ℕ → List ℕ → Option (Reader × List ℕ × List ℕ) → Type 0
KeepsBy r rest out none = Unit {0}
KeepsBy r rest out (some (r', rest', out')) = Keeps r rest out r' rest' out'

step_at-Keeps :
    (l : Line) (buff rest out : List ℕ)
    → KeepsBy (record { line = l; buff = buff }) rest out (step_at l buff rest out)
unfolding step_at occurs
step_at-Keeps scanning buff rest out = record {
  conserved = λ a. omega (arith, scan-occurs a buff rest);
  drained = scan-Drained buff rest;
  at_end = λ e. rw e (scan-nil buff);
}
step_at-Keeps (printing c) buff rest out = record {
  conserved = λ a. omega (arith, occurs-append a out (c ∷ []));
  drained = tt;
  at_end = λ e. e;
}
step_at-Keeps ended buff rest out = tt

step-Keeps :
    (r r' : Reader) (rest out rest' out' : List ℕ)
    → step r rest out ≡ some (r', rest', out')
    → Keeps r rest out r' rest' out'
step-Keeps r r' rest out rest' out' e =
    subst (KeepsBy r rest out) e (step_at-Keeps r.line r.buff rest out)

-- Every byte of the file is printed, in hand, in a buffer or still to come, as often as it occurs.
record Inv (file : List ℕ) (s : System) : Type 0 where
  conserved :
      (a : ℕ) → occurs a s.out + held a s.main + held a s.thread + occurs a s.rest ≡ occurs a file
  main_drained : Drained s.main.line s.main.buff s.rest
  thread_drained : Drained s.thread.line s.thread.buff s.rest

Drained-later :
    (l : Line) (buff rest rest' : List ℕ)
    → (rest ≡ [] → rest' ≡ [])
    → Drained l buff rest
    → Drained l buff rest'
Drained-later scanning buff rest rest' stays d = tt
Drained-later (printing c) buff rest rest' stays d = tt
Drained-later ended buff rest rest' stays (empty, done) = (empty, stays done)

Step-Inv : (file : List ℕ) (s t : System) → Step s t → Inv file s → Inv file t
Step-Inv file s t (by_main r rest out e same) inv =
    let k = step-Keeps s.main r s.rest s.out rest out e in
    rw same (record {
      conserved = λ a. omega (arith, inv.conserved a, k.conserved a);
      main_drained = k.drained;
      thread_drained =
          Drained-later s.thread.line s.thread.buff s.rest rest k.at_end inv.thread_drained;
    })
Step-Inv file s t (by_thread r rest out e same) inv =
    let k = step-Keeps s.thread r s.rest s.out rest out e in
    rw same (record {
      conserved = λ a. omega (arith, inv.conserved a, k.conserved a);
      main_drained = Drained-later s.main.line s.main.buff s.rest rest k.at_end inv.main_drained;
      thread_drained = k.drained;
    })

Reach-Inv : (file : List ℕ) (s : System) → Reach file s → Inv file s
unfolding occurs
Reach-Inv file s start = record {
  conserved = λ a. omega arith;
  main_drained = tt;
  thread_drained = tt;
}
Reach-Inv file s (later {s = before} r st) = Step-Inv file before s st (Reach-Inv file before r)

Drained-ended :
    (l : Line) (buff rest : List ℕ) → l ≡ ended → Drained l buff rest → (buff ≡ []) × (rest ≡ [])
Drained-ended l buff rest e d = subst (λ k. Drained k buff rest) e d

-- In th1.c, in whichever order main and the thread execute their lines: once both have come to the
-- end of their loops, every byte has been printed exactly as often as the file holds it.
pub all_printed_once :
    (file : List ℕ) (s : System) (a : ℕ)
    → Reach file s
    → s.main.line ≡ ended
    → s.thread.line ≡ ended
    → occurs a s.out ≡ occurs a file
unfolding occurs
all_printed_once file s a r main_ends thread_ends =
    let inv = Reach-Inv file s r in
    let (main_empty, at_end) =
      Drained-ended s.main.line s.main.buff s.rest main_ends inv.main_drained in
    let (thread_empty, _) =
      Drained-ended s.thread.line s.thread.buff s.rest thread_ends inv.thread_drained in
    omega (
      arith,
      inv.conserved a,
      ap (λ l. occurs a (in_hand l)) main_ends,
      ap (λ l. occurs a (in_hand l)) thread_ends,
      ap (occurs a) main_empty,
      ap (occurs a) thread_empty,
      ap (occurs a) at_end,
    )
