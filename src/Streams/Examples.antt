-- ===== src/Streams/Examples.antt =====
-- The programs of lab5 on small files, and the theorems at them.
use os_bmstu.Common.{
  ℕ, zero, suc, ◌+◌, ◌≡◌, ◌⊎◌, refl, Bool, true, false, Option, none, some, List, [], ◌∷◌, ◌++◌,
  occurs, arith,
}
use os_bmstu.Streams.{returned, main1}
use os_bmstu.Streams.Riffle.{dealt, main1-dealt}
use os_bmstu.Streams.Threads
use os_bmstu.Streams.Conserved.{all_printed_once}
use os_bmstu.Streams.Unbuffered
use os_bmstu.Streams.Unbuffered.{all_printed_twice}
use os_bmstu.Streams.Writers
use os_bmstu.Streams.LastCloser.{half_is_lost, letters}

-- The letters from `c` on.
abbrev from_letter : ℕ → ℕ → List ℕ
from_letter zero c = []
from_letter (suc n) c = c ∷ from_letter n (c + 1)

-- The alphabet comes out as aubvcwdxeyfzghijklmnopqrst.
alphabet_dealt :
    main1 28 (some (from_letter 26 b'a'))
    ≡ some (
        returned (
          b'a'
          ∷ b'u'
          ∷ b'b'
          ∷ b'v'
          ∷ b'c'
          ∷ b'w'
          ∷ b'd'
          ∷ b'x'
          ∷ b'e'
          ∷ b'y'
          ∷ b'f'
          ∷ b'z'
          ∷ (from_letter 14 b'g' ++ 10 ∷ [])))
unfolding main1
alphabet_dealt = refl

main1-dealt_example :
    (main1 30 (some (from_letter 26 b'a'))
      ≡ some (returned (dealt 26 (from_letter 26 b'a') ++ 10 ∷ [])))
    × (occurs b'u' (dealt 26 (from_letter 26 b'a')) ≡ 1)
unfolding occurs
main1-dealt_example = main1-dealt (from_letter 26 b'a') 30 b'u' (omega arith)

-- States of th1.c that are reached; `true` lets main execute its next line, `false` the thread.
module _ (file : List ℕ) where
  record Th1Run : Type 0 where
    last : Threads.System
    reach : Threads.Reach file last

  th1_main :
      (r : Th1Run) (o : Option (Threads.Reader × List ℕ × List ℕ))
      → Threads.step_at r.last.main.line r.last.main.buff r.last.rest r.last.out ≡ o
      → Th1Run
  th1_main r none e = r
  th1_main r (some (x, rest, out)) e = record {
    last = _;
    reach = Threads.later r.reach (Threads.by_main x rest out e refl);
  }

  th1_thread :
      (r : Th1Run) (o : Option (Threads.Reader × List ℕ × List ℕ))
      → Threads.step_at r.last.thread.line r.last.thread.buff r.last.rest r.last.out ≡ o
      → Th1Run
  th1_thread r none e = r
  th1_thread r (some (x, rest, out)) e = record {
    last = _;
    reach = Threads.later r.reach (Threads.by_thread x rest out e refl);
  }

  th1_run : Th1Run → List Bool → Th1Run
  unfolding th1_main th1_thread Threads.step_at
  th1_run r [] = r
  th1_run r (true ∷ bs) = th1_run (th1_main r _ refl) bs
  th1_run r (false ∷ bs) = th1_run (th1_thread r _ refl) bs

  th1_start : Th1Run
  th1_start = record { last = _; reach = Threads.start }

-- The same for th2.c, where both calls of open succeed.
module _ (file : List ℕ) where
  record Th2Run : Type 0 where
    last : Unbuffered.System
    reach : Unbuffered.Reach file last

  th2_main :
      (r : Th2Run) (o : Option (Unbuffered.Reader × List ℕ))
      → Unbuffered.step_at file true r.last.main.line r.last.main.rest r.last.out ≡ o
      → Th2Run
  th2_main r none e = r
  th2_main r (some (x, out)) e = record {
    last = _;
    reach = Unbuffered.later r.reach (Unbuffered.by_main true x out e refl);
  }

  th2_thread :
      (r : Th2Run) (o : Option (Unbuffered.Reader × List ℕ))
      → Unbuffered.step_at file true r.last.thread.line r.last.thread.rest r.last.out ≡ o
      → Th2Run
  th2_thread r none e = r
  th2_thread r (some (x, out)) e = record {
    last = _;
    reach = Unbuffered.later r.reach (Unbuffered.by_thread true x out e refl);
  }

  th2_run : Th2Run → List Bool → Th2Run
  unfolding th2_main th2_thread Unbuffered.step_at
  th2_run r [] = r
  th2_run r (true ∷ bs) = th2_run (th2_main r _ refl) bs
  th2_run r (false ∷ bs) = th2_run (th2_thread r _ refl) bs

  th2_start : Th2Run
  th2_start = record { last = _; reach = Unbuffered.start }

-- The same for th3.c, where both calls of fopen succeed.
module _ (file : List ℕ) where
  record Th3Run : Type 0 where
    last : Writers.System
    reach : Writers.Reach file last

  th3_main :
      (r : Th3Run) (o : Option (Writers.Writer × Writers.Shared))
      → Writers.step_at 0 true r.last.main.line r.last.main.buf r.last.shared ≡ o
      → Th3Run
  th3_main r none e = r
  th3_main r (some (x, m)) e = record {
    last = _;
    reach = Writers.later r.reach (Writers.by_main true x m e refl);
  }

  th3_thread :
      (r : Th3Run) (o : Option (Writers.Writer × Writers.Shared))
      → Writers.step_at 1 true r.last.thread.line r.last.thread.buf r.last.shared ≡ o
      → Th3Run
  th3_thread r none e = r
  th3_thread r (some (x, m)) e = record {
    last = _;
    reach = Writers.later r.reach (Writers.by_thread true x m e refl);
  }

  th3_run : Th3Run → List Bool → Th3Run
  unfolding th3_main th3_thread Writers.step_at
  th3_run r [] = r
  th3_run r (true ∷ bs) = th3_run (th3_main r _ refl) bs
  th3_run r (false ∷ bs) = th3_run (th3_thread r _ refl) bs

  th3_start : Th3Run
  th3_start = record { last = _; reach = Writers.start }

-- `n` lines of the thread, then `k` lines of main.
abbrev turns : ℕ → ℕ → List Bool
turns zero zero = []
turns zero (suc k) = true ∷ turns zero k
turns (suc n) k = false ∷ turns n k

abbrev ab : List ℕ
ab = b'a' ∷ b'b' ∷ []

all_printed_once_example :
    occurs b'a' (th1_run ab (th1_start ab) (turns 3 1 ++ turns 2 0)).last.out ≡ 1
unfolding th1_run th1_start occurs
all_printed_once_example =
    all_printed_once ab _ b'a' (th1_run ab (th1_start ab) (turns 3 1 ++ turns 2 0)).reach refl refl

all_printed_twice_example :
    occurs b'b' (th2_run ab (th2_start ab) (turns 3 6 ++ turns 4 0)).last.out ≡ 2
unfolding th2_run th2_start occurs
all_printed_twice_example =
    all_printed_twice ab _ b'b' (th2_run ab (th2_start ab) (turns 3 6 ++ turns 4 0)).reach refl refl

-- main opens and writes while the thread waits with its letters in the buffer.
abbrev thread_last : Th3Run ab
thread_last = th3_run ab (th3_start ab) (turns 16 18 ++ turns 2 0)

half_is_lost_example :
    (thread_last.last.shared.file ≡ letters 13 0) ⊎ (thread_last.last.shared.file ≡ letters 13 1)
unfolding th3_run th3_start
half_is_lost_example = half_is_lost ab thread_last.last thread_last.reach refl refl

thread_wins : thread_last.last.shared.file ≡ letters 13 1
unfolding th3_run th3_start
thread_wins = refl
