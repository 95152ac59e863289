-- ===== src/Streams/Threads.antt =====
-- th1.c of lab5: main and a thread read one descriptor, each through its own stream, and print what
-- they read.
use os_bmstu.Common.{ℕ, ◌≡◌, Option, none, some, List, [], ◌∷◌, ◌++◌}
use os_bmstu.Streams.{scan}

-- The line that `main` or `thread_f` executes next: the call of fscanf, the call of fprintf with the
-- character in `c`, or the end of the loop.
pub data Line : Type 0 where
  scanning : Line
  printing : (c : ℕ) → Line
  ended : Line

-- The line, and the buffer of the stream.
pub record Reader : Type 0 where
  pub line : Line
  pub buff : List ℕ

abbrev pub after_scan : Option ℕ → Line
after_scan none = ended
after_scan (some c) = printing c

-- One line, at this buffer: the reader, the bytes still to come from the descriptor and the output
-- after it. A reader that has ended takes no step.
unfoldable pub step_at : Line → List ℕ → List ℕ → List ℕ → Option (Reader × List ℕ × List ℕ)
unfolding scan
step_at scanning buff rest out =
    let (c, buff', rest') = scan buff rest in
    some (record { line = after_scan c; buff = buff' }, rest', out)
step_at (printing c) buff rest out =
    some (record { line = scanning; buff = buff }, rest, out ++ c ∷ [])
step_at ended buff rest out = none

abbrev pub step : Reader → List ℕ → List ℕ → Option (Reader × List ℕ × List ℕ)
step r rest out = step_at r.line r.buff rest out

pub record System : Type 0 where
  pub rest : List ℕ
  pub main : Reader
  pub thread : Reader
  pub out : List ℕ

-- `main` or `thread_f` executes its next line.
pub data Step (s t : System) : Type 0 where
  by_main :
      (r : Reader) (rest out : List ℕ)
      → step s.main s.rest s.out ≡ some (r, rest, out)
      → t ≡ record s { rest = rest; main = r; out = out }
      → Step s t
  by_thread :
      (r : Reader) (rest out : List ℕ)
      → step s.thread s.rest s.out ≡ some (r, rest, out)
      → t ≡ record s { rest = rest; thread = r; out = out }
      → Step s t

abbrev pub fresh : Reader
fresh = record { line = scanning; buff = [] }

-- The states after `pthread_create`, for the bytes of the file, in any interleaving of the lines.
pub data Reach (file : List ℕ) : System → Type 0 where
  start : Reach file (record { rest = file; main = fresh; thread = fresh; out = [] })
  later : {s t : System} → Reach file s → Step s t → Reach file t
