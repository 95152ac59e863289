-- ===== src/Streams/Writers.antt =====
-- main3.c and th3.c of lab5: one file is opened twice for writing, and each stream gets every other
-- letter. A stream keeps its 13 letters in its buffer, which is larger, until fclose.
use os_bmstu.Common.{
  ℕ, zero, suc, ◌+◌, ◌%◌, ◌≡◌, Bool, true, false, Option, none, some, List, [], ◌∷◌, ◌++◌, ◌==◌,
  if◌then◌else◌, ltb, length, drop,
}

-- `fprintf(fd, "%c", 'a' + i)`: the buffer of the stream.
abbrev pub put_letter : ℕ → List ℕ → List ℕ
put_letter i buf = buf ++ (b'a' + i) ∷ []

-- `fclose`: the bytes of the file after the buffer is written from the offset 0 of the stream on.
abbrev pub flush : List ℕ → List ℕ → List ℕ
flush buf file = buf ++ drop (length buf) file

-- The loop of main3.c with `rounds` rounds to go from `i` on: the buffers of fd1 and fd2.
unfoldable pub fill : ℕ → ℕ → List ℕ → List ℕ → List ℕ × List ℕ
fill zero i buf1 buf2 = (buf1, buf2)
fill (suc rounds) i buf1 buf2 =
    let odd = i % 2 == 1 in
    fill rounds (i + 1) (if odd then buf1 else put_letter i buf1)
      (if odd then put_letter i buf2 else buf2)

-- How main3.c ends: what it returns, the sizes that it printed, and the bytes of the file.
pub record Result : Type 0 where
  pub success : Bool
  pub sizes : List ℕ
  pub file : List ℕ

-- `main` of main3.c, where each `fopen` succeeds or not, on a file with these bytes. `fopen` for "w"
-- empties the file.
unfoldable pub main3 : Bool → Bool → List ℕ → Result
unfolding fill
main3 false opens2 file = record { success = false; sizes = []; file = file }
main3 true false file = record { success = false; sizes = 0 ∷ []; file = [] }
main3 true true file =
    let (buf1, buf2) = fill 26 0 [] [] in
    let closed2 = flush buf2 [] in
    let closed1 = flush buf1 closed2 in
    record { success = true; sizes = 0 ∷ 0 ∷ length closed2 ∷ length closed1 ∷ []; file = closed1 }

-- th3.c: the line that `main` or `thread_f` executes next.
pub data Line : Type 0 where
  opening : Line
  sizing : Line
  looping : (i : ℕ) → Line
  closing : Line
  sizing_again : Line
  ended : Line
  failed : Line

pub record Writer : Type 0 where
  pub line : Line
  pub buf : List ℕ

-- The file and the sizes printed, which both threads share.
pub record Shared : Type 0 where
  pub file : List ℕ
  pub sizes : List ℕ

-- One line of a writer whose loop begins at `first`, where `fopen` succeeds or not.
unfoldable pub step_at : ℕ → Bool → Line → List ℕ → Shared → Option (Writer × Shared)
step_at first opens opening buf m = some (
    if opens
    then (record { line = sizing; buf = [] }, record m { file = [] })
    else (record { line = failed; buf = [] }, m))
step_at first opens sizing buf m =
    some (
      record { line = looping first; buf = buf },
      record m { sizes = m.sizes ++ length m.file ∷ [] },
    )
step_at first opens (looping i) buf m = some (
  if ltb i 26
      then record { line = looping (i + 2); buf = put_letter i buf }
      else record { line = closing; buf = buf },
  m,
)
step_at first opens closing buf m =
    some (record { line = sizing_again; buf = [] }, record m { file = flush buf m.file })
step_at first opens sizing_again buf m =
    some (record { line = ended; buf = buf }, record m { sizes = m.sizes ++ length m.file ∷ [] })
step_at first opens ended buf m = none
step_at first opens failed buf m = none

pub record System : Type 0 where
  pub main : Writer
  pub thread : Writer
  pub shared : Shared

-- `main`, with the even letters, or `thread_f`, with the odd ones, executes its next line.
pub data Step (s t : System) : Type 0 where
  by_main :
      (opens : Bool) (w : Writer) (m : Shared)
      → step_at 0 opens s.main.line s.main.buf s.shared ≡ some (w, m)
      → t ≡ record s { main = w; shared = m }
      → Step s t
  by_thread :
      (opens : Bool) (w : Writer) (m : Shared)
      → step_at 1 opens s.thread.line s.thread.buf s.shared ≡ some (w, m)
      → t ≡ record s { thread = w; shared = m }
      → Step s t

abbrev pub fresh : Writer
fresh = record { line = opening; buf = [] }

-- The states after `pthread_create`, in any interleaving of the lines, for a file with these bytes.
pub data Reach (file : List ℕ) : System → Type 0 where
  start :
      Reach file
        (record { main = fresh; thread = fresh; shared = record { file = file; sizes = [] } })
  later : {s t : System} → Reach file s → Step s t → Reach file t
