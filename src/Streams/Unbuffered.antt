-- ===== src/Streams/Unbuffered.antt =====
-- main2.c and th2.c of lab5: the file is opened twice and read byte by byte, by one thread in turn or
-- by two threads.
use mathlib.Core.Path.{subst}
use os_bmstu.Common.{
  ℕ, zero, suc, ◌+◌, ◌*◌, ◌≤◌, ◌≡◌, refl, ap, ◌∙◌, Bool, true, false, ◌&&◌, Option, none, some,
  List, [], ◌∷◌, ◌++◌, length, occurs, occurs-append, arith, if◌then◌else◌,
}
use mathlib.Core.Option
use mathlib.Core.List.{append_assoc, append-nil}
use os_bmstu.Streams.{Run, open_failed, returned, is_one, printed}

-- `read(fd, &c, 1)` on a descriptor with these bytes to come.
abbrev pub read_byte : List ℕ → Option ℕ × List ℕ
read_byte [] = (none, [])
read_byte (c ∷ rest) = (some c, rest)

-- The loop of main2.c, on fuel: the output for what the two descriptors still give.
unfoldable pub both_bytes : ℕ → Bool → Bool → List ℕ → List ℕ → List ℕ → Option (List ℕ)
both_bytes zero flag1 flag2 rest1 rest2 out = none
both_bytes (suc fuel) flag1 flag2 rest1 rest2 out = elim (flag1 && flag2) [
  | false ↦ some out
  | true ↦
      let (c1, rest1') = read_byte rest1 in
      let (c2, rest2') = read_byte rest2 in
      both_bytes fuel (is_one c1) (is_one c2) rest1' rest2' (out ++ printed c1 ++ printed c2)
]

-- `main` of main2.c, where each of the two calls of `open` fails or gives these bytes.
unfoldable pub main2 : ℕ → Option (List ℕ) → Option (List ℕ) → Option Run
unfolding both_bytes
main2 fuel none opened2 = some open_failed
main2 fuel (some file1) none = some open_failed
main2 fuel (some file1) (some file2) =
    Option.map returned (both_bytes fuel true true file1 file2 [])

-- Every byte twice, one copy behind the other.
abbrev pub doubled : List ℕ → List ℕ
doubled [] = []
doubled (c ∷ file) = c ∷ c ∷ doubled file

both_bytes-doubled :
    (fuel : ℕ) (file out : List ℕ)
    → length file + 2 ≤ fuel
    → both_bytes fuel true true file file out ≡ some (out ++ doubled file)
unfolding both_bytes
both_bytes-doubled zero file out enough = absurd (omega arith)
both_bytes-doubled (suc zero) file out enough = absurd (omega arith)
both_bytes-doubled (suc (suc fuel)) [] out enough = ap some (append-nil (out ++ []))
both_bytes-doubled (suc (suc fuel)) (c ∷ file) out enough =
    both_bytes-doubled (suc fuel) file ((out ++ c ∷ []) ++ c ∷ []) (omega arith)
    ∙ ap some (append_assoc (out ++ c ∷ []) (c ∷ []) _ ∙ append_assoc out (c ∷ []) _)

-- main2.c ends for every file that opens twice, and prints every byte of it twice in a row.
pub main2-doubled :
    (file : List ℕ) (fuel : ℕ)
    → length file + 2 ≤ fuel
    → main2 fuel (some file) (some file) ≡ some (returned (doubled file))
unfolding main2
main2-doubled file fuel enough = rw (both_bytes-doubled fuel file [] enough) refl

-- th2.c: the line that `main` or `thread_f` executes next.
pub data Line : Type 0 where
  opening : Line
  reading : Line
  writing : (c : ℕ) → Line
  ended : Line
  failed : Line

pub record Reader : Type 0 where
  pub line : Line
  pub rest : List ℕ

-- One line, for a file and a call of `open` that succeeds or not: the reader and the output.
unfoldable pub step_at : List ℕ → Bool → Line → List ℕ → List ℕ → Option (Reader × List ℕ)
step_at file opens opening rest out = some (
  if opens then record { line = reading; rest = file } else record { line = failed; rest = [] },
  out,
)
step_at file opens reading [] out = some (record { line = ended; rest = [] }, out)
step_at file opens reading (c ∷ rest) out = some (record { line = writing c; rest = rest }, out)
step_at file opens (writing c) rest out =
    some (record { line = reading; rest = rest }, out ++ c ∷ [])
step_at file opens ended rest out = none
step_at file opens failed rest out = none

pub record System : Type 0 where
  pub main : Reader
  pub thread : Reader
  pub out : List ℕ

-- `main` or `thread_f` executes its next line; the file does not change.
pub data Step (file : List ℕ) (s t : System) : Type 0 where
  by_main :
      (opens : Bool) (r : Reader) (out : List ℕ)
      → step_at file opens s.main.line s.main.rest s.out ≡ some (r, out)
      → t ≡ record s { main = r; out = out }
      → Step file s t
  by_thread :
      (opens : Bool) (r : Reader) (out : List ℕ)
      → step_at file opens s.thread.line s.thread.rest s.out ≡ some (r, out)
      → t ≡ record s { thread = r; out = out }
      → Step file s t

abbrev pub fresh : Reader
fresh = record { line = opening; rest = [] }

-- The states after `pthread_create`, in any interleaving of the lines.
pub data Reach (file : List ℕ) : System → Type 0 where
  start : Reach file (record { main = fresh; thread = fresh; out = [] })
  later : {s t : System} → Reach file s → Step file s t → Reach file t

-- How many copies of a byte a reader will print, or would have printed.
abbrev to_print : ℕ → List ℕ → Line → List ℕ → ℕ
to_print a file opening rest = occurs a file
to_print a file reading rest = occurs a rest
to_print a file (writing c) rest = occurs a (c ∷ rest)
to_print a file ended rest = 0
to_print a file failed rest = occurs a file

abbrev Prints : ℕ → List ℕ → Line → List ℕ → List ℕ → Option (Reader × List ℕ) → Type 0
Prints a file line rest out none = Unit {0}
Prints a file line rest out (some (r, out')) =
    occurs a out' + to_print a file r.line r.rest ≡ occurs a out + to_print a file line rest

step_at-Prints :
    (a : ℕ) (file : List ℕ) (opens : Bool) (line : Line) (rest out : List ℕ)
    → Prints a file line rest out (step_at file opens line rest out)
unfolding step_at occurs
step_at-Prints a file true opening rest out = refl
step_at-Prints a file false opening rest out = refl
step_at-Prints a file opens reading [] out = refl
step_at-Prints a file opens reading (c ∷ rest) out = refl
step_at-Prints a file opens (writing c) rest out = omega (arith, occurs-append a out (c ∷ []))
step_at-Prints a file opens ended rest out = tt
step_at-Prints a file opens failed rest out = tt

step_at-prints :
    (a : ℕ) (file : List ℕ) (opens : Bool) (line : Line) (rest out : List ℕ) (r : Reader)
    → (out' : List ℕ) → step_at file opens line rest out ≡ some (r, out')
    → occurs a out' + to_print a file r.line r.rest ≡ occurs a out + to_print a file line rest
step_at-prints a file opens line rest out r out' e =
    subst (Prints a file line rest out) e (step_at-Prints a file opens line rest out)

Reach-prints :
    (file : List ℕ) (a : ℕ) (s : System)
    → Reach file s
    → occurs a s.out
        + to_print a file s.main.line s.main.rest
        + to_print a file s.thread.line s.thread.rest
      ≡ 2 * occurs a file
unfolding occurs
Reach-prints file a s start = omega arith
Reach-prints file a s (later {s = before} r (by_main opens m out e same)) = rw same (
    omega (
      arith,
      Reach-prints file a before r,
      step_at-prints a file opens before.main.line before.main.rest before.out m out e,
    ))
Reach-prints file a s (later {s = before} r (by_thread opens m out e same)) = rw same (
    omega (
      arith,
      Reach-prints file a before r,
      step_at-prints a file opens before.thread.line before.thread.rest before.out m out e,
    ))

-- In th2.c, in whichever order main and the thread execute their lines: once both have opened the
-- file and come to its end, every byte has been printed exactly twice as often as the file holds it.
pub all_printed_twice :
    (file : List ℕ) (s : System) (a : ℕ)
    → Reach file s
    → s.main.line ≡ ended
    → s.thread.line ≡ ended
    → occurs a s.out ≡ 2 * occurs a file
all_printed_twice file s a r main_ends thread_ends = omega (
  arith,
  Reach-prints file a s r,
  ap (λ l. to_print a file l s.main.rest) main_ends,
  ap (λ l. to_print a file l s.thread.rest) thread_ends,
)
