-- ===== src/Streams.antt =====
-- sem_6/lab5: programs that read one file through two streams, or write one file through two. Here
-- are the streams that read, and main1.c, where both stand on one descriptor.
pub mod Riffle
pub mod Threads
pub mod Conserved
pub mod Unbuffered
pub mod Writers
pub mod LastCloser
mod Examples
use mathlib.Core.Option
use os_bmstu.Common.{
  ℕ, zero, suc, ◌+◌, Bool, true, false, ◌||◌, Option, none, some, List, [], ◌∷◌, ◌++◌, take, drop,
  length,
}

-- The size that setvbuf gives to the buffer of a stream.
abbrev pub buff_size : ℕ
buff_size = 20

-- `fscanf(fs, "%c", &c)` at a stream with this buffer, on a descriptor with these bytes to come: its
-- character, `none` for EOF, then the buffer and the bytes to come.
unfoldable pub refill : List ℕ → List ℕ → Option ℕ × List ℕ × List ℕ
refill [] rest = (none, [], rest)
refill (c ∷ buf) rest = (some c, buf, rest)

unfoldable pub scan : List ℕ → List ℕ → Option ℕ × List ℕ × List ℕ
unfolding refill
scan [] rest = refill (take buff_size rest) (drop buff_size rest)
scan (c ∷ buf) rest = (some c, buf, rest)

-- Two streams on one descriptor: the rest of the file, the buffers, the output.
pub record Streams : Type 0 where
  pub rest : List ℕ
  pub buff1 : List ℕ
  pub buff2 : List ℕ
  pub out : List ℕ

-- `flag == 1`, and what `fprintf(stdout, "%c", c)` then adds.
abbrev pub is_one : Option ℕ → Bool
is_one none = false
is_one (some c) = true

abbrev pub printed : Option ℕ → List ℕ
printed none = []
printed (some c) = c ∷ []

-- The two calls of fscanf in the loop of main1.c, each with its output.
unfoldable pub scan1 : Streams → Bool × Streams
unfolding scan
scan1 s =
    let (c, buf, rest) = scan s.buff1 s.rest in
    (is_one c, record s { rest = rest; buff1 = buf; out = s.out ++ printed c })

unfoldable pub scan2 : Streams → Bool × Streams
unfolding scan
scan2 s =
    let (c, buf, rest) = scan s.buff2 s.rest in
    (is_one c, record s { rest = rest; buff2 = buf; out = s.out ++ printed c })

-- The loop of main1.c, on fuel, from the two flags on; `none` once the fuel is used up.
unfoldable pub both : ℕ → Bool → Bool → Streams → Option Streams
unfolding scan1 scan2
both zero flag1 flag2 s = none
both (suc fuel) flag1 flag2 s = elim (flag1 || flag2) [
  | false ↦ some s
  | true ↦ let (flag1', s1) = scan1 s in let (flag2', s2) = scan2 s1 in both fuel flag1' flag2' s2
]

-- How a program of lab5 ends: it prints "Open failed" and returns -1, or it returns 0 with its output.
pub data Run : Type 0 where
  open_failed : Run
  returned : (out : List ℕ) → Run

-- `main` of main1.c, where `open` fails or gives these bytes.
unfoldable pub main1 : ℕ → Option (List ℕ) → Option Run
unfolding both
main1 fuel none = some open_failed
main1 fuel (some file) =
    Option.map (λ s. returned (s.out ++ 10 ∷ []))
      (both fuel true true record { rest = file; buff1 = []; buff2 = []; out = [] })
