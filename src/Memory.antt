-- ===== src/Memory.antt =====
-- A block of memory as the list of its bytes, and the functions of string.h that
-- sem_6/lab4_2/main.c and sem_6/lab4_seq_file/main.c call on it. An access outside the block is a
-- fault, `none`: the program has no defined behaviour from there on.
pub mod Laws
pub mod UserCopy
use os_bmstu.Common.{
  ℕ, zero, suc, ◌+◌, ◌<◌, Bool, true, false, Option, none, some, List, [], ◌∷◌, ◌++◌, ◌==◌,
  if◌then◌else◌, length,
}
use mathlib.Core.Option

-- Overwrite the first bytes of the block.
unfoldable pub overwrite : List ℕ → List ℕ → Option (List ℕ)
overwrite mem [] = some mem
overwrite [] (b ∷ bs) = none
overwrite (x ∷ mem) (b ∷ bs) = Option.map (λ r. b ∷ r) (overwrite mem bs)

-- Overwrite the bytes from an offset on. Writing no byte is no access.
unfoldable pub write_at : List ℕ → ℕ → List ℕ → Option (List ℕ)
unfolding overwrite
write_at mem zero bs = overwrite mem bs
write_at [] (suc i) [] = some []
write_at [] (suc i) (b ∷ bs) = none
write_at (x ∷ mem) (suc i) bs = Option.map (λ r. x ∷ r) (write_at mem i bs)

-- `p[k - 1] = v`; `k = 0` lies before the block.
unfoldable pub poke_before : List ℕ → ℕ → ℕ → Option (List ℕ)
unfolding write_at
poke_before mem zero v = none
poke_before mem (suc k) v = write_at mem k (v ∷ [])

-- The bytes before the first 0; a block without a 0 is read past its end.
unfoldable pub c_string : List ℕ → Option (List ℕ)
c_string [] = none
c_string (x ∷ mem) =
    let rest = Option.map (λ r. x ∷ r) (c_string mem) in if x == 0 then some [] else rest

-- The string that begins at an offset: what `%s` prints, and what `strlen` measures.
unfoldable pub string_at : List ℕ → ℕ → Option (List ℕ)
unfolding c_string
string_at mem zero = c_string mem
string_at [] (suc i) = none
string_at (x ∷ mem) (suc i) = string_at mem i

-- `strcat(mem, s)`: the bytes of `s` and a 0, from the first 0 of the block on.
unfoldable pub strcat : List ℕ → List ℕ → Option (List ℕ)
unfolding c_string write_at
strcat mem s = Option.bind (c_string mem) (λ t. write_at mem (length t) (s ++ 0 ∷ []))

-- The block that `vmalloc` returns, after `memset` with 0.
abbrev pub zeros : ℕ → List ℕ
zeros zero = []
zeros (suc n) = 0 ∷ zeros n

-- No byte is 0.
abbrev pub NonZero : List ℕ → Type 0
NonZero [] = Unit {0}
NonZero (x ∷ xs) = (0 < x) × NonZero xs
