-- ===== src/ProcReader/Blocks.antt =====
-- When read_file of lab4_1 copies a file, and when it leaves its buffer.
use mathlib.Core.Option
use mathlib.Core.List.{append-nil}
use os_bmstu.Common.{
  ℕ, zero, suc, ◌≤◌, ◌<◌, ◌≡◌, ◌∙◌, refl, sym, ap, true, false, none, some, List, [], ◌∷◌, ◌++◌,
  ◌==◌, if◌then◌else◌, take, drop, length, length-append, take-all, drop-all, length-take, arith,
  ltb, map, dec_lt, split_at,
}
use os_bmstu.Memory.{NonZero}
use os_bmstu.Memory.Laws.{write_at-append, write_at-none, c_string-append, overwrite-append}
use os_bmstu.ProcReader.{
  buf_size, lines_for_zeros, put_block, fault, copied, unless_fault, copy_blocks, read_file,
}

-- A byte as it is copied: a newline for 0.
abbrev pub line_for_zero : ℕ → ℕ
line_for_zero c = if c == 0 then 10 else c

lines_for_zeros-append :
    (block rest : List ℕ)
    → lines_for_zeros (length block) (block ++ rest) ≡ map line_for_zero block ++ rest
unfolding lines_for_zeros
lines_for_zeros-append [] rest = refl
lines_for_zeros-append (c ∷ block) rest =
    ap (λ r. line_for_zero c ∷ r) (lines_for_zeros-append block rest)

map-NonZero : (block : List ℕ) → NonZero (map line_for_zero block)
map-NonZero [] = tt
map-NonZero (c ∷ block) = (ground arith, map-NonZero block)

length-map : (block : List ℕ) → length (map line_for_zero block) ≡ length block
length-map [] = refl
length-map (c ∷ block) = ap suc (length-map block)

put_block-append :
    (old block : List ℕ) (x : ℕ) (rest : List ℕ)
    → length old ≡ length block
    → put_block (old ++ x ∷ rest) block
      ≡ some (map line_for_zero block ++ 0 ∷ rest, map line_for_zero block)
unfolding put_block Option.bind
put_block-append old block x rest e =
    let lines = map line_for_zero block in
    let same : length block ≡ length lines = sym (length-map block) in
    rw
      (
        overwrite-append old block (x ∷ rest) e,
        lines_for_zeros-append block (x ∷ rest),
        same,
        write_at-append lines (x ∷ []) (0 ∷ []) rest refl,
        c_string-append lines rest (map-NonZero block),
      )
      refl

-- A block that leaves a byte of the buffer is written whole, its zeros as newlines.
put_block-short :
    (buf block : List ℕ)
    → length block < length buf
    → (buf' : List ℕ) × (put_block buf block ≡ some (buf', map line_for_zero block))
put_block-short buf block short =
    let (old, x, rest, e, l) = split_at buf (length block) short in
    (map line_for_zero block ++ 0 ∷ rest, rw e (put_block-append old block x rest l))

-- A block that fills the buffer has its 0 stored behind the buffer.
put_block-full : (buf block : List ℕ) → length block ≡ length buf → put_block buf block ≡ none
unfolding put_block Option.bind
put_block-full buf block full =
    let whole = overwrite-append buf block [] (sym full) in
    let lines = lines_for_zeros-append block [] in
    rw⁻¹ (append-nil buf) (
      rw
        (
          whole,
          lines,
          write_at-none (map line_for_zero block ++ []) (length block) 0 []
              (omega (arith, length-append (map line_for_zero block) [], length-map block)),
        )
        refl)

not_empty : (c : ℕ) (rest : List ℕ) → (length (take buf_size (c ∷ rest)) == 0) ≡ false
not_empty c rest = ground arith

-- The first round for a file that is not empty.
copy_blocks-round :
    (fuel : ℕ) (c : ℕ) (rest buf out buf' text : List ℕ)
    → put_block buf (take buf_size (c ∷ rest)) ≡ some (buf', text)
    → copy_blocks (suc fuel) (c ∷ rest) buf out
      ≡ copy_blocks fuel (drop buf_size (c ∷ rest)) buf' (out ++ text)
unfolding copy_blocks
copy_blocks-round fuel c rest buf out buf' text e =
    ap
      (λ b.
        if b
        then copied out
        else unless_fault (put_block buf (take buf_size (c ∷ rest)))
            (λ b t. copy_blocks fuel (drop buf_size (c ∷ rest)) b (out ++ t)))
      (not_empty c rest)
    ∙ ap (λ r. unless_fault r (λ b t. copy_blocks fuel (drop buf_size (c ∷ rest)) b (out ++ t))) e

copy_blocks-fault :
    (fuel : ℕ) (c : ℕ) (rest buf out : List ℕ)
    → put_block buf (take buf_size (c ∷ rest)) ≡ none
    → copy_blocks (suc fuel) (c ∷ rest) buf out ≡ fault
unfolding copy_blocks
copy_blocks-fault fuel c rest buf out e =
    ap
      (λ b.
        if b
        then copied out
        else unless_fault (put_block buf (take buf_size (c ∷ rest)))
            (λ b t. copy_blocks fuel (drop buf_size (c ∷ rest)) b (out ++ t)))
      (not_empty c rest)
    ∙ ap (λ r. unless_fault r (λ b t. copy_blocks fuel (drop buf_size (c ∷ rest)) b (out ++ t))) e

copy_blocks-done : (fuel : ℕ) (buf out : List ℕ) → copy_blocks (suc fuel) [] buf out ≡ copied out
unfolding copy_blocks
copy_blocks-done fuel buf out = refl

-- With a buffer of 768 bytes and fuel for two rounds, read_file of a file that opens copies it whole,
-- a newline for every byte 0, if it has fewer than 768 bytes, whatever was in the buffer; of any
-- longer file, the first round stores a 0 behind the end of the buffer.
pub read_file-copies :
    (fuel : ℕ) (content buf : List ℕ)
    → 2 ≤ fuel
    → length buf ≡ buf_size
    → read_file fuel true true content buf
      ≡ (if ltb (length content) buf_size then copied (map line_for_zero content) else fault)
unfolding read_file
read_file-copies zero content buf enough size = absurd (omega arith)
read_file-copies (suc zero) content buf enough size = absurd (omega arith)
read_file-copies (suc (suc fuel)) [] buf enough size = copy_blocks-done (suc fuel) buf []
read_file-copies (suc (suc fuel)) (c ∷ rest) buf enough size =
    elim (dec_lt (length (c ∷ rest)) buf_size) [
      | yes short ↦
          let fits : ltb (length (c ∷ rest)) buf_size ≡ true = ground arith in
          let (buf', e) = put_block-short buf (c ∷ rest) (omega arith) in
          rw fits (
            copy_blocks-round (suc fuel) c rest buf [] buf' (map line_for_zero (c ∷ rest))
              (ap (put_block buf) (take-all buf_size (c ∷ rest) (omega arith)) ∙ e)
            ∙ ap (λ l. copy_blocks (suc fuel) l buf' (map line_for_zero (c ∷ rest)))
                (drop-all buf_size (c ∷ rest) (omega arith))
            ∙ copy_blocks-done fuel buf' (map line_for_zero (c ∷ rest)))
      | no long ↦
          let over : ltb (length (c ∷ rest)) buf_size ≡ false = ground arith in
          rw over (
            copy_blocks-fault (suc fuel) c rest buf [] (
              put_block-full buf (take buf_size (c ∷ rest))
                (length-take buf_size (c ∷ rest) (omega arith) ∙ sym size)))
    ]
