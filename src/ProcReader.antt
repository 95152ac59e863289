-- ===== src/ProcReader.antt =====
-- sem_6/lab4_1/main.c: a program that copies what /proc/self says about it into text files. What
-- the calls find there is a parameter. A call with a null stream, and an access outside a buffer,
-- are faults.
pub mod Blocks
pub mod Links
pub mod Listing
pub mod Main
mod Examples
use mathlib.Core.Option
use os_bmstu.Common.{
  ℕ, zero, suc, ◌+◌, Bool, true, false, Option, none, some, List, [], ◌∷◌, ◌++◌, ◌==◌,
  if◌then◌else◌, take, drop, length,
}
use os_bmstu.Memory.{overwrite, write_at, c_string}
use os_bmstu.Walk.{Name, hidden}

abbrev pub buf_size : ℕ
buf_size = 768

-- `null_str`: `size` bytes from the start of the buffer are 0.
unfoldable pub null_str : List ℕ → ℕ → Option (List ℕ)
null_str str zero = some str
null_str [] (suc size) = none
null_str (c ∷ str) (suc size) = Option.map (λ r. 0 ∷ r) (null_str str size)

-- `readlink(file_path, buf, BUF_SIZE)`, where the link has this target or cannot be read: the first
-- bytes of the target are stored, with no 0 behind them.
unfoldable pub readlink : Option (List ℕ) → List ℕ → Option (List ℕ)
readlink none buf = some buf
readlink (some target) buf = overwrite buf (take buf_size target)

-- `read_link`: what is written to the text file; `fout` says whether it opens.
unfoldable pub read_link : Bool → Option (List ℕ) → List ℕ → Option (List ℕ)
read_link false target buf = none
read_link true target buf =
    Option.bind (null_str buf buf_size) λ buf'. Option.bind (readlink target buf') c_string

-- The loop of `read_fd` over the entries of the directory, each a name and the target of its link.
unfoldable pub each_fd : List (Name × Option (List ℕ)) → List ℕ → List ℕ → Option (List ℕ)
each_fd [] buf out = some out
each_fd ((name, target) ∷ entries) buf out = elim (hidden name) [
  | true ↦ each_fd entries buf out
  | false ↦
      Option.bind (readlink target buf)
        λ buf'. Option.bind (c_string buf') λ text. each_fd entries buf' (out ++ text ++ 10 ∷ [])
]

-- `read_fd`, where the directory opens, with the entries that readdir returns, or does not.
unfoldable pub read_fd : Bool → Option (List (Name × Option (List ℕ))) → List ℕ → Option (List ℕ)
unfolding each_fd
read_fd false dp buf = none
read_fd true none buf = none
read_fd true (some entries) buf = each_fd entries buf []

-- `buf[i] = 10` for each of the first `len` bytes that is 0.
unfoldable pub lines_for_zeros : ℕ → List ℕ → List ℕ
lines_for_zeros zero buf = buf
lines_for_zeros (suc len) [] = []
lines_for_zeros (suc len) (c ∷ buf) = (if c == 0 then 10 else c) ∷ lines_for_zeros len buf

-- One round of the loop of `read_file`, for the bytes that fread stored: the buffer, and the string
-- that fprintf writes.
unfoldable pub put_block : List ℕ → List ℕ → Option (List ℕ × List ℕ)
unfolding lines_for_zeros
put_block buf block = Option.bind (overwrite buf block) λ buf1.
    Option.bind (write_at (lines_for_zeros (length block) buf1) (length block) (0 ∷ []))
      λ buf2. Option.map (λ text. (buf2, text)) (c_string buf2)

-- How a copy ends.
pub data Copied : Type 0 where
  out_of_fuel : Copied
  fault : Copied
  copied : (out : List ℕ) → Copied

abbrev pub unless_fault : Option (List ℕ × List ℕ) → (List ℕ → List ℕ → Copied) → Copied
unless_fault none next = fault
unless_fault (some (buf, text)) next = next buf text

-- The loop of `read_file`, on fuel, over the rest of the file.
unfoldable pub copy_blocks : ℕ → List ℕ → List ℕ → List ℕ → Copied
copy_blocks zero rest buf out = out_of_fuel
copy_blocks (suc fuel) rest buf out =
    let block = take buf_size rest in
    let more =
      unless_fault (put_block buf block)
        (λ buf' text. copy_blocks fuel (drop buf_size rest) buf' (out ++ text)) in
    if length block == 0 then copied out else more

-- `read_file`, where the two streams open or not, for a file with these bytes.
unfoldable pub read_file : ℕ → Bool → Bool → List ℕ → List ℕ → Copied
unfolding copy_blocks
read_file fuel true true content buf = copy_blocks fuel content buf []
read_file fuel fout f content buf = fault
