-- ===== src/Memory/Laws.antt =====
-- Blocks taken apart: what a write changes, where a string ends, and when an access faults.
use mathlib.Core.Option
use mathlib.Core.List.{append_assoc}
use native.Mathlib.Nat.{zero-add, suc-add}
use os_bmstu.Common.{
  ℕ, zero, suc, ◌+◌, ◌<◌, ◌≡◌, refl, ap, none, some, List, [], ◌∷◌, ◌++◌, length, length-append,
  arith, Option-cases, inl, inr,
}
use os_bmstu.Memory.{overwrite, write_at, poke_before, c_string, string_at, strcat, zeros, NonZero}

pub length-zeros : (n : ℕ) → length (zeros n) ≡ n
length-zeros zero = refl
length-zeros (suc n) = ap suc (length-zeros n)

pub zeros-append : (m n : ℕ) → zeros (m + n) ≡ zeros m ++ zeros n
zeros-append zero n = rw zero-add refl
zeros-append (suc m) n = rw (suc-add m n, zeros-append m n) refl

pub NonZero-append : (xs ys : List ℕ) → NonZero xs → NonZero ys → NonZero (xs ++ ys)
NonZero-append [] ys hx hy = hy
NonZero-append (x ∷ xs) ys hx hy = (hx.0, NonZero-append xs ys hx.1 hy)

pub overwrite-append :
    (old new rest : List ℕ)
    → length old ≡ length new
    → overwrite (old ++ rest) new ≡ some (new ++ rest)
unfolding overwrite
overwrite-append [] [] rest h = refl
overwrite-append [] (n ∷ new) rest h = absurd (omega arith)
overwrite-append (o ∷ old) [] rest h = absurd (omega arith)
overwrite-append (o ∷ old) (n ∷ new) rest h = rw (overwrite-append old new rest (omega arith))

-- A write replaces as many bytes as it brings.
pub write_at-append :
    (before old new rest : List ℕ)
    → length old ≡ length new
    → write_at (before ++ (old ++ rest)) (length before) new ≡ some (before ++ (new ++ rest))
unfolding write_at
write_at-append [] old new rest h = overwrite-append old new rest h
write_at-append (x ∷ before) old new rest h = rw (write_at-append before old new rest h) refl

overwrite-none : (mem bs : List ℕ) → length mem < length bs → overwrite mem bs ≡ none
unfolding overwrite
overwrite-none [] [] h = absurd (omega arith)
overwrite-none [] (b ∷ bs) h = refl
overwrite-none (x ∷ mem) [] h = absurd (omega arith)
overwrite-none (x ∷ mem) (b ∷ bs) h = rw (overwrite-none mem bs (omega arith))

-- A write of at least one byte that ends past the block is a fault.
pub write_at-none :
    (mem : List ℕ) (i : ℕ) (b : ℕ) (bs : List ℕ)
    → length mem < i + length (b ∷ bs)
    → write_at mem i (b ∷ bs) ≡ none
unfolding write_at
write_at-none mem zero b bs h = overwrite-none mem (b ∷ bs) (omega arith)
write_at-none [] (suc i) b bs h = refl
write_at-none (x ∷ mem) (suc i) b bs h = rw (write_at-none mem i b bs (omega arith))

overwrite-length :
    (mem bs : List ℕ) {mem' : List ℕ} → overwrite mem bs ≡ some mem' → length mem' ≡ length mem
unfolding overwrite
overwrite-length mem [] e = ground arith
overwrite-length [] (b ∷ bs) e = cc
overwrite-length (x ∷ mem) (b ∷ bs) e = elim (Option-cases (overwrite mem bs)) [
  | inl fault ↦ absurd (cc (rw fault at e))
  | inr (r, ok) ↦ ground (arith, overwrite-length mem bs ok)
]

-- A write leaves the block as long as it was.
pub write_at-length :
    (mem : List ℕ) (i : ℕ) (bs : List ℕ) {mem' : List ℕ}
    → write_at mem i bs ≡ some mem'
    → length mem' ≡ length mem
unfolding write_at
write_at-length mem zero bs e = overwrite-length mem bs e
write_at-length [] (suc i) [] e = ground arith
write_at-length [] (suc i) (b ∷ bs) e = cc
write_at-length (x ∷ mem) (suc i) bs e = elim (Option-cases (write_at mem i bs)) [
  | inl fault ↦ absurd (cc (rw fault at e))
  | inr (r, ok) ↦ ground (arith, write_at-length mem i bs ok)
]

pub c_string-append : (s rest : List ℕ) → NonZero s → c_string (s ++ 0 ∷ rest) ≡ some s
unfolding c_string
c_string-append [] rest h = refl
c_string-append (x ∷ s) rest h = ground (arith, c_string-append s rest h.1)

-- The string at an offset is the bytes up to the next 0.
pub string_at-append :
    (before s rest : List ℕ)
    → NonZero s
    → string_at (before ++ (s ++ 0 ∷ rest)) (length before) ≡ some s
unfolding string_at
string_at-append [] s rest h = c_string-append s rest h
string_at-append (x ∷ before) s rest h = string_at-append before s rest h

pub string_at-end : (mem : List ℕ) → string_at mem (length mem) ≡ none
unfolding string_at c_string
string_at-end [] = refl
string_at-end (x ∷ mem) = string_at-end mem

-- Writing a byte string into zeroed memory behind `before`.
pub write_at-zeros :
    (before bytes : List ℕ) (rest : ℕ)
    → write_at (before ++ zeros (length bytes + rest)) (length before) bytes
      ≡ some (before ++ (bytes ++ zeros rest))
write_at-zeros before bytes rest =
    rw zeros-append (
      write_at-append before (zeros (length bytes)) bytes (zeros rest)
        (length-zeros (length bytes)))

-- Replacing the byte behind `before ++ body`, addressed by the index after it.
pub poke_before-append :
    (before body : List ℕ) (old new k : ℕ) (rest : List ℕ)
    → k ≡ length before + (length body + 1)
    → poke_before (before ++ (body ++ old ∷ rest)) k new ≡ some (before ++ (body ++ new ∷ rest))
unfolding poke_before
poke_before-append before body old new k rest e =
    rw (index, ← append_assoc, ← append_assoc)
      (write_at-append (before ++ body) (old ∷ []) (new ∷ []) rest refl)
  where
    index : k ≡ suc (length (before ++ body))
    index = omega (arith, length-append before body)

-- An index behind the block is a fault too.
pub poke_before-none : (mem : List ℕ) (k v : ℕ) → length mem < k → poke_before mem k v ≡ none
unfolding poke_before
poke_before-none mem zero v h = refl
poke_before-none mem (suc k) v h = write_at-none mem k v [] (omega arith)

pub poke_before-length :
    (mem : List ℕ) (k v : ℕ) {mem' : List ℕ}
    → poke_before mem k v ≡ some mem'
    → length mem' ≡ length mem
unfolding poke_before
poke_before-length mem zero v e = cc
poke_before-length mem (suc k) v e = write_at-length mem k (v ∷ []) e

pub strcat-length :
    (mem s : List ℕ) {mem' : List ℕ} → strcat mem s ≡ some mem' → length mem' ≡ length mem
unfolding strcat Option.bind
strcat-length mem s e = elim (Option-cases (c_string mem)) [
  | inl endless ↦ absurd (cc (rw endless at e))
  | inr (t, found) ↦ write_at-length mem (length t) (s ++ 0 ∷ []) (rw found at e)
]
