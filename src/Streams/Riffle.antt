-- ===== src/Streams/Riffle.antt =====
-- What main1.c of lab5 prints: the blocks that the two streams get in turn, riffled.
use mathlib.Core.List.{append-nil, append_assoc}
use os_bmstu.Common.{
  ℕ, zero, suc, ◌+◌, ◌≤◌, ◌≡◌, ◌⊎◌, ◌∙◌, refl, ap, Bool, true, false, ◌||◌, Option, some, List, [],
  ◌∷◌, ◌++◌, take, drop, length, length-take-drop, length-take-le, drop-nil, take-full, List-cases,
  dec_lt, occurs, occurs-append, take-drop-occurs, arith, inl, inr,
}
use os_bmstu.Streams.{Streams, buff_size, both, main1, returned}

-- Items of two lists in turn, then what is left of the longer one.
unfoldable pub riffle : List ℕ → List ℕ → List ℕ
riffle [] ys = ys
riffle (x ∷ xs) [] = x ∷ xs
riffle (x ∷ xs) (y ∷ ys) = x ∷ y ∷ riffle xs ys

-- The file in pairs of blocks, each pair riffled, for at most `k` pairs.
unfoldable pub dealt : ℕ → List ℕ → List ℕ
unfolding riffle
dealt zero file = []
dealt (suc k) file =
    riffle (take buff_size file) (take buff_size (drop buff_size file))
    ++ dealt k (drop buff_size (drop buff_size file))

riffle-nil : (xs : List ℕ) → riffle xs [] ≡ xs
unfolding riffle
riffle-nil [] = refl
riffle-nil (x ∷ xs) = refl

abbrev state : List ℕ → List ℕ → List ℕ → List ℕ → Streams
state rest buff1 buff2 out = record { rest = rest; buff1 = buff1; buff2 = buff2; out = out }

dealt-nil : (k : ℕ) → dealt k [] ≡ []
unfolding dealt riffle
dealt-nil zero = refl
dealt-nil (suc k) = dealt-nil k

-- Outputs that are put together in another order of brackets.
regroup :
    (out a b rest : List ℕ) {s : Option Streams}
    → s ≡ some (state [] [] [] (((out ++ a) ++ b) ++ rest))
    → s ≡ some (state [] [] [] (out ++ (a ++ (b ++ rest))))
regroup out a b rest e =
    e
    ∙ ap (λ l. some (state [] [] [] l))
        (append_assoc (out ++ a) b rest ∙ append_assoc out a (b ++ rest))

-- One character from the first stream, none from the second.
one_left :
    (out : List ℕ) (x : ℕ) (xs rest : List ℕ) {s : Option Streams}
    → s ≡ some (state [] [] [] (((out ++ x ∷ []) ++ []) ++ (riffle xs [] ++ rest)))
    → s ≡ some (state [] [] [] (out ++ x ∷ (xs ++ rest)))
one_left out x xs rest e =
    regroup out (x ∷ []) [] (xs ++ rest)
      (e ∙ ap (λ l. some (state [] [] [] (((out ++ x ∷ []) ++ []) ++ (l ++ rest)))) (riffle-nil xs))

-- Either the second stream gets a full block too, or it gets the end of the file.
last_block :
    (ds buff1 : List ℕ)
    → length buff1 ≡ 19
    → (length buff1 ≡ length (take 19 ds)) ⊎ (drop 19 ds ≡ [])
last_block ds buff1 full = elim (dec_lt (length (take 19 ds)) 19) [
  | yes short ↦ inr (drop-nil 19 ds short)
  | no long ↦ inl (omega (arith, length-take-le 19 ds))
]

-- The loop prints what is in the buffers and the blocks to come, and ends, if the first buffer holds
-- no less than the second, and no more unless the file is read.
both-dealt :
    (fuel k : ℕ) (flag1 flag2 : Bool) (rest buff1 buff2 out : List ℕ)
    → (flag1 || flag2) ≡ true
    → length buff2 ≤ length buff1
    → (length buff1 ≡ length buff2) ⊎ (rest ≡ [])
    → length rest ≤ k
    → length rest + length buff1 + length buff2 + 2 ≤ fuel
    → both fuel flag1 flag2 (state rest buff1 buff2 out)
      ≡ some (state [] [] [] (out ++ (riffle buff1 buff2 ++ dealt k rest)))
unfolding both riffle dealt
both-dealt zero k flag1 flag2 rest buff1 buff2 out go more level small enough = absurd (omega arith)
both-dealt (suc fuel) k flag1 flag2 rest (x ∷ xs) (y ∷ ys) out go more level small enough =
    rw (go, both)
      (regroup out (x ∷ []) (y ∷ []) (riffle xs ys ++ dealt k rest) (
        both-dealt fuel k true true rest xs ys ((out ++ x ∷ []) ++ y ∷ []) refl (omega arith)
          (ground arith) small (omega arith)))
both-dealt (suc fuel) k flag1 flag2 (c ∷ cs) (x ∷ xs) [] out go more level small enough =
    absurd (ground arith)
both-dealt (suc fuel) k flag1 flag2 [] (x ∷ xs) [] out go more level small enough =
    rw (go, both)
      (one_left out x xs (dealt k []) (
        both-dealt fuel k true false [] xs [] ((out ++ x ∷ []) ++ []) refl (omega arith) (inr refl)
          small (omega arith)))
both-dealt (suc fuel) k flag1 flag2 rest [] (y ∷ ys) out go more level small enough =
    absurd (omega arith)
both-dealt (suc zero) k flag1 flag2 [] [] [] out go more level small enough = absurd (omega arith)
both-dealt (suc (suc fuel)) k flag1 flag2 [] [] [] out go more level small enough =
    rw (go, both) (rw (dealt-nil k, append-nil out, append-nil out, both) refl)
both-dealt (suc fuel) zero flag1 flag2 (c ∷ cs) [] [] out go more level small enough =
    absurd (omega arith)
both-dealt (suc fuel) (suc k) flag1 flag2 (c ∷ cs) [] [] out go more level small enough =
    let parts = length-take-drop 19 cs in
    elim (List-cases (drop 19 cs)) [
      | inl read ↦
          rw (go, both)
            (rw read (
              one_left out c (take 19 cs) (dealt k []) (
                both-dealt fuel k true false [] (take 19 cs) [] ((out ++ c ∷ []) ++ []) refl
                  (omega arith) (inr refl) (omega arith) (omega arith))))
      | inr (d, ds, more_to_come) ↦
          let count = ap (λ (l : List ℕ). length l) more_to_come in
          let parts' = length-take-drop 19 ds in
          let full = take-full 19 cs (omega arith) in
          rw (go, both)
            (rw more_to_come (
              regroup out (c ∷ []) (d ∷ [])
                (riffle (take 19 cs) (take 19 ds) ++ dealt k (drop 19 ds))
                (both-dealt fuel k true true (drop 19 ds) (take 19 cs) (take 19 ds)
                  ((out ++ c ∷ []) ++ d ∷ []) refl (omega (arith, length-take-le 19 ds))
                  (last_block ds (take 19 cs) full) (omega arith) (omega arith))))
    ]

riffle-occurs : (a : ℕ) (xs ys : List ℕ) → occurs a (riffle xs ys) ≡ occurs a xs + occurs a ys
unfolding riffle occurs
riffle-occurs a [] ys = omega arith
riffle-occurs a (x ∷ xs) [] = omega arith
riffle-occurs a (x ∷ xs) (y ∷ ys) = omega (arith, riffle-occurs a xs ys)

dealt-occurs : (a k : ℕ) (file : List ℕ) → length file ≤ k → occurs a (dealt k file) ≡ occurs a file
unfolding dealt occurs
dealt-occurs a zero [] small = refl
dealt-occurs a zero (c ∷ cs) small = absurd (omega arith)
dealt-occurs a (suc k) [] small = dealt-occurs a k [] (omega arith)
dealt-occurs a (suc k) (c ∷ cs) small =
    let block1 = take buff_size (c ∷ cs) in
    let after1 = drop buff_size (c ∷ cs) in
    let block2 = take buff_size after1 in
    let after2 = drop buff_size after1 in
    omega (
      arith,
      occurs-append a (riffle block1 block2) (dealt k after2),
      riffle-occurs a block1 block2,
      take-drop-occurs a buff_size (c ∷ cs),
      take-drop-occurs a buff_size after1,
      dealt-occurs a k after2
          (omega (arith, length-take-drop 19 cs, length-take-drop buff_size after1)),
    )

-- The program main1.c ends for every file that opens, at the latest after two rounds more than the
-- file has bytes. It prints the file in pairs of blocks of 20 bytes, each pair riffled, the last one
-- perhaps shorter, and a newline; so it prints every byte exactly as often as the file holds it.
pub main1-dealt :
    (file : List ℕ) (fuel a : ℕ)
    → length file + 2 ≤ fuel
    → (main1 fuel (some file) ≡ some (returned (dealt (length file) file ++ 10 ∷ [])))
      × (occurs a (dealt (length file) file) ≡ occurs a file)
unfolding main1 dealt riffle
main1-dealt file fuel a enough = (
  rw
      (both-dealt fuel (length file) true true file [] [] [] refl (omega arith) (inl refl)
        (omega arith) (omega arith))
      refl,
  dealt-occurs a (length file) file (omega arith),
)
