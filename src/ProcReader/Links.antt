-- ===== src/ProcReader/Links.antt =====
-- What read_link and read_fd of lab4_1 make of the targets of links.
use mathlib.Core.Option
use mathlib.Core.List.{append_assoc}
use mathlib.Core.Path.{subst}
use os_bmstu.Common.{
  ℕ, suc, ◌+◌, ◌≤◌, ◌≡◌, ◌∙◌, refl, sym, ap, false, true, some, List, [], ◌∷◌, ◌++◌, length,
  take-all, length-append, arith,
}
use os_bmstu.Memory.{zeros, NonZero}
use os_bmstu.Memory.Laws.{
  overwrite-append, c_string-append, zeros-append, length-zeros, NonZero-append,
}
use os_bmstu.Walk.{Name, hidden}
use os_bmstu.ProcReader.{buf_size, null_str, readlink, read_link, each_fd}

null_str-zeros : (buf : List ℕ) → null_str buf (length buf) ≡ some (zeros (length buf))
unfolding null_str
null_str-zeros [] = refl
null_str-zeros (c ∷ buf) = rw (null_str-zeros buf) refl

-- A target over a buffer that begins with as many bytes.
readlink-append :
    (old target rest : List ℕ)
    → length target ≤ buf_size
    → length old ≡ length target
    → readlink (some target) (old ++ rest) ≡ some (target ++ rest)
unfolding readlink
readlink-append old target rest small e =
    rw (take-all buf_size target small) (overwrite-append old target rest e)

-- read_link writes the target of the link, if it has fewer than 768 bytes.
pub read_link-target :
    (target buf : List ℕ) (free : ℕ)
    → length buf ≡ buf_size
    → length target + suc free ≡ buf_size
    → NonZero target
    → read_link true (some target) buf ≡ some target
unfolding read_link Option.bind
read_link-target target buf free size short good =
    rw
      (
        cleared,
        readlink-append (zeros (length target)) target (zeros (suc free)) (omega arith)
            (length-zeros (length target)),
      )
      (c_string-append target (zeros free) good)
  where
    blank :
        null_str buf (length target + suc free) ≡ some (zeros (length target) ++ zeros (suc free))
    blank =
        subst (λ n. null_str buf n ≡ some (zeros n)) (size ∙ sym short) (null_str-zeros buf)
        ∙ ap some (zeros-append (length target) (suc free))

    cleared : null_str buf buf_size ≡ some (zeros (length target) ++ zeros (suc free))
    cleared =
        subst (λ n. null_str buf n ≡ some (zeros (length target) ++ zeros (suc free))) short blank

-- read_fd does not clear its buffer: a target behind a longer one is written with the end of that
-- one.
each_fd-stale :
    (name1 name2 : Name) (target1 target2 tail old rest out : List ℕ)
    → hidden name1 ≡ false
    → hidden name2 ≡ false
    → length old ≡ length (target1 ++ tail)
    → length target1 ≡ length target2
    → length (target1 ++ tail) ≤ buf_size
    → NonZero (target1 ++ tail)
    → NonZero target2
    → NonZero tail
    → each_fd ((name1, some (target1 ++ tail)) ∷ (name2, some target2) ∷ []) (old ++ 0 ∷ rest) out
      ≡ some (((out ++ (target1 ++ tail)) ++ 10 ∷ []) ++ (target2 ++ tail) ++ 10 ∷ [])
unfolding each_fd Option.bind
each_fd-stale name1 name2 target1 target2 tail old rest out seen1 seen2 size same small good1 good2
      good =
    rw (seen1, each_fd)
      (rw
        (
          readlink-append old (target1 ++ tail) (0 ∷ rest) small size,
          c_string-append (target1 ++ tail) rest good1,
          seen2,
          second,
          c_string-append (target2 ++ tail) rest (NonZero-append target2 tail good2 good),
        )
        refl)
  where
    second :
        readlink (some target2) ((target1 ++ tail) ++ 0 ∷ rest)
        ≡ some ((target2 ++ tail) ++ 0 ∷ rest)
    second =
        rw (append_assoc target1 tail (0 ∷ rest), append_assoc target2 tail (0 ∷ rest))
          (readlink-append target1 target2 (tail ++ 0 ∷ rest)
            (omega (arith, length-append target1 tail)) same)
