-- ===== src/ProcReader/Listing.antt =====
-- What read_fd of lab4_1 lists: the targets of the descriptors' links, each with what an earlier and
-- longer one has left behind it.
use mathlib.Core.Option
use mathlib.Core.List.{append_assoc, append-nil}
use os_bmstu.Common.{
  ℕ, zero, suc, ◌+◌, ◌<◌, ◌≡◌, ap, sym, refl, Bool-cases, inl, inr, true, Option, none, some, List,
  [], ◌∷◌, ◌++◌, if◌then◌else◌, length, take-all, arith,
}
use os_bmstu.Memory.{zeros, NonZero, overwrite}
use os_bmstu.Memory.Laws.{c_string-append}
use os_bmstu.Walk.{Name, hidden}
use os_bmstu.ProcReader.{buf_size, readlink, each_fd, read_fd}

-- A target over the text that was shown before: its end stays, if it was longer.
abbrev pub overlay : List ℕ → List ℕ → List ℕ
overlay [] shown = shown
overlay (c ∷ target) [] = c ∷ overlay target []
overlay (c ∷ target) (x ∷ shown) = c ∷ overlay target shown

-- The text for an entry; a link that cannot be read leaves the last one.
abbrev pub text_for : Option (List ℕ) → List ℕ → List ℕ
text_for none shown = shown
text_for (some target) shown = overlay target shown

-- The lines for the entries that are not hidden, `shown` being the text of the last one.
abbrev pub listing : List (Name × Option (List ℕ)) → List ℕ → List ℕ
listing [] shown = []
listing ((name, target) ∷ entries) shown =
    if hidden name
    then listing entries shown
    else text_for target shown ++ 10 ∷ listing entries (text_for target shown)

-- Every link that can be read has a target that leaves a byte of the buffer, without a byte 0.
abbrev pub IsTarget : Option (List ℕ) → Type 0
IsTarget none = Unit {0}
IsTarget (some target) = (length target < buf_size) × NonZero target

abbrev pub AllTargets : List (Name × Option (List ℕ)) → Type 0
AllTargets [] = Unit {0}
AllTargets ((name, target) ∷ entries) = IsTarget target × AllTargets entries

NonZero-overlay :
    (target shown : List ℕ) → NonZero target → NonZero shown → NonZero (overlay target shown)
NonZero-overlay [] shown good kept = kept
NonZero-overlay (c ∷ target) [] good kept = (good.0, NonZero-overlay target [] good.1 tt)
NonZero-overlay (c ∷ target) (x ∷ shown) good kept =
    (good.0, NonZero-overlay target shown good.1 kept.1)

overwrite-overlay :
    (target shown : List ℕ) (free : ℕ)
    → length target < length shown + suc free
    → (free' : ℕ) × (overwrite (shown ++ zeros (suc free)) target
        ≡ some (overlay target shown ++ zeros (suc free')))
      × (length (overlay target shown) + suc free' ≡ length shown + suc free)
unfolding overwrite
overwrite-overlay [] shown free room = (free, refl, refl)
overwrite-overlay (c ∷ target) [] zero room = absurd (omega arith)
overwrite-overlay (c ∷ target) [] (suc free) room =
    let (free', e, l) = overwrite-overlay target [] free (omega arith) in
    (free', rw e refl, omega (arith, l))
overwrite-overlay (c ∷ target) (x ∷ shown) free room =
    let (free', e, l) = overwrite-overlay target shown free (omega arith) in
    (free', rw e refl, omega (arith, l))

-- The buffer holds the last text and then zeros, and so it does after the next link.
readlink-text :
    (target : Option (List ℕ)) (shown : List ℕ) (free : ℕ)
    → IsTarget target
    → NonZero shown
    → length shown + suc free ≡ buf_size
    → (free' : ℕ) × (readlink target (shown ++ zeros (suc free))
        ≡ some (text_for target shown ++ zeros (suc free')))
      × (length (text_for target shown) + suc free' ≡ buf_size)
      × NonZero (text_for target shown)
unfolding readlink
readlink-text none shown free good kept size = (free, refl, size, kept)
readlink-text (some target) shown free (short, good) kept size =
    let (free', e, l) = overwrite-overlay target shown free (omega arith) in
    (
      free',
      rw (take-all buf_size target (omega arith)) e,
      omega arith,
      NonZero-overlay target shown good kept,
    )

each_fd-listing :
    (entries : List (Name × Option (List ℕ))) (shown : List ℕ) (free : ℕ) (out : List ℕ)
    → AllTargets entries
    → NonZero shown
    → length shown + suc free ≡ buf_size
    → each_fd entries (shown ++ zeros (suc free)) out ≡ some (out ++ listing entries shown)
unfolding each_fd Option.bind
each_fd-listing [] shown free out all kept size = ap some (sym (append-nil out))
each_fd-listing ((name, target) ∷ entries) shown free out (good, all) kept size =
    elim (Bool-cases (hidden name)) [
      | inl skipped ↦ rw (skipped, each_fd) (each_fd-listing entries shown free out all kept size)
      | inr seen ↦
          let text = text_for target shown in
          let (free', e, size', good') = readlink-text target shown free good kept size in
          rw (seen, each_fd)
            (rw
              (
                e,
                c_string-append text (zeros free') good',
                each_fd-listing entries text free' (out ++ text ++ 10 ∷ []) all good' size',
              )
              (ap some (simp append_assoc)))
    ]

-- With a buffer of zeros, read_fd lists for every entry that is not hidden the target of its link,
-- followed by the end of the text of the line before, if that was longer; the line before again, if
-- the link cannot be read.
pub read_fd-listing :
    (entries : List (Name × Option (List ℕ)))
    → AllTargets entries
    → read_fd true (some entries) (zeros buf_size) ≡ some (listing entries [])
unfolding read_fd
read_fd-listing entries all = each_fd-listing entries [] 767 [] all tt refl
