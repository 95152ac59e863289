-- ===== src/Walk/Older/Versions.antt =====
-- The two versions of the walk agree where nothing is refused.
use os_bmstu.Common.{
  ℕ, ◌+◌, ◌≡◌, ◌∙◌, refl, sym, ap, true, false, ◌&&◌, Bool, some, inl, inr, arith,
}
use os_bmstu.Walk
use os_bmstu.Walk.{FileSystem, Output, indent, folder, opened, closed, Ret, ok, minus_one, Walked}
use os_bmstu.Walk.Trees.{
  Tree, Entries, unknown, file, locked, folder_of, done, itself, parent, entry, name_of, readable,
  all_readable, listing, all_listings, StandsIn, Shallow,
}
use os_bmstu.Walk.Correct.{dopath-listing}
use os_bmstu.Walk.Older
use os_bmstu.Walk.Older.Everything.{full_listing, all_full, dopath-full_listing}

&&-true : (a b : Bool) → (a && b) ≡ true → (a ≡ true) × (b ≡ true)
&&-true true b e = (refl, e)
&&-true false b e = cc

mutual
  unfolding readable listing full_listing

  full_listing-readable :
      (t : Tree) (depth : ℕ) → readable t ≡ true → full_listing depth t ≡ listing depth t
  full_listing-readable (unknown n) depth e = cc
  full_listing-readable (file n) depth e = refl
  full_listing-readable (locked n) depth e = cc
  full_listing-readable (folder_of n es) depth e = rw (all_full-readable es (depth + 1) e) refl

  all_full-readable :
      (es : Entries) (depth : ℕ)
      → all_readable es ≡ true
      → all_full depth es ≡ all_listings depth es
  all_full-readable done depth e = refl
  all_full-readable (itself es) depth e = all_full-readable es depth e
  all_full-readable (parent es) depth e = all_full-readable es depth e
  all_full-readable (entry t es) depth e =
      let (first, others) = &&-true (readable t) (all_readable es) e in
      rw (full_listing-readable t depth first, all_full-readable es depth others) refl

-- For every tree that stands at the name given in the working directory, in a file system where
-- `..` leads back and closedir succeeds, whose directories are nested less deep than the fuel, and
-- of which lstat and opendir refuse no entry: dopath of
-- comment.c and dopath of main.c return the same, print the same entries in the same order, and end
-- in the same directory.
pub dopath-versions :
    (t : Tree) (fuel : ℕ) (fs : FileSystem) (depth dir : ℕ)
    → StandsIn fs dir t
    → Shallow fuel t
    → readable t ≡ true
    → Older.dopath fuel fs (name_of t) depth dir ≡ Walk.dopath fuel fs (name_of t) depth dir
dopath-versions t fuel fs depth dir stands shallow fine =
    let (w, returns, back, ends) = dopath-listing t fuel fs depth dir stands shallow in
    let same : record { ret = ok; out = full_listing depth t; cwd = dir } ≡ w = elim ends [
      | inl (e, ret, out) ↦ ground (arith, full_listing-readable t depth fine)
      | inr (e, ret) ↦ cc
    ] in
    dopath-full_listing t fuel fs depth dir stands shallow ∙ ap some same ∙ sym returns
