-- ===== src/Walk/Older/Everything.antt =====
-- The older walk visits every entry, also behind those that are refused.
use mathlib.Core.Option
use mathlib.Core.List.{append-nil, append_assoc}
use os_bmstu.Common.{
  ℕ, zero, suc, ◌+◌, ◌≡◌, ◌∙◌, refl, sym, ap, false, some, List, [], ◌∷◌, ◌++◌, arith,
}
use os_bmstu.Walk.{
  Name, FileSystem, Output, indent, plain, folder, opened, closed, no_access, no_stat, unknown_type,
  ok, hidden, same, read_all,
}
use os_bmstu.Walk.Trees.{
  Tree, Entries, unknown, file, locked, folder_of, done, itself, parent, entry, name_of, names,
  StandsIn, AllStandIn, Shallow, AllShallow,
}
use os_bmstu.Walk.Older.{dopath}

-- The lines for a tree, with those for entries that are refused.
unfoldable mutual
  pub full_listing : ℕ → Tree → List Output
  full_listing depth (unknown n) = indent depth ∷ no_stat ∷ unknown_type ∷ []
  full_listing depth (file n) = indent depth ∷ plain n ∷ []
  full_listing depth (locked n) = indent depth ∷ folder n ∷ no_access ∷ no_stat ∷ unknown_type ∷ []
  full_listing depth (folder_of n es) =
      indent depth ∷ folder n ∷ indent depth ∷ opened ∷ all_full (depth + 1) es
      ++ indent (depth + 1) ∷ closed ∷ []

  pub all_full : ℕ → Entries → List Output
  all_full depth done = []
  all_full depth (itself es) = all_full depth es
  all_full depth (parent es) = all_full depth es
  all_full depth (entry t es) = full_listing depth t ++ all_full depth es

-- What a call for a tree returns, and the loop over entries.
abbrev Visited : ℕ → FileSystem → ℕ → ℕ → Tree → Type 0
Visited fuel fs depth dir t =
    dopath fuel fs (name_of t) depth dir
    ≡ some (record { ret = ok; out = full_listing depth t; cwd = dir })

abbrev AllVisited : ℕ → FileSystem → ℕ → ℕ → List Output → Entries → Type 0
AllVisited fuel fs depth dir before es =
    read_all (λ name d. dopath fuel fs name depth d) (names es)
      (record { ret = ok; out = before; cwd = dir })
    ≡ some (record { ret = ok; out = before ++ all_full depth es; cwd = dir })

visit_file :
    (fuel : ℕ) (fs : FileSystem) (depth dir : ℕ) (n : Name)
    → StandsIn fs dir (file n)
    → Shallow fuel (file n)
    → Visited fuel fs depth dir (file n)
unfolding dopath StandsIn Shallow full_listing
visit_file zero fs depth dir n stands shallow = absurd (omega arith)
visit_file (suc fuel) fs depth dir n stands shallow = rw (stands, dopath) refl

visit_unknown :
    (fuel : ℕ) (fs : FileSystem) (depth dir : ℕ) (n : Name)
    → StandsIn fs dir (unknown n)
    → Shallow fuel (unknown n)
    → Visited fuel fs depth dir (unknown n)
unfolding dopath StandsIn Shallow full_listing
visit_unknown zero fs depth dir n stands shallow = absurd (omega arith)
visit_unknown (suc fuel) fs depth dir n stands shallow = rw (stands, dopath) refl

visit_locked :
    (fuel : ℕ) (fs : FileSystem) (depth dir : ℕ) (n : Name)
    → StandsIn fs dir (locked n)
    → Shallow fuel (locked n)
    → Visited fuel fs depth dir (locked n)
unfolding dopath StandsIn Shallow full_listing
visit_locked zero fs depth dir n stands shallow = absurd (omega arith)
visit_locked (suc fuel) fs depth dir n (is_dir, refused) shallow =
    rw (is_dir, dopath) (rw (refused, dopath) refl)

visit_folder :
    (fuel : ℕ) (fs : FileSystem) (depth dir : ℕ) (n : Name) (es : Entries)
    → StandsIn fs dir (folder_of n es)
    → ((before : List Output) → AllVisited fuel fs (depth + 1) (fs.chdir dir n) before es)
    → Visited (suc fuel) fs depth dir (folder_of n es)
unfolding dopath StandsIn full_listing
visit_folder fuel fs depth dir n es (is_dir, listed, closes, back, inside) loop =
    rw (is_dir, dopath)
      (rw (listed, dopath)
        (rw (loop (indent depth ∷ folder n ∷ indent depth ∷ opened ∷ []), closes, back) refl))

visit_entry :
    (fuel : ℕ) (fs : FileSystem) (depth dir : ℕ) (before : List Output) (t : Tree) (es : Entries)
    → hidden (name_of t) ≡ false
    → Visited fuel fs depth dir t
    → ((out : List Output) → AllVisited fuel fs depth dir out es)
    → AllVisited fuel fs depth dir before (entry t es)
unfolding read_all full_listing Option.bind
visit_entry fuel fs depth dir before t es seen v others =
    rw (seen, read_all) (rw v (others (before ++ full_listing depth t)))
    ∙ ap (λ out. some (record { ret = ok; out = out; cwd = dir }))
        (append_assoc before (full_listing depth t) (all_full depth es))

mutual
  unfolding StandsIn AllStandIn Shallow AllShallow read_all hidden same full_listing

  visit :
      (t : Tree) (fuel : ℕ) (fs : FileSystem) (depth dir : ℕ)
      → StandsIn fs dir t
      → Shallow fuel t
      → Visited fuel fs depth dir t
  visit (unknown n) fuel fs depth dir stands shallow =
      visit_unknown fuel fs depth dir n stands shallow
  visit (file n) fuel fs depth dir stands shallow = visit_file fuel fs depth dir n stands shallow
  visit (locked n) fuel fs depth dir stands shallow =
      visit_locked fuel fs depth dir n stands shallow
  visit (folder_of n es) fuel fs depth dir stands (k, e, shallow) = rw e (
      visit_folder k fs depth dir n es stands
        (λ before. visit_all es k fs (depth + 1) (fs.chdir dir n) before stands.4 shallow))

  visit_all :
      (es : Entries) (fuel : ℕ) (fs : FileSystem) (depth dir : ℕ) (before : List Output)
      → AllStandIn fs dir es
      → AllShallow fuel es
      → AllVisited fuel fs depth dir before es
  visit_all done fuel fs depth dir before stand shallow =
      ap (λ out. some (record { ret = ok; out = out; cwd = dir })) (sym (append-nil before))
  visit_all (itself es) fuel fs depth dir before stand shallow =
      visit_all es fuel fs depth dir before stand shallow
  visit_all (parent es) fuel fs depth dir before stand shallow =
      visit_all es fuel fs depth dir before stand shallow
  visit_all (entry t es) fuel fs depth dir before (seen, stands, stand) (small, shallow) =
      visit_entry fuel fs depth dir before t es seen (visit t fuel fs depth dir stands small)
        (λ out. visit_all es fuel fs depth dir out stand shallow)

-- For every tree that stands at the name given in the working directory, in a file system where
-- `..` leads back and closedir succeeds, and whose directories are nested less deep than the fuel:
-- dopath of comment.c returns 0, in the working directory that it began in, and has printed the
-- whole tree in preorder, with `.` and `..` left out, and the messages for each entry that lstat or
-- opendir refuses in its place.
pub dopath-full_listing :
    (t : Tree) (fuel : ℕ) (fs : FileSystem) (depth dir : ℕ)
    → StandsIn fs dir t
    → Shallow fuel t
    → dopath fuel fs (name_of t) depth dir
      ≡ some (record { ret = ok; out = full_listing depth t; cwd = dir })
dopath-full_listing t fuel fs depth dir stands shallow = visit t fuel fs depth dir stands shallow
