-- ===== src/Walk/Examples.antt =====
-- The walk on a small tree, and the theorem at it.
use mathlib.Core.Option
use os_bmstu.Common.{◌⊎◌, false, ℕ, ◌≡◌, refl, true, some, [], ◌∷◌, ◌==◌, if◌then◌else◌, arith}
use os_bmstu.Walk.{
  Name, FileSystem, Stat, stat_error, directory, other, dot, dot_dot, same, hidden, Walked, indent,
  plain, folder, opened, closed, program, ok, main, dopath, minus_one, wrong_arguments, no_stat,
  unknown_type,
}
use os_bmstu.Walk.Trees.{
  Tree, unknown, file, folder_of, done, itself, parent, entry, name_of, StandsIn, readable, Shallow,
  listing,
}
use os_bmstu.Walk.Correct.{dopath-listing}
use os_bmstu.Walk.Older
use os_bmstu.Walk.Older.Everything.{full_listing, dopath-full_listing}
use os_bmstu.Walk.Older.Versions.{dopath-versions}

-- Directory 1 holds `d`, directory 2, which holds the file `f`.
abbrev lstat : ℕ → Name → Stat
lstat dir name =
    if dir == 1
    then (if same name (b'd' ∷ []) then directory else stat_error)
    else (if same name (b'f' ∷ []) then other else stat_error)

abbrev small : FileSystem
small = record {
  lstat = lstat;
  opendir = λ dir name. some (dot ∷ (b'f' ∷ []) ∷ dot_dot ∷ []);
  chdir = λ dir name. if same name dot_dot then 1 else 2;
  closedir = λ dir name. true;
}

abbrev tree : Tree
tree = folder_of (b'd' ∷ []) (itself (entry (file (b'f' ∷ [])) (parent done)))

main-small :
    main 2 small ((b'm' ∷ []) ∷ (b'd' ∷ []) ∷ []) 1
    ≡ some (
      ok,
      program (b'm' ∷ [])
          ∷ indent 0
          ∷ folder (b'd' ∷ [])
          ∷ indent 0
          ∷ opened
          ∷ indent 1
          ∷ plain (b'f' ∷ [])
          ∷ indent 1
          ∷ closed
          ∷ [],
    )
unfolding main same hidden Option.bind
main-small = refl

main-no_argument : main 2 small ((b'm' ∷ []) ∷ []) 1 ≡ some (minus_one, wrong_arguments ∷ [])
unfolding main
main-no_argument = refl

dopath-listing_example :
    (w : Walked) × (dopath 2 small (name_of tree) 0 1 ≡ some w)
    × (w.cwd ≡ 1)
    × (((readable tree ≡ true) × (w.ret ≡ ok) × (w.out ≡ listing 0 tree))
        ⊎ ((readable tree ≡ false) × (w.ret ≡ minus_one)))
unfolding StandsIn same hidden Shallow
dopath-listing_example =
    dopath-listing tree 2 small 0 1 (refl, refl, refl, refl, (refl, refl, tt))
      (1, refl, (omega arith, tt))

dopath-versions_example :
    Older.dopath 2 small (name_of tree) 0 1 ≡ dopath 2 small (name_of tree) 0 1
unfolding StandsIn same hidden Shallow
dopath-versions_example =
    dopath-versions tree 2 small 0 1 (refl, refl, refl, refl, (refl, refl, tt))
      (1, refl, (omega arith, tt)) (unfold readable in refl)

-- Directory 1 has `x`, which lstat refuses, before the file `f`.
abbrev half : FileSystem
half = record small {
  lstat = λ dir name.
      if same name (b'd' ∷ [])
      then directory
      else if same name (b'f' ∷ [])
      then other
      else stat_error;
  opendir = λ dir name. some ((b'x' ∷ []) ∷ (b'f' ∷ []) ∷ []);
}

abbrev half_tree : Tree
half_tree = folder_of (b'd' ∷ []) (entry (unknown (b'x' ∷ [])) (entry (file (b'f' ∷ [])) done))

dopath-full_listing_example :
    Older.dopath 2 half (name_of half_tree) 0 1
    ≡ some (record { ret = ok; out = full_listing 0 half_tree; cwd = 1 })
unfolding StandsIn same hidden Shallow
dopath-full_listing_example =
    dopath-full_listing half_tree 2 half 0 1
      (refl, refl, refl, refl, (refl, refl, (refl, refl, tt)))
      (1, refl, (omega arith, (omega arith, tt)))

-- main.c stops at `x`, comment.c goes on to `f`.
stops_or_goes_on :
    (Option.map (λ (w : Walked). w.ret) (dopath 2 half (name_of half_tree) 0 1) ≡ some minus_one)
    × (Option.map (λ (w : Walked). w.ret) (Older.dopath 2 half (name_of half_tree) 0 1) ≡ some ok)
unfolding dopath same hidden Older.dopath Option.bind
stops_or_goes_on = (refl, refl)

older-no_argument :
    Older.main 2 small (b'm' ∷ []) [] 1
    ≡ some (ok, wrong_arguments ∷ program (b'm' ∷ []) ∷ indent 0 ∷ no_stat ∷ unknown_type ∷ [])
unfolding Older.main
older-no_argument = refl
