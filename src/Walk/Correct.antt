-- ===== src/Walk/Correct.antt =====
-- The walk prints a readable tree as its listing, and returns to the directory it began in.
use mathlib.Core.Option
use mathlib.Core.List.{append-nil, append_assoc}
use os_bmstu.Common.{
  ◌⊎◌, ◌∙◌, ap, ℕ, zero, suc, ◌+◌, ◌≡◌, refl, sym, true, false, Bool-cases, some, List, [], ◌∷◌,
  ◌++◌, inl, inr, arith,
}
use os_bmstu.Walk.{
  Name, FileSystem, Output, indent, folder, opened, ok, minus_one, Walked, hidden, same, read_all,
  dopath, leave, print_info, report,
}
use os_bmstu.Walk.Trees.{
  Tree, Entries, unknown, file, locked, folder_of, done, itself, parent, entry, name_of, names,
  StandsIn, AllStandIn, readable, all_readable, Shallow, AllShallow, listing, all_listings, status,
}

-- After an error the loop reads no further name.
read_all-minus_one :
    (visit : Name → ℕ → Option.Option Walked) (ns : List Name) (w : Walked)
    → w.ret ≡ minus_one
    → read_all visit ns w ≡ some w
unfolding read_all
read_all-minus_one visit [] w e = refl
read_all-minus_one visit (n ∷ ns) w e = rw e refl

-- The results of a call for a tree, and of the loop over entries.
record Visit (fuel : ℕ) (fs : FileSystem) (depth dir : ℕ) (t : Tree) : Type 0 where
  w : Walked
  returns : dopath fuel fs (name_of t) depth dir ≡ some w
  ret : w.ret ≡ status (readable t)
  back : w.cwd ≡ dir
  out : readable t ≡ true → w.out ≡ listing depth t

record Visits (fuel : ℕ) (fs : FileSystem) (depth dir : ℕ) (before : List Output) (es : Entries)
    : Type 0 where
  w : Walked
  returns :
      read_all
        (λ name d. dopath fuel fs name depth d)
        (names es)
        (record { ret = ok; out = before; cwd = dir })
      ≡ some w
  ret : w.ret ≡ status (all_readable es)
  back : w.cwd ≡ dir
  out : all_readable es ≡ true → w.out ≡ before ++ all_listings depth es

visit_file :
    (fuel : ℕ) (fs : FileSystem) (depth dir : ℕ) (n : Name)
    → StandsIn fs dir (file n)
    → Shallow fuel (file n)
    → Visit fuel fs depth dir (file n)
unfolding dopath report print_info StandsIn Shallow readable listing
visit_file zero fs depth dir n stands shallow = absurd (omega arith)
visit_file (suc fuel) fs depth dir n stands shallow = record {
  w = record { ret = ok; out = listing depth (file n); cwd = dir };
  returns = rw (stands, dopath) refl;
  ret = refl;
  back = refl;
  out = λ e. refl;
}

visit_unknown :
    (fuel : ℕ) (fs : FileSystem) (depth dir : ℕ) (n : Name)
    → StandsIn fs dir (unknown n)
    → Shallow fuel (unknown n)
    → Visit fuel fs depth dir (unknown n)
unfolding dopath report print_info StandsIn Shallow readable listing
visit_unknown zero fs depth dir n stands shallow = absurd (omega arith)
visit_unknown (suc fuel) fs depth dir n stands shallow = record {
  w = record { ret = minus_one; out = indent depth ∷ Output.no_stat ∷ []; cwd = dir };
  returns = rw (stands, dopath) refl;
  ret = refl;
  back = refl;
  out = λ e. ground arith;
}

visit_locked :
    (fuel : ℕ) (fs : FileSystem) (depth dir : ℕ) (n : Name)
    → StandsIn fs dir (locked n)
    → Shallow fuel (locked n)
    → Visit fuel fs depth dir (locked n)
unfolding dopath report print_info StandsIn Shallow readable listing
visit_locked zero fs depth dir n stands shallow = absurd (omega arith)
visit_locked (suc fuel) fs depth dir n (is_dir, refused) shallow = record {
  w = record { ret = minus_one; out = indent depth ∷ folder n ∷ Output.no_access ∷ []; cwd = dir };
  returns = rw (is_dir, dopath) (rw (refused, dopath) refl);
  ret = refl;
  back = refl;
  out = λ e. ground arith;
}

-- One entry, then the others.
visit_entry :
    (fuel : ℕ) (fs : FileSystem) (depth dir : ℕ) (before : List Output) (t : Tree) (es : Entries)
    → hidden (name_of t) ≡ false
    → Visit fuel fs depth dir t
    → ((out : List Output) → Visits fuel fs depth dir out es)
    → Visits fuel fs depth dir before (entry t es)
unfolding read_all all_readable all_listings Option.bind
visit_entry fuel fs depth dir before t es seen v others = elim (Bool-cases (readable t)) [
  | inl fine ↦
      let vs = others (before ++ v.w.out) in
      record {
        w = vs.w;
        returns = rw (seen, read_all) (rw (v.returns, v.ret, fine, v.back) vs.returns);
        ret = rw fine vs.ret;
        back = vs.back;
        out = λ e. rw (vs.out (ground arith), v.out fine) (append_assoc before (listing depth t) _);
      }
  | inr refused ↦ record {
    w = record v.w { out = before ++ v.w.out };
    returns =
        rw (seen, read_all)
          (rw v.returns (
            read_all-minus_one _ (names es) (record v.w { out = before ++ v.w.out })
              (rw (v.ret, refused) refl)));
    ret = rw (refused, v.ret, refused) refl;
    back = v.back;
    out = λ e. ground arith;
  }
]

visit_done :
    (fuel : ℕ) (fs : FileSystem) (depth dir : ℕ) (before : List Output)
    → Visits fuel fs depth dir before done
unfolding read_all all_readable all_listings
visit_done fuel fs depth dir before = record {
  w = record { ret = ok; out = before; cwd = dir };
  returns = refl;
  ret = refl;
  back = refl;
  out = λ e. sym (append-nil before);
}

-- `.` and `..` are passed over.
visit_itself :
    (fuel : ℕ) (fs : FileSystem) (depth dir : ℕ) (before : List Output) (es : Entries)
    → Visits fuel fs depth dir before es
    → Visits fuel fs depth dir before (itself es)
unfolding read_all hidden same all_readable all_listings
visit_itself fuel fs depth dir before es vs = record {
  w = vs.w;
  returns = vs.returns;
  ret = vs.ret;
  back = vs.back;
  out = vs.out;
}

visit_parent :
    (fuel : ℕ) (fs : FileSystem) (depth dir : ℕ) (before : List Output) (es : Entries)
    → Visits fuel fs depth dir before es
    → Visits fuel fs depth dir before (parent es)
unfolding read_all hidden same all_readable all_listings
visit_parent fuel fs depth dir before es vs = record {
  w = vs.w;
  returns = vs.returns;
  ret = vs.ret;
  back = vs.back;
  out = vs.out;
}

-- A directory, given the loop over its entries.
visit_folder :
    (fuel : ℕ) (fs : FileSystem) (depth dir : ℕ) (n : Name) (es : Entries)
    → StandsIn fs dir (folder_of n es)
    → ((before : List Output) → Visits fuel fs (depth + 1) (fs.chdir dir n) before es)
    → Visit (suc fuel) fs depth dir (folder_of n es)
unfolding dopath report print_info leave StandsIn Shallow readable listing
visit_folder fuel fs depth dir n es (is_dir, listed, closes, back, inside) loop =
    let vs = loop (indent depth ∷ folder n ∷ indent depth ∷ opened ∷ []) in
    record {
      w = leave fs true depth vs.w;
      returns = rw (is_dir, dopath) (rw (listed, dopath) (rw (vs.returns, closes) refl));
      ret = vs.ret;
      back = rw (vs.back, back) refl;
      out = λ e. rw (vs.out e) refl;
    }

mutual
  unfolding StandsIn AllStandIn Shallow AllShallow

  visit :
      (t : Tree) (fuel : ℕ) (fs : FileSystem) (depth dir : ℕ)
      → StandsIn fs dir t
      → Shallow fuel t
      → Visit fuel fs depth dir t
  visit (unknown n) fuel fs depth dir stands shallow =
      visit_unknown fuel fs depth dir n stands shallow
  visit (file n) fuel fs depth dir stands shallow = visit_file fuel fs depth dir n stands shallow
  visit (locked n) fuel fs depth dir stands shallow =
      visit_locked fuel fs depth dir n stands shallow
  visit (folder_of n es) fuel fs depth dir stands (k, e, shallow) = rw e (
      visit_folder k fs depth dir n es stands
        (λ before. visit_all es k fs (depth + 1) (fs.chdir dir n) before stands.4 shallow))

  visit_all :
      (es : Entries) (fuel : ℕ) (fs : FileSystem) (depth dir : ℕ) (before : List Output)
      → AllStandIn fs dir es
      → AllShallow fuel es
      → Visits fuel fs depth dir before es
  visit_all done fuel fs depth dir before stand shallow = visit_done fuel fs depth dir before
  visit_all (itself es) fuel fs depth dir before stand shallow =
      visit_itself fuel fs depth dir before es (visit_all es fuel fs depth dir before stand shallow)
  visit_all (parent es) fuel fs depth dir before stand shallow =
      visit_parent fuel fs depth dir before es (visit_all es fuel fs depth dir before stand shallow)
  visit_all (entry t es) fuel fs depth dir before (seen, stands, stand) (small, shallow) =
      visit_entry fuel fs depth dir before t es seen (visit t fuel fs depth dir stands small)
        (λ out. visit_all es fuel fs depth dir out stand shallow)

-- For every tree that stands at the name given in the working directory, in a file system where
-- `..` leads back and closedir succeeds, and whose directories are nested less deep than the fuel:
-- dopath returns, in the working directory that it began in. Either lstat and opendir refuse no
-- entry of the tree, and it returns 0 and has printed the listing of the tree, every entry once, in
-- preorder, with `.` and `..` left out; or they refuse an entry, and it returns -1.
pub dopath-listing :
    (t : Tree) (fuel : ℕ) (fs : FileSystem) (depth dir : ℕ)
    → StandsIn fs dir t
    → Shallow fuel t
    → (w : Walked) × (dopath fuel fs (name_of t) depth dir ≡ some w)
      × (w.cwd ≡ dir)
      × (((readable t ≡ true) × (w.ret ≡ ok) × (w.out ≡ listing depth t))
          ⊎ ((readable t ≡ false) × (w.ret ≡ minus_one)))
dopath-listing t fuel fs depth dir stands shallow =
    let v = visit t fuel fs depth dir stands shallow in
    (
      v.w,
      v.returns,
      v.back,
      elim (Bool-cases (readable t)) [
        | inl fine ↦ inl (fine, v.ret ∙ ap status fine, v.out fine)
        | inr refused ↦ inr (refused, v.ret ∙ ap status refused)
      ],
    )
