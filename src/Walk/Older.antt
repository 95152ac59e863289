-- ===== src/Walk/Older.antt =====
-- sem_6/lab2/comment.c: an earlier version of the walk, which goes on after an error. The calls and
-- the results are those of Walk; `indent`, `folder` and `opened` stand for its own characters.
pub mod Everything
pub mod Versions
use mathlib.Core.Option
use os_bmstu.Common.{
  ℕ, zero, suc, ◌+◌, Bool, Option, none, some, List, [], ◌∷◌, ◌++◌, if◌then◌else◌,
}
use os_bmstu.Walk.{
  Name, FileSystem, stat_error, directory, other, FileType, ftw_f, ftw_d, ftw_dnr, ftw_ns, Output,
  indent, plain, folder, opened, closed, no_access, no_stat, unknown_type, not_closing,
  wrong_arguments, program, Ret, ok, dot_dot, Walked, read_all,
}

-- `print_info`, which returns 0 in every case; the cases for errors run on into the next.
abbrev pub lines_of : Name → FileType → List Output
lines_of name ftw_f = plain name ∷ []
lines_of name ftw_d = folder name ∷ []
lines_of name ftw_dnr = no_access ∷ no_stat ∷ unknown_type ∷ []
lines_of name ftw_ns = no_stat ∷ unknown_type ∷ []

-- `return(func(filename, type))`, with what was printed before.
abbrev pub report : List Output → Name → FileType → ℕ → Walked
report out name type cwd = record { ret = ok; out = out ++ lines_of name type; cwd = cwd }

-- From the end of the loop on.
abbrev pub leave : FileSystem → Bool → ℕ → Walked → Walked
leave fs closes depth w = record {
  ret = w.ret;
  out = w.out ++ indent (depth + 1) ∷ closed ∷ (if closes then [] else not_closing ∷ []);
  cwd = fs.chdir w.cwd dot_dot;
}

-- `dopath` with `print_info` for `func`; `none` if the directories are nested deeper than `fuel`.
unfoldable pub dopath : ℕ → FileSystem → Name → ℕ → ℕ → Option Walked
unfolding read_all
dopath zero fs filename depth cwd = none
dopath (suc fuel) fs filename depth cwd = elim (fs.lstat cwd filename) [
  | stat_error ↦ some (report (indent depth ∷ []) filename ftw_ns cwd)
  | other ↦ some (report (indent depth ∷ []) filename ftw_f cwd)
  | directory ↦
      let out = indent depth ∷ lines_of filename ftw_d in
      elim (fs.opendir cwd filename) [
        | none ↦ some (report out filename ftw_dnr cwd)
        | some names ↦ Option.map (leave fs (fs.closedir cwd filename) depth) (
            read_all (λ name dir. dopath fuel fs name (depth + 1) dir) names
              record {
                ret = ok;
                out = out ++ indent depth ∷ opened ∷ [];
                cwd = fs.chdir cwd filename;
              })
      ]
]

-- `main` for the arguments from `argv[0]` on. With no other it calls `dopath` with NULL, at which
-- lstat fails; with more than one it only complains of them.
unfoldable pub main : ℕ → FileSystem → Name → List Name → ℕ → Option (Ret × List Output)
unfolding dopath
main fuel fs argv_0 [] cwd =
    some (ok, wrong_arguments ∷ program argv_0 ∷ (report (indent 0 ∷ []) [] ftw_ns cwd).out)
main fuel fs argv_0 (argv_1 ∷ []) cwd =
    Option.map (λ w. (w.ret, program argv_0 ∷ w.out)) (dopath fuel fs argv_1 0 cwd)
main fuel fs argv_0 (argv_1 ∷ argv_2 ∷ more) cwd =
    Option.map (λ w. (w.ret, wrong_arguments ∷ program argv_0 ∷ w.out))
      (dopath fuel fs argv_1 0 cwd)
