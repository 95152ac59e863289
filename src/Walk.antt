-- ===== src/Walk.antt =====
-- sem_6/lab2: a walk over a directory tree that prints it, as main.c has it; Walk/Older.antt has
-- comment.c. The calls of the file system are parameters; a directory is known by its inode number.
pub mod Trees
pub mod Correct
pub mod Older
mod Examples
use mathlib.Core.Option
use os_bmstu.Common.{
  ℕ, zero, suc, ◌+◌, Bool, true, false, Option, none, some, List, [], ◌∷◌, ◌++◌, ◌==◌, ◌&&◌, ◌||◌,
  if◌then◌else◌,
}

-- The bytes of a name without its 0.
abbrev pub Name : Type 0
Name = List ℕ

-- `lstat`: it fails, `S_ISDIR` holds, or it does not.
pub data Stat : Type 0 where
  stat_error : Stat
  directory : Stat
  other : Stat

-- The calls of `dopath`, each in a working directory: `opendir` gives what `readdir` then returns
-- one by one, `chdir` the new working directory, `closedir` whether it succeeds.
pub record FileSystem : Type 0 where
  pub lstat : ℕ → Name → Stat
  pub opendir : ℕ → Name → Option (List Name)
  pub chdir : ℕ → Name → ℕ
  pub closedir : ℕ → Name → Bool

-- `FTW_F`, `FTW_D`, `FTW_DNR`, `FTW_NS`.
pub data FileType : Type 0 where
  ftw_f : FileType
  ftw_d : FileType
  ftw_dnr : FileType
  ftw_ns : FileType

-- What the program prints, and what it reports by `perror`.
pub data Output : Type 0 where
  indent : (n : ℕ) → Output
  plain : (name : Name) → Output
  folder : (name : Name) → Output
  opened : Output
  closed : Output
  no_access : Output
  no_stat : Output
  unknown_type : Output
  not_closing : Output
  wrong_arguments : Output
  program : (name : Name) → Output

-- The results 0 and -1.
pub data Ret : Type 0 where
  ok : Ret
  minus_one : Ret

unfoldable pub print_info : Name → FileType → Ret × List Output
print_info name ftw_f = (ok, plain name ∷ [])
print_info name ftw_d = (ok, folder name ∷ [])
print_info name ftw_dnr = (minus_one, no_access ∷ [])
print_info name ftw_ns = (minus_one, no_stat ∷ [])

-- `strcmp(a, b) == 0`.
unfoldable pub same : Name → Name → Bool
same [] [] = true
same [] (y ∷ b) = false
same (x ∷ a) [] = false
same (x ∷ a) (y ∷ b) = x == y && same a b

abbrev pub dot : Name
dot = b'.' ∷ []

abbrev pub dot_dot : Name
dot_dot = b'.' ∷ b'.' ∷ []

unfoldable pub hidden : Name → Bool
unfolding same
hidden name = same name dot || same name dot_dot

-- What a call of `dopath` returns, prints, and leaves as the working directory.
pub record Walked : Type 0 where
  pub ret : Ret
  pub out : List Output
  pub cwd : ℕ

-- `return(func(filename, type))`, with what was printed before.
unfoldable pub report : List Output → Name → FileType → ℕ → Walked
unfolding print_info
report out name type cwd =
    let (ret, line) = print_info name type in record { ret = ret; out = out ++ line; cwd = cwd }

-- The loop over `readdir`, with what was printed before it in the first `Walked`.
unfoldable pub read_all : (Name → ℕ → Option Walked) → List Name → Walked → Option Walked
read_all visit [] w = some w
read_all visit (name ∷ names) w = elim w.ret [
  | minus_one ↦ some w
  | ok ↦ elim (hidden name) [
    | true ↦ read_all visit names w
    | false ↦
        Option.bind (visit name w.cwd) λ v. read_all visit names (record v { out = w.out ++ v.out })
  ]
]

-- From the end of the loop on.
unfoldable pub leave : FileSystem → Bool → ℕ → Walked → Walked
leave fs closes depth w = record {
  ret = if closes then w.ret else minus_one;
  out = w.out ++ indent (depth + 1) ∷ closed ∷ (if closes then [] else not_closing ∷ []);
  cwd = fs.chdir w.cwd dot_dot;
}

-- `dopath` with `print_info` for `func`; `none` if the directories are nested deeper than `fuel`.
unfoldable pub dopath : ℕ → FileSystem → Name → ℕ → ℕ → Option Walked
unfolding report read_all leave print_info
dopath zero fs filename depth cwd = none
dopath (suc fuel) fs filename depth cwd = elim (fs.lstat cwd filename) [
  | stat_error ↦ some (report (indent depth ∷ []) filename ftw_ns cwd)
  | other ↦ some (report (indent depth ∷ []) filename ftw_f cwd)
  | directory ↦
      let out = indent depth ∷ (print_info filename ftw_d).1 in
      elim (fs.opendir cwd filename) [
        | none ↦ some (report out filename ftw_dnr cwd)
        | some names ↦ Option.map (leave fs (fs.closedir cwd filename) depth) (
            read_all (λ name dir. dopath fuel fs name (depth + 1) dir) names
              record {
                ret = ok;
                out = out ++ indent depth ∷ opened ∷ [];
                cwd = fs.chdir cwd filename;
              })
      ]
]

-- `main`: the arguments, and the exit code with what was printed.
unfoldable pub main : ℕ → FileSystem → List Name → ℕ → Option (Ret × List Output)
unfolding dopath
main fuel fs (argv_0 ∷ argv_1 ∷ []) cwd =
    Option.map (λ w. (w.ret, program argv_0 ∷ w.out)) (dopath fuel fs argv_1 0 cwd)
main fuel fs _ cwd = some (minus_one, wrong_arguments ∷ [])
