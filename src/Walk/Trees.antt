-- ===== src/Walk/Trees.antt =====
-- Trees of directories, apart from the calls that read them: what a file system must answer for a
-- tree to stand at a name, and the listing of a tree.
use os_bmstu.Common.{
  ℕ, suc, ◌+◌, ◌<◌, ◌≡◌, Bool, true, false, ◌&&◌, none, some, List, [], ◌∷◌, ◌++◌,
}
use os_bmstu.Walk.{
  Name, FileSystem, stat_error, directory, other, dot, dot_dot, hidden, Output, indent, plain,
  folder, opened, closed, Ret, ok, minus_one,
}

-- A tree is an entry that `lstat` refuses, a file, a directory that `opendir` refuses, or a
-- directory with its entries. Entries stand in the order of `readdir`, with `.` and `..` anywhere.
mutual
  pub data Tree : Type 0 where
    unknown : Name → Tree
    file : Name → Tree
    locked : Name → Tree
    folder_of : Name → Entries → Tree

  pub data Entries : Type 0 where
    done : Entries
    itself : Entries → Entries
    parent : Entries → Entries
    entry : Tree → Entries → Entries

abbrev pub name_of : Tree → Name
name_of (unknown n) = n
name_of (file n) = n
name_of (locked n) = n
name_of (folder_of n es) = n

abbrev pub names : Entries → List Name
names done = []
names (itself es) = dot ∷ names es
names (parent es) = dot_dot ∷ names es
names (entry t es) = name_of t ∷ names es

-- The tree stands at its name in the directory `dir` of the file system: the calls answer for it,
-- `..` leads back from every directory, and `closedir` succeeds.
unfoldable mutual
  pub StandsIn : FileSystem → ℕ → Tree → Type 0
  StandsIn fs dir (unknown n) = fs.lstat dir n ≡ stat_error
  StandsIn fs dir (file n) = fs.lstat dir n ≡ other
  StandsIn fs dir (locked n) = (fs.lstat dir n ≡ directory) × (fs.opendir dir n ≡ none)
  StandsIn fs dir (folder_of n es) =
      (fs.lstat dir n ≡ directory)
      × (fs.opendir dir n ≡ some (names es))
      × (fs.closedir dir n ≡ true)
      × (fs.chdir (fs.chdir dir n) dot_dot ≡ dir)
      × AllStandIn fs (fs.chdir dir n) es

  pub AllStandIn : FileSystem → ℕ → Entries → Type 0
  AllStandIn fs dir done = Unit {0}
  AllStandIn fs dir (itself es) = AllStandIn fs dir es
  AllStandIn fs dir (parent es) = AllStandIn fs dir es
  AllStandIn fs dir (entry t es) =
      (hidden (name_of t) ≡ false) × StandsIn fs dir t × AllStandIn fs dir es

-- No entry is refused.
unfoldable mutual
  pub readable : Tree → Bool
  readable (unknown n) = false
  readable (file n) = true
  readable (locked n) = false
  readable (folder_of n es) = all_readable es

  pub all_readable : Entries → Bool
  all_readable done = true
  all_readable (itself es) = all_readable es
  all_readable (parent es) = all_readable es
  all_readable (entry t es) = readable t && all_readable es

-- The directories are nested less deep than `fuel`.
unfoldable mutual
  pub Shallow : ℕ → Tree → Type 0
  Shallow fuel (unknown n) = 0 < fuel
  Shallow fuel (file n) = 0 < fuel
  Shallow fuel (locked n) = 0 < fuel
  Shallow fuel (folder_of n es) = (k : ℕ) × (fuel ≡ suc k) × AllShallow k es

  pub AllShallow : ℕ → Entries → Type 0
  AllShallow fuel done = Unit {0}
  AllShallow fuel (itself es) = AllShallow fuel es
  AllShallow fuel (parent es) = AllShallow fuel es
  AllShallow fuel (entry t es) = Shallow fuel t × AllShallow fuel es

-- The lines for a tree whose name is printed at a depth: every entry once, a directory before what
-- it holds.
unfoldable mutual
  pub listing : ℕ → Tree → List Output
  listing depth (unknown n) = []
  listing depth (file n) = indent depth ∷ plain n ∷ []
  listing depth (locked n) = []
  listing depth (folder_of n es) =
      indent depth ∷ folder n ∷ indent depth ∷ opened ∷ all_listings (depth + 1) es
      ++ indent (depth + 1) ∷ closed ∷ []

  pub all_listings : ℕ → Entries → List Output
  all_listings depth done = []
  all_listings depth (itself es) = all_listings depth es
  all_listings depth (parent es) = all_listings depth es
  all_listings depth (entry t es) = listing depth t ++ all_listings depth es

abbrev pub status : Bool → Ret
status true = ok
status false = minus_one
