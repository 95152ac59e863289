-- ===== src/ProcReader/Main.antt =====
-- main of lab4_1: the calls of read_fd, read_link and read_file, one after another.
pub mod Copies
use os_bmstu.Common.{map, Bool, true, false, ℕ, Option, none, some, List, [], ◌∷◌, ◌++◌}
use os_bmstu.Walk.{Name}
use os_bmstu.ProcReader.{read_fd, read_link, read_file, Copied, out_of_fuel, fault, copied}

-- What the program finds under /proc/self: the entries of fd, the targets of the links, and the bytes
-- of the files, `none` where a call fails; whether each text file opens; and what the array `buf` of
-- each call holds before it.
pub record Host : Type 0 where
  pub fd : Option (List (Name × Option (List ℕ)))
  pub link : Name → Option (List ℕ)
  pub file : Name → Option (List ℕ)
  pub opens : Name → Bool
  pub buf : Name → List ℕ

pub data Call : Type 0 where
  fds : Call
  link_of : Name → Call
  file_of : Name → Call

abbrev pub fd_name : Name
fd_name = b'f' ∷ b'd' ∷ []

-- "exe", "root", "cwd".
abbrev pub links : List Name
links =
    (b'e' ∷ b'x' ∷ b'e' ∷ []) ∷ (b'r' ∷ b'o' ∷ b'o' ∷ b't' ∷ []) ∷ (b'c' ∷ b'w' ∷ b'd' ∷ []) ∷ []

-- "cmdline", "environ", "maps", "mem", "stat", "statm".
abbrev pub files : List Name
files =
    (b'c' ∷ b'm' ∷ b'd' ∷ b'l' ∷ b'i' ∷ b'n' ∷ b'e' ∷ [])
    ∷ (b'e' ∷ b'n' ∷ b'v' ∷ b'i' ∷ b'r' ∷ b'o' ∷ b'n' ∷ [])
    ∷ (b'm' ∷ b'a' ∷ b'p' ∷ b's' ∷ [])
    ∷ (b'm' ∷ b'e' ∷ b'm' ∷ [])
    ∷ (b's' ∷ b't' ∷ b'a' ∷ b't' ∷ [])
    ∷ (b's' ∷ b't' ∷ b'a' ∷ b't' ∷ b'm' ∷ [])
    ∷ []

abbrev pub or_fault : Option (List ℕ) → Copied
or_fault none = fault
or_fault (some out) = copied out

abbrev pub opened : Option (List ℕ) → (Bool → List ℕ → Copied) → Copied
opened none copy = copy false []
opened (some content) copy = copy true content

-- One call: what its text file then holds. `read_file` runs on the fuel.
unfoldable pub call : ℕ → Host → Call → Copied
call fuel host fds = or_fault (read_fd (host.opens fd_name) host.fd (host.buf fd_name))
call fuel host (link_of name) =
    or_fault (read_link (host.opens name) (host.link name) (host.buf name))
call fuel host (file_of name) =
    opened (host.file name) λ f content. read_file fuel (host.opens name) f content (host.buf name)

-- How the program ends: the contents of the text files, in the order of the calls.
pub data Ended : Type 0 where
  cut_short : Ended
  crash : Ended
  written : (texts : List (List ℕ)) → Ended

abbrev pub continue : Copied → (List ℕ → Ended) → Ended
continue out_of_fuel next = cut_short
continue fault next = crash
continue (copied out) next = next out

unfoldable pub calls : ℕ → Host → List Call → List (List ℕ) → Ended
unfolding call
calls fuel host [] texts = written texts
calls fuel host (c ∷ cs) texts =
    continue (call fuel host c) λ text. calls fuel host cs (texts ++ text ∷ [])

-- `main`.
unfoldable pub main : ℕ → Host → Ended
unfolding calls
main fuel host = calls fuel host (fds ∷ (map link_of links ++ map file_of files)) []
