-- ===== src/ProcReader/Examples.antt =====
-- lab4_1 with small files and links.
use mathlib.Core.Option
use os_bmstu.Common.{Option, ℕ, ◌≡◌, refl, true, none, some, List, [], ◌∷◌, arith, ◌<◌, length}
use os_bmstu.Memory.{NonZero, zeros, overwrite, c_string}
use os_bmstu.Memory.Laws.{length-zeros}
use os_bmstu.Walk.{Name, hidden, same, dot}
use os_bmstu.ProcReader.{buf_size, read_fd, readlink}
use os_bmstu.ProcReader.Listing.{AllTargets}
use os_bmstu.ProcReader.Main.{Host, links, written, main}
use os_bmstu.ProcReader.Main.Copies.{LinksTo, main-copies}

-- "ls" and "-l", each with its 0.
abbrev cmdline : List ℕ
cmdline = b'l' ∷ b's' ∷ 0 ∷ b'-' ∷ b'l' ∷ 0 ∷ []

abbrev root : List ℕ
root = b'/' ∷ []

-- Descriptor 0 is /dev, descriptor 1 is /x.
abbrev descriptors : List (Name × Option (List ℕ))
descriptors =
    (dot, none)
    ∷ (b'0' ∷ [], some (b'/' ∷ b'd' ∷ b'e' ∷ b'v' ∷ []))
    ∷ (b'1' ∷ [], some (b'/' ∷ b'x' ∷ []))
    ∷ []

-- Two descriptors, links that all lead to "/", and files that all hold `cmdline`.
abbrev host : Host
host = record {
  fd = some descriptors;
  link = λ name. some root;
  file = λ name. some cmdline;
  opens = λ name. true;
  buf = λ name. zeros buf_size;
}

abbrev copy : List ℕ
copy = b'l' ∷ b's' ∷ 10 ∷ b'-' ∷ b'l' ∷ 10 ∷ []

-- The end of the first target stays behind the second.
abbrev listed : List ℕ
listed = b'/' ∷ b'd' ∷ b'e' ∷ b'v' ∷ 10 ∷ b'/' ∷ b'x' ∷ b'e' ∷ b'v' ∷ 10 ∷ []

main-copies_example :
    main 2 host
    ≡ written (listed ∷ root ∷ root ∷ root ∷ copy ∷ copy ∷ copy ∷ copy ∷ copy ∷ copy ∷ [])
unfolding hidden same
main-copies_example =
    main-copies 2 host descriptors (λ name. root) (λ name. cmdline) (omega arith)
      (λ name. (refl, length-zeros buf_size)) refl two_targets refl one_target
      (refl, (refl, (refl, (refl, (refl, (refl, tt))))))
  where
    good : (length root < buf_size) × NonZero root
    good = ground arith

    two_targets : AllTargets descriptors
    two_targets = (tt, (ground arith, (ground arith, tt)))

    one_target : LinksTo host (λ name. root) links
    one_target = (refl, good.0, good.1, (refl, good.0, good.1, (refl, good.0, good.1, tt)))

-- Descriptor 0 is /dev/tty, descriptor 1 is /x.
stale_link :
    read_fd true
      (some (
        (dot, none)
        ∷ (b'0' ∷ [], some (b'/' ∷ b't' ∷ b't' ∷ b'y' ∷ []))
        ∷ (b'1' ∷ [], some (b'/' ∷ b'x' ∷ []))
        ∷ []))
      (zeros 8)
    ≡ some (b'/' ∷ b't' ∷ b't' ∷ b'y' ∷ 10 ∷ b'/' ∷ b'x' ∷ b't' ∷ b'y' ∷ 10 ∷ [])
unfolding read_fd readlink hidden same c_string overwrite Option.bind
stale_link = refl
