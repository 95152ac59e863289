-- ===== src/ProcReader/Main/Copies.antt =====
-- What the text files of lab4_1 hold when main has returned, and when it does not return.
use mathlib.Core.List.{append_assoc, append-nil}
use os_bmstu.Common.{
  Option, ℕ, suc, ◌-◌, ◌≤◌, ◌<◌, ◌≡◌, ◌∙◌, refl, sym, ap, Bool, Bool-cases, inl, inr, true, some,
  List, [], ◌∷◌, ◌++◌, ◌&&◌, if◌then◌else◌, length, ltb, map, arith,
}
use os_bmstu.Memory.{NonZero, zeros}
use os_bmstu.Walk.{Name}
use os_bmstu.ProcReader.{buf_size, copied, fault}
use os_bmstu.ProcReader.Blocks.{line_for_zero, read_file-copies}
use os_bmstu.ProcReader.Listing.{AllTargets, listing, read_fd-listing}
use os_bmstu.ProcReader.Links.{read_link-target}
use os_bmstu.ProcReader.Main.{
  Host, Call, fds, link_of, file_of, fd_name, links, files, call, crash, written, calls, main,
  continue,
}

-- The links have these targets, which leave a byte of the buffer free.
abbrev pub LinksTo : Host → (Name → List ℕ) → List Name → Type 0
LinksTo host target [] = Unit {0}
LinksTo host target (name ∷ names) =
    (host.link name ≡ some (target name))
    × (length (target name) < buf_size)
    × NonZero (target name)
    × LinksTo host target names

-- The files open and have these bytes.
abbrev pub FilesHold : Host → (Name → List ℕ) → List Name → Type 0
FilesHold host content [] = Unit {0}
FilesHold host content (name ∷ names) =
    (host.file name ≡ some (content name)) × FilesHold host content names

-- Every file has fewer bytes than the buffer.
abbrev pub all_fit : (Name → List ℕ) → List Name → Bool
all_fit content [] = true
all_fit content (name ∷ names) = ltb (length (content name)) buf_size && all_fit content names

-- A file as it is copied.
abbrev pub text_of : List ℕ → List ℕ
text_of content = map line_for_zero content

-- Every text file opens, and every array `buf` has its size.
abbrev pub Ready : Host → Type 0
Ready host = (name : Name) → (host.opens name ≡ true) × (length (host.buf name) ≡ buf_size)

call-link :
    (fuel : ℕ) (host : Host) (name : Name) (target : List ℕ)
    → Ready host
    → host.link name ≡ some target
    → length target < buf_size
    → NonZero target
    → call fuel host (link_of name) ≡ copied target
unfolding call
call-link fuel host name target ready found short good =
    rw
      (
        (ready name).0,
        found,
        read_link-target target (host.buf name) (buf_size - suc (length target)) (ready name).1
            (omega arith) good,
      )
      refl

call-file :
    (fuel : ℕ) (host : Host) (name : Name) (content : List ℕ)
    → 2 ≤ fuel
    → Ready host
    → host.file name ≡ some content
    → call fuel host (file_of name)
      ≡ (if ltb (length content) buf_size then copied (text_of content) else fault)
unfolding call
call-file fuel host name content enough ready found =
    rw (found, (ready name).0) (read_file-copies fuel content (host.buf name) enough (ready name).1)

calls-links :
    (fuel : ℕ) (host : Host) (target : Name → List ℕ) (names : List Name) (rest : List Call)
    → (texts : List (List ℕ)) → Ready host
    → LinksTo host target names
    → calls fuel host (map link_of names ++ rest) texts
      ≡ calls fuel host rest (texts ++ map target names)
unfolding calls
calls-links fuel host target [] rest texts ready all =
    ap (calls fuel host rest) (sym (append-nil texts))
calls-links fuel host target (name ∷ names) rest texts ready (found, short, good, all) =
    rw
      (
        call-link fuel host name (target name) ready found short good,
        calls-links fuel host target names rest (texts ++ target name ∷ []) ready all,
        append_assoc texts (target name ∷ []) (map target names),
      )
      refl

calls-files :
    (fuel : ℕ) (host : Host) (content : Name → List ℕ) (names : List Name)
    → (texts : List (List ℕ)) → 2 ≤ fuel
    → Ready host
    → FilesHold host content names
    → calls fuel host (map file_of names) texts ≡ (
        if all_fit content names
        then written (texts ++ map (λ name. text_of (content name)) names)
        else crash)
unfolding calls
calls-files fuel host content [] texts enough ready all = ap written (sym (append-nil texts))
calls-files fuel host content (name ∷ names) texts enough ready (found, all) =
    elim (Bool-cases (ltb (length (content name)) buf_size)) [
      | inl fits ↦
          rw
            (
              call-file fuel host name (content name) enough ready found,
              fits,
              calls-files fuel host content names (texts ++ text_of (content name) ∷ []) enough
                  ready all,
              append_assoc texts (text_of (content name) ∷ [])
                  (map (λ n. text_of (content n)) names),
            )
            refl
      | inr over ↦ rw (call-file fuel host name (content name) enough ready found, over) refl
    ]

-- With every text file opened, a directory /proc/self/fd whose links have targets of fewer than 768
-- bytes other than 0 or cannot be read, zeros in the buffer of read_fd, and three links with such
-- targets: if each of the six files opens and has fewer than 768 bytes, the ten text files get the
-- listing of the descriptors, in which the end of a longer text stays behind a shorter one, the
-- targets, and the files with a newline for every byte 0. If one of the files is longer, the program
-- stores behind a buffer.
pub main-copies :
    (fuel : ℕ) (host : Host) (entries : List (Name × Option (List ℕ)))
    → (target content : Name → List ℕ) → 2 ≤ fuel
    → Ready host
    → host.fd ≡ some entries
    → AllTargets entries
    → host.buf fd_name ≡ zeros buf_size
    → LinksTo host target links
    → FilesHold host content files
    → main fuel host ≡ (
        if all_fit content files
        then written
            (listing entries [] ∷ (map target links ++ map (λ name. text_of (content name)) files))
        else crash)
unfolding main calls
main-copies fuel host entries target content enough ready found targets blank linked held =
    ap
      (λ c.
        continue c (λ text. calls fuel host (map link_of links ++ map file_of files) (text ∷ [])))
      listed_call
    ∙ calls-links fuel host target links (map file_of files) (listing entries [] ∷ []) ready linked
    ∙ calls-files fuel host content files (listing entries [] ∷ map target links) enough ready held
  where
    listed_call : call fuel host fds ≡ copied (listing entries [])
    listed_call =
        unfold call in rw ((ready fd_name).0, found, blank, read_fd-listing entries targets) refl
