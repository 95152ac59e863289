-- ===== src/Daemon/Startup.antt =====
-- What the daemon of lab1 has open when it goes on after deamonize, and who may go on after
-- already_running.
use mathlib.Core.Path.{subst}
use os_bmstu.Common.{
  ℕ, zero, suc, ◌+◌, ◌≡◌, ◌≤◌, ◌<◌, ◌∙◌, ap, refl, Bool, true, false, Bool-cases, Option, none,
  some, ◌&&◌, update, arith, ltb, ℕ_discrete, dec_lt, inl, inr,
}
use os_bmstu.Daemon.{
  Line, fork_failed, in_parent, in_child, fork_error, daemon_pid, File, dev_null, Files, Calls,
  Process, Outcome, goes_on, exited, overflowed, int_end, after_close, close, close_from, place, is,
  null_files, place_at, check, no_limit, no_chdir, no_ignore, max_files, detach, deamonize, say,
  Fork, open_file, dup,
}

-- The three standard descriptors are /dev/null.
pub record OnNull (files : Files) : Type 0 where
  pub input : files 0 ≡ some dev_null
  pub output : files 1 ≡ some dev_null
  pub errors : files 2 ≡ some dev_null

place_at-some :
    (o : Option ℕ) (f : File) (n : ℕ) (p : Process)
    → is n (place_at o f p).0 ≡ true
    → (place_at o f p).1.files ≡ update p.files n (some f)
unfolding place_at
place_at-some none f n p e = absurd (ground arith)
place_at-some (some fd) f n p e =
    let same : fd ≡ n = ground arith in ap (λ k. update p.files k (some f)) same

place-some :
    (calls : Calls) (f : File) (n : ℕ) (p : Process)
    → is n (place calls (some f) p).0 ≡ true
    → (place calls (some f) p).1.files ≡ update p.files n (some f)
unfolding place
place-some calls f n p e = place_at-some (calls.lowest p.files) f n p e

dup-some :
    (calls : Calls) (n : ℕ) (f : File) (p : Process)
    → p.files 0 ≡ some f
    → is n (dup calls 0 p).0 ≡ true
    → (dup calls 0 p).1.files ≡ update p.files n (some f)
dup-some calls n f p at_0 e = rw at_0 (place-some calls f n p (rw⁻¹ at_0 e))

and-parts : (a b c : Bool) → (a && b && c) ≡ true → (a ≡ true) × (b ≡ true) × (c ≡ true)
and-parts a b c e = (ground arith, ground arith, ground arith)

-- The files with /dev/null under the three standard descriptors.
abbrev pub nulled : Files → Files
nulled before =
    update (update (update before 0 (some dev_null)) 1 (some dev_null)) 2 (some dev_null)

on_null :
    (before files : Files)
    → files ≡ nulled before
    → OnNull files × ((fd : ℕ) → 2 < fd → files fd ≡ before fd)
on_null before files e = rw e (
  record { input = ground arith; output = ground arith; errors = ground arith },
  λ fd above. ground arith,
)

-- If the process goes on, its standard descriptors are /dev/null, and no other changed.
abbrev NullOrExit : Files → Outcome → Type 0
NullOrExit before (exited code p) = Unit {0}
NullOrExit before overflowed = Unit {0}
NullOrExit before (goes_on p) = OnNull p.files × ((fd : ℕ) → 2 < fd → p.files fd ≡ before fd)

null_files-NullOrExit : (calls : Calls) (p : Process) → NullOrExit p.files (null_files calls p)
unfolding null_files
null_files-NullOrExit calls p =
    let p0 = (open_file calls dev_null p).1 in
    let p1 = (dup calls 0 p0).1 in
    let a = is 0 (open_file calls dev_null p).0 in
    let b = is 1 (dup calls 0 p0).0 in
    let c = is 2 (dup calls 0 p1).0 in
    elim (Bool-cases (a && b && c)) [
      | inr wrong ↦ rw (wrong, null_files) tt
      | inl right ↦
          let (ea, eb, ec) = and-parts a b c right in
          let f0 = place-some calls dev_null 0 p ea in
          let f1 = dup-some calls 1 dev_null p0 (rw f0 (ground arith)) eb in
          let f2 = dup-some calls 2 dev_null p1 (rw (f1, f0) (ground arith)) ec in
          rw (right, null_files)
            (on_null p.files _ (
              f2
              ∙ ap (λ x. update x 2 (some dev_null))
                  (f1 ∙ ap (λ x. update x 1 (some dev_null)) f0)))
    ]

-- The loop over close, as long as its counter stays below 2 ^ 31.
closed : ℕ → ℕ → Process → Process
closed zero i p = p
closed (suc rounds) i p = closed rounds (i + 1) (close i p)

close_from-ends :
    (rounds i : ℕ) (p : Process)
    → i + rounds < int_end
    → close_from rounds i p ≡ goes_on (closed rounds i p)
unfolding close_from closed
close_from-ends zero i p small = refl
close_from-ends (suc rounds) i p small =
    let counts : ltb (i + 1) int_end ≡ true = ground arith in
    rw counts (close_from-ends rounds (i + 1) (close i p) (omega arith))

-- Up to a limit of 2 ^ 31 or more the counter overflows.
pub close_from-overflows :
    (rounds i : ℕ) (p : Process)
    → i < int_end
    → int_end ≤ i + rounds
    → close_from rounds i p ≡ overflowed
unfolding close_from
close_from-overflows zero i p counts large = absurd (omega arith)
close_from-overflows (suc rounds) i p counts large = elim (dec_lt (i + 1) int_end) [
  | yes next ↦
      let goes : ltb (i + 1) int_end ≡ true = ground arith in
      rw goes (close_from-overflows rounds (i + 1) (close i p) next (omega arith))
  | no last ↦ let over : ltb (i + 1) int_end ≡ false = ground arith in rw over refl
]

closed-stay :
    (rounds i fd : ℕ) (p : Process) → p.files fd ≡ none → (closed rounds i p).files fd ≡ none
unfolding closed
closed-stay zero i fd p e = e
closed-stay (suc rounds) i fd p e = closed-stay rounds (i + 1) fd (close i p) (ground arith)

closed-closed :
    (rounds i fd : ℕ) (p : Process) → i ≤ fd → fd < i + rounds → (closed rounds i p).files fd ≡ none
unfolding closed
closed-closed zero i fd p above below = absurd (omega arith)
closed-closed (suc rounds) i fd p above below = elim (ℕ_discrete fd i) [
  | yes here ↦ closed-stay rounds (i + 1) fd (close i p) (ground arith)
  | no later ↦ closed-closed rounds (i + 1) fd (close i p) (omega arith) (omega arith)
]

closed-above :
    (rounds i fd : ℕ) (p : Process) → i + rounds ≤ fd → (closed rounds i p).files fd ≡ p.files fd
unfolding closed
closed-above zero i fd p above = refl
closed-above (suc rounds) i fd p above =
    closed-above rounds (i + 1) fd (close i p) (omega arith) ∙ ground arith

-- `open` and `dup` choose the lowest descriptor that is free, below a limit of three at least.
abbrev pub IsPosix : Calls → Type 0
IsPosix calls =
    (files : Files) (n : ℕ)
    → n < 3
    → files n ≡ none
    → ((k : ℕ) → k < n → files k ≡ some dev_null)
    → calls.lowest files ≡ some n

null_files-goes_on :
    (calls : Calls) (p : Process)
    → IsPosix calls
    → p.files 0 ≡ none
    → p.files 1 ≡ none
    → p.files 2 ≡ none
    → null_files calls p ≡ goes_on record p { files = nulled p.files; named = true }
unfolding null_files place place_at ℕ_discrete
null_files-goes_on calls p posix free_0 free_1 free_2 =
    let with_0 : Files = update p.files 0 (some dev_null) in
    let with_1 : Files = update with_0 1 (some dev_null) in
    let chosen_0 = posix p.files 0 (omega arith) free_0 (λ k b. absurd (omega arith)) in
    let chosen_1 = posix with_0 1 (omega arith) (ground arith) (λ k b. ground arith) in
    let chosen_2 = posix with_1 2 (omega arith) (ground arith) (λ k b. ground arith) in
    rw (chosen_0, chosen_1, chosen_2) refl

check-files :
    (success : Bool) (line : Line) (p : Process) (fd : ℕ)
    → (check success line p).files fd ≡ p.files fd
check-files true line p fd = refl
check-files false line p fd = refl

detach-goes_on :
    (calls : Calls) (p : Process)
    → IsPosix calls
    → 3 ≤ max_files calls
    → max_files calls < int_end
    → ((fd : ℕ) → max_files calls ≤ fd → p.files fd ≡ none)
    → (q : Process) × (detach calls p ≡ goes_on q)
      × OnNull q.files
      × ((fd : ℕ) → 2 < fd → q.files fd ≡ none)
unfolding detach
detach-goes_on calls p posix enough counts bounded =
    let checked =
      check calls.getrlimit no_limit
        (check calls.chdir no_chdir (check calls.ignore_sighup no_ignore p)) in
    let p' = closed (max_files calls) 0 checked in
    let shut : (fd : ℕ) → p'.files fd ≡ none = λ fd. elim (dec_lt fd (max_files calls)) [
      | yes below ↦ closed-closed (max_files calls) 0 fd checked (omega arith) (omega arith)
      | no above ↦
          closed-above (max_files calls) 0 fd checked (omega arith)
          ∙ check-files calls.getrlimit no_limit _ fd
          ∙ check-files calls.chdir no_chdir _ fd
          ∙ check-files calls.ignore_sighup no_ignore p fd
          ∙ bounded fd (omega arith)
    ] in
    let (null, rest) = on_null p'.files (nulled p'.files) refl in
    (
      record p' { files = nulled p'.files; named = true },
      ap (after_close calls) (close_from-ends (max_files calls) 0 checked (omega arith))
          ∙ null_files-goes_on calls p' posix (shut 0) (shut 1) (shut 2),
      null,
      λ fd above. rest fd above ∙ shut fd,
    )

-- In the child, if at least three and fewer than 2 ^ 31 descriptors may be open, no file is open above the limit that the
-- loop over close uses, and open and dup choose the lowest free descriptor: deamonize goes on, the
-- three standard descriptors are /dev/null, and every other descriptor is closed.
pub deamonize-files :
    (calls : Calls) (p : Process)
    → calls.fork ≡ in_child
    → IsPosix calls
    → 3 ≤ max_files calls
    → max_files calls < int_end
    → ((fd : ℕ) → max_files calls ≤ fd → p.files fd ≡ none)
    → (q : Process) × (deamonize calls p ≡ goes_on q)
      × ((fd : ℕ) → q.files fd ≡ nulled (λ k. none) fd)
unfolding deamonize detach-goes_on
deamonize-files calls p child posix enough counts bounded =
    let (q, e, null, rest) = detach-goes_on calls p posix enough counts bounded in
    (
      q,
      rw (child, deamonize) e,
      λ fd. ground (arith, null.input, null.output, null.errors, rest fd),
    )

-- What deamonize leaves if it goes on.
abbrev NullOrGone : Outcome → Type 0
NullOrGone (exited code p) = Unit {0}
NullOrGone overflowed = Unit {0}
NullOrGone (goes_on q) = OnNull q.files

weaken : (before : Files) (o : Outcome) → NullOrExit before o → NullOrGone o
weaken before (exited code p) k = tt
weaken before overflowed k = tt
weaken before (goes_on q) k = k.0

after_close-NullOrGone : (calls : Calls) (o : Outcome) → NullOrGone (after_close calls o)
after_close-NullOrGone calls (goes_on p) = weaken _ _ (null_files-NullOrExit calls p)
after_close-NullOrGone calls (exited code p) = tt
after_close-NullOrGone calls overflowed = tt

fork-NullOrGone :
    (calls : Calls) (f : Fork) (p : Process)
    → NullOrGone (elim f [
      | fork_failed ↦ detach calls (say fork_error p)
      | in_parent pid ↦ exited 0 (say (daemon_pid pid) p)
      | in_child ↦ detach calls p
    ])
unfolding detach
fork-NullOrGone calls fork_failed p = after_close-NullOrGone calls _
fork-NullOrGone calls (in_parent pid) p = tt
fork-NullOrGone calls in_child p = after_close-NullOrGone calls _

-- Whatever the calls answer and whichever limits are in force: if the process goes on after
-- deamonize, its three standard descriptors are /dev/null.
pub deamonize-OnNull :
    (calls : Calls) (p q : Process) → deamonize calls p ≡ goes_on q → OnNull q.files
unfolding deamonize
deamonize-OnNull calls p q e = subst NullOrGone e (fork-NullOrGone calls calls.fork p)
