-- ===== src/Daemon/Older.antt =====
-- sem_6/lab1/comment.c: an earlier version of the daemon, in which deamonize calls openlog last.
-- Before openlog, syslog has neither the name nor the facility of the daemon.
use os_bmstu.Common.{◌≡◌, ◌⊎◌, inl, inr, refl, ap, Bool-cases, List, ◌&&◌, if◌then◌else◌}
use os_bmstu.Daemon
use os_bmstu.Daemon.{
  Calls, Process, Outcome, goes_on, exited, dev_null, say, check, open_file, dup, place, place_at,
  is, close_from, max_files, fork_failed, in_parent, in_child, fork_error, no_ignore, no_chdir,
  no_limit, daemon_pid, wrong_descriptors, openlog, overflowed, Wait, after_deamonize, Fork,
}

-- `open("/dev/null")`, two times `dup(0)`, the test of the three descriptors, and openlog.
unfoldable pub null_files : Calls → Process → Outcome
unfolding place
null_files calls p =
    let (fd0, p0) = open_file calls dev_null p in
    let (fd1, p1) = dup calls 0 p0 in
    let (fd2, p2) = dup calls 0 p1 in
    if is 0 fd0 && is 1 fd1 && is 2 fd2
    then goes_on (openlog p2)
    else exited 1 (say wrong_descriptors p2)

-- After the loop over `close`.
abbrev pub after_close : Calls → Outcome → Outcome
after_close calls (goes_on p) = null_files calls p
after_close calls (exited code p) = exited code p
after_close calls overflowed = overflowed

unfoldable pub detach : Calls → Process → Outcome
unfolding null_files close_from
detach calls p = after_close calls (
    close_from (max_files calls) 0 (
      check calls.getrlimit no_limit
        (check calls.chdir no_chdir (check calls.ignore_sighup no_ignore p))))

unfoldable pub deamonize : Calls → Process → Outcome
unfolding detach
deamonize calls p = elim calls.fork [
  | fork_failed ↦ detach calls (say fork_error p)
  | in_parent pid ↦ exited 0 (say (daemon_pid pid) p)
  | in_child ↦ detach calls p
]

unfoldable pub main : Calls → List Wait → Process → Outcome
unfolding deamonize
main calls waits p = after_deamonize calls waits (deamonize calls p)

-- Two outcomes that are the same, or exits that differ in whether openlog was called before the last
-- line.
abbrev Alike : Outcome → Outcome → Type 0
Alike o o' =
    (o ≡ o')
    ⊎ ((q : Process) × (o ≡ exited 1 (say wrong_descriptors q))
        × (o' ≡ exited 1 (say wrong_descriptors (openlog q))))

null_files-Alike :
    (calls : Calls) (p : Process) → Alike (null_files calls p) (Daemon.null_files calls p)
unfolding null_files Daemon.null_files
null_files-Alike calls p =
    let (fd0, p0) = open_file calls dev_null p in
    let (fd1, p1) = dup calls 0 p0 in
    let (fd2, p2) = dup calls 0 p1 in
    elim (Bool-cases (is 0 fd0 && is 1 fd1 && is 2 fd2)) [
      | inl right ↦ inl (rw right refl)
      | inr wrong ↦ inr (p2, rw wrong refl, rw wrong refl)
    ]

detach-Alike : (calls : Calls) (p : Process) → Alike (detach calls p) (Daemon.detach calls p)
unfolding detach Daemon.detach
detach-Alike calls p = after (close_from (max_files calls) 0 _)
  where
    after : (o : Outcome) → Alike (after_close calls o) (Daemon.after_close calls o)
    after (goes_on q) = null_files-Alike calls q
    after (exited code q) = inl refl
    after overflowed = inl refl

fork-Alike :
    (calls : Calls) (p : Process) (f : Fork)
    → Alike
        (elim f [
          | fork_failed ↦ detach calls (say fork_error p)
          | in_parent pid ↦ exited 0 (say (daemon_pid pid) p)
          | in_child ↦ detach calls p
        ])
        (elim f [
          | fork_failed ↦ Daemon.detach calls (say fork_error p)
          | in_parent pid ↦ exited 0 (say (daemon_pid pid) p)
          | in_child ↦ Daemon.detach calls p
        ])
fork-Alike calls p fork_failed = detach-Alike calls (say fork_error p)
fork-Alike calls p (in_parent pid) = inl refl
fork-Alike calls p in_child = detach-Alike calls p

deamonize-Alike :
    (calls : Calls) (p : Process) → Alike (deamonize calls p) (Daemon.deamonize calls p)
unfolding deamonize Daemon.deamonize
deamonize-Alike calls p = fork-Alike calls p calls.fork

-- Whatever the calls answer, whichever signals arrive, and from any state of the process: comment.c
-- and main.c of the daemon end in the same way, with the same files, the same LOCKFILE and the same
-- lines, each logged with the same name; or both exit with code 1 over wrong descriptors, and differ
-- only in that main.c has called openlog before it logs that, and comment.c has not.
pub main-versions :
    (calls : Calls) (waits : List Wait) (p : Process)
    → (main calls waits p ≡ Daemon.main calls waits p)
      ⊎ ((q : Process) × (main calls waits p ≡ exited 1 (say wrong_descriptors q))
          × (Daemon.main calls waits p ≡ exited 1 (say wrong_descriptors (openlog q))))
unfolding main Daemon.main
main-versions calls waits p = elim (deamonize-Alike calls p) [
  | inl same ↦ inl (ap (after_deamonize calls waits) same)
  | inr (q, older, newer) ↦
      inr (q, ap (after_deamonize calls waits) older, ap (after_deamonize calls waits) newer)
]
