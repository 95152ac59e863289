-- ===== src/Daemon.antt =====
-- sem_6/lab1/main.c: a daemon that starts once and answers signals until SIGTERM. The answers of the
-- system's calls are parameters.
pub mod Startup
pub mod Signals
pub mod Older
mod Examples
use os_bmstu.Common.{
  ℕ, zero, suc, ◌+◌, Bool, true, false, not, Option, none, some, List, [], ◌∷◌, ◌++◌, ◌==◌, ◌&&◌,
  if◌then◌else◌, update, ltb, ◌^◌,
}

-- What a descriptor stands for.
pub data File : Type 0 where
  dev_null : File
  lock_file : File
  inherited : (k : ℕ) → File

-- The descriptors of the process.
abbrev pub Files : Type 0
Files = ℕ → Option File

-- What goes to the terminal and to syslog.
pub data Line : Type 0 where
  fork_error : Line
  daemon_pid : (pid : ℕ) → Line
  no_ignore : Line
  no_chdir : Line
  no_limit : Line
  wrong_descriptors : Line
  open_failed : Line
  blocking_failed : Line
  already : Line
  no_recover : Line
  no_mask : Line
  no_thread : Line
  running : Line
  no_join : Line
  sigwait_error : Line
  login : Line
  got_sigterm : Line
  unknown_signal : Line

pub data Fork : Type 0 where
  fork_failed : Fork
  in_parent : (pid : ℕ) → Fork
  in_child : Fork

-- `fcntl(fd, F_SETLK, &fl)`: it succeeds, fails with EACCES or EAGAIN, or fails otherwise.
pub data Lock : Type 0 where
  locked : Lock
  held : Lock
  lock_error : Lock

-- `sigwait`.
pub data Wait : Type 0 where
  wait_error : Wait
  sighup : Wait
  sigterm : Wait
  other : (signo : ℕ) → Wait

-- The answers of the calls. `rlim_cur` is `none` for RLIM_INFINITY; after a failure of getrlimit the
-- two limits are what `rl` happens to hold. `lowest` is the descriptor that `open` and `dup` choose
-- for these files, `none` if they fail. The last field is the texts of `%ld`.
pub record Calls : Type 0 where
  pub fork : Fork
  pub ignore_sighup : Bool
  pub chdir : Bool
  pub getrlimit : Bool
  pub rlim_cur : Option ℕ
  pub rlim_max : ℕ
  pub lowest : Files → Option ℕ
  pub lock : Lock
  pub getpid : ℕ
  pub default_sighup : Bool
  pub pthread_sigmask : Bool
  pub pthread_create : Bool
  pub pthread_join : Bool
  pub decimal : ℕ → List ℕ

-- The process: its files, the bytes of LOCKFILE, whether openlog has given syslog the name and the
-- facility of the daemon, and what it printed or logged, each line with whether openlog had been called.
pub record Process : Type 0 where
  pub files : Files
  pub pid_file : List ℕ
  pub named : Bool
  pub log : List (Bool × Line)

-- A part of the program goes on, the process has exited with a code, or the `int` that counts in the
-- loop over close has overflowed, after which nothing is defined.
pub data Outcome : Type 0 where
  goes_on : Process → Outcome
  exited : (code : ℕ) → Process → Outcome
  overflowed : Outcome

abbrev pub say : Line → Process → Process
say line p = record p { log = p.log ++ (p.named, line) ∷ [] }

-- `openlog(cmd, LOG_CONS, LOG_DAEMON)`.
abbrev pub openlog : Process → Process
openlog p = record p { named = true }

-- A call whose failure is only reported.
abbrev pub check : Bool → Line → Process → Process
check true line p = p
check false line p = say line p

abbrev pub close : ℕ → Process → Process
close fd p = record p { files = update p.files fd none }

-- The values of `int` end below 2 ^ 31.
abbrev pub int_end : ℕ
int_end = 2 ^ 31

-- The loop over `close`, with `rounds` rounds to go from `i` on; `i++` is on an `int`.
unfoldable pub close_from : ℕ → ℕ → Process → Outcome
close_from zero i p = goes_on p
close_from (suc rounds) i p =
    let rest = close_from rounds (i + 1) (close i p) in
    if ltb (i + 1) int_end then rest else overflowed

-- A file under the descriptor that the system chooses; the result is `none` for -1.
unfoldable pub place_at : Option ℕ → File → Process → Option ℕ × Process
place_at none f p = (none, p)
place_at (some fd) f p = (some fd, record p { files = update p.files fd (some f) })

unfoldable pub place : Calls → Option File → Process → Option ℕ × Process
unfolding place_at
place calls none p = (none, p)
place calls (some f) p = place_at (calls.lowest p.files) f p

abbrev pub open_file : Calls → File → Process → Option ℕ × Process
open_file calls f p = place calls (some f) p

abbrev pub dup : Calls → ℕ → Process → Option ℕ × Process
dup calls fd p = place calls (p.files fd) p

abbrev pub is : ℕ → Option ℕ → Bool
is n none = false
is n (some fd) = fd == n

-- `open("/dev/null")`, two times `dup(0)`, openlog, and the test of the three descriptors.
unfoldable pub null_files : Calls → Process → Outcome
unfolding place
null_files calls p =
    let (fd0, p0) = open_file calls dev_null p in
    let (fd1, p1) = dup calls 0 p0 in
    let (fd2, p2) = dup calls 0 p1 in
    let p3 = openlog p2 in
    if is 0 fd0 && is 1 fd1 && is 2 fd2 then goes_on p3 else exited 1 (say wrong_descriptors p3)

-- `rl.rlim_max` after the test of `rl.rlim_cur`.
abbrev pub max_files : Calls → ℕ
max_files calls = elim calls.rlim_cur [ none ↦ 1024 | some n ↦ calls.rlim_max ]

-- After the loop over `close`.
abbrev pub after_close : Calls → Outcome → Outcome
after_close calls (goes_on p) = null_files calls p
after_close calls (exited code p) = exited code p
after_close calls overflowed = overflowed

-- `deamonize` after `fork`, in the child or, after a failure, in the process itself.
unfoldable pub detach : Calls → Process → Outcome
unfolding null_files close_from
detach calls p = after_close calls (
    close_from (max_files calls) 0 (
      check calls.getrlimit no_limit
        (check calls.chdir no_chdir (check calls.ignore_sighup no_ignore p))))

unfoldable pub deamonize : Calls → Process → Outcome
unfolding detach
deamonize calls p = elim calls.fork [
  | fork_failed ↦ detach calls (say fork_error p)
  | in_parent pid ↦ exited 0 (say (daemon_pid pid) p)
  | in_child ↦ detach calls p
]

-- `already_running`: its result with the process, or an exit.
pub data Already : Type 0 where
  answers : Bool → Process → Already
  exits : (code : ℕ) → Process → Already

-- `buf[16]` holds the text of every number that `getpid` returns.
unfoldable pub already_running : Calls → Process → Already
unfolding place
already_running calls p =
    let (opened, p') = open_file calls lock_file p in
    elim opened [
      | none ↦ exits 1 (say open_failed p')
      | some fd ↦ elim calls.lock [
        | held ↦ answers true (close fd p')
        | lock_error ↦ exits 1 (say blocking_failed p')
        | locked ↦ answers false record p' { pid_file = calls.decimal calls.getpid ++ 0 ∷ [] }
      ]
    ]

-- `thr_fn`: its loop over what `sigwait` returns, until it exits or waits again.
unfoldable pub thr_fn : List Wait → Process → Outcome
thr_fn [] p = goes_on p
thr_fn (wait_error ∷ waits) p = exited 1 (say sigwait_error p)
thr_fn (sighup ∷ waits) p = thr_fn waits (say login p)
thr_fn (sigterm ∷ waits) p = exited 0 (say got_sigterm p)
thr_fn (other signo ∷ waits) p = thr_fn waits (say unknown_signal p)

-- `main` after `already_running`, up to the loop of the thread that it then joins.
unfoldable pub serve : Calls → List Wait → Process → Outcome
unfolding thr_fn
serve calls waits p =
    if not calls.default_sighup
    then exited 1 (say no_recover p)
    else (if not calls.pthread_sigmask
        then exited 1 (say no_mask p)
        else (if not calls.pthread_create
            then exited 1 (say no_thread p)
            else (if calls.pthread_join
                then thr_fn waits (say running p)
                else exited 1 (say no_join (say running p)))))

abbrev pub after_check : Calls → List Wait → Already → Outcome
after_check calls waits (answers true p) = exited 1 (say already p)
after_check calls waits (answers false p) = serve calls waits p
after_check calls waits (exits code p) = exited code p

abbrev pub after_deamonize : Calls → List Wait → Outcome → Outcome
after_deamonize calls waits (goes_on p) = after_check calls waits (already_running calls p)
after_deamonize calls waits (exited code p) = exited code p
after_deamonize calls waits overflowed = overflowed

unfoldable pub main : Calls → List Wait → Process → Outcome
unfolding deamonize already_running serve
main calls waits p = after_deamonize calls waits (deamonize calls p)
