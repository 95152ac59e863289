-- ===== src/Daemon/Examples.antt =====
-- The daemon of lab1 with concrete answers of the calls, and the theorems at them.
use os_bmstu.Common.{
  ℕ, zero, suc, ◌≡◌, ◌⊎◌, refl, Bool, true, false, Option, none, some, [], ◌∷◌, arith, ltb,
  if◌then◌else◌, update, ℕ_discrete,
}
use os_bmstu.Daemon.{
  File, dev_null, inherited, Files, Calls, Process, goes_on, exited, in_child, held, say,
  wrong_descriptors, openlog, close_from, sigterm, main, deamonize, already,
}
use os_bmstu.Daemon.Older
use os_bmstu.Daemon.Older.{main-versions}
use os_bmstu.Daemon.Startup.{nulled, IsPosix, deamonize-files}
use os_bmstu.Daemon.Signals.{main-already}

abbrev is_free : Option File → Bool
is_free none = true
is_free (some f) = false

-- The lowest free descriptor of four.
abbrev lowest : Files → Option ℕ
lowest files =
    if is_free (files 0)
    then some 0
    else (if is_free (files 1)
        then some 1
        else (if is_free (files 2) then some 2 else (if is_free (files 3) then some 3 else none)))

abbrev calls : Calls
calls = record {
  fork = in_child;
  ignore_sighup = true;
  chdir = true;
  getrlimit = true;
  rlim_cur = some 4;
  rlim_max = 4;
  lowest = lowest;
  lock = held;
  getpid = 7;
  default_sighup = true;
  pthread_sigmask = true;
  pthread_create = true;
  pthread_join = true;
  decimal = λ n. b'7' ∷ [];
}

-- A shell has started the daemon.
abbrev shell : Process
shell = record {
  files = λ fd. if ltb fd 3 then some (inherited fd) else none;
  pid_file = b'5' ∷ 0 ∷ [];
  named = false;
  log = [];
}

lowest-IsPosix : IsPosix calls
lowest-IsPosix files zero small free taken = rw free refl
lowest-IsPosix files (suc zero) small free taken = rw (taken 0 (omega arith), free) refl
lowest-IsPosix files (suc (suc zero)) small free taken =
    rw (taken 0 (omega arith), taken 1 (omega arith), free) refl
lowest-IsPosix files (suc (suc (suc n))) small free taken = absurd (omega arith)

deamonize-files_example :
    (q : Process) × (deamonize calls shell ≡ goes_on q)
    × ((fd : ℕ) → q.files fd ≡ nulled (λ k. none) fd)
deamonize-files_example =
    deamonize-files calls shell refl lowest-IsPosix (omega arith) (omega arith)
      (λ fd above. ground arith)

abbrev detached : Process
detached = record shell {
  files =
      update
        (update
          (update (update (update (update (update shell.files 0 none) 1 none) 2 none) 3 none) 0
            (some dev_null))
          1 (some dev_null))
        2 (some dev_null);
  named = true;
}

calls-detached : deamonize calls shell ≡ goes_on detached
unfolding deamonize close_from ℕ_discrete
calls-detached = refl

main-already_example :
    (r : Process) × (main calls (sigterm ∷ []) shell ≡ exited 1 r)
    × (r.pid_file ≡ b'5' ∷ 0 ∷ [])
    × ((k : ℕ) → r.files k ≡ detached.files k)
    × (r.log ≡ (true, already) ∷ [])
unfolding ℕ_discrete
main-already_example =
    main-already calls (sigterm ∷ []) shell detached 3 calls-detached refl refl refl

-- No descriptor is given out.
abbrev exhausted : Calls
exhausted = record calls { lowest = λ files. none }

main-versions_example :
    (Older.main exhausted (sigterm ∷ []) shell ≡ main exhausted (sigterm ∷ []) shell)
    ⊎ ((q : Process) × (Older.main exhausted (sigterm ∷ []) shell
          ≡ exited 1 (say wrong_descriptors q))
        × (main exhausted (sigterm ∷ []) shell ≡ exited 1 (say wrong_descriptors (openlog q))))
main-versions_example = main-versions exhausted (sigterm ∷ []) shell
