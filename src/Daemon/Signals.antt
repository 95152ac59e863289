-- ===== src/Daemon/Signals.antt =====
-- What the daemon of lab1 does on signals, and when it starts at all.
use os_bmstu.Common.{ℕ, ◌≡◌, refl, none, some, List, [], ◌∷◌, ◌++◌, map, ap, update, ◌∙◌, arith}
use mathlib.Core.List.{append_assoc}
use os_bmstu.Daemon.{
  Calls, Process, goes_on, exited, Line, Wait, wait_error, sighup, sigterm, other, thr_fn, say,
  login, unknown_signal, got_sigterm, held, place, place_at, after_check, already_running,
  lock_file, close, main, deamonize, already,
}

-- A signal that the loop survives.
abbrev pub Survives : Wait → Type 0
Survives wait_error = ⊥
Survives sighup = Unit {0}
Survives sigterm = ⊥
Survives (other signo) = Unit {0}

abbrev pub AllSurvive : List Wait → Type 0
AllSurvive [] = Unit {0}
AllSurvive (w ∷ ws) = Survives w × AllSurvive ws

-- The line for a signal.
abbrev pub line_for : Wait → Line
line_for sighup = login
line_for w = unknown_signal

-- However many SIGHUP and other signals arrive first, the thread logs one line for each of them, in
-- order, and at the first SIGTERM logs that and exits with code 0, whatever would follow.
pub thr_fn-sigterm :
    (before after : List Wait) (p : Process)
    → AllSurvive before
    → thr_fn (before ++ sigterm ∷ after) p
      ≡ exited 0 (record p {
        log = p.log ++ (map (λ w. (p.named, line_for w)) before ++ (p.named, got_sigterm) ∷ []);
      })
unfolding thr_fn
thr_fn-sigterm [] after p survive = refl
thr_fn-sigterm (sighup ∷ ws) after p (one, survive) =
    thr_fn-sigterm ws after (say login p) survive
    ∙ ap (λ l. exited 0 (record p { log = l })) (append_assoc p.log ((p.named, login) ∷ []) _)
thr_fn-sigterm (other n ∷ ws) after p (one, survive) =
    thr_fn-sigterm ws after (say unknown_signal p) survive
    ∙ ap (λ l. exited 0 (record p { log = l }))
        (append_assoc p.log ((p.named, unknown_signal) ∷ []) _)
thr_fn-sigterm (sigterm ∷ ws) after p (one, survive) = absurd one
thr_fn-sigterm (wait_error ∷ ws) after p (one, survive) = absurd one

-- A second daemon: if deamonize goes on, LOCKFILE opens under a descriptor that was free, and another
-- process holds its lock, then main reports that and exits with code 1, before the thread starts,
-- with LOCKFILE unchanged and its own descriptor of it closed again.
pub main-already :
    (calls : Calls) (waits : List Wait) (p q : Process) (fd : ℕ)
    → deamonize calls p ≡ goes_on q
    → calls.lowest q.files ≡ some fd
    → q.files fd ≡ none
    → calls.lock ≡ held
    → (r : Process) × (main calls waits p ≡ exited 1 r)
      × (r.pid_file ≡ q.pid_file)
      × ((k : ℕ) → r.files k ≡ q.files k)
      × (r.log ≡ q.log ++ (q.named, already) ∷ [])
unfolding main already_running place place_at
main-already calls waits p q fd e chosen free lock_held =
    let r = say already (close fd (record q { files = update q.files fd (some lock_file) })) in
    (r, rw e (second q chosen), refl, λ k. ground arith, refl)
  where
    second :
        (q : Process)
        → calls.lowest q.files ≡ some fd
        → after_check calls waits (already_running calls q)
          ≡ exited 1
              (say already (close fd (record q { files = update q.files fd (some lock_file) })))
    second q chosen =
        rw (chosen, already_running) (rw (lock_held, already_running) (rw chosen refl))
