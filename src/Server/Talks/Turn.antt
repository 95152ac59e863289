-- ===== src/Server/Talks/Turn.antt =====
-- One round of the server, for the connection of one slot.
use mathlib.Core.Option
use mathlib.Core.Path.{subst}
use os_bmstu.Common.{
  ℕ, zero, suc, ◌<◌, ◌≡◌, refl, Bool, Bool-cases, not, ◌&&◌, none, some, List, [], ◌∷◌, ◌==◌,
  get_elem?, set, arith, inl, inr, Option, Option-cases,
}
use os_bmstu.Server.{
  Server, empty_socket, read_clients, Received, Answers, ready, Outcome, goes_on, returns, finish,
  admit, read_round, round, Printed,
}
use os_bmstu.Server.Table.{empty_socket-found}
use os_bmstu.Server.Talks.Slot.{
  Leaves, slot_after, lines_for, Loop, SlotDone, read_clients-SlotDone,
}

-- A new client does not take a slot in use.
set-held :
    (fd new_sock : ℕ) (xs : List ℕ) (slot k : ℕ)
    → 0 < fd
    → empty_socket xs ≡ some slot
    → get_elem? xs k ≡ some fd
    → get_elem? (set xs slot new_sock) k ≡ some fd
set-held fd new_sock [] slot k pos free held = absurd (ground arith)
set-held fd new_sock (x ∷ xs) slot zero pos free held = elim (empty_socket-found x xs slot free) [
  | inl (unused, here) ↦ let same : x ≡ fd = Option.some-injective x fd held in absurd (omega arith)
  | inr (i, there, found) ↦ rw there held
]
set-held fd new_sock (x ∷ xs) slot (suc k) pos free held =
    elim (empty_socket-found x xs slot free) [
      | inl (unused, here) ↦ rw here held
      | inr (i, there, found) ↦ rw there (set-held fd new_sock xs i k pos found held)
    ]

-- The slot and the output after the test of the listening socket.
abbrev Holds : ℕ → ℕ → List Printed → Option Outcome → Type 0
Holds k fd out none = Unit {0}
Holds k fd out (some (returns success s)) = Unit {0}
Holds k fd out (some (goes_on s)) = (get_elem? s.client_sock k ≡ some fd) × (s.out ≡ out)

admit-Holds :
    (answers : Answers) (sock_set : ℕ → Bool) (s : Server) (k fd : ℕ)
    → 0 < fd
    → get_elem? s.client_sock k ≡ some fd
    → Holds k fd s.out (admit answers sock_set s)
unfolding admit finish
admit-Holds answers sock_set s k fd pos held = elim (Bool-cases (sock_set s.sock)) [
  | inr nobody ↦ rw (nobody, admit) (held, refl)
  | inl waits ↦ elim (Option-cases answers.accept) [
    | inl error ↦ rw (waits, admit) (rw (error, admit) tt)
    | inr (new_sock, accepted) ↦ elim (Option-cases (empty_socket s.client_sock)) [
      | inl crowd ↦ rw (waits, admit) (rw (accepted, admit) (rw (crowd, admit) tt))
      | inr (slot, free) ↦
          rw (waits, admit)
            (rw (accepted, admit)
              (rw (free, admit) (set-held fd new_sock s.client_sock slot k pos free held, refl)))
    ]
  ]
]

-- A round, for slot `k` with the descriptor `fd`, of which recvfrom would answer `r`.
abbrev RoundDone : Bool → Received → ℕ → ℕ → List Printed → Option Outcome → Type 0
RoundDone waits r k fd out none = Unit {0}
RoundDone waits r k fd out (some (returns success s)) = Unit {0}
RoundDone waits r k fd out (some (goes_on s)) =
    Leaves k (slot_after waits r fd) (lines_for waits r k) out s.client_sock s.out

read_round-RoundDone :
    (answers : Answers) (sock_set : ℕ → Bool) (k fd : ℕ) (out : List Printed) (o : Option Outcome)
    → Holds k fd out o
    → RoundDone
        (not (fd == 0) && sock_set fd)
        (answers.recvfrom k)
        k
        fd
        out
        (Option.bind o (read_round answers sock_set))
unfolding read_round Option.bind
read_round-RoundDone answers sock_set k fd out none holds = tt
read_round-RoundDone answers sock_set k fd out (some (returns success s)) holds = tt
read_round-RoundDone answers sock_set k fd out (some (goes_on s)) (held, e) =
    subst
      (λ p. RoundDone waits (answers.recvfrom k) k fd p (read_round answers sock_set (goes_on s))) e
      (unfold read_round in
        done (read_clients sock_set answers.recvfrom 0 s.client_sock s.is_open s.out) (
          read_clients-SlotDone sock_set answers.recvfrom 0 k k s.client_sock s.is_open s.out fd
            (omega arith) held))
  where
    waits : Bool
    waits = not (fd == 0) && sock_set fd

    done :
        (r : Loop)
        → SlotDone sock_set answers.recvfrom k k fd s.out r
        → RoundDone waits (answers.recvfrom k) k fd s.out (
            Option.map
              (λ (client_sock, is_open, out).
                goes_on record s { client_sock = client_sock; is_open = is_open; out = out })
              r)
    done none l = tt
    done (some (fds', o, p)) l = l

round-RoundDone :
    (answers : Answers) (sock_set : ℕ → Bool) (s : Server) (k fd : ℕ)
    → answers.select ≡ ready sock_set
    → 0 < fd
    → get_elem? s.client_sock k ≡ some fd
    → RoundDone (sock_set fd) (answers.recvfrom k) k fd s.out (round answers s)
unfolding round
round-RoundDone answers sock_set s k fd some_ready pos held =
    rw (some_ready, round)
      (subst
        (λ b.
          RoundDone b (answers.recvfrom k) k fd s.out
            (Option.bind (admit answers sock_set s) (read_round answers sock_set)))
        in_use
        (read_round-RoundDone answers sock_set k fd s.out (admit answers sock_set s)
          (admit-Holds answers sock_set s k fd pos held)))
  where
    in_use : (not (fd == 0) && sock_set fd) ≡ sock_set fd
    in_use = ground arith

-- A round after which the loop goes on.
pub goes_on-Leaves :
    (answers : Answers) (sock_set : ℕ → Bool) (s s' : Server) (k fd : ℕ) (waits : Bool)
    → (r : Received) → 0 < fd
    → get_elem? s.client_sock k ≡ some fd
    → answers.select ≡ ready sock_set
    → sock_set fd ≡ waits
    → answers.recvfrom k ≡ r
    → round answers s ≡ some (goes_on s')
    → Leaves k (slot_after waits r fd) (lines_for waits r k) s.out s'.client_sock s'.out
goes_on-Leaves answers sock_set s s' k fd waits r pos held some_ready is_ready arrives goes =
    subst (λ b. RoundDone b r k fd s.out (some (goes_on s'))) is_ready
      (subst (λ x. RoundDone (sock_set fd) x k fd s.out (some (goes_on s'))) arrives
        (subst (RoundDone (sock_set fd) (answers.recvfrom k) k fd s.out) goes
          (round-RoundDone answers sock_set s k fd some_ready pos held)))
