-- ===== src/Server/Rounds.antt =====
-- The rounds of the server: which descriptors are open while it serves, and after it.
use mathlib.Core.Option
use mathlib.Core.Path.{subst}
use os_bmstu.Common.{
  occurs, if◌then◌else◌, ℕ, ◌+◌, ◌≡◌, ◌<◌, ◌⊎◌, ◌∙◌, ◌-◌, suc, dec_lt, refl, Bool, true, false,
  Bool-cases, none, some, List, [], ◌∷◌, ◌==◌, one_if, set, length, length-set, update, arith, inl,
  inr, Option, Option-cases,
}
use os_bmstu.Server.{
  Server, client_n, close, empty_socket, read_clients, Answers, Selected, failed, timeout, ready,
  Outcome, goes_on, returns, finish, admit, read_round, round, Setup, Started, serving, stopped,
  start, Printed,
}
use os_bmstu.Server.Table.{
  set-occurs, close_sockets-kept, close_sockets-main, close_sockets-table, KeptBy,
  read_clients-Kept,
}

-- Beside the descriptors that the process inherited, 0 among them, exactly the listening socket and
-- those of the table are open, each of them once.
pub record Owns (inherited : ℕ → Bool) (s : Server) : Type 0 where
  pub slots : length s.client_sock ≡ client_n
  pub account :
      (fd : ℕ)
      → 0 < fd
      → one_if (s.is_open fd)
        ≡ one_if (inherited fd) + one_if (fd == s.sock) + occurs fd s.client_sock
  pub stdin : s.is_open 0 ≡ true

-- While the server serves it owns its sockets; once it has returned, only what it inherited is open,
-- the descriptor 0 left aside.
abbrev pub Tidy : (ℕ → Bool) → Option Outcome → Type 0
Tidy inherited none = Unit {0}
Tidy inherited (some (goes_on s)) = Owns inherited s
Tidy inherited (some (returns success s)) = (fd : ℕ) → 0 < fd → s.is_open fd ≡ inherited fd

not_inherited : (a b : Bool) (n : ℕ) → one_if a ≡ one_if b + suc n → false ≡ b
not_inherited a b n e = ground arith

same_one_if : (a b : Bool) → one_if a ≡ one_if b → a ≡ b
same_one_if a b e = ground arith

finish-closed :
    (inherited : ℕ → Bool) (success : Bool) (line : Printed) (s : Server)
    → Owns inherited s
    → Tidy inherited (some (finish success line s))
unfolding finish
finish-closed inherited success line s owns fd pos =
    let account = owns.account fd pos in
    elim (Bool-cases (fd == s.sock)) [
      | inl main_sock ↦
          close_sockets-main fd s.sock s.client_sock s.is_open main_sock
          ∙ not_inherited (s.is_open fd) (inherited fd) (occurs fd s.client_sock) (ground arith)
      | inr other ↦ elim (dec_lt 0 (occurs fd s.client_sock)) [
        | yes held ↦
            close_sockets-table fd s.sock s.client_sock s.is_open held
            ∙ not_inherited (s.is_open fd) (inherited fd) (occurs fd s.client_sock - 1)
                (ground arith)
        | no absent ↦
            close_sockets-kept fd s.sock s.client_sock s.is_open (omega arith) other
            ∙ same_one_if (s.is_open fd) (inherited fd) (ground arith)
      ]
    ]

pub Selected-cases :
    (x : Selected) → ((x ≡ timeout) ⊎ (x ≡ failed)) ⊎ ((sock_set : ℕ → Bool) × (x ≡ ready sock_set))
Selected-cases failed = inl (inr refl)
Selected-cases timeout = inl (inl refl)
Selected-cases (ready sock_set) = inr (sock_set, refl)

-- `accept` returns a descriptor that was not open.
abbrev pub NewDescriptor : Answers → Server → Type 0
NewDescriptor answers s = (fd : ℕ) → answers.accept ≡ some fd → s.is_open fd ≡ false

admit-Owns :
    (inherited : ℕ → Bool) (new_sock slot : ℕ) (s : Server)
    → s.is_open new_sock ≡ false
    → empty_socket s.client_sock ≡ some slot
    → Owns inherited s
    → Owns inherited (record s {
      client_sock = set s.client_sock slot new_sock;
      is_open = update s.is_open new_sock true;
    })
admit-Owns inherited new_sock slot s shut free owns = record {
  slots = length-set s.client_sock slot new_sock ∙ owns.slots;
  account = λ fd pos.
      ground (arith, owns.account fd pos, set-occurs fd new_sock s.client_sock slot pos free);
  stdin = ground (arith, owns.stdin);
}

admit-Tidy :
    (inherited : ℕ → Bool) (answers : Answers) (sock_set : ℕ → Bool) (s : Server)
    → NewDescriptor answers s
    → Owns inherited s
    → Tidy inherited (admit answers sock_set s)
unfolding admit
admit-Tidy inherited answers sock_set s new owns = elim (Bool-cases (sock_set s.sock)) [
  | inr idle ↦ rw (idle, admit) owns
  | inl waits ↦ elim (Option-cases answers.accept) [
    | inl error ↦
        rw (waits, admit)
          (rw (error, admit) (finish-closed inherited false Printed.accept_failed s owns))
    | inr (fd, accepted) ↦ elim (Option-cases (empty_socket s.client_sock)) [
      | inl full ↦ rw (waits, admit) (rw (accepted, admit) (rw (full, admit) tt))
      | inr (slot, free) ↦
          rw (waits, admit)
            (rw (accepted, admit)
              (rw (free, admit) (admit-Owns inherited fd slot s (new fd accepted) free owns)))
    ]
  ]
]

read_round-Tidy :
    (inherited : ℕ → Bool) (answers : Answers) (sock_set : ℕ → Bool) (o : Outcome)
    → Tidy inherited (some o)
    → Tidy inherited (read_round answers sock_set o)
unfolding read_round
read_round-Tidy inherited answers sock_set (returns success s) tidy = tidy
read_round-Tidy inherited answers sock_set (goes_on s) owns =
    kept (read_clients sock_set answers.recvfrom 0 s.client_sock s.is_open s.out)
      (read_clients-Kept sock_set answers.recvfrom 0 s.client_sock s.is_open s.out)
  where
    kept :
        (r : Option (List ℕ × (ℕ → Bool) × List Printed))
        → KeptBy s.client_sock s.is_open r
        → Tidy inherited (
            Option.map
              (λ (client_sock, is_open, out).
                goes_on record s { client_sock = client_sock; is_open = is_open; out = out })
              r)
    kept none k = tt
    kept (some (fds', is_open', out')) k = record {
      slots = omega (arith, k.slots, owns.slots);
      account = λ fd pos.
          omega (arith, owns.account fd pos, k.account fd pos (omega (arith, owns.account fd pos)));
      stdin = k.stdin ∙ owns.stdin;
    }

read_round-bind :
    (inherited : ℕ → Bool) (answers : Answers) (sock_set : ℕ → Bool) (o : Option Outcome)
    → Tidy inherited o
    → Tidy inherited (Option.bind o (read_round answers sock_set))
unfolding Option.bind
read_round-bind inherited answers sock_set none t = tt
read_round-bind inherited answers sock_set (some x) t =
    read_round-Tidy inherited answers sock_set x t

round-Tidy :
    (inherited : ℕ → Bool) (answers : Answers) (s : Server)
    → NewDescriptor answers s
    → Owns inherited s
    → Tidy inherited (round answers s)
unfolding round Option.bind
round-Tidy inherited answers s new owns = elim (Selected-cases answers.select) [
  | inl (inl end) ↦ rw (end, round) (finish-closed inherited true Printed.server_closed s owns)
  | inl (inr error) ↦ rw (error, round) (finish-closed inherited false Printed.select_failed s owns)
  | inr (sock_set, some_ready) ↦
      rw (some_ready, round)
        (read_round-bind inherited answers sock_set (admit answers sock_set s)
          (admit-Tidy inherited answers sock_set s new owns))
]

-- The states of the loop of `main`, for a process that had the descriptors `inherited` open.
pub data Reach (inherited : ℕ → Bool) : Server → Type 0 where
  started :
      {s : Server} (setup : Setup)
      → ((fd : ℕ) → setup.socket ≡ some fd → inherited fd ≡ false)
      → start setup inherited ≡ serving s
      → Reach inherited s
  next :
      {s s' : Server} (answers : Answers)
      → Reach inherited s
      → NewDescriptor answers s
      → round answers s ≡ some (goes_on s')
      → Reach inherited s'

-- What `main` is left with when its loop cannot begin, or begins.
abbrev pub Begun : (ℕ → Bool) → Started → Type 0
Begun inherited (serving s) = Owns inherited s
Begun inherited (stopped is_open out) = (fd : ℕ) → is_open fd ≡ inherited fd

-- If the process has descriptor 0 open and socket returns a descriptor that is not open: when socket,
-- bind or listen fails, main returns with exactly the inherited descriptors open; otherwise the
-- loop begins with exactly these and the listening socket open, and with a table of five free slots.
pub start-Begun :
    (inherited : ℕ → Bool) (setup : Setup)
    → inherited 0 ≡ true
    → ((fd : ℕ) → setup.socket ≡ some fd → inherited fd ≡ false)
    → Begun inherited (start setup inherited)
unfolding start
start-Begun inherited setup stdin new = elim (Option-cases setup.socket) [
  | inl error ↦ rw (error, start) (λ fd. refl)
  | inr (sock, got) ↦ rw (got, start) (bound sock (new sock got) setup.bind setup.listen)
]
  where
    bound :
        (sock : ℕ)
        → inherited sock ≡ false
        → (b l : Bool)
        → Begun inherited (
            if b
            then (if l
                then serving record {
                  client_sock = 0 ∷ 0 ∷ 0 ∷ 0 ∷ 0 ∷ [];
                  sock = sock;
                  is_open = update inherited sock true;
                  out = Printed.linked ∷ [];
                }
                else stopped (close sock (update inherited sock true)) (Printed.listen_failed ∷ []))
            else stopped (close sock (update inherited sock true)) (Printed.bind_failed ∷ []))
    bound sock shut true true = record {
      slots = refl;
      account = λ fd pos. unfold occurs in ground arith;
      stdin = ground arith;
    }
    bound sock shut true false = λ fd. ground arith
    bound sock shut false l = λ fd. ground arith

-- If the process had descriptor 0 open, then in every state of the loop of main, whatever the calls
-- answered, the table has five slots, and the open descriptors other than 0 are exactly the
-- inherited ones, the listening socket and those of the table, none of them twice: no client's
-- socket is leaked, shared by two slots, or in the table after it was closed.
pub Reach-Owns :
    {inherited : ℕ → Bool} {s : Server} → inherited 0 ≡ true → Reach inherited s → Owns inherited s
Reach-Owns {inherited} {s} stdin (started setup new begins) =
    subst (Begun inherited) begins (start-Begun inherited setup stdin new)
Reach-Owns {inherited} {s} stdin (next {s = before} answers reached new goes) =
    subst (Tidy inherited) goes (round-Tidy inherited answers before new (Reach-Owns stdin reached))

-- If the process had descriptor 0 open, then whenever main returns from its loop, with success after
-- ten seconds of silence or with EXIT_FAILURE, the listening socket and the sockets of all clients
-- are closed, and the inherited descriptors other than 0 are untouched.
pub returns_closed :
    {inherited : ℕ → Bool} {s s' : Server} {success : Bool} (answers : Answers)
    → inherited 0 ≡ true
    → Reach inherited s
    → NewDescriptor answers s
    → round answers s ≡ some (returns success s')
    → (fd : ℕ) → 0 < fd
    → s'.is_open fd ≡ inherited fd
returns_closed {inherited} {s} {s'} {success} answers stdin reached new ends =
    subst (Tidy inherited) ends (round-Tidy inherited answers s new (Reach-Owns stdin reached))
