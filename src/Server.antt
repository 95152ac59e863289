-- ===== src/Server.antt =====
-- sem_6/lab6_2: a server that waits with `select` for its socket and its clients', and the client. What
-- the calls of sockets answer is a parameter.
pub mod Table
pub mod Rounds
pub mod Faults
pub mod Client
pub mod Watched
pub mod Talks
mod Examples
use mathlib.Core.Option
use os_bmstu.Common.{
  ℕ, zero, suc, ◌+◌, Bool, true, false, Option, none, some, List, [], ◌∷◌, ◌++◌, ◌==◌, ◌&&◌, not,
  if◌then◌else◌, ltb, update, set, length,
}

abbrev pub client_n : ℕ
client_n = 5

abbrev pub buf_size : ℕ
buf_size = 64

-- What the server prints.
pub data Printed : Type 0 where
  linked : Printed
  server_closed : Printed
  select_failed : Printed
  accept_failed : Printed
  socket_failed : Printed
  bind_failed : Printed
  listen_failed : Printed
  disconnected : (slot : ℕ) → Printed
  received : (text : List ℕ) → Printed

-- The table of clients, 0 for a free slot; the listening socket; which descriptors of the process
-- are open; the output.
pub record Server : Type 0 where
  pub client_sock : List ℕ
  pub sock : ℕ
  pub is_open : ℕ → Bool
  pub out : List Printed

-- `close`; it fails, without an effect, if the descriptor is not open.
abbrev pub close : ℕ → (ℕ → Bool) → ℕ → Bool
close fd is_open = update is_open fd false

-- `close_sockets`: all slots of the table, free ones too, then the listening socket.
unfoldable pub close_sockets : List ℕ → ℕ → (ℕ → Bool) → ℕ → Bool
close_sockets [] main_sock is_open = close main_sock is_open
close_sockets (fd ∷ sock_arr) main_sock is_open =
    close_sockets sock_arr main_sock (close fd is_open)

-- `empty_socket`: the index of the first free slot, `none` for NULL.
unfoldable pub empty_socket : List ℕ → Option ℕ
empty_socket [] = none
empty_socket (fd ∷ client_sock) =
    let rest = Option.map suc (empty_socket client_sock) in if fd == 0 then some 0 else rest

-- `recvfrom`: an error or the end of the connection, or the bytes that arrived.
pub data Received : Type 0 where
  no_bytes : Received
  bytes : List ℕ → Received

-- `select`: an error, the end of the interval, or the set of descriptors that are ready.
pub data Selected : Type 0 where
  failed : Selected
  timeout : Selected
  ready : (ℕ → Bool) → Selected

-- What the calls of one round answer; `recvfrom` for each slot.
pub record Answers : Type 0 where
  pub select : Selected
  pub accept : Option ℕ
  pub recvfrom : ℕ → Received

-- The bytes before the first 0, as `printf` prints them.
unfoldable pub text_of : List ℕ → List ℕ
text_of [] = []
text_of (c ∷ cs) = let rest = c ∷ text_of cs in if c == 0 then [] else rest

-- The table, the open descriptors and the output after the loop over the slots from `i` on; `none`
-- if `buf[bytes]` is outside `buf`.
unfoldable pub read_clients :
    (ℕ → Bool)
    → (ℕ → Received)
    → ℕ
    → List ℕ
    → (ℕ → Bool)
    → List Printed
    → Option (List ℕ × (ℕ → Bool) × List Printed)
unfolding text_of
read_clients sock_set recv i [] is_open out = some ([], is_open, out)
read_clients sock_set recv i (fd ∷ fds) is_open out = elim (not (fd == 0) && sock_set fd) [
  | false ↦
      Option.map (λ (rest, o, p). (fd ∷ rest, o, p))
        (read_clients sock_set recv (i + 1) fds is_open out)
  | true ↦ elim (recv i) [
    | no_bytes ↦
        Option.map (λ (rest, o, p). (0 ∷ rest, o, p))
          (read_clients sock_set recv (i + 1) fds (close fd is_open) (out ++ disconnected i ∷ []))
    | bytes cs ↦ elim (ltb (length cs) buf_size) [
      | true ↦
          Option.map (λ (rest, o, p). (fd ∷ rest, o, p))
            (read_clients sock_set recv (i + 1) fds is_open (out ++ received (text_of cs) ∷ []))
      | false ↦ none
    ]
  ]
]

-- `MAX`.
abbrev pub max : ℕ → ℕ → ℕ
max a b = if ltb b a then a else b

-- The set and `max_sock` after the loop that adds the clients.
unfoldable pub watch : List ℕ → (ℕ → Bool) → ℕ → (ℕ → Bool) × ℕ
watch [] sock_set max_sock = (sock_set, max_sock)
watch (fd ∷ fds) sock_set max_sock = elim (fd == 0) [
  | true ↦ watch fds sock_set max_sock
  | false ↦ watch fds (update sock_set fd true) (max max_sock fd)
]

-- What `select` is called with.
unfoldable pub watched : Server → (ℕ → Bool) × ℕ
unfolding watch
watched s = watch s.client_sock (update (λ fd. false) s.sock true) s.sock

-- How a round ends: the loop goes on, or `main` returns 0 or EXIT_FAILURE.
pub data Outcome : Type 0 where
  goes_on : Server → Outcome
  returns : (success : Bool) → Server → Outcome

-- `close_sockets`, a message, and the return.
unfoldable pub finish : Bool → Printed → Server → Outcome
unfolding close_sockets
finish success line s =
    returns success
      record s { is_open = close_sockets s.client_sock s.sock s.is_open; out = s.out ++ line ∷ [] }

-- The test of the listening socket: `accept` and the store through `empty_socket`. `none` is a store
-- through NULL.
unfoldable pub admit : Answers → (ℕ → Bool) → Server → Option Outcome
unfolding finish empty_socket
admit answers sock_set s = elim (sock_set s.sock) [
  | false ↦ some (goes_on s)
  | true ↦ elim answers.accept [
    | none ↦ some (finish false accept_failed s)
    | some new_sock ↦
        Option.map
          (λ slot. goes_on record s {
            client_sock = set s.client_sock slot new_sock;
            is_open = update s.is_open new_sock true;
          })
          (empty_socket s.client_sock)
  ]
]

-- The loop over the clients, unless `main` has returned.
unfoldable pub read_round : Answers → (ℕ → Bool) → Outcome → Option Outcome
unfolding read_clients
read_round answers sock_set (returns success s) = some (returns success s)
read_round answers sock_set (goes_on s) =
    Option.map
      (λ (client_sock, is_open, out).
        goes_on record s { client_sock = client_sock; is_open = is_open; out = out })
      (read_clients sock_set answers.recvfrom 0 s.client_sock s.is_open s.out)

-- One round of the loop of `main`.
unfoldable pub round : Answers → Server → Option Outcome
unfolding finish admit read_round
round answers s = elim answers.select [
  | timeout ↦ some (finish true server_closed s)
  | failed ↦ some (finish false select_failed s)
  | ready sock_set ↦ Option.bind (admit answers sock_set s) (read_round answers sock_set)
]

-- What `socket`, `bind` and `listen` answer.
pub record Setup : Type 0 where
  pub socket : Option ℕ
  pub bind : Bool
  pub listen : Bool

-- How `main` gets to its loop, or returns EXIT_FAILURE.
pub data Started : Type 0 where
  serving : Server → Started
  stopped : (ℕ → Bool) → List Printed → Started

-- `main` up to its loop, for a process with these open descriptors.
unfoldable pub start : Setup → (ℕ → Bool) → Started
start setup inherited = elim setup.socket [
  | none ↦ stopped inherited (socket_failed ∷ [])
  | some sock ↦
      let is_open = update inherited sock true in
      if setup.bind
      then (if setup.listen
          then serving record {
            client_sock = 0 ∷ 0 ∷ 0 ∷ 0 ∷ 0 ∷ [];
            sock = sock;
            is_open = is_open;
            out = linked ∷ [];
          }
          else stopped (close sock is_open) (listen_failed ∷ []))
      else stopped (close sock is_open) (bind_failed ∷ [])
]
