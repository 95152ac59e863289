-- ===== src/Server/Examples.antt =====
-- The server with concrete answers of the calls, and the theorems at them.
use mathlib.Core.Option
use os_bmstu.Common.{
  if◌then◌else◌, occurs, ◌||◌, ◌⊎◌, ◌≤◌, ℕ, zero, suc, ◌≡◌, refl, Bool, true, false, none, some,
  List, [], ◌∷◌, ◌==◌, ltb, arith, update, ℕ_discrete,
}
use os_bmstu.Server.{
  watched, Server, Setup, Answers, ready, timeout, no_bytes, bytes, Outcome, goes_on, returns,
  round, start, Printed, admit, finish,
}
use os_bmstu.Server.Rounds.{Owns, Reach, started, next, Reach-Owns, returns_closed}
use os_bmstu.Server.Client.{Calls}
use os_bmstu.Server.Watched.{watched-covers}
use os_bmstu.Server.Faults.{round-some, round-sixth_client}

-- Standard input, output and error output.
abbrev standard : ℕ → Bool
standard fd = ltb fd 3

abbrev setup : Setup
setup = record { socket = some 3; bind = true; listen = true }

abbrev begun : Server
begun = record {
  client_sock = 0 ∷ 0 ∷ 0 ∷ 0 ∷ 0 ∷ [];
  sock = 3;
  is_open = update standard 3 true;
  out = Printed.linked ∷ [];
}

-- A client connects.
abbrev connects : Answers
connects = record { select = ready (λ fd. fd == 3); accept = some 4; recvfrom = λ i. no_bytes }

abbrev one_client : Server
one_client = record begun {
  client_sock = 4 ∷ 0 ∷ 0 ∷ 0 ∷ 0 ∷ [];
  is_open = update begun.is_open 4 true;
}

begun-round : round connects begun ≡ some (goes_on one_client)
unfolding round Option.bind admit
begun-round = refl

one_client-Reach : Reach standard one_client
unfolding start
one_client-Reach =
    next connects (started setup (λ fd e. ground arith) refl) (λ fd e. ground arith) begun-round

Reach-Owns_example : Owns standard one_client
Reach-Owns_example = Reach-Owns refl one_client-Reach

-- Ten seconds pass without a message.
abbrev silence : Answers
silence = record { select = timeout; accept = none; recvfrom = λ i. no_bytes }

abbrev closed : Server
closed = record one_client {
  is_open =
      update
        (update
          (update (update (update (update one_client.is_open 4 false) 0 false) 0 false) 0 false) 0
          false)
        3 false;
  out = Printed.linked ∷ Printed.server_closed ∷ [];
}

silence_ends : round silence one_client ≡ some (returns true closed)
unfolding round finish
silence_ends = refl

returns_closed_example : closed.is_open 4 ≡ false
returns_closed_example =
    returns_closed silence refl one_client-Reach (λ fd e. ground arith) silence_ends 4 (omega arith)

-- Free slots hold 0, so close_sockets also closes standard input.
stdin_closed : closed.is_open 0 ≡ false
unfolding ℕ_discrete
stdin_closed = refl

abbrev hello : Answers
hello = record {
  select = ready (λ fd. fd == 4);
  accept = none;
  recvfrom = λ i. bytes (b'h' ∷ b'i' ∷ []);
}

round-some_example : (o : Outcome) × (round hello one_client ≡ some o)
unfolding occurs
round-some_example = round-some hello one_client (omega arith) (λ i cs e. ground arith)

hello_shown :
    round hello one_client
    ≡ some (
        goes_on
          record one_client { out = Printed.linked ∷ Printed.received (b'h' ∷ b'i' ∷ []) ∷ [] })
unfolding round Option.bind
hello_shown = refl

abbrev crowded : Server
crowded = record begun { client_sock = 4 ∷ 5 ∷ 6 ∷ 7 ∷ 8 ∷ [] }

round-sixth_client_example : round connects crowded ≡ none
unfolding occurs
round-sixth_client_example =
    round-sixth_client connects (λ fd. fd == 3) crowded 4 refl refl refl refl

abbrev many : ℕ → List ℕ
many zero = []
many (suc n) = b'x' ∷ many n

-- A client sends 64 bytes.
abbrev flood : Answers
flood = record { select = ready (λ fd. fd == 4); accept = none; recvfrom = λ i. bytes (many 64) }

flood_faults : round flood one_client ≡ none
unfolding round Option.bind admit
flood_faults = refl

watched-covers_example :
    ((watched one_client).0 4 ≡ (4 == one_client.sock || ltb 0 (occurs 4 one_client.client_sock)))
    × (((watched one_client).0 4 ≡ false) ⊎ (4 ≤ (watched one_client).1))
watched-covers_example = watched-covers one_client 4 (omega arith)

-- The third call of send fails.
abbrev third_send_fails : Calls
third_send_fails = record {
  socket = true;
  gethostbyname = true;
  connect = true;
  send = λ i. if i == 2 then false else true;
}
