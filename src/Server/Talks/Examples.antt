-- ===== src/Server/Talks/Examples.antt =====
-- A client that sends two messages, which come as two pieces of other sizes.
use mathlib.Core.Option
use os_bmstu.Common.{
  ℕ, ◌≡◌, ◌++◌, ◌==◌, refl, true, false, none, some, List, [], ◌∷◌, if◌then◌else◌, ltb, arith,
  update, drop,
}
use os_bmstu.Memory.{zeros, overwrite, c_string}
use os_bmstu.Datagram.{scan}
use os_bmstu.Datagram.Delivery.{typed}
use os_bmstu.Server.{
  Server, Answers, Received, ready, no_bytes, bytes, goes_on, round, Printed, admit, read_clients,
  text_of,
}
use os_bmstu.Server.Client.{Calls, returned, greeting, client, with_message, send_all, format}
use os_bmstu.Server.Talks.{Talks, hears, leaves, joined}
use os_bmstu.Server.Talks.Delivery.{Heard}
use os_bmstu.Server.Talks.Client.{client-Heard}

abbrev me : List ℕ
me = b'm' ∷ b'e' ∷ []

abbrev message : List ℕ
message = greeting ++ me

-- The third call of send fails.
abbrev third_fails : Calls
third_fails = record {
  socket = true;
  gethostbyname = true;
  connect = true;
  send = λ i. if i == 2 then false else true;
}

two_sent :
    client third_fails (typed me) (zeros 64) (zeros 64) ≡ returned 1 (message ∷ message ∷ []) false
unfolding client Option.bind with_message scan overwrite c_string send_all format
two_sent = refl

-- Descriptor 4 stands in slot 0.
abbrev accepted : Server
accepted = record {
  client_sock = 4 ∷ 0 ∷ 0 ∷ 0 ∷ 0 ∷ [];
  sock = 3;
  is_open = λ fd. ltb fd 5;
  out = Printed.linked ∷ [];
}

abbrev piece1 : List ℕ
piece1 = message ++ b'M' ∷ []

abbrev piece2 : List ℕ
piece2 = drop 1 message

abbrev from_4 : Received → Answers
from_4 r = record { select = ready (λ fd. fd == 4); accept = none; recvfrom = λ i. r }

abbrev heard1 : Server
heard1 = record accepted { out = Printed.linked ∷ Printed.received piece1 ∷ [] }

abbrev heard2 : Server
heard2 = record accepted {
  out = Printed.linked ∷ Printed.received piece1 ∷ Printed.received piece2 ∷ [];
}

abbrev gone : Server
gone = record accepted {
  client_sock = 0 ∷ 0 ∷ 0 ∷ 0 ∷ 0 ∷ [];
  is_open = update accepted.is_open 4 false;
  out =
      Printed.linked
      ∷ Printed.received piece1
      ∷ Printed.received piece2
      ∷ Printed.disconnected 0
      ∷ [];
}

round1 : round (from_4 (bytes piece1)) accepted ≡ some (goes_on heard1)
unfolding round Option.bind admit read_clients text_of
round1 = refl

round2 : round (from_4 (bytes piece2)) heard1 ≡ some (goes_on heard2)
unfolding round Option.bind admit read_clients text_of
round2 = refl

round3 : round (from_4 no_bytes) heard2 ≡ some (goes_on gone)
unfolding round Option.bind admit read_clients
round3 = refl

two_pieces : Talks 0 4 accepted (joined (message ∷ message ∷ [])) true gone
two_pieces =
    hears (from_4 (bytes piece1)) (λ fd. fd == 4) piece1 refl refl refl round1
      (hears (from_4 (bytes piece2)) (λ fd. fd == 4) piece2 refl refl refl round2
        (leaves (from_4 no_bytes) (λ fd. fd == 4) refl refl refl round3))

client-Heard_example : Heard 0 4 accepted (joined (message ∷ message ∷ [])) true gone
client-Heard_example =
    client-Heard third_fails (typed me) (zeros 64) (zeros 64) 1 (message ∷ message ∷ []) false
      two_sent (omega arith) refl two_pieces
