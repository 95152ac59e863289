-- ===== src/Server/Talks.antt =====
-- One connection of the server of lab6_2 among the others: what arrives on it, round by round.
pub mod Slot
pub mod Turn
pub mod Delivery
pub mod Client
mod Examples
use os_bmstu.Common.{
  ℕ, ◌≡◌, Bool, true, false, Option, none, some, List, [], ◌∷◌, ◌++◌, not, ◌==◌, ◌&&◌,
}
use os_bmstu.Server.{
  Server, Answers, Selected, ready, Received, no_bytes, bytes, Outcome, goes_on, round, Printed,
  disconnected, received, text_of,
}

-- Rounds of the loop of `main` while the descriptor `fd` stands in slot `k`: the bytes that recvfrom
-- delivers on it, and whether its end came last. In a round in which `fd` is not ready, nothing comes;
-- what the calls answer for the other slots, for the listening socket and in what order the rounds
-- come is free.
pub data Talks (k fd : ℕ) : Server → List ℕ → Bool → Server → Type 0 where
  so_far : {s : Server} → Talks k fd s [] false s
  idle :
      {s s' t : Server} {delivered : List ℕ} {ended : Bool} (answers : Answers)
      (sock_set : ℕ → Bool)
      → answers.select ≡ ready sock_set
      → sock_set fd ≡ false
      → round answers s ≡ some (goes_on s')
      → Talks k fd s' delivered ended t
      → Talks k fd s delivered ended t
  hears :
      {s s' t : Server} {delivered : List ℕ} {ended : Bool} (answers : Answers)
      (sock_set : ℕ → Bool) (cs : List ℕ)
      → answers.select ≡ ready sock_set
      → sock_set fd ≡ true
      → answers.recvfrom k ≡ bytes cs
      → round answers s ≡ some (goes_on s')
      → Talks k fd s' delivered ended t
      → Talks k fd s (cs ++ delivered) ended t
  leaves :
      {s s' : Server} (answers : Answers) (sock_set : ℕ → Bool)
      → answers.select ≡ ready sock_set
      → sock_set fd ≡ true
      → answers.recvfrom k ≡ no_bytes
      → round answers s ≡ some (goes_on s')
      → Talks k fd s [] true s'

-- The pieces, one after another.
abbrev pub joined : List (List ℕ) → List ℕ
joined [] = []
joined (piece ∷ pieces) = piece ++ joined pieces

-- What the server prints for a connection in slot `k` whose bytes come in these pieces.
abbrev pub lines : ℕ → List (List ℕ) → Bool → List Printed
lines k [] false = []
lines k [] true = disconnected k ∷ []
lines k (piece ∷ pieces) ended = received piece ∷ lines k pieces ended
