-- ===== src/Server/Client.antt =====
-- sem_6/lab6_2/client.c: a client that sends the server one message ten times.
use mathlib.Core.Option
use os_bmstu.Common.{
  ◌⊎◌, ℕ, zero, suc, ◌+◌, ◌<◌, ◌≡◌, ap, Bool, false, Option, none, some, List, [], ◌∷◌, ◌++◌,
  if◌then◌else◌,
}
use os_bmstu.Memory.{overwrite, c_string}
use os_bmstu.Datagram.{scan}

pub record Calls : Type 0 where
  pub socket : Bool
  pub gethostbyname : Bool
  pub connect : Bool
  pub send : ℕ → Bool

-- How the client ends: with a fault, or with a code, what it has sent, and whether its socket is
-- still open.
pub data Result : Type 0 where
  fault : Result
  returned : (code : ℕ) → (sent : List (List ℕ)) → (sock : Bool) → Result

-- "Message from ".
abbrev pub greeting : List ℕ
greeting = b'M' ∷ b'e' ∷ b's' ∷ b's' ∷ b'a' ∷ b'g' ∷ b'e' ∷ 32 ∷ b'f' ∷ b'r' ∷ b'o' ∷ b'm' ∷ 32 ∷ []

-- `sprintf` into `buf`, and the bytes that send gets: the buffer, and its string.
unfoldable pub format : List ℕ → List ℕ → Option (List ℕ × List ℕ)
format msg buf =
    Option.bind (overwrite buf ((greeting ++ msg) ++ 0 ∷ []))
      λ buf'. Option.map (λ text. (buf', text)) (c_string buf')

abbrev pub unless_fault : Option (List ℕ × List ℕ) → (List ℕ → List ℕ → Result) → Result
unless_fault none next = fault
unless_fault (some (buf, text)) next = next buf text

-- The loop, with `n` rounds to go, from call `i` of send on.
unfoldable pub send_all : (ℕ → Bool) → ℕ → ℕ → List ℕ → List ℕ → List (List ℕ) → Result
send_all send i zero msg buf sent = returned 0 sent false
send_all send i (suc n) msg buf sent = unless_fault (format msg buf) (λ buf' text.
    let rest = send_all send (i + 1) n msg buf' (sent ++ text ∷ []) in
    if send i then rest else returned 1 sent false)

-- From socket on, for the string in `msg`.
unfoldable pub with_message : Calls → Option (List ℕ) → List ℕ → Result
with_message calls none buf = fault
with_message calls (some msg) buf =
    if calls.socket
    then (if calls.gethostbyname
        then (if calls.connect then send_all calls.send 0 10 msg buf [] else returned 1 [] false)
        else returned 1 [] false)
    else returned 1 [] false

unfoldable pub client : Calls → List ℕ → (msg buf : List ℕ) → Result
client calls input msg buf = with_message calls (Option.bind (scan input msg) c_string) buf

abbrev pub copies : ℕ → List ℕ → List (List ℕ)
copies zero text = []
copies (suc n) text = text ∷ copies n text

-- The client has sent `k` copies of a text: all, or as many as calls of send succeeded at first.
abbrev pub Sends : (ℕ → Bool) → ℕ → ℕ → List (List ℕ) → List ℕ → Result → Type 0
Sends send i n sent text r =
    (k : ℕ) × (((k ≡ n) × (r ≡ returned 0 (sent ++ copies k text) false))
      ⊎ ((k < n) × (send (i + k) ≡ false) × (r ≡ returned 1 (sent ++ copies k text) false)))

pub send_all-round :
    (send : ℕ → Bool) (i n : ℕ) (msg buf buf' text : List ℕ) (sent : List (List ℕ))
    → format msg buf ≡ some (buf', text)
    → send_all send i (suc n) msg buf sent ≡ (
        if send i
        then send_all send (i + 1) n msg buf' (sent ++ text ∷ [])
        else returned 1 sent false)
unfolding send_all
send_all-round send i n msg buf buf' text sent e =
    ap
      (λ r. unless_fault r (λ b t.
        if send i then send_all send (i + 1) n msg b (sent ++ t ∷ []) else returned 1 sent false))
      e
