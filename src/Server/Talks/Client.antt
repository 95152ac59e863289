-- ===== src/Server/Talks/Client.antt =====
-- The client of lab6_2 and the server together: what the one sends, the other prints.
use mathlib.Core.Option
use mathlib.Core.Path.{subst}
use os_bmstu.Common.{
  ℕ, zero, suc, ◌+◌, ◌<◌, ◌≡◌, Bool, Bool-cases, true, false, inl, inr, none, some, List, [], ◌∷◌,
  ◌++◌, ◌==◌, if◌then◌else◌, get_elem?, arith, Option, Option-cases,
}
use os_bmstu.Memory.{NonZero, overwrite, c_string}
use os_bmstu.Memory.Laws.{NonZero-append}
use os_bmstu.Datagram.{scan}
use os_bmstu.Server.{Server}
use os_bmstu.Server.Client.{
  Calls, Result, fault, returned, greeting, format, send_all, with_message, client, send_all-round,
}
use os_bmstu.Server.Talks.{Talks, joined}
use os_bmstu.Server.Talks.Delivery.{Heard, Talks-Heard}

-- No byte of a list of texts is 0.
abbrev AllNonZero : List (List ℕ) → Type 0
AllNonZero [] = Unit {0}
AllNonZero (text ∷ texts) = NonZero text × AllNonZero texts

AllNonZero-more :
    (texts : List (List ℕ)) (text : List ℕ)
    → AllNonZero texts
    → NonZero text
    → AllNonZero (texts ++ text ∷ [])
AllNonZero-more [] text all good = (good, tt)
AllNonZero-more (t ∷ texts) text all good = (all.0, AllNonZero-more texts text all.1 good)

joined-NonZero : (texts : List (List ℕ)) → AllNonZero texts → NonZero (joined texts)
joined-NonZero [] all = tt
joined-NonZero (text ∷ texts) all =
    NonZero-append text (joined texts) all.0 (joined-NonZero texts all.1)

abbrev NonZeroIf : Option (List ℕ) → Type 0
NonZeroIf none = Unit {0}
NonZeroIf (some text) = NonZero text

NonZeroIf-cons :
    (c : ℕ) (r : Option (List ℕ))
    → 0 < c
    → NonZeroIf r
    → NonZeroIf (Option.map (λ text. c ∷ text) r)
NonZeroIf-cons c none pos good = tt
NonZeroIf-cons c (some text) pos good = (pos, good)

c_string-NonZero : (mem : List ℕ) → NonZeroIf (c_string mem)
unfolding c_string
c_string-NonZero [] = tt
c_string-NonZero (c ∷ mem) = elim (Bool-cases (c == 0)) [
  | inl end ↦ rw end tt
  | inr byte ↦ rw byte (NonZeroIf-cons c (c_string mem) (ground arith) (c_string-NonZero mem))
]

-- What the client has sent when it returns.
abbrev SentWhole : Result → Type 0
SentWhole fault = Unit {0}
SentWhole (returned code sent sock) = AllNonZero sent

abbrev FormatNonZero : Option (List ℕ × List ℕ) → Type 0
FormatNonZero none = Unit {0}
FormatNonZero (some (buf, text)) = NonZero text

format-NonZero : (msg buf buf' text : List ℕ) → format msg buf ≡ some (buf', text) → NonZero text
unfolding format Option.bind
format-NonZero msg buf buf' text e =
    subst FormatNonZero e (copied (overwrite buf ((greeting ++ msg) ++ 0 ∷ [])))
  where
    shown :
        (mem : List ℕ) (r : Option (List ℕ))
        → NonZeroIf r
        → FormatNonZero (Option.map (λ text. (mem, text)) r)
    shown mem none good = tt
    shown mem (some text) good = good

    copied :
        (r : Option (List ℕ))
        → FormatNonZero (Option.bind r λ buf'. Option.map (λ text. (buf', text)) (c_string buf'))
    copied none = tt
    copied (some mem) = shown mem (c_string mem) (c_string-NonZero mem)

send_all-SentWhole :
    (send : ℕ → Bool) (i n : ℕ) (msg buf : List ℕ) (sent : List (List ℕ))
    → AllNonZero sent
    → SentWhole (send_all send i n msg buf sent)
send_all-SentWhole send i zero msg buf sent all = unfold send_all in all
send_all-SentWhole send i (suc n) msg buf sent all = elim (Option-cases (format msg buf)) [
  | inl over ↦ unfold send_all in rw over tt
  | inr ((buf', text), e) ↦
      rw (send_all-round send i n msg buf buf' text sent e) (elim (Bool-cases (send i)) [
        | inl goes ↦ rw goes (
            send_all-SentWhole send (i + 1) n msg buf' (sent ++ text ∷ [])
              (AllNonZero-more sent text all (format-NonZero msg buf buf' text e)))
        | inr fails ↦ rw fails all
      ])
]

with_message-SentWhole :
    (calls : Calls) (msg : Option (List ℕ)) (buf : List ℕ) → SentWhole (with_message calls msg buf)
unfolding with_message
with_message-SentWhole calls none buf = tt
with_message-SentWhole calls (some msg) buf =
    connects calls.socket calls.gethostbyname calls.connect
  where
    connects :
        (a b c : Bool)
        → SentWhole (
            if a
            then (if b
                then (if c then send_all calls.send 0 10 msg buf [] else returned 1 [] false)
                else returned 1 [] false)
            else returned 1 [] false)
    connects true true true = send_all-SentWhole calls.send 0 10 msg buf [] tt
    connects true true false = tt
    connects true false c = tt
    connects false b c = tt

-- The client and the server together, whatever is typed, whatever the buffers of the client hold,
-- whichever of its calls fail, and whatever the other clients do: if the client returns, and the
-- bytes that it sent come on a connection that stands in a slot of the table, in pieces of any sizes,
-- followed by its end, over rounds after which the loop of main goes on, then the server prints all of
-- these bytes, in order, in lines of their own, and behind them that the client has disconnected; the
-- slot is free then.
pub client-Heard :
    {k fd : ℕ} {s t : Server} (calls : Calls) (input msg buf : List ℕ) (code : ℕ)
    → (sent : List (List ℕ)) (sock : Bool) → client calls input msg buf ≡ returned code sent sock
    → 0 < fd
    → get_elem? s.client_sock k ≡ some fd
    → Talks k fd s (joined sent) true t
    → Heard k fd s (joined sent) true t
client-Heard calls input msg buf code sent sock ran pos held talks =
    Talks-Heard talks pos held (joined-NonZero sent (subst SentWhole ran whole))
  where
    whole : SentWhole (client calls input msg buf)
    whole =
        unfold client in with_message-SentWhole calls (Option.bind (scan input msg) c_string) buf
