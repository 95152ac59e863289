-- ===== src/Datagram/Delivery.antt =====
-- Every word that a client sends is printed by the server.
use mathlib.Core.Option
use os_bmstu.Common.{
  ℕ, ◌<◌, ◌≡◌, ◌∙◌, refl, sym, ap, Bool, true, false, some, List, [], ◌∷◌, ◌++◌, length,
  length-append, take-all, arith, split_at,
}
use mathlib.Core.List.{append_assoc, append-nil}
use os_bmstu.Memory.{NonZero, overwrite}
use os_bmstu.Memory.Laws.{write_at-append, c_string-append, overwrite-append}
use os_bmstu.Datagram.{
  buf_size, is_space, skip_spaces, word_of, store_word, scan, ClientCalls, Client, returned, client,
  Event, datagram, Held, waits, receive, unless_fault, serve, server,
}

-- No white space and no 0.
abbrev pub IsWord : List ℕ → Type 0
IsWord [] = Unit {0}
IsWord (c ∷ word) = (is_space c ≡ false) × (0 < c) × IsWord word

-- A word that fits into a buffer with the 0 behind it.
abbrev pub Fits : List ℕ → Type 0
Fits word = IsWord word × (0 < length word) × (length word < buf_size)

abbrev pub AllFit : List (List ℕ) → Type 0
AllFit [] = Unit {0}
AllFit (word ∷ words) = Fits word × AllFit words

-- A word and the end of the line, as it is typed.
abbrev pub typed : List ℕ → List ℕ
typed word = word ++ 10 ∷ []

-- The datagrams that arrive of a client.
abbrev pub sent_by : Client → List Event
sent_by (returned code (some message)) = datagram message ∷ []
sent_by _ = []

abbrev pub both_succeed : ClientCalls
both_succeed = record { socket = true; sendto = true }

-- One client for each word, one after another.
abbrev pub sent : List ℕ → List (List ℕ) → List Event
sent buf [] = []
sent buf (word ∷ words) = sent_by (client both_succeed (typed word) buf) ++ sent buf words

pub IsWord-NonZero : (word : List ℕ) → IsWord word → NonZero word
IsWord-NonZero [] h = tt
IsWord-NonZero (c ∷ word) h = (h.1, IsWord-NonZero word h.2)

skip_spaces-word : (c : ℕ) (word : List ℕ) → is_space c ≡ false → skip_spaces (c ∷ word) ≡ c ∷ word
unfolding skip_spaces
skip_spaces-word c word h = rw h refl

word_of-typed : (word : List ℕ) → IsWord word → word_of (typed word) ≡ word
unfolding word_of
word_of-typed [] h = refl
word_of-typed (c ∷ word) h = rw (h.0, word_of-typed word h.2) refl

-- Storing a shorter string and the 0 behind it.
pub overwrite-string :
    (buf s : List ℕ)
    → length s < length buf
    → (rest : List ℕ) × (overwrite buf (s ++ 0 ∷ []) ≡ some (s ++ 0 ∷ rest))
      × (length (s ++ 0 ∷ rest) ≡ length buf)
overwrite-string buf s short =
    let (old, x, rest, e, l) = split_at buf (length s) short in
    (
      rest,
      rw (e, ← append_assoc old (x ∷ []) rest)
          (overwrite-append (old ++ x ∷ []) (s ++ 0 ∷ []) rest
              (omega (arith, length-append old (x ∷ []), length-append s (0 ∷ []), l))
            ∙ ap some (append_assoc s (0 ∷ []) rest)),
      omega (arith, length-append s (0 ∷ rest), length-append old (x ∷ rest), ap length e, l),
    )

pub scan-typed :
    (c : ℕ) (word buf : List ℕ)
    → IsWord (c ∷ word)
    → scan (typed (c ∷ word)) buf ≡ overwrite buf ((c ∷ word) ++ 0 ∷ [])
unfolding scan store_word
scan-typed c word buf h = rw (skip_spaces-word c (typed word) h.0, word_of-typed (c ∷ word) h) refl

client-sends :
    (word buf : List ℕ)
    → Fits word
    → length buf ≡ buf_size
    → client both_succeed (typed word) buf ≡ returned 0 (some word)
unfolding client Option.bind
client-sends [] buf fits size = absurd (omega (arith, fits.1))
client-sends (c ∷ word) buf fits size =
    let (rest, e, _) = overwrite-string buf (c ∷ word) (omega (arith, fits.2, size)) in
    rw
      (
        scan-typed c word buf fits.0,
        e,
        c_string-append (c ∷ word) rest (IsWord-NonZero (c ∷ word) fits.0),
      )
      refl

receive-short :
    (word buf : List ℕ)
    → NonZero word
    → length word < buf_size
    → length buf ≡ buf_size
    → (buf' : List ℕ) × (receive word buf ≡ some (buf', word)) × (length buf' ≡ buf_size)
unfolding receive Option.bind
receive-short word buf good short size =
    let (old, x, rest, e, l) = split_at buf (length word) (omega (arith, size)) in
    (
      word ++ 0 ∷ rest,
      rw
          (
            take-all buf_size word (omega arith),
            e,
            overwrite-append old word (x ∷ rest) l,
            write_at-append word (x ∷ []) (0 ∷ []) rest refl,
            c_string-append word rest good,
          )
          refl,
      omega (
        arith,
        length-append word (0 ∷ rest),
        length-append old (x ∷ rest),
        ap length e,
        l,
        size,
      ),
    )

serve-word :
    (word : List ℕ) (events : List Event) (buf buf' : List ℕ) (h : Held) (out : List (List ℕ))
    → receive word buf ≡ some (buf', word)
    → serve (datagram word ∷ events) buf h out ≡ serve events buf' h (out ++ word ∷ [])
unfolding serve
serve-word word events buf buf' h out e =
    ap (λ r. unless_fault r out (λ b t. serve events b h (out ++ t ∷ []))) e

serve-words :
    (words : List (List ℕ)) (client_buf buf : List ℕ) (h : Held) (out : List (List ℕ))
    → AllFit words
    → length client_buf ≡ buf_size
    → length buf ≡ buf_size
    → serve (sent client_buf words) buf h out ≡ waits h (out ++ words)
serve-words [] client_buf buf h out fit client_size size =
    unfold serve in ap (waits h) (sym (append-nil out))
serve-words (word ∷ words) client_buf buf h out fit client_size size =
    let (buf', got, size') = receive-short word buf (IsWord-NonZero word fit.0.0) fit.0.2 size in
    ap (λ c. serve (sent_by c ++ sent client_buf words) buf h out)
      (client-sends word client_buf fit.0 client_size)
    ∙ serve-word word (sent client_buf words) buf buf' h out got
    ∙ serve-words words client_buf buf' h (out ++ word ∷ []) fit.1 client_size size'
    ∙ ap (waits h) (append_assoc out (word ∷ []) words)

-- If the server got its socket and its name, and clients are run one after another, each with a word
-- of 1 to 29 characters typed and with calls that succeed, whatever was in the buffers: the server
-- prints the words that were typed, all of them, in order, and waits for the next datagram.
pub words_delivered :
    (words : List (List ℕ)) (client_buf buf : List ℕ) (name : Bool)
    → AllFit words
    → length client_buf ≡ buf_size
    → length buf ≡ buf_size
    → server true true name (sent client_buf words) buf
      ≡ waits (record { sock = true; name = true }) words
unfolding server
words_delivered words client_buf buf name fit client_size size =
    serve-words words client_buf buf (record { sock = true; name = true }) [] fit client_size size
