-- ===== src/Datagram/Examples.antt =====
-- Words sent to the server, and runs that go wrong.
use os_bmstu.Common.{some, ◌≡◌, refl, true, false, List, [], ◌∷◌, ℕ, zero, suc, arith}
use os_bmstu.Memory.{zeros, overwrite, write_at, c_string}
use mathlib.Core.Option
use os_bmstu.Datagram.{
  buf_size, returned, client, datagram, sigint, faulted, waits, ended, server, receive,
}
use os_bmstu.Datagram.Delivery.{both_succeed, sent, words_delivered}

abbrev two_words : List (List ℕ)
two_words = (b'h' ∷ b'i' ∷ []) ∷ (b'y' ∷ b'o' ∷ b'u' ∷ []) ∷ []

words_delivered_example :
    server true true false (sent (zeros buf_size) two_words) (zeros buf_size)
    ≡ waits (record { sock = true; name = true }) two_words
words_delivered_example =
    words_delivered two_words (zeros buf_size) (zeros buf_size) false (ground arith) refl refl

abbrev letters : ℕ → List ℕ
letters zero = []
letters (suc n) = b'x' ∷ letters n

-- A word of 29 letters still passes; a datagram of 30 is stored, and the 0 then falls behind `buf`.
long_datagram :
    (server true true false (datagram (letters 29) ∷ sigint ∷ []) (zeros buf_size)
      ≡ ended 0 (record { sock = false; name = false }) (letters 29 ∷ []))
    × (server true true false (datagram (letters 30) ∷ sigint ∷ []) (zeros buf_size) ≡ faulted [])
unfolding server receive Option.bind overwrite write_at c_string
long_datagram = (refl, refl)

-- Without a word in its input, the client sends what happens to be in its buffer.
sends_garbage : client both_succeed [] (b'?' ∷ zeros 29) ≡ returned 0 (some (b'?' ∷ []))
unfolding client Option.bind c_string
sends_garbage = refl
