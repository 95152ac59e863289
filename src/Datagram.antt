-- ===== src/Datagram.antt =====
-- sem_6/lab6_1: a client that sends one word as a datagram, and a server that prints what it gets.
-- An access outside a buffer is a fault.
pub mod Delivery
pub mod Ends
mod Examples
use mathlib.Core.Option
use os_bmstu.Common.{
  ℕ, ◌+◌, Bool, true, false, Option, none, some, List, [], ◌∷◌, ◌++◌, ◌==◌, ◌||◌, ◌&&◌, leb,
  if◌then◌else◌, take, length,
}
use os_bmstu.Memory.{overwrite, write_at, c_string}

abbrev pub buf_size : ℕ
buf_size = 30

-- White space, as scanf skips it.
abbrev pub is_space : ℕ → Bool
is_space c = (c == 32) || (leb 9 c && leb c 13)

unfoldable pub skip_spaces : List ℕ → List ℕ
skip_spaces [] = []
skip_spaces (c ∷ input) = let rest = skip_spaces input in if is_space c then rest else c ∷ input

unfoldable pub word_of : List ℕ → List ℕ
word_of [] = []
word_of (c ∷ input) = let rest = word_of input in if is_space c then [] else c ∷ rest

-- What `scanf("%s", buf)` stores for a word; without a word it returns EOF and stores nothing.
unfoldable pub store_word : List ℕ → List ℕ → Option (List ℕ)
store_word [] buf = some buf
store_word (c ∷ word) buf = overwrite buf (c ∷ word ++ 0 ∷ [])

unfoldable pub scan : List ℕ → List ℕ → Option (List ℕ)
unfolding skip_spaces word_of store_word
scan input buf = store_word (word_of (skip_spaces input)) buf

pub record ClientCalls : Type 0 where
  pub socket : Bool
  pub sendto : Bool

-- How the client ends: with a fault, or with a code and the datagram that it has sent.
pub data Client : Type 0 where
  fault : Client
  returned : (code : ℕ) → (sent : Option (List ℕ)) → Client

abbrev pub send : Bool → Option (List ℕ) → Client
send success none = fault
send true (some message) = returned 0 (some message)
send false (some message) = returned 1 none

-- `main` of the client. EOF is -1, so the test of the result of scanf never fails.
unfoldable pub client : ClientCalls → List ℕ → List ℕ → Client
unfolding scan
client calls input buf =
    if calls.socket
    then send calls.sendto (Option.bind (scan input buf) c_string)
    else returned 1 none

-- What the server meets in recvfrom.
pub data Event : Type 0 where
  datagram : List ℕ → Event
  recv_error : Event
  sigint : Event

-- What the server holds: its socket, and the name of the socket in the file system.
pub record Held : Type 0 where
  pub sock : Bool
  pub name : Bool

-- Where the server is after the events so far, with what it has printed.
pub data Server : Type 0 where
  faulted : (out : List (List ℕ)) → Server
  waits : Held → (out : List (List ℕ)) → Server
  ended : (code : ℕ) → Held → (out : List (List ℕ)) → Server

abbrev pub close_socket : Held → Held
close_socket h = record h { sock = false; name = false }

-- `recvfrom`, which leaves out what does not fit, `buf[bytes] = 0`, and what printf shows of `buf`.
unfoldable pub receive : List ℕ → List ℕ → Option (List ℕ × List ℕ)
receive message buf =
    let bytes = take buf_size message in
    Option.bind (overwrite buf bytes) λ buf1.
      Option.bind (write_at buf1 (length bytes) (0 ∷ []))
        λ buf2. Option.map (λ text. (buf2, text)) (c_string buf2)

abbrev pub unless_fault :
    Option (List ℕ × List ℕ) → List (List ℕ) → (List ℕ → List ℕ → Server) → Server
unless_fault none out next = faulted out
unless_fault (some (buf, text)) out next = next buf text

-- The loop of the server, over the events in their order.
unfoldable pub serve : List Event → List ℕ → Held → List (List ℕ) → Server
serve [] buf h out = waits h out
serve (datagram message ∷ events) buf h out =
    unless_fault (receive message buf) out (λ buf' text. serve events buf' h (out ++ text ∷ []))
serve (recv_error ∷ events) buf h out = ended 1 (close_socket h) out
serve (sigint ∷ events) buf h out = ended 0 (close_socket h) out

-- `main` of the server; `name` says whether the name of its socket is there before.
unfoldable pub server : (socket bind name : Bool) → List Event → List ℕ → Server
unfolding serve
server false bind name events buf = ended 1 (record { sock = false; name = name }) []
server true false name events buf = ended 1 (record { sock = false; name = name }) []
server true true name events buf = serve events buf (record { sock = true; name = true }) []
