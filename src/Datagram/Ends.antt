-- ===== src/Datagram/Ends.antt =====
-- What the server leaves behind, and a datagram that fills its buffer.
use mathlib.Core.Option
use mathlib.Core.List.{append-nil}
use os_bmstu.Common.{
  ◌≤◌, ◌≡◌, ◌&&◌, refl, Bool, true, false, none, some, Option, List, [], ◌∷◌, ◌++◌, length, take,
  length-take, length-append, arith, ℕ,
}
use os_bmstu.Memory.Laws.{overwrite-append, write_at-none}
use os_bmstu.Datagram.{
  buf_size, Event, datagram, recv_error, sigint, Server, faulted, waits, ended, receive,
  unless_fault, serve, server,
}

-- The socket is closed where the server has ended, and so is its name gone if it had made it.
abbrev pub CleanedUp : (bound name : Bool) → Server → Type 0
CleanedUp bound name (faulted out) = Unit {0}
CleanedUp bound name (waits h out) = (bound ≡ true) × (h.sock ≡ true) × (h.name ≡ true)
CleanedUp true name (ended code h out) = (h.sock ≡ false) × (h.name ≡ false)
CleanedUp false name (ended code h out) =
    (code ≡ 1) × (h.sock ≡ false) × (h.name ≡ name) × (out ≡ [])

unless_fault-CleanedUp :
    (name : Bool) (r : Option (List ℕ × List ℕ)) (out : List (List ℕ))
    → (next : List ℕ → List ℕ → Server)
    → ((buf text : List ℕ) → CleanedUp true name (next buf text))
    → CleanedUp true name (unless_fault r out next)
unless_fault-CleanedUp name none out next h = tt
unless_fault-CleanedUp name (some (buf, text)) out next h = h buf text

serve-CleanedUp :
    (events : List Event) (buf : List ℕ) (out : List (List ℕ)) (name : Bool)
    → CleanedUp true name (serve events buf (record { sock = true; name = true }) out)
unfolding serve
serve-CleanedUp [] buf out name = (refl, refl, refl)
serve-CleanedUp (datagram message ∷ events) buf out name =
    unless_fault-CleanedUp name (receive message buf) out _
      (λ buf' text. serve-CleanedUp events buf' (out ++ text ∷ []) name)
serve-CleanedUp (recv_error ∷ events) buf out name = (refl, refl)
serve-CleanedUp (sigint ∷ events) buf out name = (refl, refl)

-- Whatever arrives, unless a datagram fills the buffer: a server that got its socket and its name leaves neither behind when it ends,
-- by a failed recvfrom or by SIGINT; one that did not returns 1, having printed nothing and with
-- the name as it was.
pub server-CleanedUp :
    (socket bind name : Bool) (events : List Event) (buf : List ℕ)
    → CleanedUp (socket && bind) name (server socket bind name events buf)
unfolding server
server-CleanedUp false bind name events buf = (refl, refl, refl, refl)
server-CleanedUp true false name events buf = (refl, refl, refl, refl)
server-CleanedUp true true name events buf = serve-CleanedUp events buf [] name

-- A datagram that fills the buffer has its 0 stored behind the buffer.
pub receive-full :
    (message buf : List ℕ)
    → buf_size ≤ length message
    → length buf ≡ buf_size
    → receive message buf ≡ none
unfolding receive Option.bind
receive-full message buf long size =
    let bytes = take buf_size message in
    let full : length buf ≡ length bytes = rw (length-take buf_size message long) size in
    rw⁻¹ (append-nil buf) (
      rw
        (
          overwrite-append buf bytes [] full,
          write_at-none (bytes ++ []) (length bytes) 0 [] (omega (arith, length-append bytes [])),
        )
        refl)
