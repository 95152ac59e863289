-- ===== src/Server/Table.antt =====
-- The table of client sockets: a slot filled, a slot cleared, all of them closed.
use mathlib.Core.Option
use os_bmstu.Common.{
  occurs, ℕ, suc, ◌+◌, ◌≡◌, ◌≤◌, ◌<◌, ◌⊎◌, refl, Bool, true, false, Bool-cases, not, ◌&&◌, some,
  none, Option, List, [], ◌∷◌, ◌==◌, one_if, set, length, arith, inl, inr, Option-cases, ltb,
}
use os_bmstu.Server.{
  close_sockets, close, empty_socket, read_clients, Received, no_bytes, bytes, Printed, buf_size,
}

-- The first free slot is the head, or that of the tail.
pub empty_socket-found :
    (x : ℕ) (xs : List ℕ) (slot : ℕ)
    → empty_socket (x ∷ xs) ≡ some slot
    → ((x ≡ 0) × (slot ≡ 0)) ⊎ ((i : ℕ) × (slot ≡ suc i) × (empty_socket xs ≡ some i))
unfolding empty_socket
empty_socket-found x xs slot e = elim (Bool-cases (x == 0)) [
  | inl free ↦ inl (ground arith, ground arith)
  | inr taken ↦ elim (Option-cases (empty_socket xs)) [
    | inl full ↦ absurd (ground arith)
    | inr (i, found) ↦ inr (i, ground arith, found)
  ]
]

-- The new descriptor takes the place of a 0.
pub set-occurs :
    (fd new_sock : ℕ) (xs : List ℕ) (slot : ℕ)
    → 0 < fd
    → empty_socket xs ≡ some slot
    → occurs fd (set xs slot new_sock) ≡ one_if (fd == new_sock) + occurs fd xs
unfolding empty_socket occurs
set-occurs fd new_sock [] slot pos e = ground arith
set-occurs fd new_sock (x ∷ xs) slot pos e = elim (empty_socket-found x xs slot e) [
  | inl (free, here) ↦ rw here (ground arith)
  | inr (i, there, found) ↦ rw there (omega (arith, set-occurs fd new_sock xs i pos found))
]

-- Only what the table holds, and the listening socket, is closed.
pub close_sockets-kept :
    (fd main_sock : ℕ) (xs : List ℕ) (is_open : ℕ → Bool)
    → occurs fd xs ≡ 0
    → (fd == main_sock) ≡ false
    → close_sockets xs main_sock is_open fd ≡ is_open fd
unfolding close_sockets occurs
close_sockets-kept fd main_sock [] is_open absent other = ground arith
close_sockets-kept fd main_sock (x ∷ xs) is_open absent other =
    ground (arith, close_sockets-kept fd main_sock xs (close x is_open))

pub close_sockets-stay :
    (fd main_sock : ℕ) (xs : List ℕ) (is_open : ℕ → Bool)
    → is_open fd ≡ false
    → close_sockets xs main_sock is_open fd ≡ false
unfolding close_sockets
close_sockets-stay fd main_sock [] is_open shut = ground arith
close_sockets-stay fd main_sock (x ∷ xs) is_open shut =
    close_sockets-stay fd main_sock xs (close x is_open) (ground arith)

pub close_sockets-main :
    (fd main_sock : ℕ) (xs : List ℕ) (is_open : ℕ → Bool)
    → (fd == main_sock) ≡ true
    → close_sockets xs main_sock is_open fd ≡ false
unfolding close_sockets
close_sockets-main fd main_sock [] is_open e = ground arith
close_sockets-main fd main_sock (x ∷ xs) is_open e =
    close_sockets-main fd main_sock xs (close x is_open) e

pub close_sockets-table :
    (fd main_sock : ℕ) (xs : List ℕ) (is_open : ℕ → Bool)
    → 0 < occurs fd xs
    → close_sockets xs main_sock is_open fd ≡ false
unfolding close_sockets occurs
close_sockets-table fd main_sock [] is_open held = absurd (omega arith)
close_sockets-table fd main_sock (x ∷ xs) is_open held = elim (Bool-cases (fd == x)) [
  | inl here ↦ close_sockets-stay fd main_sock xs (close x is_open) (ground arith)
  | inr there ↦ close_sockets-table fd main_sock xs (close x is_open) (ground arith)
]

pub Received-cases : (r : Received) → (r ≡ no_bytes) ⊎ ((cs : List ℕ) × (r ≡ bytes cs))
Received-cases no_bytes = inl refl
Received-cases (bytes cs) = inr (cs, refl)

-- Every descriptor that leaves the table in the loop over the clients is closed, and no other.
pub record Kept (fds fds' : List ℕ) (is_open is_open' : ℕ → Bool) : Type 0 where
  pub slots : length fds' ≡ length fds
  pub account :
      (fd : ℕ)
      → 0 < fd
      → occurs fd fds ≤ one_if (is_open fd)
      → one_if (is_open' fd) + occurs fd fds ≡ one_if (is_open fd) + occurs fd fds'
  pub stdin : is_open' 0 ≡ is_open 0

Kept-same :
    (x : ℕ) {fds fds' : List ℕ} {is_open is_open' : ℕ → Bool}
    → Kept fds fds' is_open is_open'
    → Kept (x ∷ fds) (x ∷ fds') is_open is_open'
unfolding occurs
Kept-same x {fds} {fds'} {is_open} {is_open'} k = record {
  slots = omega (arith, k.slots);
  account = λ fd pos few. omega (arith, k.account fd pos (omega arith));
  stdin = k.stdin;
}

Kept-closed :
    (x : ℕ) {fds fds' : List ℕ} {is_open is_open' : ℕ → Bool}
    → (x == 0) ≡ false
    → Kept fds fds' (close x is_open) is_open'
    → Kept (x ∷ fds) (0 ∷ fds') is_open is_open'
unfolding occurs
Kept-closed x {fds} {fds'} {is_open} {is_open'} used k = record {
  slots = omega (arith, k.slots);
  account = λ fd pos few. ground (arith, k.account fd pos);
  stdin = ground (arith, k.stdin);
}

abbrev pub KeptBy : List ℕ → (ℕ → Bool) → Option (List ℕ × (ℕ → Bool) × List Printed) → Type 0
KeptBy fds is_open none = Unit {0}
KeptBy fds is_open (some (fds', is_open', out')) = Kept fds fds' is_open is_open'

KeptBy-same :
    (x : ℕ) (fds : List ℕ) (is_open : ℕ → Bool) (r : Option (List ℕ × (ℕ → Bool) × List Printed))
    → KeptBy fds is_open r
    → KeptBy (x ∷ fds) is_open (Option.map (λ (rest, o, p). (x ∷ rest, o, p)) r)
KeptBy-same x fds is_open none k = tt
KeptBy-same x fds is_open (some (fds', is_open', out')) k = Kept-same x k

KeptBy-closed :
    (x : ℕ) (fds : List ℕ) (is_open : ℕ → Bool) (r : Option (List ℕ × (ℕ → Bool) × List Printed))
    → (x == 0) ≡ false
    → KeptBy fds (close x is_open) r
    → KeptBy (x ∷ fds) is_open (Option.map (λ (rest, o, p). (0 ∷ rest, o, p)) r)
KeptBy-closed x fds is_open none used k = tt
KeptBy-closed x fds is_open (some (fds', is_open', out')) used k = Kept-closed x used k

pub read_clients-Kept :
    (sock_set : ℕ → Bool) (recv : ℕ → Received) (i : ℕ) (fds : List ℕ) (is_open : ℕ → Bool)
    → (out : List Printed) → KeptBy fds is_open (read_clients sock_set recv i fds is_open out)
unfolding read_clients
read_clients-Kept sock_set recv i [] is_open out = record {
  slots = refl;
  account = λ fd pos few. refl;
  stdin = refl;
}
read_clients-Kept sock_set recv i (x ∷ xs) is_open out =
    elim (Bool-cases (not (x == 0) && sock_set x)) [
      | inr idle ↦
          rw (idle, read_clients)
            (KeptBy-same x xs is_open _ (read_clients-Kept sock_set recv (i + 1) xs is_open out))
      | inl waits ↦ elim (Received-cases (recv i)) [
        | inl gone ↦
            rw (waits, read_clients)
              (rw (gone, read_clients)
                (KeptBy-closed x xs is_open _ (ground arith)
                  (read_clients-Kept sock_set recv (i + 1) xs (close x is_open) _)))
        | inr (cs, arrived) ↦ elim (Bool-cases (ltb (length cs) buf_size)) [
          | inl fits ↦
              rw (waits, read_clients)
                (rw (arrived, read_clients)
                  (rw (fits, read_clients)
                    (KeptBy-same x xs is_open _
                      (read_clients-Kept sock_set recv (i + 1) xs is_open _))))
          | inr over ↦
              rw (waits, read_clients) (rw (arrived, read_clients) (rw (over, read_clients) tt))
        ]
      ]
    ]
