-- ===== src/Server/Faults.antt =====
-- Which rounds of the server leave `client_sock` or `buf`, and which do not.
use mathlib.Core.Option
use os_bmstu.Common.{
  occurs, ℕ, zero, suc, ◌+◌, ◌≡◌, ◌≤◌, ◌<◌, ◌∙◌, ap, refl, Bool, true, false, Bool-cases, not, ◌&&◌,
  none, some, List, [], ◌∷◌, ◌++◌, ◌==◌, length, get_elem?, set, update, arith, inl, inr, Option,
  Option-cases, ltb,
}
use os_bmstu.Server.{
  Server, buf_size, close, empty_socket, read_clients, Received, bytes, Answers, ready, Outcome,
  goes_on, returns, finish, admit, read_round, round, Printed, disconnected, received, text_of,
}
use os_bmstu.Server.Table.{Received-cases}
use os_bmstu.Server.Rounds.{Selected-cases}

-- The round ends without a fault.
abbrev Ends : Option Outcome → Type 0
Ends r = (o : Outcome) × (r ≡ some o)

empty_socket-free : (xs : List ℕ) → 0 < occurs 0 xs → (slot : ℕ) × (empty_socket xs ≡ some slot)
unfolding empty_socket occurs
empty_socket-free [] free = absurd (omega arith)
empty_socket-free (x ∷ xs) free = elim (Bool-cases (x == 0)) [
  | inl here ↦ (0, ground arith)
  | inr there ↦
      let (slot, e) = empty_socket-free xs (ground arith) in (suc slot, rw (there, e) refl)
]

empty_socket-full : (xs : List ℕ) → occurs 0 xs ≡ 0 → empty_socket xs ≡ none
unfolding empty_socket occurs
empty_socket-full [] full = refl
empty_socket-full (x ∷ xs) full = ground (arith, empty_socket-full xs)

-- Every `recvfrom` leaves a byte of `buf`.
abbrev pub LeavesByte : Answers → Type 0
LeavesByte answers = (i : ℕ) (cs : List ℕ) → answers.recvfrom i ≡ bytes cs → length cs < buf_size

read_clients-some :
    (sock_set : ℕ → Bool) (recv : ℕ → Received) (i : ℕ) (fds : List ℕ) (is_open : ℕ → Bool)
    → (out : List Printed) → ((i : ℕ) (cs : List ℕ) → recv i ≡ bytes cs → length cs < buf_size)
    → (r : List ℕ × (ℕ → Bool) × List Printed) × (read_clients sock_set recv i fds is_open out
        ≡ some r)
unfolding read_clients
read_clients-some sock_set recv i [] is_open out short = (([], is_open, out), refl)
read_clients-some sock_set recv i (x ∷ xs) is_open out short =
    elim (Bool-cases (not (x == 0) && sock_set x)) [
      | inr idle ↦
          let (r, e) = read_clients-some sock_set recv (i + 1) xs is_open out short in
          ((x ∷ r.0, r.1, r.2), rw (idle, read_clients) (rw e refl))
      | inl waits ↦ elim (Received-cases (recv i)) [
        | inl gone ↦
            let (r, e) =
              read_clients-some sock_set recv (i + 1) xs (close x is_open)
                (out ++ disconnected i ∷ []) short in
            ((0 ∷ r.0, r.1, r.2), rw (waits, read_clients) (rw (gone, read_clients) (rw e refl)))
        | inr (cs, arrived) ↦
            let fits : ltb (length cs) buf_size ≡ true = ground (arith, short i cs arrived) in
            let (r, e) =
              read_clients-some sock_set recv (i + 1) xs is_open (out ++ received (text_of cs) ∷ [])
                short in
            (
              (x ∷ r.0, r.1, r.2),
              rw (waits, read_clients)
                  (rw (arrived, read_clients) (rw (fits, read_clients) (rw e refl))),
            )
      ]
    ]

admit-some :
    (answers : Answers) (sock_set : ℕ → Bool) (s : Server)
    → 0 < occurs 0 s.client_sock
    → Ends (admit answers sock_set s)
unfolding admit
admit-some answers sock_set s free =
    let (slot, e) = empty_socket-free s.client_sock free in
    elim (Bool-cases (sock_set s.sock)) [
      | inr idle ↦ (goes_on s, rw (idle, admit) refl)
      | inl waits ↦ elim (Option-cases answers.accept) [
        | inl error ↦
            (finish false Printed.accept_failed s, rw (waits, admit) (rw (error, admit) refl))
        | inr (fd, accepted) ↦ (
          goes_on record s {
            client_sock = set s.client_sock slot fd;
            is_open = update s.is_open fd true;
          },
          rw (waits, admit) (rw (accepted, admit) (rw (e, admit) refl)),
        )
      ]
    ]

read_round-some :
    (answers : Answers) (sock_set : ℕ → Bool) (o : Outcome)
    → LeavesByte answers
    → Ends (read_round answers sock_set o)
unfolding read_round
read_round-some answers sock_set (returns success s) short = (returns success s, refl)
read_round-some answers sock_set (goes_on s) short =
    let ((client_sock, is_open, out), e) =
      read_clients-some sock_set answers.recvfrom 0 s.client_sock s.is_open s.out short in
    (goes_on record s { client_sock = client_sock; is_open = is_open; out = out }, rw e refl)

-- A round ends without a fault, whatever else the calls answer, if a slot of the table is free and
-- every recvfrom leaves a byte of buf for the 0.
pub round-some :
    (answers : Answers) (s : Server)
    → 0 < occurs 0 s.client_sock
    → LeavesByte answers
    → (o : Outcome) × (round answers s ≡ some o)
unfolding round Option.bind admit-some read_round-some
round-some answers s free short = elim (Selected-cases answers.select) [
  | inl (inl end) ↦ (finish true Printed.server_closed s, rw (end, round) refl)
  | inl (inr error) ↦ (finish false Printed.select_failed s, rw (error, round) refl)
  | inr (sock_set, some_ready) ↦
      let (o, e) = admit-some answers sock_set s free in
      let (o', e') = read_round-some answers sock_set o short in
      (o', rw (some_ready, round) (rw e e'))
]

-- With no slot free, a sixth client that is accepted is stored through the null pointer that
-- empty_socket returns.
pub round-sixth_client :
    (answers : Answers) (sock_set : ℕ → Bool) (s : Server) (new_sock : ℕ)
    → occurs 0 s.client_sock ≡ 0
    → answers.select ≡ ready sock_set
    → sock_set s.sock ≡ true
    → answers.accept ≡ some new_sock
    → round answers s ≡ none
unfolding round Option.bind
round-sixth_client answers sock_set s new_sock full some_ready waits accepted =
    rw (some_ready, round) (rw no_slot refl)
  where
    no_slot : admit answers sock_set s ≡ none
    no_slot =
        unfold admit in
        rw (waits, admit)
          (rw (accepted, admit) (rw (empty_socket-full s.client_sock full, admit) refl))

read_clients-overflow :
    (sock_set : ℕ → Bool) (recv : ℕ → Received) (i k : ℕ) (fds : List ℕ) (is_open : ℕ → Bool)
    → (out : List Printed) (fd : ℕ) (cs : List ℕ) → get_elem? fds k ≡ some fd
    → (not (fd == 0) && sock_set fd) ≡ true
    → recv (i + k) ≡ bytes cs
    → buf_size ≤ length cs
    → read_clients sock_set recv i fds is_open out ≡ none
unfolding read_clients
read_clients-overflow sock_set recv i k [] is_open out fd cs at_k waits arrived long =
    absurd (ground arith)
read_clients-overflow sock_set recv i zero (x ∷ xs) is_open out fd cs at_k waits arrived long =
    rw (waits_here, read_clients) (rw (came, read_clients) (rw (over, read_clients) refl))
  where
    here : x ≡ fd
    here = Option.some-injective x fd at_k

    waits_here : (not (x == 0) && sock_set x) ≡ true
    waits_here = rw here waits

    came : recv i ≡ bytes cs
    came = ap recv (omega arith) ∙ arrived

    over : ltb (length cs) buf_size ≡ false
    over = ground arith
read_clients-overflow sock_set recv i (suc k) (x ∷ xs) is_open out fd cs at_k waits arrived long =
    let rest : (o : ℕ → Bool) (p : List Printed)
        → read_clients sock_set recv (i + 1) xs o p ≡ none =
      λ o p.
        read_clients-overflow sock_set recv (i + 1) k xs o p fd cs at_k waits
          (ap recv (omega arith) ∙ arrived) long in
    elim (Bool-cases (not (x == 0) && sock_set x)) [
      | inr idle ↦ rw (idle, read_clients) (rw (rest is_open out) refl)
      | inl here ↦ elim (Received-cases (recv i)) [
        | inl gone ↦
            rw (here, read_clients)
              (rw (gone, read_clients)
                (rw (rest (close x is_open) (out ++ disconnected i ∷ [])) refl))
        | inr (ds, came) ↦ elim (Bool-cases (ltb (length ds) buf_size)) [
          | inl fits ↦
              rw (here, read_clients)
                (rw (came, read_clients)
                  (rw (fits, read_clients)
                    (rw (rest is_open (out ++ received (text_of ds) ∷ [])) refl)))
          | inr over ↦
              rw (here, read_clients) (rw (came, read_clients) (rw (over, read_clients) refl))
        ]
      ]
    ]

-- When no client connects in the round, a ready client whose message fills buf has the 0 stored
-- behind the end of buf.
pub round-full_buffer :
    (answers : Answers) (sock_set : ℕ → Bool) (s : Server) (slot fd : ℕ) (cs : List ℕ)
    → answers.select ≡ ready sock_set
    → sock_set s.sock ≡ false
    → get_elem? s.client_sock slot ≡ some fd
    → (not (fd == 0) && sock_set fd) ≡ true
    → answers.recvfrom slot ≡ bytes cs
    → buf_size ≤ length cs
    → round answers s ≡ none
unfolding round Option.bind
round-full_buffer answers sock_set s slot fd cs some_ready idle at_slot waits arrived long =
    rw (some_ready, round) (rw nobody (rw overflow refl))
  where
    nobody : admit answers sock_set s ≡ some (goes_on s)
    nobody = unfold admit in rw (idle, admit) refl

    overflow : read_round answers sock_set (goes_on s) ≡ none
    overflow =
        unfold read_round in
        rw
          (read_clients-overflow sock_set answers.recvfrom 0 slot s.client_sock s.is_open s.out fd
            cs at_slot waits (ap answers.recvfrom (omega arith) ∙ arrived) long)
          refl
