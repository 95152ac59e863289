-- ===== src/Server/Talks/Slot.antt =====
-- What one round of the server does with the descriptor of one slot.
use mathlib.Core.Option
use mathlib.Core.Path.{subst}
use mathlib.Core.List.{append_assoc, append-nil, Sublistᴰ}
use mathlib.Core.List.Sublistᴰ
use os_bmstu.Common.{
  ℕ, zero, suc, ◌+◌, ◌≡◌, ◌⊎◌, ◌∙◌, sym, refl, Bool, true, false, Bool-cases, not, ◌&&◌, none, some,
  List, [], ◌∷◌, ◌++◌, ◌==◌, length, get_elem?, arith, inl, inr, Option, ltb,
}
use os_bmstu.Server.{
  buf_size, close, read_clients, Received, no_bytes, bytes, Printed, disconnected, received,
  text_of,
}
use os_bmstu.Server.Table.{Received-cases}

-- What a slot with the descriptor `fd` holds after the loop over the clients, `waits` saying whether
-- its descriptor is in use and ready.
abbrev pub slot_after : (waits : Bool) → Received → (fd : ℕ) → ℕ
slot_after false r fd = fd
slot_after true no_bytes fd = 0
slot_after true (bytes cs) fd = fd

-- What is printed for slot `k`.
abbrev pub lines_for : (waits : Bool) → Received → (k : ℕ) → List Printed
lines_for false r k = []
lines_for true no_bytes k = disconnected k ∷ []
lines_for true (bytes cs) k = received (text_of cs) ∷ []

abbrev pub Loop : Type 0
Loop = Option (List ℕ × (ℕ → Bool) × List Printed)

abbrev with_slot : ℕ → Loop → Loop
with_slot y r = Option.map (λ (rest, o, p). (y ∷ rest, o, p)) r

-- One slot of the loop: a fault, or the rest of the loop.
read_clients-slot :
    (sock_set : ℕ → Bool) (recv : ℕ → Received) (i x : ℕ) (xs : List ℕ) (is_open : ℕ → Bool)
    → (out : List Printed)
    → let waits = not (x == 0) && sock_set x in
      (read_clients sock_set recv i (x ∷ xs) is_open out ≡ none)
      ⊎ ((is_open' : ℕ → Bool) × (read_clients sock_set recv i (x ∷ xs) is_open out
            ≡ with_slot (slot_after waits (recv i) x) (
                read_clients sock_set recv
                  (i + 1)
                  xs
                  is_open'
                  (out ++ lines_for waits (recv i) i))))
unfolding read_clients
read_clients-slot sock_set recv i x xs is_open out =
    elim (Bool-cases (not (x == 0) && sock_set x)) [
      | inr idle ↦ inr (is_open, rw (idle, read_clients) (rw (append-nil out) refl))
      | inl waits ↦ elim (Received-cases (recv i)) [
        | inl gone ↦ inr (close x is_open, rw (waits, read_clients) (rw (gone, read_clients) refl))
        | inr (cs, arrived) ↦ elim (Bool-cases (ltb (length cs) buf_size)) [
          | inl fits ↦ inr (
            is_open,
            rw (waits, read_clients) (rw (arrived, read_clients) (rw (fits, read_clients) refl)),
          )
          | inr over ↦
              inl (
                rw (waits, read_clients)
                  (rw (arrived, read_clients) (rw (over, read_clients) refl)))
        ]
      ]
    ]

-- What the loop adds to the output.
abbrev AddsBy : List Printed → Loop → Type 0
AddsBy out none = Unit {0}
AddsBy out (some (fds', is_open', out')) = (new : List Printed) × (out' ≡ out ++ new)

-- Slot `k` is left holding `fd'`, and the lines `ls` are among the new ones of the output, in order.
abbrev pub Leaves : ℕ → ℕ → List Printed → List Printed → List ℕ → List Printed → Type 0
Leaves k fd' ls out fds' out' =
    (get_elem? fds' k ≡ some fd') × ((new : List Printed) × (out' ≡ out ++ new) × Sublistᴰ ls new)

abbrev LeavesBy : ℕ → ℕ → List Printed → List Printed → Loop → Type 0
LeavesBy k fd' ls out none = Unit {0}
LeavesBy k fd' ls out (some (fds', is_open', out')) = Leaves k fd' ls out fds' out'

AddsBy-slot :
    (y : ℕ) (added out : List Printed) (r : Loop)
    → AddsBy (out ++ added) r
    → AddsBy out (with_slot y r)
AddsBy-slot y added out none a = tt
AddsBy-slot y added out (some (fds', o, p)) (new, e) =
    (added ++ new, e ∙ append_assoc out added new)

skip_all :
    (added : List Printed) {ls new : List Printed} → Sublistᴰ ls new → Sublistᴰ ls (added ++ new)
skip_all [] part = part
skip_all (line ∷ added) part = Sublistᴰ.cons (skip_all added part)

prefix : (ls new : List Printed) → Sublistᴰ ls (ls ++ new)
prefix [] new = Sublistᴰ.nil-sublist new
prefix (line ∷ ls) new = Sublistᴰ.cons-cons refl (prefix ls new)

LeavesBy-here :
    (y : ℕ) (ls out : List Printed) (r : Loop)
    → AddsBy (out ++ ls) r
    → LeavesBy zero y ls out (with_slot y r)
LeavesBy-here y ls out none a = tt
LeavesBy-here y ls out (some (fds', o, p)) (new, e) =
    (refl, (ls ++ new, e ∙ append_assoc out ls new, prefix ls new))

LeavesBy-later :
    (y k fd' : ℕ) (added ls out : List Printed) (r : Loop)
    → LeavesBy k fd' ls (out ++ added) r
    → LeavesBy (suc k) fd' ls out (with_slot y r)
LeavesBy-later y k fd' added ls out none l = tt
LeavesBy-later y k fd' added ls out (some (fds', o, p)) (held, (new, e, part)) =
    (held, (added ++ new, e ∙ append_assoc out added new, skip_all added part))

read_clients-Adds :
    (sock_set : ℕ → Bool) (recv : ℕ → Received) (i : ℕ) (fds : List ℕ) (is_open : ℕ → Bool)
    → (out : List Printed) → AddsBy out (read_clients sock_set recv i fds is_open out)
read_clients-Adds sock_set recv i [] is_open out = unfold read_clients in ([], sym (append-nil out))
read_clients-Adds sock_set recv i (x ∷ xs) is_open out =
    elim (read_clients-slot sock_set recv i x xs is_open out) [
      | inl fault ↦ rw fault tt
      | inr (is_open', e) ↦
          rw e (AddsBy-slot _ _ out _ (read_clients-Adds sock_set recv (i + 1) xs is_open' _))
    ]

-- What the loop over the clients makes of slot `k`, number `j` of the table, which holds `fd`.
abbrev pub SlotDone : (ℕ → Bool) → (ℕ → Received) → ℕ → ℕ → ℕ → List Printed → Loop → Type 0
SlotDone sock_set recv k j fd out r =
    let waits = not (fd == 0) && sock_set fd in
    LeavesBy k (slot_after waits (recv j) fd) (lines_for waits (recv j) j) out r

pub read_clients-SlotDone :
    (sock_set : ℕ → Bool) (recv : ℕ → Received) (i k j : ℕ) (fds : List ℕ) (is_open : ℕ → Bool)
    → (out : List Printed) (fd : ℕ) → i + k ≡ j
    → get_elem? fds k ≡ some fd
    → SlotDone sock_set recv k j fd out (read_clients sock_set recv i fds is_open out)
read_clients-SlotDone sock_set recv i k j [] is_open out fd at held = absurd (ground arith)
read_clients-SlotDone sock_set recv i zero j (x ∷ xs) is_open out fd at held =
    subst
      (λ n.
        SlotDone sock_set recv zero n fd out (read_clients sock_set recv i (x ∷ xs) is_open out))
      i_is_j
      (subst
        (λ y.
          SlotDone sock_set recv zero i y out (read_clients sock_set recv i (x ∷ xs) is_open out))
        (Option.some-injective x fd held) here)
  where
    i_is_j : i ≡ j
    i_is_j = omega arith

    here : SlotDone sock_set recv zero i x out (read_clients sock_set recv i (x ∷ xs) is_open out)
    here = elim (read_clients-slot sock_set recv i x xs is_open out) [
      | inl fault ↦ rw fault tt
      | inr (is_open', e) ↦
          rw e (LeavesBy-here _ _ out _ (read_clients-Adds sock_set recv (i + 1) xs is_open' _))
    ]
read_clients-SlotDone sock_set recv i (suc k) j (x ∷ xs) is_open out fd at held =
    elim (read_clients-slot sock_set recv i x xs is_open out) [
      | inl fault ↦ rw fault tt
      | inr (is_open', e) ↦ rw e (
          LeavesBy-later _ k _ _ _ out _
            (read_clients-SlotDone sock_set recv (i + 1) k j xs is_open' _ fd (omega arith) held))
    ]
