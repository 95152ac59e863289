-- ===== src/Server/Talks/Delivery.antt =====
-- What the server prints of the bytes that come on one connection, over any number of rounds.
use mathlib.Core.List.{append_assoc, append-nil, Sublistᴰ}
use os_bmstu.Common.{
  ℕ, ◌<◌, ◌≡◌, ◌∙◌, ap, sym, refl, Bool, true, false, some, List, [], ◌∷◌, ◌++◌, if◌then◌else◌,
  get_elem?, arith,
}
use os_bmstu.Memory.{NonZero}
use os_bmstu.Server.{Server, no_bytes, bytes, Printed, text_of}
use os_bmstu.Server.Talks.{Talks, so_far, idle, hears, leaves, joined, lines}
use os_bmstu.Server.Talks.Slot.{Leaves}
use os_bmstu.Server.Talks.Turn.{goes_on-Leaves}

-- From `s` to `t` the server has printed, in order and perhaps among other lines, one line for each
-- of the pieces in which the bytes came, and one for the end, after which the slot is free.
abbrev pub Heard : ℕ → ℕ → Server → List ℕ → Bool → Server → Type 0
Heard k fd s delivered ended t =
    (pieces : List (List ℕ)) × (joined pieces ≡ delivered)
    × Leaves k (if ended then 0 else fd) (lines k pieces ended) s.out t.client_sock t.out

text_of-NonZero : (cs : List ℕ) → NonZero cs → text_of cs ≡ cs
unfolding text_of
text_of-NonZero [] good = refl
text_of-NonZero (c ∷ cs) good = ground (arith, text_of-NonZero cs good.1)

NonZero-parts : (xs ys : List ℕ) → NonZero (xs ++ ys) → NonZero xs × NonZero ys
NonZero-parts [] ys good = (tt, good)
NonZero-parts (x ∷ xs) ys good =
    let (first, rest) = NonZero-parts xs ys good.1 in ((good.0, first), rest)

sublist-append :
    {xs ys xs' ys' : List Printed}
    → Sublistᴰ xs ys
    → Sublistᴰ xs' ys'
    → Sublistᴰ (xs ++ xs') (ys ++ ys')
sublist-append Sublistᴰ.slnil part = part
sublist-append (Sublistᴰ.cons first) part = Sublistᴰ.cons (sublist-append first part)
sublist-append (Sublistᴰ.cons-cons e first) part = Sublistᴰ.cons-cons e (sublist-append first part)

-- The lines of a round come before those of the later rounds.
Leaves-next :
    (k fd fd' fd'' : ℕ) (ls ls' : List Printed) (s s' t : Server)
    → Leaves k fd' ls s.out s'.client_sock s'.out
    → Leaves k fd'' ls' s'.out t.client_sock t.out
    → Leaves k fd'' (ls ++ ls') s.out t.client_sock t.out
Leaves-next k fd fd' fd'' ls ls' s s' t (held, (new, e, part)) (held', (new', e', part')) = (
  held',
  (
    new ++ new',
    e' ∙ ap (λ o. o ++ new') e ∙ append_assoc s.out new new',
    sublist-append part part',
  ),
)

-- While a connection stands in a slot of the table, whatever the other clients do: if no byte that
-- comes on it is 0, the server prints all of them, in order, in lines of their own; at the end of the
-- connection it prints that too, and frees the slot.
pub Talks-Heard :
    {k fd : ℕ} {s t : Server} {delivered : List ℕ} {ended : Bool}
    → Talks k fd s delivered ended t
    → 0 < fd
    → get_elem? s.client_sock k ≡ some fd
    → NonZero delivered
    → Heard k fd s delivered ended t
Talks-Heard {k} {fd} {s} so_far pos held good =
    ([], refl, (held, ([], sym (append-nil s.out), Sublistᴰ.slnil)))
Talks-Heard {k} {fd} {s} (idle {s' = s'} {t = t} answers sock_set some_ready still goes talks) pos
      held good =
    let quiet =
      goes_on-Leaves answers sock_set s s' k fd false (answers.recvfrom k) pos held some_ready still
        refl goes in
    let (pieces, e, later) = Talks-Heard talks pos quiet.0 good in
    (pieces, e, Leaves-next k fd fd _ [] _ s s' t quiet later)
Talks-Heard {k} {fd} {s}
      (hears {s' = s'} {t = t} {delivered = rest} answers sock_set cs some_ready waits arrives goes
        talks)
      pos held good =
    let (now, then_on) = NonZero-parts cs rest good in
    let line =
      goes_on-Leaves answers sock_set s s' k fd true (bytes cs) pos held some_ready waits arrives
        goes in
    let (pieces, e, later) = Talks-Heard talks pos line.0 then_on in
    (
      text_of cs ∷ pieces,
      ap (λ x. x ++ joined pieces) (text_of-NonZero cs now) ∙ ap (λ x. cs ++ x) e,
      Leaves-next k fd fd _ _ _ s s' t line later,
    )
Talks-Heard {k} {fd} {s} (leaves {s' = s'} answers sock_set some_ready waits gone goes) pos held
      good =
    (
      [],
      refl,
      goes_on-Leaves answers sock_set s s' k fd true no_bytes pos held some_ready waits gone goes,
    )
