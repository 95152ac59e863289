-- ===== src/Fortune/Messages.antt =====
-- What the fortune module of lab4_2 stores and hands out.
use mathlib.Core.Option
use mathlib.Core.List.{append_assoc}
use os_bmstu.Common.{
  ℕ, suc, ◌+◌, ◌%◌, ◌≤◌, ◌<◌, ◌^◌, ◌≡◌, refl, sym, ap, ◌∙◌, some, List, [], ◌∷◌, ◌++◌, length,
  length-append, arith,
}
use os_bmstu.Memory.{zeros, NonZero, write_at, poke_before, strcat, string_at}
use os_bmstu.Memory.Laws.{
  write_at-zeros, poke_before-append, string_at-append, c_string-append, NonZero-append,
}
use os_bmstu.Memory.UserCopy.{CopyFromUser}
use os_bmstu.Fortune.{Module, fortune_write, fortune_read, count, Reading, add_str, underscore}
use os_bmstu.Fortune.Bounds.{guard_passes}

-- A message in the pot: its last byte replaced by '_', then the suffix.
abbrev pub stored_text : List ℕ → List ℕ
stored_text body = (body ++ underscore ∷ []) ++ add_str

pub length-snoc : (body : List ℕ) (last : ℕ) → length (body ++ last ∷ []) ≡ length body + 1
length-snoc body last = length-append body (last ∷ [])

pub length-stored_text : (body : List ℕ) → length (stored_text body) ≡ length body + 7
length-stored_text body =
    omega (arith, length-append (body ++ underscore ∷ []) add_str, length-snoc body underscore)

pub stored_text-NonZero : (body : List ℕ) → NonZero body → NonZero (stored_text body)
stored_text-NonZero body good =
    NonZero-append (body ++ underscore ∷ []) add_str
      (NonZero-append body (underscore ∷ []) good (omega arith)) (omega arith)

-- The bytes of a write, copied behind `before` into zeroed memory.
pub copied_in :
    (before body : List ℕ) (last free : ℕ)
    → write_at (before ++ zeros (length body + 1 + free)) (length before) (body ++ last ∷ [])
      ≡ some (before ++ (body ++ last ∷ zeros free))
copied_in before body last free =
    rw (← length-snoc body last, write_at-zeros before (body ++ last ∷ []) free, append_assoc) refl

-- `strcat` behind a text into zeroed memory.
strcat-zeros :
    (text s : List ℕ) (free : ℕ)
    → NonZero text
    → strcat (text ++ zeros (suc (length s + free))) s ≡ some (text ++ (s ++ 0 ∷ zeros free))
unfolding strcat Option.bind
strcat-zeros text s free good =
    rw (c_string-append text (zeros (length s + free)) good, same)
      (write_at-zeros text (s ++ 0 ∷ []) free ∙ rw append_assoc refl)
  where
    same : 0 ∷ zeros (length s + free) ≡ zeros (length (s ++ 0 ∷ []) + free)
    same =
        let k : suc (length s + free) ≡ length (s ++ 0 ∷ []) + free =
          omega (arith, length-snoc s 0) in
        ap zeros k

module _ (page : ℕ) (copy : CopyFromUser) (m : Module) (buff : List ℕ) (small : page + 1 < 2 ^ 31)
    (fits : m.cookie_index + length buff + 7 ≤ page) (copied : copy buff ≡ (buff, 0)) where
  -- A write that is accepted is what its last lines make of the copied bytes.
  pub fortune_write-accepts :
      (pot marked extended ended : List ℕ)
      → write_at m.cookie_pot m.cookie_index buff ≡ some pot
      → poke_before pot (m.cookie_index + length buff) underscore ≡ some marked
      → strcat marked add_str ≡ some extended
      → poke_before extended (m.cookie_index + length buff + 7) 0 ≡ some ended
      → fortune_write page copy buff m
        ≡ some (
          count (length buff),
          record m { cookie_pot = ended; cookie_index = m.cookie_index + length buff + 7 },
        )
  unfolding fortune_write Option.bind
  fortune_write-accepts pot marked extended ended e_1 e_2 e_3 e_4 =
      rw
        (
          guard_passes page m.cookie_index (length buff) small (omega arith),
          copied,
          e_1,
          no_wrap_mark,
          no_wrap_end,
          e_2,
          e_3,
          e_4,
        )
        refl
    where
      no_wrap_mark : (m.cookie_index + length buff) % 2 ^ 32 ≡ m.cookie_index + length buff
      no_wrap_mark = omega arith

      no_wrap_end : (m.cookie_index + length buff + 7) % 2 ^ 32 ≡ m.cookie_index + length buff + 7
      no_wrap_end = omega arith

-- The first write stores its message with '_' for the last byte, the suffix, and a 0.
pub first_write :
    (page : ℕ) (copy : CopyFromUser) (body : List ℕ) (last free next : ℕ)
    → page + 1 < 2 ^ 31
    → page ≡ length body + 8 + free
    → NonZero body
    → copy (body ++ last ∷ []) ≡ (body ++ last ∷ [], 0)
    → fortune_write page copy
        (body ++ last ∷ [])
        (record { cookie_pot = zeros page; cookie_index = 0; next_fortune = next })
      ≡ some (
        count (length body + 1),
        record {
          cookie_pot = stored_text body ++ 0 ∷ zeros free;
          cookie_index = length body + 8;
          next_fortune = next;
        },
      )
first_write page copy body last free next small fits good copied =
    fortune_write-accepts page copy _ (body ++ last ∷ []) small
      (omega (arith, length-snoc body last)) copied (body ++ last ∷ tail) (text ++ tail)
      (text ++ (add_str ++ 0 ∷ zeros free)) (stored_text body ++ 0 ∷ zeros free) stored marked
      (strcat-zeros text add_str free (NonZero-append body (underscore ∷ []) good (omega arith)))
      ended
    ∙ rw (index, length-snoc body last) refl
  where
    text : List ℕ
    text = body ++ underscore ∷ []

    tail : List ℕ
    tail = zeros (suc (6 + free))

    stored : write_at (zeros page) 0 (body ++ last ∷ []) ≡ some (body ++ last ∷ tail)
    stored =
        let k : page ≡ length body + 1 + suc (6 + free) = omega arith in
        rw k (copied_in [] body last (suc (6 + free)))

    marked :
        poke_before (body ++ last ∷ tail) (0 + length (body ++ last ∷ [])) underscore
        ≡ some (text ++ tail)
    marked =
        poke_before-append [] body last underscore (0 + length (body ++ last ∷ [])) tail
          (omega (arith, length-snoc body last))
        ∙ ap some (sym (append_assoc body (underscore ∷ []) tail))

    index : 0 + length (body ++ last ∷ []) + 7 ≡ length body + 8
    index = omega (arith, length-snoc body last)

    ended :
        poke_before (text ++ (add_str ++ 0 ∷ zeros free)) (0 + length (body ++ last ∷ []) + 7) 0
        ≡ some (stored_text body ++ 0 ∷ zeros free)
    ended = rw (← append_assoc text add_str (0 ∷ zeros free)) (
        poke_before-append (stored_text body) [] 0 0 (0 + length (body ++ last ∷ []) + 7)
          (zeros free) (omega (arith, length-snoc body last, length-stored_text body)))

-- The next message is read out up to its 0, and the place after it is remembered.
pub fortune_read-next :
    (size : ℕ) (m : Module) (s : List ℕ)
    → m.next_fortune < m.cookie_index
    → string_at m.cookie_pot m.next_fortune ≡ some s
    → fortune_read size 0 m
      ≡ some (record {
        result = length s;
        bytes = s;
        f_pos = length s + 1;
        state = record m { next_fortune = m.next_fortune + (length s + 1) };
      })
unfolding fortune_read
fortune_read-next size m s more found = rw found (ground arith)

-- Written to a pot that holds nothing yet, a message of non-zero bytes is read back as it was, but
-- for '_' in the place of its last byte and the suffix behind it; the next read of the same open
-- file returns 0, the end of the file.
pub write_then_read :
    (page : ℕ) (copy : CopyFromUser) (body : List ℕ) (last free size : ℕ)
    → page + 1 < 2 ^ 31
    → page ≡ length body + 8 + free
    → NonZero body
    → copy (body ++ last ∷ []) ≡ (body ++ last ∷ [], 0)
    → (m : Module) × (r : Reading) × (fortune_write page copy
          (body ++ last ∷ [])
          (record { cookie_pot = zeros page; cookie_index = 0; next_fortune = 0 })
        ≡ some (count (length body + 1), m))
      × (fortune_read size 0 m ≡ some r)
      × (r.bytes ≡ stored_text body)
      × (r.result ≡ length body + 7)
      × (fortune_read size r.f_pos r.state
          ≡ some (record { result = 0; bytes = []; f_pos = r.f_pos; state = r.state }))
unfolding fortune_read
write_then_read page copy body last free size small fits good copied = (
  record {
    cookie_pot = stored_text body ++ 0 ∷ zeros free;
    cookie_index = length body + 8;
    next_fortune = 0;
  },
  _,
  first_write page copy body last free 0 small fits good copied,
  fortune_read-next size
      (record {
        cookie_pot = stored_text body ++ 0 ∷ zeros free;
        cookie_index = length body + 8;
        next_fortune = 0;
      })
      (stored_text body) (omega arith)
      (string_at-append [] (stored_text body) (zeros free) (stored_text-NonZero body good)),
  refl,
  length-stored_text body,
  ground arith,
)
