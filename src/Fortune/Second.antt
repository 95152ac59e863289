-- ===== src/Fortune/Second.antt =====
-- What becomes of the second message of the fortune module of lab4_2: `strcat` appends the suffix to
-- the first string of the pot, not to the message that was just written.
use mathlib.Core.Option
use mathlib.Core.List.{append_assoc}
use os_bmstu.Common.{
  ℕ, suc, ◌+◌, ◌<◌, ◌^◌, ◌≡◌, refl, ap, ◌∙◌, some, List, [], ◌∷◌, ◌++◌, length, length-append,
  arith,
}
use os_bmstu.Memory.{zeros, NonZero, write_at, poke_before, strcat, string_at}
use os_bmstu.Memory.Laws.{
  write_at-append, poke_before-append, string_at-append, c_string-append, NonZero-append,
  zeros-append,
}
use os_bmstu.Memory.UserCopy.{CopyFromUser}
use os_bmstu.Fortune.{Module, fortune_write, fortune_read, count, Reading, add_str, underscore}
use os_bmstu.Fortune.Messages.{
  length-snoc, copied_in, fortune_write-accepts, fortune_read-next, first_write, stored_text,
  length-stored_text, stored_text-NonZero,
}

-- `strcat` over a text that is followed by a 0 and as many bytes as it needs.
strcat-over :
    (text old s rest : List ℕ)
    → NonZero text
    → length old ≡ length s
    → strcat (text ++ (0 ∷ old ++ rest)) s ≡ some (text ++ ((s ++ 0 ∷ []) ++ rest))
unfolding strcat Option.bind
strcat-over text old s rest good same =
    rw (c_string-append text (old ++ rest) good)
      (write_at-append text (0 ∷ old) (s ++ 0 ∷ []) rest (omega (arith, length-snoc s 0)))

-- A pot that holds the text of earlier messages and a 0, and then nothing.
module _ (page : ℕ) (copy : CopyFromUser) (text six tail : List ℕ) (last free next : ℕ)
    (small : page + 1 < 2 ^ 31)
    (fits : page ≡ length text + 1 + (length six + length tail + 1 + (7 + free)))
    (good : NonZero text) (head : length six ≡ 6)
    (copied : copy ((six ++ tail) ++ last ∷ []) ≡ ((six ++ tail) ++ last ∷ [], 0)) where
  abbrev before : Module
  before = record {
    cookie_pot = (text ++ 0 ∷ []) ++ zeros (length (six ++ tail) + 1 + (7 + free));
    cookie_index = length text + 1;
    next_fortune = next;
  }

  abbrev ending : List ℕ
  ending = tail ++ underscore ∷ zeros (7 + free)

  abbrev pot_after : List ℕ
  pot_after = text ++ ((add_str ++ 0 ∷ []) ++ ending)

  length-buff : length ((six ++ tail) ++ last ∷ []) ≡ length six + length tail + 1
  length-buff = omega (arith, length-snoc (six ++ tail) last, length-append six tail)

  stored :
      write_at before.cookie_pot (length text + 1) ((six ++ tail) ++ last ∷ [])
      ≡ some ((text ++ 0 ∷ []) ++ ((six ++ tail) ++ last ∷ zeros (7 + free)))
  stored = rw (← length-snoc text 0) (copied_in (text ++ 0 ∷ []) (six ++ tail) last (7 + free))

  marked :
      poke_before
        ((text ++ 0 ∷ []) ++ ((six ++ tail) ++ last ∷ zeros (7 + free)))
        (length text + 1 + length ((six ++ tail) ++ last ∷ []))
        underscore
      ≡ some (text ++ (0 ∷ six ++ ending))
  marked =
      poke_before-append (text ++ 0 ∷ []) (six ++ tail) last underscore
        (length text + 1 + length ((six ++ tail) ++ last ∷ [])) (zeros (7 + free))
        (omega (arith, length-snoc text 0, length-snoc (six ++ tail) last))
      ∙ ap some (simp append_assoc)

  -- Everything before the byte that the last line of `fortune_write` clears.
  start : List ℕ
  start = text ++ (add_str ++ 0 ∷ (tail ++ underscore ∷ zeros 6))

  pot_after-start : pot_after ≡ start ++ 0 ∷ zeros free
  unfolding start
  pot_after-start = rw zeros-append (simp append_assoc)

  length-start : length start ≡ length text + length tail + 14
  unfolding start
  length-start = omega (
    arith,
    length-append text (add_str ++ 0 ∷ (tail ++ underscore ∷ zeros 6)),
    length-append tail (underscore ∷ zeros 6),
  )

  ended :
      poke_before pot_after (length text + 1 + length ((six ++ tail) ++ last ∷ []) + 7) 0
      ≡ some pot_after
  ended = rw pot_after-start (
      poke_before-append start [] 0 0 (length text + 1 + length ((six ++ tail) ++ last ∷ []) + 7)
        (zeros free) (omega (arith, length-buff, length-start, head)))

  second_write :
      fortune_write page copy ((six ++ tail) ++ last ∷ []) before
      ≡ some (
        count (length six + length tail + 1),
        record {
          cookie_pot = pot_after;
          cookie_index = length text + 1 + (length six + length tail + 1) + 7;
          next_fortune = next;
        },
      )
  second_write =
      fortune_write-accepts page copy before ((six ++ tail) ++ last ∷ []) small
        (omega (arith, length-buff)) copied
        ((text ++ 0 ∷ []) ++ ((six ++ tail) ++ last ∷ zeros (7 + free)))
        (text ++ (0 ∷ six ++ ending)) pot_after pot_after stored marked
        (strcat-over text six add_str ending good head) ended
      ∙ rw length-buff refl

  -- Read from the start of the pot, the earlier text has the suffix a second time.
  first_string : string_at pot_after 0 ≡ some (text ++ add_str)
  first_string = rw same (
      string_at-append [] (text ++ add_str) ending (NonZero-append text add_str good (omega arith)))
    where
      same : pot_after ≡ (text ++ add_str) ++ 0 ∷ ending
      same = simp append_assoc

  -- Where the next read continues there is the rest of the message, without its first six bytes.
  second_string :
      NonZero tail → string_at pot_after (length text + 7) ≡ some (tail ++ underscore ∷ [])
  second_string clean =
      rw (same, at)
        (string_at-append (text ++ (add_str ++ 0 ∷ [])) (tail ++ underscore ∷ []) (zeros (6 + free))
          (NonZero-append tail (underscore ∷ []) clean (omega arith)))
    where
      same :
          pot_after
          ≡ (text ++ (add_str ++ 0 ∷ [])) ++ ((tail ++ underscore ∷ []) ++ 0 ∷ zeros (6 + free))
      same = let k : 7 + free ≡ suc (6 + free) = omega arith in rw k (simp append_assoc)

      at : length text + 7 ≡ length (text ++ (add_str ++ 0 ∷ []))
      at = omega (arith, length-append text (add_str ++ 0 ∷ []))

-- Two messages written to a pot of zeros, in a page of less than 2 ^ 31 - 1 bytes that has room for
-- both with their suffixes, while copies from user space succeed: if the first holds no byte 0 before
-- its last byte, and the second has at least seven bytes and holds no byte 0 between its sixth and its
-- last, they come back as other than what was written: the first with its suffix twice, and the second
-- without its first six bytes and without a suffix.
pub second_message_cut :
    (page : ℕ) (copy : CopyFromUser) (body six tail : List ℕ) (last_1 last_2 free size : ℕ)
    → page + 1 < 2 ^ 31
    → page ≡ length body + 8 + (length six + length tail + 1 + (7 + free))
    → NonZero body
    → NonZero tail
    → length six ≡ 6
    → ((bytes : List ℕ) → copy bytes ≡ (bytes, 0))
    → (m_1 : Module) × (m_2 : Module) × (r_1 : Reading) × (r_2 : Reading) × (fortune_write page copy
          (body ++ last_1 ∷ [])
          (record { cookie_pot = zeros page; cookie_index = 0; next_fortune = 0 })
        ≡ some (count (length body + 1), m_1))
      × (fortune_write page copy ((six ++ tail) ++ last_2 ∷ []) m_1
          ≡ some (count (length six + length tail + 1), m_2))
      × (fortune_read size 0 m_2 ≡ some r_1)
      × (r_1.bytes ≡ stored_text body ++ add_str)
      × (fortune_read size 0 r_1.state ≡ some r_2)
      × (r_2.bytes ≡ tail ++ underscore ∷ [])
second_message_cut page copy body six tail last_1 last_2 free size small fits good clean head
      copies =
    (
      before page copy text six tail last_2 free 0 small room whole head (copies _),
      after,
      reading_1,
      _,
      written_1,
      second_write page copy text six tail last_2 free 0 small room whole head (copies _),
      fortune_read-next size after (text ++ add_str) (omega arith)
          (first_string page copy text six tail last_2 free 0 small room whole head (copies _)),
      refl,
      fortune_read-next size reading_1.state (tail ++ underscore ∷ [])
          (omega (arith, length-append text add_str, head)) rest_read,
      refl,
    )
  where
    text : List ℕ
    text = stored_text body

    whole : NonZero text
    whole = stored_text-NonZero body good

    room : page ≡ length text + 1 + (length six + length tail + 1 + (7 + free))
    room = omega (arith, length-stored_text body)

    after : Module
    after = record {
      cookie_pot = pot_after page copy text six tail last_2 free 0 small room whole head (copies _);
      cookie_index = length text + 1 + (length six + length tail + 1) + 7;
      next_fortune = 0;
    }

    reading_1 : Reading
    reading_1 = record {
      result = length (text ++ add_str);
      bytes = text ++ add_str;
      f_pos = length (text ++ add_str) + 1;
      state = record after { next_fortune = 0 + (length (text ++ add_str) + 1) };
    }

    written_1 :
        fortune_write page copy
          (body ++ last_1 ∷ [])
          (record { cookie_pot = zeros page; cookie_index = 0; next_fortune = 0 })
        ≡ some (
          count (length body + 1),
          before page copy text six tail last_2 free 0 small room whole head (copies _),
        )
    written_1 =
        first_write page copy body last_1 (length (six ++ tail) + 1 + (7 + free)) 0 small
          (omega (arith, length-append six tail)) good (copies _)
        ∙ rw (append_assoc (stored_text body) (0 ∷ []) zeroed, index) refl
      where
        zeroed : List ℕ
        zeroed = zeros (length (six ++ tail) + 1 + (7 + free))

        index : length (stored_text body) + 1 ≡ length body + 8
        index = omega (arith, length-stored_text body)

    rest_read :
        string_at after.cookie_pot (0 + (length (text ++ add_str) + 1))
        ≡ some (tail ++ underscore ∷ [])
    rest_read =
        let place : 0 + (length (text ++ add_str) + 1) ≡ length text + 7 =
          omega (arith, length-append text add_str) in
        rw place (
          second_string page copy text six tail last_2 free 0 small room whole head (copies _)
            clean)
