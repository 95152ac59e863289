-- ===== src/SeqFile/Queue.antt =====
-- The pot of lab4_seq_file is a queue of messages.
use mathlib.Core.Option
use mathlib.Core.List.{append_assoc}
use os_bmstu.Common.{
  ℕ, suc, ◌+◌, ◌<◌, ◌^◌, ◌≡◌, refl, sym, ap, ◌∙◌, some, List, [], ◌∷◌, ◌++◌, length, length-append,
  arith, if◌then◌else◌, ◌==◌,
}
use os_bmstu.Memory.{zeros, NonZero, write_at, string_at}
use os_bmstu.Memory.Laws.{length-zeros, write_at-zeros, poke_before-append, string_at-append}
use os_bmstu.Memory.UserCopy.{CopyFromUser}
use os_bmstu.SeqFile.{Module, my_write, my_show, count, u32, SeqPrintf, printed}

-- Messages as they lie in the pot, each behind the last, a 0 after each.
abbrev pub encode : List (List ℕ) → List ℕ
encode [] = []
encode (s ∷ q) = s ++ 0 ∷ encode q

-- A message that can be told from the end of the pot.
abbrev pub IsMessage : List ℕ → Type 0
IsMessage s = NonZero s × (0 < length s)

abbrev pub AllMessages : List (List ℕ) → Type 0
AllMessages [] = Unit {0}
AllMessages (s ∷ q) = IsMessage s × AllMessages q

-- The pot holds what was shown, then the queue, then `free` bytes 0.
pub record Holds (m : Module) (q : List (List ℕ)) (free : ℕ) : Type 0 where
  pub past : List ℕ
  pub layout : m.str ≡ past ++ (encode q ++ zeros free)
  pub read_at : m.read_index ≡ length past
  pub write_end : m.write_index ≡ length past + length (encode q)
  pub messages : AllMessages q
  pub small : length m.str < 2 ^ 32

encode-append : (q r : List (List ℕ)) → encode (q ++ r) ≡ encode q ++ encode r
encode-append [] r = refl
encode-append (s ∷ q) r = rw (encode-append q r) (sym (append_assoc s (0 ∷ encode q) (encode r)))

AllMessages-append :
    (q : List (List ℕ)) (s : List ℕ) → AllMessages q → IsMessage s → AllMessages (q ++ s ∷ [])
AllMessages-append [] s a m = (m, tt)
AllMessages-append (t ∷ q) s a m = (a.0, AllMessages-append q s a.1 m)

length-snoc : (body : List ℕ) (last : ℕ) → length (body ++ last ∷ []) ≡ length body + 1
length-snoc body last = length-append body (last ∷ [])

-- The bytes of a message, copied behind `before` into zeroed memory.
copied_in :
    (before body : List ℕ) (last free : ℕ)
    → write_at (before ++ zeros (length body + 1 + free)) (length before) (body ++ last ∷ [])
      ≡ some (before ++ (body ++ last ∷ zeros free))
copied_in before body last free =
    rw (← length-snoc body last, write_at-zeros before (body ++ last ∷ []) free, append_assoc) refl

-- `my_write` of `body` and one more byte stores `body` and a 0.
my_write-stores :
    (copy : CopyFromUser) (m : Module) (before body : List ℕ) (last free : ℕ)
    → m.str ≡ before ++ zeros (length body + 1 + free)
    → m.write_index ≡ length before
    → length before + (length body + 1) < 2 ^ 32
    → copy (body ++ last ∷ []) ≡ (body ++ last ∷ [], 0)
    → my_write copy (body ++ last ∷ []) m
      ≡ some (
        count (length body + 1),
        record m {
          str = before ++ (body ++ 0 ∷ zeros free);
          write_index = length before + (length body + 1);
        },
      )
unfolding my_write Option.bind
my_write-stores copy m before body last free layout at_end small copied =
    rw
      (
        copied,
        layout,
        at_end,
        copied_in before body last free,
        length-snoc body last,
        no_wrap,
        poke_before-append before body last 0 (length before + (length body + 1)) (zeros free) refl,
      )
      refl
  where
    no_wrap : u32 (length before + (length body + 1)) ≡ length before + (length body + 1)
    no_wrap = omega arith

-- The pot as long as its parts.
length-layout :
    (past e : List ℕ) (n : ℕ) → length (past ++ (e ++ zeros n)) ≡ length past + length e + n
length-layout past e n =
    omega (arith, length-append past (e ++ zeros n), length-append e (zeros n), length-zeros n)

-- Writing a message adds it at the end of the queue.
pub my_write-Holds :
    (copy : CopyFromUser) (m : Module) (q : List (List ℕ)) (free : ℕ) (body : List ℕ) (last : ℕ)
    → copy (body ++ last ∷ []) ≡ (body ++ last ∷ [], 0)
    → IsMessage body
    → Holds m q (length body + 1 + free)
    → (m' : Module) × (my_write copy (body ++ last ∷ []) m ≡ some (count (length body + 1), m'))
      × (m'.read_index ≡ m.read_index)
      × Holds m' (q ++ body ∷ []) free
my_write-Holds copy m q free body last copied good h = (
  _,
  runs,
  refl,
  record {
    past = h.past;
    layout = simp (encode-append, append_assoc);
    read_at = h.read_at;
    write_end = omega (
      arith,
      length-append h.past (encode q),
      ap length (encode-append q (body ∷ [])),
      length-append (encode q) (body ++ 0 ∷ []),
      length-append body (0 ∷ []),
    );
    messages = AllMessages-append q body h.messages good;
    small = omega (
      arith,
      room,
      length-append (h.past ++ encode q) (body ++ 0 ∷ zeros free),
      length-append h.past (encode q),
      length-append body (0 ∷ zeros free),
      length-zeros free,
    );
  },
)
  where
    room : length h.past + length (encode q) + (length body + 1 + free) < 2 ^ 32
    room = omega (
      arith,
      ap length h.layout,
      length-layout h.past (encode q) (length body + 1 + free),
      h.small,
    )

    runs :
        my_write copy (body ++ last ∷ []) m
        ≡ some (
          count (length body + 1),
          record m {
            str = h.past ++ encode q ++ (body ++ 0 ∷ zeros free);
            write_index = length (h.past ++ encode q) + (length body + 1);
          },
        )
    runs =
        my_write-stores copy m (h.past ++ encode q) body last free
          (h.layout ∙ sym (append_assoc h.past (encode q) (zeros (length body + 1 + free))))
          (h.write_end ∙ sym (length-append h.past (encode q)))
          (omega (arith, room, length-append h.past (encode q))) copied

-- Showing takes the first message off the queue.
pub my_show-Holds :
    (seq_printf : SeqPrintf) (m : Module) (s : List ℕ) (q : List (List ℕ)) (free : ℕ)
    → Holds m (s ∷ q) free
    → (m' : Module) × (my_show seq_printf m ≡ some (printed seq_printf m.read_index s, m'))
      × (m'.read_index ≡ m.read_index + (length s + 1))
      × Holds m' q free
unfolding my_show
my_show-Holds seq_printf m s q free h = (
  _,
  runs,
  refl,
  record {
    past = h.past ++ (s ++ 0 ∷ []);
    layout = h.layout ∙ simp append_assoc;
    read_at =
        omega (arith, length-append h.past (s ++ 0 ∷ []), length-append s (0 ∷ []), h.read_at);
    write_end = omega (
      arith,
      length-append h.past (s ++ 0 ∷ []),
      length-append s (0 ∷ []),
      length-append s (0 ∷ encode q),
      h.write_end,
    );
    messages = h.messages.1;
    small = h.small;
  },
)
  where
    next : ℕ
    next = m.read_index + (length s + 1)

    no_wrap : u32 next ≡ next
    no_wrap = omega (
      arith,
      ap length h.layout,
      length-layout h.past (encode (s ∷ q)) free,
      length-append s (0 ∷ encode q),
      h.read_at,
      h.small,
    )

    found : string_at m.str m.read_index ≡ some s
    found =
        rw (h.layout, h.read_at, append_assoc)
          (string_at-append h.past s (encode q ++ zeros free) h.messages.0.0)

    moved : (if length s == 0 then m.read_index else u32 next) ≡ next
    moved = ground (arith, no_wrap, h.messages.0.1)

    runs :
        my_show seq_printf m
        ≡ some (printed seq_printf m.read_index s, record m { read_index = next })
    runs = rw (found, moved) refl

-- With an empty queue, and a byte 0 behind it, the empty message is shown, and nothing changes.
pub my_show-empty :
    (seq_printf : SeqPrintf) (m : Module) (free : ℕ)
    → Holds m [] (suc free)
    → my_show seq_printf m ≡ some (printed seq_printf m.read_index [], m)
unfolding my_show
my_show-empty seq_printf m free h = rw found refl
  where
    found : string_at m.str m.read_index ≡ some []
    found = rw (h.layout, h.read_at) (string_at-append h.past [] (zeros free) tt)
