-- ===== src/SeqFile/Overflow.antt =====
-- Where lab4_seq_file leaves its pot, and where it stops showing messages.
use mathlib.Core.Option
use os_bmstu.Common.{ℕ, ◌+◌, ◌<◌, ◌≡◌, refl, none, List, ◌∷◌, length}
use os_bmstu.Memory.Laws.{write_at-none}
use os_bmstu.Memory.UserCopy.{CopyFromUser}
use os_bmstu.SeqFile.{Module, my_write}

-- `my_write` has no bound: a write that succeeds in copying more bytes than the pot has left stores
-- outside the pot.
pub my_write-overflows :
    (copy : CopyFromUser) (m : Module) (b : ℕ) (bs : List ℕ)
    → copy (b ∷ bs) ≡ (b ∷ bs, 0)
    → length m.str < m.write_index + length (b ∷ bs)
    → my_write copy (b ∷ bs) m ≡ none
unfolding my_write Option.bind
my_write-overflows copy m b bs copied over =
    rw (copied, write_at-none m.str m.write_index b bs over) refl
