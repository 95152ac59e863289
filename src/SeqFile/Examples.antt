-- ===== src/SeqFile/Examples.antt =====
-- Runs of lab4_seq_file, and the theorems at them.
use os_bmstu.Common.{
  ◌≡◌, refl, some, List, [], ◌∷◌, arith, true, none, ℕ, zero, suc, ◌+◌, ◌++◌, ltb, length,
}
use os_bmstu.Memory.{zeros, string_at, c_string}
use os_bmstu.Memory.UserCopy.{CopyFromUser}
use os_bmstu.ProcFs.{Calls}
use os_bmstu.SeqFile.{Module, fortune_init, count, SeqPrintf, my_show}
use os_bmstu.SeqFile.Fifo.{
  Op, write, show, written, shown, run, queue_run, messages_fifo, line_extra, TakesLines,
}

-- `copy_from_user` on a readable buffer.
abbrev whole_copy : CopyFromUser
whole_copy bytes = (bytes, 0)

abbrev all_succeed : Calls
all_succeed = record { vmalloc = true; proc_create = true; proc_mkdir = true; proc_symlink = true }

abbrev script : List Op
script = write (b'h' ∷ b'i' ∷ []) 10 ∷ write (b'!' ∷ []) 10 ∷ show ∷ show ∷ show ∷ []

-- Both messages, then the empty one.
queue_run-script :
    queue_run 0 [] script
    ≡ written (count 3)
      ∷ written (count 2)
      ∷ shown (some (0, b'h' ∷ b'i' ∷ []))
      ∷ shown (some (3, b'!' ∷ []))
      ∷ shown (some (5, []))
      ∷ []
unfolding queue_run
queue_run-script = refl

abbrev small_module : Module
small_module = record { str = zeros 64; write_index = 0; read_index = 0 }

-- A buffer of 64 bytes.
abbrev room_for : SeqPrintf
room_for index message = ltb (length message + line_extra) 64

room_for-TakesLines : TakesLines 64 room_for
room_for-TakesLines index message small short = ground arith

messages_fifo_example : run whole_copy room_for small_module script ≡ some (queue_run 0 [] script)
unfolding fortune_init
messages_fifo_example =
    messages_fifo whole_copy room_for (λ bytes. refl) 64 all_succeed small_module script refl
      room_for-TakesLines (omega arith) (omega arith) (omega arith)

-- A message of 31 bytes lies in the pot.
abbrev long : ℕ → List ℕ
long zero = []
long (suc n) = b'x' ∷ long n

abbrev long_message : Module
long_message = record { str = long 31 ++ zeros 33; write_index = 32; read_index = 0 }

-- Its line has no room in the buffer, and it is not shown again.
message_is_lost :
    my_show room_for long_message ≡ some (none, record long_message { read_index = 32 })
unfolding my_show string_at c_string
message_is_lost = refl
