-- ===== src/Fortune/Examples.antt =====
-- The fortune module of lab4_2 on concrete messages, and the theorems at them.
use os_bmstu.Common.{ℕ, ◌≡◌, refl, none, some, List, [], ◌∷◌, ◌++◌, arith, true}
use os_bmstu.Memory.{zeros}
use os_bmstu.Memory.UserCopy.{CopyFromUser}
use os_bmstu.ProcFs.{Calls}
use os_bmstu.Fortune.{Module, fortune_write, fortune_read, count, Reading, add_str, underscore}
use os_bmstu.Fortune.Messages.{write_then_read, stored_text}
use os_bmstu.Fortune.Second.{second_message_cut}
use os_bmstu.Fortune.Bounds.{fortune_write-overflows}

-- `copy_from_user` on a readable buffer.
abbrev whole_copy : CopyFromUser
whole_copy bytes = (bytes, 0)

abbrev fresh : Module
fresh = record { cookie_pot = zeros 32; cookie_index = 0; next_fortune = 0 }

-- "hi" and a newline.
abbrev hi : List ℕ
hi = b'h' ∷ b'i' ∷ []

stored_text-hi : stored_text hi ≡ b'h' ∷ b'i' ∷ 95 ∷ b'a' ∷ b'a' ∷ b'a' ∷ b'a' ∷ b'a' ∷ 10 ∷ []
stored_text-hi = refl

write_then_read_example :
    (m : Module) × (r : Reading) × (fortune_write 32 whole_copy (hi ++ 10 ∷ []) fresh
      ≡ some (count 3, m))
    × (fortune_read 100 0 m ≡ some r)
    × (r.bytes ≡ stored_text hi)
    × (r.result ≡ 9)
    × (fortune_read 100 r.f_pos r.state
        ≡ some (record { result = 0; bytes = []; f_pos = r.f_pos; state = r.state }))
write_then_read_example =
    write_then_read 32 whole_copy hi 10 22 100 (omega arith) refl (omega arith) refl

-- "hi", then "0123456x", each with a newline.
second_message_cut_example :
    (m_1 : Module) × (m_2 : Module) × (r_1 : Reading) × (r_2 : Reading) × (fortune_write 32
        whole_copy
        (hi ++ 10 ∷ [])
        fresh
      ≡ some (count 3, m_1))
    × (fortune_write 32 whole_copy
          (((48 ∷ 49 ∷ 50 ∷ 51 ∷ 52 ∷ 53 ∷ []) ++ (54 ∷ b'x' ∷ [])) ++ 10 ∷ [])
          m_1
        ≡ some (count 9, m_2))
    × (fortune_read 100 0 m_2 ≡ some r_1)
    × (r_1.bytes ≡ stored_text hi ++ add_str)
    × (fortune_read 100 0 r_1.state ≡ some r_2)
    × (r_2.bytes ≡ (54 ∷ b'x' ∷ []) ++ underscore ∷ [])
second_message_cut_example =
    second_message_cut 32 whole_copy hi (48 ∷ 49 ∷ 50 ∷ 51 ∷ 52 ∷ 53 ∷ []) (54 ∷ b'x' ∷ []) 10 10 6
      100 (omega arith) refl (omega arith) (omega arith) refl (λ bytes. refl)

fortune_write-overflows_example :
    fortune_write 32 whole_copy hi (record fresh { cookie_index = 28 }) ≡ none
fortune_write-overflows_example =
    fortune_write-overflows 32 whole_copy hi (record fresh { cookie_index = 28 }) (omega arith) refl
      (omega arith) (omega arith) refl

abbrev all_succeed : Calls
all_succeed = record { vmalloc = true; proc_create = true; proc_mkdir = true; proc_symlink = true }
