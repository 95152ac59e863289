-- ===== src/Memory/UserCopy.antt =====
-- `copy_from_user` of the kernel, as sem_6/lab4_2/main.c and sem_6/lab4_seq_file/main.c call it: a
-- parameter. Given the bytes of the user's buffer, it stores some of them and returns how many are
-- left.
use os_bmstu.Common.{ℕ, ◌+◌, ◌≡◌, List, length}

abbrev pub CopyFromUser : Type 0
CopyFromUser = List ℕ → List ℕ × ℕ

-- What the kernel documents: the result 0 says that all bytes were stored, unchanged.
pub record IsCopy (copy : CopyFromUser) : Type 0 where
  pub whole : (bytes : List ℕ) → (copy bytes).1 ≡ 0 → (copy bytes).0 ≡ bytes
  pub sum : (bytes : List ℕ) → length (copy bytes).0 + (copy bytes).1 ≡ length bytes
