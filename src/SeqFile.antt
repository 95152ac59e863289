-- ===== src/SeqFile.antt =====
-- sem_6/lab4_seq_file/main.c: a kernel module whose /proc file stores what is written to it and
-- shows it again, one message at a time.
pub mod Queue
pub mod Fifo
pub mod Overflow
pub mod Loading
mod Examples
use mathlib.Core.Option
use os_bmstu.Common.{
  ℕ, zero, suc, ◌+◌, ◌%◌, ◌^◌, Bool, true, false, Option, none, some, List, [], ◌∷◌, ◌==◌,
  if◌then◌else◌, length,
}
use os_bmstu.Memory.{write_at, poke_before, string_at, zeros}
use os_bmstu.ProcFs.{
  Held, Calls, do_vmalloc, do_vfree, do_proc_create, do_proc_mkdir, do_proc_symlink, remove_file,
  remove_dir, remove_symlink,
}
use os_bmstu.Memory.UserCopy.{CopyFromUser}

-- The static variables of the module.
pub record Module : Type 0 where
  pub str : List ℕ
  pub write_index : ℕ  -- unsigned int
  pub read_index : ℕ  -- unsigned int

abbrev pub u32 : ℕ → ℕ
u32 n = n % 2 ^ 32

-- What `my_write` returns.
pub data Written : Type 0 where
  count : ℕ → Written
  efault : Written

-- `my_write`; `none` is an access outside the pot.
unfoldable pub my_write : CopyFromUser → List ℕ → Module → Option (Written × Module)
my_write copy buffer m =
    let (arrived, left) = copy buffer in
    Option.bind (write_at m.str m.write_index arrived) λ str.
      if left == 0
      then (let write_index = u32 (m.write_index + length buffer) in
          Option.map
            (λ str'. (count (length buffer), record m { str = str'; write_index = write_index }))
            (poke_before str write_index 0))
      else some (efault, record m { str = str })

-- Whether `seq_printf` has room in the buffer of the file for the line of an index and a message; if
-- not, the line is discarded.
abbrev pub SeqPrintf : Type 0
SeqPrintf = ℕ → List ℕ → Bool

abbrev pub printed : SeqPrintf → ℕ → List ℕ → Option (ℕ × List ℕ)
printed seq_printf index message = if seq_printf index message then some (index, message) else none

-- `my_show`: the index and the message that `seq_printf` prints, `none` if it discards them.
unfoldable pub my_show : SeqPrintf → Module → Option (Option (ℕ × List ℕ) × Module)
my_show seq_printf m =
    Option.map
      (λ message. (
        printed seq_printf m.read_index message,
        record m {
          read_index =
              if length message == 0
              then m.read_index
              else u32 (m.read_index + (length message + 1));
        },
      ))
      (string_at m.str m.read_index)

pub data Loaded : Type 0 where
  loaded : Module → Loaded
  enomem : Loaded

-- `fortune_init`, for a page of the given size, with what the module then holds of the kernel.
unfoldable pub fortune_init : ℕ → Calls → Held → Loaded × Held
fortune_init page calls h =
    let allocated = do_vmalloc calls.vmalloc h in
    if calls.vmalloc
    then (let created = do_proc_create calls.proc_create allocated in
        if calls.proc_create
        then (
          loaded (record { str = zeros page; write_index = 0; read_index = 0 }),
          do_proc_symlink calls.proc_symlink (do_proc_mkdir calls.proc_mkdir created),
        )
        else (enomem, do_vfree created))
    else (enomem, allocated)

-- `fortune_exit`; `has_str` says that the pointer to the pot is not null.
unfoldable pub fortune_exit : Bool → Held → Held
fortune_exit has_str h =
    let removed = remove_symlink (remove_dir (remove_file h)) in
    if has_str then do_vfree removed else removed
