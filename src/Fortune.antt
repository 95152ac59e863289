-- ===== src/Fortune.antt =====
-- sem_6/lab4_2/main.c: a kernel module that keeps fortunes in one page, behind a /proc file.
pub mod Messages
pub mod Second
pub mod Bounds
pub mod Loading
mod Examples
use mathlib.Core.Option
use os_bmstu.Common.{
  ℕ, zero, suc, ◌+◌, ◌-◌, ◌%◌, ◌^◌, Bool, true, false, ◌||◌, Option, none, some, List, [], ◌∷◌,
  ◌==◌, if◌then◌else◌, length, ltb, leb,
}
use os_bmstu.Memory.{write_at, poke_before, string_at, strcat, zeros}
use os_bmstu.Memory.UserCopy.{CopyFromUser}
use os_bmstu.ProcFs.{
  Held, Calls, do_vmalloc, do_vfree, do_proc_create, do_proc_mkdir, do_proc_symlink, remove_file,
  remove_dir, remove_symlink,
}

-- The static variables of the module.
pub record Module : Type 0 where
  pub cookie_pot : List ℕ
  pub cookie_index : ℕ  -- int
  pub next_fortune : ℕ  -- int

-- The string in `add_str`.
abbrev pub add_str : List ℕ
add_str = b'a' ∷ b'a' ∷ b'a' ∷ b'a' ∷ b'a' ∷ 10 ∷ []

abbrev pub underscore : ℕ
underscore = 95

-- An `unsigned long` stored in an `int` and read as an `unsigned long` again.
abbrev pub through_int : ℕ → ℕ
through_int w = if ltb (w % 2 ^ 32) (2 ^ 31) then w % 2 ^ 32 else w % 2 ^ 32 + (2 ^ 64 - 2 ^ 32)

-- `free_space` of `fortune_write`, as the comparison with `len + 1` reads it.
abbrev pub free_space : ℕ → ℕ → ℕ
free_space page cookie_index = through_int ((page + 2 ^ 64 - cookie_index + 1) % 2 ^ 64)

-- What `fortune_write` returns: a length, or -EFAULT.
pub data Written : Type 0 where
  count : ℕ → Written
  efault : Written

-- The lines of `fortune_write` after the copy, for a write of `len` bytes.
abbrev pub finish_write : ℕ → Module → Option (Written × Module)
finish_write len m =
    let cookie_index = (m.cookie_index + len) % 2 ^ 32 in
    let next_index = (cookie_index + 7) % 2 ^ 32 in
    Option.bind (poke_before m.cookie_pot cookie_index underscore) λ marked.
      Option.bind (strcat marked add_str) λ extended.
        Option.map
          (λ ended. (count len, record m { cookie_pot = ended; cookie_index = next_index }))
          (poke_before extended next_index 0)

-- `fortune_write`, with PAGE_SIZE for MAX_COOKIE_LENGTH; `none` is an access outside the pot.
unfoldable pub fortune_write : ℕ → CopyFromUser → List ℕ → Module → Option (Written × Module)
fortune_write page copy buff m =
    if ltb (free_space page m.cookie_index) ((length buff + 1) % 2 ^ 64)
    then some (efault, m)
    else (let (arrived, left) = copy buff in
        Option.bind (write_at m.cookie_pot m.cookie_index arrived) λ pot.
          if left == 0
          then finish_write (length buff) (record m { cookie_pot = pot })
          else some (efault, record m { cookie_pot = pot }))

-- `fortune_read` for a buffer of `count` (here `size`) bytes at the position `f_pos`: the length that it returns,
-- the bytes that it hands to `copy_to_user`, the new position and the new state.
pub record Reading : Type 0 where
  pub result : ℕ
  pub bytes : List ℕ
  pub f_pos : ℕ
  pub state : Module

unfoldable pub fortune_read : ℕ → ℕ → Module → Option Reading
fortune_read size f_pos m =
    if m.cookie_index == 0 || ltb 0 f_pos
    then some (record { result = 0; bytes = []; f_pos = f_pos; state = m })
    else if leb m.cookie_index m.next_fortune
    then some (record { result = 0; bytes = []; f_pos = f_pos; state = m })
    else Option.map
        (λ s. record {
          result = length s;
          bytes = s;
          f_pos = f_pos + (length s + 1);
          state = record m { next_fortune = m.next_fortune + (length s + 1) };
        })
        (string_at m.cookie_pot m.next_fortune)

pub data Loaded : Type 0 where
  loaded : Module → Loaded
  enomem : Loaded

-- `init_fortune_module`, with what the module then holds of the kernel.
unfoldable pub init_fortune_module : ℕ → Calls → Held → Loaded × Held
init_fortune_module page calls h =
    let allocated = do_vmalloc calls.vmalloc h in
    if calls.vmalloc
    then (let created = do_proc_create calls.proc_create allocated in
        if calls.proc_create
        then (
          loaded (record { cookie_pot = zeros page; cookie_index = 0; next_fortune = 0 }),
          do_proc_symlink calls.proc_symlink (do_proc_mkdir calls.proc_mkdir created),
        )
        else (enomem, do_vfree created))
    else (enomem, allocated)

-- `exit_fortune_module`; the arguments say which of the two pointers are not null.
unfoldable pub exit_fortune_module : Bool → Bool → Held → Held
exit_fortune_module has_file has_pot h =
    let removed = if has_file then remove_symlink (remove_dir (remove_file h)) else h in
    if has_pot then do_vfree removed else removed
