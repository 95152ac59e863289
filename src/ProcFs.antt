-- ===== src/ProcFs.antt =====
-- What a module of sem_6/lab4_2 or sem_6/lab4_seq_file holds of the kernel: blocks of `vmalloc`, and
-- its three entries in /proc. The calls are the kernel's, so whether each of them succeeds is a
-- parameter.
use os_bmstu.Common.{ℕ, ◌+◌, ◌-◌, ◌||◌, Bool, false, if◌then◌else◌}

pub record Held : Type 0 where
  pub blocks : ℕ
  pub file : Bool
  pub dir : Bool
  pub symlink : Bool

abbrev pub nothing : Held
nothing = record { blocks = 0; file = false; dir = false; symlink = false }

-- Which calls of the loading function succeed.
pub record Calls : Type 0 where
  pub vmalloc : Bool
  pub proc_create : Bool
  pub proc_mkdir : Bool
  pub proc_symlink : Bool

abbrev pub do_vmalloc : Bool → Held → Held
do_vmalloc success h = record h { blocks = if success then h.blocks + 1 else h.blocks }

abbrev pub do_vfree : Held → Held
do_vfree h = record h { blocks = h.blocks - 1 }

abbrev pub do_proc_create : Bool → Held → Held
do_proc_create success h = record h { file = success || h.file }

abbrev pub do_proc_mkdir : Bool → Held → Held
do_proc_mkdir success h = record h { dir = success || h.dir }

abbrev pub do_proc_symlink : Bool → Held → Held
do_proc_symlink success h = record h { symlink = success || h.symlink }

abbrev pub remove_file : Held → Held
remove_file h = record h { file = false }

abbrev pub remove_dir : Held → Held
remove_dir h = record h { dir = false }

abbrev pub remove_symlink : Held → Held
remove_symlink h = record h { symlink = false }
