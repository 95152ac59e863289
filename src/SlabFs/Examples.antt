-- ===== src/SlabFs/Examples.antt =====
-- The module of lab8 with concrete calls of the kernel, and the theorems at them.
use mathlib.Core.Option
use mathlib.Core.List.{Sublistᴰ}
use os_bmstu.Common.{
  ℕ, zero, suc, ◌+◌, ◌≡◌, refl, none, some, List, [], ◌∷◌, true, false, if◌then◌else◌, leb, ◌*◌,
  inr,
}
use os_bmstu.SlabFs.{nothing, Calls, Ret, success, enomem, Held, md_init, md_exit}
use os_bmstu.SlabFs.Inodes.{Module, Inode, KernelCalls, SuperBlock, myfs_fill_sb}
use os_bmstu.SlabFs.Mounts.{
  Entry, MountNodev, Mount, mounts, objects_of, entry_of, Handed, AllServed, IsMountNodev, object,
}
use os_bmstu.SlabFs.Mounts.Shares.{mounts_of_loaded, started}
use os_bmstu.SlabFs.Loading.{md_init_exit, LoadedOrNothing}

-- The cache runs out of memory in the fourth round.
abbrev three_objects : Calls
three_objects = record {
  kmalloc = true;
  cache_create = true;
  cache_alloc = λ i. if leb 3 i then none else some (1000 + i);
  register_error = 0;
}

three_objects_fail : md_init three_objects nothing ≡ some (enomem, 1000 ∷ 1001 ∷ 1002 ∷ [], nothing)
unfolding md_init Option.bind
three_objects_fail = refl

md_init_exit_example :
    (x : Ret × List ℕ × Held) × (md_init three_objects nothing ≡ some x) × LoadedOrNothing x
md_init_exit_example = md_init_exit three_objects

abbrev addresses : ℕ → ℕ → List ℕ
addresses i zero = []
addresses i (suc n) = i ∷ addresses (i + 8) n

-- All calls succeed, and the objects stand one behind the other.
abbrev all_objects : Calls
all_objects = record {
  kmalloc = true;
  cache_create = true;
  cache_alloc = λ i. some (1000 + 8 * i);
  register_error = 0;
}

abbrev loaded : Held
loaded = record { array = true; cache = true; objects = addresses 1000 31; registered = true }

all_objects_load : md_init all_objects nothing ≡ some (success, addresses 1000 31, loaded)
unfolding md_init
all_objects_load = refl

abbrev plain_inode : Inode
plain_inode = record {
  i_mode = 0;
  i_ino = 77;
  i_size = 0;
  i_time = 0;
  i_private = none;
  dir_ops = false;
}

abbrev kernel : KernelCalls
kernel = record {
  page_size = 4096;
  page_shift = 12;
  new_inode = some plain_inode;
  inode_init_owner = λ ret mode. record ret { i_mode = mode };
  current_time = λ ret. 5;
  d_make_root = true;
}

abbrev empty_sb : SuperBlock
empty_sb = record {
  s_blocksize = 0;
  s_blocksize_bits = 0;
  s_magic = 0;
  has_op = false;
  s_root = none;
}

abbrev mount_nodev : MountNodev
mount_nodev fill m =
    Option.map (λ out. (entry_of out.ret out.sb.s_root, out.state)) (fill empty_sb m)

abbrev mount : Mount
mount = record { kernel = kernel; mount_nodev = mount_nodev }

-- A mount for whose root there is no dentry.
abbrev no_dentry : Mount
no_dentry = record { kernel = record kernel { d_make_root = false }; mount_nodev = mount_nodev }

abbrev zeros : ℕ → ℕ × ℕ
zeros p = (0, 0)

three_mounts_served : AllServed (mount ∷ no_dentry ∷ mount ∷ [])
three_mounts_served = (served, fresh, (served, fresh, (served, fresh, tt)))
  where
    served : IsMountNodev mount_nodev
    served fill m = inr (empty_sb, refl)

    fresh : (ret : Inode) × (kernel.new_inode ≡ some ret)
    fresh = (plain_inode, refl)

-- The second of three mounts fails, and its object is lost.
object_is_lost :
    Option.map
      (λ (entries, m). objects_of entries)
      (mounts (mount ∷ no_dentry ∷ mount ∷ []) (started (addresses 1000 31) zeros))
    ≡ some (1000 ∷ 1016 ∷ [])
unfolding mounts Option.bind myfs_fill_sb object entry_of
object_is_lost = refl

mounts_of_loaded_example :
    (entries : List Entry) × (m : Module) × (mounts
        (mount ∷ no_dentry ∷ mount ∷ [])
        (started (addresses 1000 31) zeros)
      ≡ some (entries, m))
    × Handed entries (addresses 1000 31)
    × Sublistᴰ (objects_of entries) (addresses 1000 31)
    × (md_exit m.line loaded ≡ some nothing)
mounts_of_loaded_example =
    mounts_of_loaded all_objects (addresses 1000 31) loaded zeros (mount ∷ no_dentry ∷ mount ∷ [])
      all_objects_load three_mounts_served
