-- ===== src/SlabFs/Inodes.antt =====
-- The objects that lab8 hands out, its inodes and its super block.
use mathlib.Core.Option
use os_bmstu.Common.{
  ℕ, zero, suc, ◌+◌, Bool, true, Option, none, some, List, [], ◌∷◌, if◌then◌else◌, leb, update,
  get_elem?,
}
use os_bmstu.SlabFs.{number}

-- The static variables, and the contents of the objects, `i_mode` and `i_ino`, by their address.
pub record Module : Type 0 where
  pub line : List ℕ
  pub cache_pos : ℕ
  pub contents : ℕ → ℕ × ℕ

-- `get_slab_mem`: an object or NULL; `none` if the index is not one of `line`.
unfoldable pub get_slab_mem : Module → Option (Option ℕ × Module)
get_slab_mem m =
    if leb number m.cache_pos
    then some (none, m)
    else Option.map (λ p. (some p, record m { cache_pos = m.cache_pos + 1 }))
        (get_elem? m.line m.cache_pos)

-- The fields of `struct inode` that the module writes; `dir_ops` says that `i_op` and `i_fop` are
-- those of a simple directory.
pub record Inode : Type 0 where
  pub i_mode : ℕ
  pub i_ino : ℕ
  pub i_size : ℕ
  pub i_time : ℕ
  pub i_private : Option ℕ
  pub dir_ops : Bool

-- What the kernel gives: PAGE_SIZE and PAGE_SHIFT, the result of `new_inode`, `inode_init_owner`,
-- `current_time`, and whether `d_make_root` returns a dentry.
pub record KernelCalls : Type 0 where
  pub page_size : ℕ
  pub page_shift : ℕ
  pub new_inode : Option Inode
  pub inode_init_owner : Inode → ℕ → Inode
  pub current_time : Inode → ℕ
  pub d_make_root : Bool

-- `_inode->i_mode = ret->i_mode; _inode->i_ino = ret->i_ino`, if there is an object; `none` if the
-- inode is then read through a null pointer.
abbrev pub copy_ids : Option ℕ → Option Inode → Module → Option Module
copy_ids none ret m = some m
copy_ids (some p) none m = none
copy_ids (some p) (some ret) m =
    some (record m { contents = update m.contents p (ret.i_mode, ret.i_ino) })

abbrev pub init_inode : KernelCalls → ℕ → Option ℕ → Inode → Inode
init_inode k mode object ret =
    let owned = k.inode_init_owner ret mode in
    record owned { i_size = k.page_size; i_time = k.current_time owned; i_private = object }

-- `myfs_make_inode`.
unfoldable pub myfs_make_inode : KernelCalls → ℕ → Module → Option (Option Inode × Module)
unfolding get_slab_mem
myfs_make_inode k mode m = Option.bind (get_slab_mem m) λ (object, m').
    Option.map (λ m''. (Option.map (init_inode k mode object) k.new_inode, m''))
      (copy_ids object k.new_inode m')

-- The fields of `struct super_block` that `myfs_fill_sb` writes; `has_op` says that `s_op` is
-- `myfs_super_ops`.
pub record SuperBlock : Type 0 where
  pub s_blocksize : ℕ
  pub s_blocksize_bits : ℕ
  pub s_magic : ℕ
  pub has_op : Bool
  pub s_root : Option Inode

abbrev pub myfs_magic_number : ℕ
myfs_magic_number = 0x13131313

-- S_IFDIR | 0755.
abbrev pub dir_mode : ℕ
dir_mode = 0o40755

pub data FillRet : Type 0 where
  ok : FillRet
  enomem : FillRet

-- What `myfs_fill_sb` returns and leaves, and how often it calls `iput`.
pub record FilledSb : Type 0 where
  pub ret : FillRet
  pub sb : SuperBlock
  pub iputs : ℕ
  pub state : Module

-- The rest of `myfs_fill_sb` after `myfs_make_inode`.
abbrev pub with_root : KernelCalls → SuperBlock → Option Inode → Module → FilledSb
with_root k sb none m = record { ret = enomem; sb = sb; iputs = 0; state = m }
with_root k sb (some root) m =
    let dir : Inode = record root { dir_ops = true } in
    if k.d_make_root
    then record { ret = ok; sb = record sb { s_root = some dir }; iputs = 0; state = m }
    else record { ret = enomem; sb = record sb { s_root = none }; iputs = 1; state = m }

-- The lines of `myfs_fill_sb` that write the super block.
abbrev pub marked : KernelCalls → SuperBlock → SuperBlock
marked k sb = record sb {
  s_blocksize = k.page_size;
  s_blocksize_bits = k.page_shift;
  s_magic = myfs_magic_number;
  has_op = true;
}

-- `myfs_fill_sb`.
unfoldable pub myfs_fill_sb : KernelCalls → SuperBlock → Module → Option FilledSb
unfolding myfs_make_inode
myfs_fill_sb k sb m =
    Option.map (λ (root, m'). with_root k (marked k sb) root m') (myfs_make_inode k dir_mode m)

-- Successive calls of `get_slab_mem`.
unfoldable pub get_many : ℕ → Module → Option (List (Option ℕ))
get_many zero m = some []
get_many (suc n) m =
    Option.bind (get_slab_mem m)
      λ (object, m'). Option.map (λ objects. object ∷ objects) (get_many n m')
