-- ===== src/SlabFs/Mounts.antt =====
-- Mounts of lab8's file system one after another, while the module is loaded.
pub mod Shares
use mathlib.Core.Option
use os_bmstu.Common.{ℕ, Option, none, some, List, [], ◌∷◌, ◌≡◌, ◌⊎◌}
use os_bmstu.SlabFs.Inodes.{
  Module, Inode, KernelCalls, SuperBlock, FillRet, ok, enomem, FilledSb, myfs_fill_sb,
}

-- What `mount_nodev` returns: an error, or the dentry of the super block.
pub data Entry : Type 0 where
  err_ptr : Entry
  dentry : (root : Option Inode) → Entry

-- `mount_nodev` of the kernel, with the other arguments applied: it is given the function that fills
-- a super block in.
abbrev pub MountNodev : Type 0
MountNodev = (SuperBlock → Module → Option FilledSb) → Module → Option (Entry × Module)

-- The calls of the kernel in one mount.
pub record Mount : Type 0 where
  pub kernel : KernelCalls
  pub mount_nodev : MountNodev

-- `myfs_mount`.
unfoldable pub myfs_mount : Mount → Module → Option (Entry × Module)
myfs_mount mount m = mount.mount_nodev (myfs_fill_sb mount.kernel) m

-- Mounts one after another, and what each returns.
unfoldable pub mounts : List Mount → Module → Option (List Entry × Module)
unfolding myfs_mount
mounts [] m = some ([], m)
mounts (mount ∷ ms) m =
    Option.bind (myfs_mount mount m)
      λ (entry, m'). Option.map (λ (entries, m''). (entry ∷ entries, m'')) (mounts ms m')

-- The object that the root of a mounted file system points to.
unfoldable pub object : Entry → Option ℕ
object err_ptr = none
object (dentry none) = none
object (dentry (some root)) = root.i_private

abbrev pub with_object : Option ℕ → List ℕ → List ℕ
with_object none ps = ps
with_object (some p) ps = p ∷ ps

-- The objects of the mounted file systems, in the order of the mounts.
abbrev pub objects_of : List Entry → List ℕ
objects_of [] = []
objects_of (entry ∷ entries) = with_object (object entry) (objects_of entries)

abbrev pub first : List ℕ → Option ℕ
first [] = none
first (p ∷ ps) = some p

abbrev pub tail : List ℕ → List ℕ
tail [] = []
tail (p ∷ ps) = ps

-- Mounts while the objects `ps` are left: a mounted file system gets the first of them, or none if
-- there are none; a mount that fails leaves them all, or loses the first.
abbrev pub Handed : List Entry → List ℕ → Type 0
Handed [] ps = Unit {0}
Handed (err_ptr ∷ entries) ps = Handed entries ps ⊎ Handed entries (tail ps)
Handed (dentry root ∷ entries) ps = (object (dentry root) ≡ first ps) × Handed entries (tail ps)

unfoldable pub entry_of : FillRet → Option Inode → Entry
entry_of ok root = dentry root
entry_of enomem root = err_ptr

-- What is documented of `mount_nodev`: it fails without a super block, or it lets one be filled in,
-- and returns the root of that, or an error if the filling failed.
abbrev pub IsMountNodev : MountNodev → Type 0
IsMountNodev mount_nodev =
    (fill : SuperBlock → Module → Option FilledSb) (m : Module)
    → (mount_nodev fill m ≡ some (err_ptr, m))
      ⊎ ((sb : SuperBlock) × (mount_nodev fill m
            ≡ Option.map (λ out. (entry_of out.ret out.sb.s_root, out.state)) (fill sb m)))

-- Each call of `mount_nodev` is as documented, and each call of `new_inode` succeeds.
abbrev pub AllServed : List Mount → Type 0
AllServed [] = Unit {0}
AllServed (mount ∷ ms) =
    IsMountNodev mount.mount_nodev
    × ((ret : Inode) × (mount.kernel.new_inode ≡ some ret))
    × AllServed ms
