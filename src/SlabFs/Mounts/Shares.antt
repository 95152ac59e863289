-- ===== src/SlabFs/Mounts/Shares.antt =====
-- Which objects the file systems that lab8 mounts share, and what unloading then gives back.
use mathlib.Core.Option
use mathlib.Core.Path.{subst}
use mathlib.Core.List.{append_assoc, Sublistᴰ}
use mathlib.Core.List.Sublistᴰ
use os_bmstu.Common.{
  ℕ, ◌+◌, ◌≤◌, ◌<◌, ◌≡◌, refl, ap, Bool-cases, some, List, [], ◌∷◌, ◌++◌, length, length-append,
  get_elem?, arith, inl, inr, true, ◌∙◌, sym, update,
}
use os_bmstu.SlabFs.{number, Calls, success, Held, nothing, md_init, md_exit}
use os_bmstu.SlabFs.Loading.{md_init_exit, LoadedOrNothing}
use os_bmstu.SlabFs.Inodes.{
  Module, Inode, KernelCalls, SuperBlock, init_inode, myfs_make_inode, myfs_fill_sb, marked,
  with_root, dir_mode,
}
use os_bmstu.SlabFs.Objects.{make_inode-object, make_inode-empty, get_elem?-append}
use os_bmstu.SlabFs.Mounts.{
  Entry, err_ptr, dentry, Mount, myfs_mount, mounts, object, with_object, objects_of, entry_of,
  first, tail, Handed, IsMountNodev, AllServed,
}

-- The objects of `line` are handed out up to some place, and `rest` is what is left.
record Left (m : Module) (line rest : List ℕ) : Type 0 where
  before : List ℕ
  array : m.line ≡ line
  parted : line ≡ before ++ rest
  at : m.cache_pos ≡ length before
  whole : length line ≡ number

-- One inode, when `rest` is left.
abbrev Given : Module → List ℕ → List ℕ → KernelCalls → Inode → Type 0
Given m line rest k ret =
    (m' : Module) × (myfs_make_inode k dir_mode m
      ≡ some (some (init_inode k dir_mode (first rest) ret), m'))
    × Left m' line (tail rest)

make_inode-Given :
    (k : KernelCalls) (ret : Inode) (m : Module) (line rest : List ℕ)
    → Left m line rest
    → k.new_inode ≡ some ret
    → Given m line rest k ret
make_inode-Given k ret m line [] left fresh =
    (m, rw (make_inode-empty k dir_mode m used_up, fresh) refl, left)
  where
    used_up : number ≤ m.cache_pos
    used_up =
        omega (arith, left.at, left.whole, ap length left.parted, length-append left.before [])
make_inode-Given k ret m line (p ∷ rest) left fresh = (
  record m { cache_pos = m.cache_pos + 1; contents = update m.contents p (ret.i_mode, ret.i_ino) },
  rw (make_inode-object k dir_mode p m room found, fresh) refl,
  record {
    before = left.before ++ p ∷ [];
    array = left.array;
    parted = left.parted ∙ sym (append_assoc left.before (p ∷ []) rest);
    at = omega (arith, left.at, length-append left.before (p ∷ []));
    whole = left.whole;
  },
)
  where
    room : m.cache_pos < number
    room =
        omega
          (arith, left.at, left.whole, ap length left.parted, length-append left.before (p ∷ rest))

    found : get_elem? m.line m.cache_pos ≡ some p
    found = rw (left.array, left.parted, left.at) (get_elem?-append left.before p rest)

-- One mount, when `rest` is left.
abbrev Mounted : Mount → Module → List ℕ → List ℕ → Type 0
Mounted mount m line rest =
    (entry : Entry) × (m' : Module) × (rest' : List ℕ) × (myfs_mount mount m ≡ some (entry, m'))
    × Left m' line rest'
    × ((entries : List Entry) → Handed entries rest' → Handed (entry ∷ entries) rest)

-- A mount that has its super block: if `d_make_root` then fails, an object is lost.
filled-Mounted :
    (mount : Mount) (ret : Inode) (m : Module) (line rest : List ℕ) (sb : SuperBlock)
    → Given m line rest mount.kernel ret
    → mount.mount_nodev (myfs_fill_sb mount.kernel) m
      ≡ Option.map
          (λ out. (entry_of out.ret out.sb.s_root, out.state))
          (myfs_fill_sb mount.kernel sb m)
    → Mounted mount m line rest
unfolding myfs_mount object entry_of
filled-Mounted mount ret m line rest sb (m', made, left) called =
    elim (Bool-cases mount.kernel.d_make_root) [
      | inl root ↦ (
        dentry
            (some (record (init_inode mount.kernel dir_mode (first rest) ret) { dir_ops = true })),
        m',
        tail rest,
        called ∙ rw (filled, root) refl,
        left,
        λ entries handed. (refl, handed),
      )
      | inr failed ↦ (
        err_ptr,
        m',
        tail rest,
        called ∙ rw (filled, failed) refl,
        left,
        λ entries handed. inr handed,
      )
    ]
  where
    filled :
        myfs_fill_sb mount.kernel sb m
        ≡ some (
            with_root mount.kernel
              (marked mount.kernel sb)
              (some (init_inode mount.kernel dir_mode (first rest) ret))
              m')
    filled = unfold myfs_fill_sb in rw made refl

myfs_mount-Mounted :
    (mount : Mount) (ret : Inode) (m : Module) (line rest : List ℕ)
    → IsMountNodev mount.mount_nodev
    → mount.kernel.new_inode ≡ some ret
    → Left m line rest
    → Mounted mount m line rest
unfolding myfs_mount object
myfs_mount-Mounted mount ret m line rest documented fresh left =
    elim (documented (myfs_fill_sb mount.kernel) m) [
      | inl failed ↦ (err_ptr, m, rest, failed, left, λ entries handed. inl handed)
      | inr (sb, called) ↦
          filled-Mounted mount ret m line rest sb
            (make_inode-Given mount.kernel ret m line rest left fresh) called
    ]

mounts-Left :
    (ms : List Mount) (m : Module) (line rest : List ℕ)
    → AllServed ms
    → Left m line rest
    → (entries : List Entry) × (m' : Module) × (mounts ms m ≡ some (entries, m'))
      × (m'.line ≡ line)
      × Handed entries rest
unfolding mounts Option.bind
mounts-Left [] m line rest served left = ([], m, refl, left.array, tt)
mounts-Left (mount ∷ ms) m line rest (documented, (ret, fresh), served) left =
    let (entry, m', rest', done, left', keep) =
      myfs_mount-Mounted mount ret m line rest documented fresh left in
    let (entries, m'', ended, array, handed) = mounts-Left ms m' line rest' served left' in
    (entry ∷ entries, m'', rw (done, ended) refl, array, keep entries handed)

tail-Sublist : (ps objects : List ℕ) → Sublistᴰ objects (tail ps) → Sublistᴰ objects ps
tail-Sublist [] objects part = part
tail-Sublist (p ∷ ps) objects part = Sublistᴰ.cons part

first-Sublist :
    (ps objects : List ℕ)
    → Sublistᴰ objects (tail ps)
    → Sublistᴰ (with_object (first ps) objects) ps
first-Sublist [] objects part = part
first-Sublist (p ∷ ps) objects part = Sublistᴰ.cons-cons refl part

Handed-Sublist :
    (entries : List Entry) (ps : List ℕ) → Handed entries ps → Sublistᴰ (objects_of entries) ps
unfolding object
Handed-Sublist [] ps handed = Sublistᴰ.nil-sublist ps
Handed-Sublist (err_ptr ∷ entries) ps (inl handed) = Handed-Sublist entries ps handed
Handed-Sublist (err_ptr ∷ entries) ps (inr handed) =
    tail-Sublist ps (objects_of entries) (Handed-Sublist entries (tail ps) handed)
Handed-Sublist (dentry root ∷ entries) ps (e, handed) =
    subst (λ given. Sublistᴰ (with_object given (objects_of entries)) ps) (sym e)
      (first-Sublist ps (objects_of entries) (Handed-Sublist entries (tail ps) handed))

-- The module as `md_init` leaves it.
abbrev pub started : List ℕ → (ℕ → ℕ × ℕ) → Module
started line contents = record { line = line; cache_pos = 0; contents = contents }

-- What `LoadedOrNothing` says of a module that is loaded.
loaded_whole :
    (line : List ℕ) (h : Held)
    → LoadedOrNothing (success, line, h)
    → (length line ≡ number) × (md_exit line h ≡ some nothing)
loaded_whole line h (inl (wrong, rest)) = ground arith
loaded_whole line h (inr (r, whole, objects, registered, unloads)) = (whole, unloads)

-- Once `md_init` has returned 0, while each `new_inode` succeeds: any number of mounts, of which some
-- may fail, goes without a fault. Each mounted file system gets the first object of `line` that is
-- left, or none when none is left, where a mount that fails may lose one; so two mounted file systems
-- never have the same place of `line`. `md_exit` then gives back all 31 objects, and everything else.
pub mounts_of_loaded :
    (calls : Calls) (line : List ℕ) (h : Held) (contents : ℕ → ℕ × ℕ) (ms : List Mount)
    → md_init calls nothing ≡ some (success, line, h)
    → AllServed ms
    → (entries : List Entry) × (m : Module) × (mounts ms (started line contents)
        ≡ some (entries, m))
      × Handed entries line
      × Sublistᴰ (objects_of entries) line
      × (md_exit m.line h ≡ some nothing)
mounts_of_loaded calls line h contents ms loaded served =
    let (entries, m, done, array, handed) =
      mounts-Left ms (started line contents) line line served
        (record { before = []; array = refl; parted = refl; at = refl; whole = whole }) in
    (entries, m, done, handed, Handed-Sublist entries line handed, rw array unloads)
  where
    init : LoadedOrNothing (success, line, h)
    init =
        let (x, e, good) = md_init_exit calls in
        subst LoadedOrNothing (Option.some-injective x (success, line, h) (sym e ∙ loaded)) good

    whole : length line ≡ number
    whole = (loaded_whole line h init).0

    unloads : md_exit line h ≡ some nothing
    unloads = (loaded_whole line h init).1
