-- ===== src/SlabFs/Objects.antt =====
-- Which object each inode of lab8 gets, and what a mount leaves.
use mathlib.Core.Option
use mathlib.Core.List.{append_assoc}
use os_bmstu.Common.{
  ℕ, zero, suc, ◌+◌, ◌≤◌, ◌<◌, ◌≡◌, refl, ap, Option, none, some, List, [], ◌∷◌, ◌++◌, length,
  length-append, get_elem?, arith, Option-cases, inl, inr, leb, true, false, ◌∙◌, sym,
  if◌then◌else◌, update, Option-cases,
}
use os_bmstu.SlabFs.{number}
use os_bmstu.SlabFs.Inodes.{
  Module, get_slab_mem, get_many, Inode, KernelCalls, init_inode, myfs_make_inode, myfs_fill_sb,
  SuperBlock, FilledSb, ok, enomem, dir_mode, myfs_magic_number, with_root, marked,
}

-- The objects of a list, one for each of `n` requests, then NULL.
abbrev pub handed : List ℕ → ℕ → List (Option ℕ)
handed line zero = []
handed [] (suc n) = none ∷ handed [] n
handed (p ∷ line) (suc n) = some p ∷ handed line n

pub get_elem?-append :
    (before : List ℕ) (p : ℕ) (rest : List ℕ)
    → get_elem? (before ++ p ∷ rest) (length before) ≡ some p
get_elem?-append [] p rest = refl
get_elem?-append (q ∷ before) p rest = get_elem?-append before p rest

get_slab_mem-object :
    (m : Module) (p : ℕ)
    → m.cache_pos < number
    → get_elem? m.line m.cache_pos ≡ some p
    → get_slab_mem m ≡ some (some p, record m { cache_pos = m.cache_pos + 1 })
unfolding get_slab_mem
get_slab_mem-object m p room found =
    let more : leb number m.cache_pos ≡ false = ground arith in rw (more, found) refl

get_slab_mem-null : (m : Module) → number ≤ m.cache_pos → get_slab_mem m ≡ some (none, m)
unfolding get_slab_mem
get_slab_mem-null m used_up =
    let full : leb number m.cache_pos ≡ true = ground arith in rw full refl

get_many-from :
    (n : ℕ) (m : Module) (before rest : List ℕ)
    → m.line ≡ before ++ rest
    → m.cache_pos ≡ length before
    → length m.line ≡ number
    → get_many n m ≡ some (handed rest n)
unfolding get_many Option.bind
get_many-from zero m before rest e at whole = refl
get_many-from (suc n) m before [] e at whole =
    rw (null, get_many-from n m before [] e at whole) refl
  where
    null : get_slab_mem m ≡ some (none, m)
    null = get_slab_mem-null m (omega (arith, ap length e, length-append before []))
get_many-from (suc n) m before (p ∷ rest) e at whole =
    rw
      (
        given,
        get_many-from n (record m { cache_pos = m.cache_pos + 1 }) (before ++ p ∷ []) rest
            (e ∙ sym (append_assoc before (p ∷ []) rest))
            (omega (arith, at, length-append before (p ∷ []))) whole,
      )
      refl
  where
    found : get_elem? m.line m.cache_pos ≡ some p
    found = rw (e, at) (get_elem?-append before p rest)

    room : m.cache_pos < number
    room = omega (arith, ap length e, length-append before (p ∷ rest))

    given : get_slab_mem m ≡ some (some p, record m { cache_pos = m.cache_pos + 1 })
    given = get_slab_mem-object m p room found

-- With all objects in place, any number of requests hands out every object once, in order, and NULL
-- from then on; no request reads behind the array.
pub get_many-handed :
    (n : ℕ) (m : Module)
    → m.cache_pos ≡ 0
    → length m.line ≡ number
    → get_many n m ≡ some (handed m.line n)
get_many-handed n m e whole = get_many-from n m [] m.line refl e whole

-- `myfs_make_inode` while an object is left: it is handed out; the new inode points to it, and it
-- holds the mode and number that the inode had from `new_inode`, before `inode_init_owner`. If
-- `new_inode` fails, the null pointer is read.
pub make_inode-object :
    (k : KernelCalls) (mode p : ℕ) (m : Module)
    → m.cache_pos < number
    → get_elem? m.line m.cache_pos ≡ some p
    → myfs_make_inode k mode m
      ≡ Option.map
          (λ ret. (
            some (init_inode k mode (some p) ret),
            record m {
              cache_pos = m.cache_pos + 1;
              contents = update m.contents p (ret.i_mode, ret.i_ino);
            },
          ))
          k.new_inode
unfolding myfs_make_inode Option.bind
make_inode-object k mode p m room found = elim (Option-cases k.new_inode) [
  | inl null ↦ rw (get_slab_mem-object m p room found, null) refl
  | inr (ret, fresh) ↦ rw (get_slab_mem-object m p room found, fresh) refl
]

-- `myfs_make_inode` when all objects are handed out: inodes still come, without an object, and a
-- failure of `new_inode` is passed on.
pub make_inode-empty :
    (k : KernelCalls) (mode : ℕ) (m : Module)
    → number ≤ m.cache_pos
    → myfs_make_inode k mode m ≡ some (Option.map (init_inode k mode none) k.new_inode, m)
unfolding myfs_make_inode Option.bind
make_inode-empty k mode m used_up = rw (get_slab_mem-null m used_up) refl

-- A mount that gets an inode and a dentry returns 0 with the super block filled in and the root
-- inode, a directory; without a dentry it returns -ENOMEM after one `iput`.
pub fill_sb-mounts :
    (k : KernelCalls) (sb : SuperBlock) (p : ℕ) (ret : Inode) (m : Module)
    → m.cache_pos < number
    → get_elem? m.line m.cache_pos ≡ some p
    → k.new_inode ≡ some ret
    → (out : FilledSb) × (myfs_fill_sb k sb m ≡ some out)
      × (out.sb.s_magic ≡ myfs_magic_number)
      × (out.state.cache_pos ≡ m.cache_pos + 1)
      × (out.ret ≡ (if k.d_make_root then ok else enomem))
      × (out.iputs ≡ (if k.d_make_root then 0 else 1))
      × (out.sb.s_root ≡ (
          if k.d_make_root
          then some (record (init_inode k dir_mode (some p) ret) { dir_ops = true })
          else none))
unfolding myfs_fill_sb Option.bind
fill_sb-mounts k sb p ret m room found fresh = (
  with_root k (marked k sb) (some (init_inode k dir_mode (some p) ret)) after,
  rw (make_inode-object k dir_mode p m room found, fresh) refl,
  ground arith,
  ground arith,
  ground arith,
  ground arith,
  ground arith,
)
  where
    after : Module
    after = record m {
      cache_pos = m.cache_pos + 1;
      contents = update m.contents p (ret.i_mode, ret.i_ino);
    }
