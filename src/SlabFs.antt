-- ===== src/SlabFs.antt =====
-- sem_6/lab8/vfs_md.c: a file system module that takes 31 objects from a slab cache when it is
-- loaded, and gives one to each inode that it makes. The calls of the kernel are parameters.
pub mod Loading
pub mod Inodes
pub mod Objects
pub mod Mounts
mod Examples
use mathlib.Core.Option
use os_bmstu.Common.{
  ℕ, zero, suc, ◌+◌, Bool, true, false, Option, none, some, List, [], ◌∷◌, ◌++◌, ◌==◌, ◌&&◌,
  if◌then◌else◌, leb, update, get_elem?,
}

abbrev pub number : ℕ
number = 31

-- What the module holds of the kernel: the array `line`, the cache, the objects of the cache in the
-- order in which it got them, and its registered file system type.
pub record Held : Type 0 where
  pub array : Bool
  pub cache : Bool
  pub objects : List ℕ
  pub registered : Bool

abbrev pub nothing : Held
nothing = record { array = false; cache = false; objects = []; registered = false }

-- The calls of `md_init`: whether `kmalloc` and `kmem_cache_create` succeed, the object that each
-- `kmem_cache_alloc` returns (`none` for NULL), and the error of `register_filesystem`, 0 for none.
pub record Calls : Type 0 where
  pub kmalloc : Bool
  pub cache_create : Bool
  pub cache_alloc : ℕ → Option ℕ
  pub register_error : ℕ

-- What `md_init` returns: 0, -ENOMEM, or the error of `register_filesystem`.
pub data Ret : Type 0 where
  success : Ret
  enomem : Ret
  not_registered : (error : ℕ) → Ret

-- `kmem_cache_free`; `none` if the object is not one that the module holds.
unfoldable pub remove_object : ℕ → List ℕ → Option (List ℕ)
remove_object p [] = none
remove_object p (q ∷ objects) =
    let rest = Option.map (λ r. q ∷ r) (remove_object p objects) in
    if p == q then some objects else rest

unfoldable pub cache_free : ℕ → Held → Option Held
unfolding remove_object
cache_free p h = Option.map (λ objects. record h { objects = objects }) (remove_object p h.objects)

-- The loop over `kmem_cache_free(my_cache, line[j])`.
unfoldable pub free_line : List ℕ → Held → Option Held
unfolding cache_free
free_line [] h = some h
free_line (p ∷ line) h = Option.bind (cache_free p h) (free_line line)

abbrev pub is_nil : List ℕ → Bool
is_nil [] = true
is_nil (p ∷ ps) = false

-- `kmem_cache_destroy`; a cache with live objects, or none at all, is a fault.
unfoldable pub cache_destroy : Held → Option Held
cache_destroy h = if h.cache && is_nil h.objects then some (record h { cache = false }) else none

-- `kfree(line)`; `none` if the array is not allocated.
unfoldable pub kfree_line : Held → Option Held
kfree_line h = if h.array then some (record h { array = false }) else none

-- The calls that give back the objects, the cache and the array.
unfoldable pub give_back : List ℕ → Held → Option Held
unfolding free_line cache_destroy kfree_line
give_back line h = Option.bind (free_line line h) λ h'. Option.bind (cache_destroy h') kfree_line

-- How the first loop of `md_init` ends: `line` is full, or a call returned NULL.
pub data Filled : Type 0 where
  full : List ℕ → Held → Filled
  stopped : List ℕ → Held → Filled

-- The first loop of `md_init` with `rounds` rounds to go, `i` rounds done.
unfoldable pub fill : (ℕ → Option ℕ) → ℕ → ℕ → List ℕ → Held → Filled
fill alloc zero i line h = full line h
fill alloc (suc rounds) i line h = elim (alloc i) [
  | some p ↦ fill alloc rounds (i + 1) (line ++ p ∷ []) (record h { objects = h.objects ++ p ∷ [] })
  | none ↦ stopped line h
]

-- After the loop: give everything back, or register the file system type.
unfoldable pub after_fill : ℕ → Filled → Option (Ret × List ℕ × Held)
unfolding give_back
after_fill error (stopped line h) = Option.map (λ h'. (enomem, line, h')) (give_back line h)
after_fill error (full line h) =
    if error == 0
    then some (success, line, record h { registered = true })
    else Option.map (λ h'. (not_registered error, line, h')) (give_back line h)

-- `md_init`: what it returns, the array `line`, and what the module then holds. `none` is a fault.
unfoldable pub md_init : Calls → Held → Option (Ret × List ℕ × Held)
unfolding fill after_fill kfree_line
md_init calls h =
    if calls.kmalloc
    then (let allocated = record h { array = true } in
        if calls.cache_create
        then after_fill calls.register_error
            (fill calls.cache_alloc number 0 [] (record allocated { cache = true }))
        else Option.map (λ h'. (enomem, [], h')) (kfree_line allocated))
    else some (enomem, [], h)

-- `unregister_filesystem`.
abbrev unregister : Held → Held
unregister h = record h { registered = false }

-- `md_exit`.
unfoldable pub md_exit : List ℕ → Held → Option Held
unfolding give_back
md_exit line h = Option.map unregister (give_back line h)
