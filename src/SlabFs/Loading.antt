-- ===== src/SlabFs/Loading.antt =====
-- Loading and unloading the file system module of lab8.
use mathlib.Core.Option
use mathlib.Core.List.{append-nil}
use os_bmstu.Common.{
  ℕ, zero, suc, ◌+◌, ◌≡◌, ◌≢◌, ◌⊎◌, refl, sym, Bool, Bool-cases, ◌==◌, Option, some, List, [], ◌∷◌,
  ◌++◌, true, false, length, length-append, arith, Option-cases, inl, inr,
}
use os_bmstu.SlabFs.{
  number, Held, nothing, Calls, Ret, success, enomem, not_registered, remove_object, cache_free,
  free_line, cache_destroy, kfree_line, give_back, Filled, full, stopped, fill, after_fill, md_init,
  md_exit,
}

-- The objects that the module holds are those of `line`, in order.
abbrev held_with : List ℕ → Held
held_with line = record { array = true; cache = true; objects = line; registered = false }

remove_object-head : (p : ℕ) (objects : List ℕ) → remove_object p (p ∷ objects) ≡ some objects
unfolding remove_object
remove_object-head p objects = ground arith

-- Freed in the order of `line`, every object is one that the module still holds.
free_line-all :
    (line rest : List ℕ) (h : Held)
    → h.objects ≡ line ++ rest
    → free_line line h ≡ some (record h { objects = rest })
unfolding free_line Option.bind
free_line-all [] rest h e = ground arith
free_line-all (p ∷ line) rest h e =
    rw freed (free_line-all line rest (record h { objects = line ++ rest }) refl)
  where
    freed : cache_free p h ≡ some (record h { objects = line ++ rest })
    freed = unfold cache_free in rw (e, remove_object-head p (line ++ rest)) refl

give_back-all :
    (line : List ℕ) (registered : Bool)
    → give_back line (record (held_with line) { registered = registered })
      ≡ some (record nothing { registered = registered })
unfolding give_back Option.bind cache_destroy kfree_line
give_back-all line registered =
    rw
      (free_line-all line [] (record (held_with line) { registered = registered })
        (sym (append-nil line)))
      refl

-- However the loop ends, the objects that the module holds are those of the array that it leaves.
abbrev Ended : ℕ → Filled → Type 0
Ended n (full line h) = (h ≡ held_with line) × (length line ≡ n)
Ended n (stopped line h) = h ≡ held_with line

fill-Ended :
    (alloc : ℕ → Option ℕ) (rounds i : ℕ) (line : List ℕ) (n : ℕ)
    → length line + rounds ≡ n
    → Ended n (fill alloc rounds i line (held_with line))
unfolding fill
fill-Ended alloc zero i line n e = (refl, omega arith)
fill-Ended alloc (suc rounds) i line n e = elim (Option-cases (alloc i)) [
  | inl null ↦ rw (null, fill) refl
  | inr (p, e') ↦
      rw (e', fill)
        (fill-Ended alloc rounds (i + 1) (line ++ p ∷ []) n
          (omega (arith, length-append line (p ∷ []))))
]

-- What `md_init` achieved: nothing, or all of it.
abbrev pub LoadedOrNothing : Ret × List ℕ × Held → Type 0
LoadedOrNothing (r, line, h) =
    ((r ≢ success) × (h ≡ nothing))
    ⊎ ((r ≡ success)
        × (length line ≡ number)
        × (h.objects ≡ line)
        × (h.registered ≡ true)
        × (md_exit line h ≡ some nothing))

after_fill_sound :
    (error : ℕ) (f : Filled)
    → Ended number f
    → (x : Ret × List ℕ × Held) × (after_fill error f ≡ some x) × LoadedOrNothing x
unfolding after_fill md_exit
after_fill_sound error (full line h) (e, n) = elim (Bool-cases (error == 0)) [
  | inl none_wrong ↦ (
    (success, line, record (held_with line) { registered = true }),
    rw (none_wrong, e) refl,
    inr (refl, n, refl, refl, rw (give_back-all line true) refl),
  )
  | inr wrong ↦ (
    (not_registered error, line, nothing),
    rw (wrong, e, give_back-all line false) refl,
    inl (ground arith, refl),
  )
]
after_fill_sound error (stopped line h) e =
    ((enomem, line, nothing), rw (e, give_back-all line false) refl, inl (ground arith, refl))

-- Whichever calls fail, and in whichever round of the loop: loading does not free an object twice,
-- nor destroy a cache with live objects. It returns an error and holds nothing, or it returns 0 and
-- holds the 31 objects of the array, and then unloading gives back everything.
pub md_init_exit :
    (calls : Calls)
    → (x : Ret × List ℕ × Held) × (md_init calls nothing ≡ some x) × LoadedOrNothing x
unfolding md_init
md_init_exit calls = elim (Bool-cases calls.kmalloc) [
  | inl array ↦ elim (Bool-cases calls.cache_create) [
    | inl cache ↦
        let (x, e, good) =
          after_fill_sound calls.register_error (fill calls.cache_alloc number 0 [] (held_with []))
            (fill-Ended calls.cache_alloc number 0 [] number refl) in
        (x, rw (array, cache) e, good)
    | inr no_cache ↦
        ((enomem, [], nothing), rw (array, no_cache, kfree_line) refl, inl (ground arith, refl))
  ]
  | inr no_array ↦ ((enomem, [], nothing), rw no_array refl, inl (ground arith, refl))
]
