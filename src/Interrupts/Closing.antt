-- ===== src/Interrupts/Closing.antt =====
-- Once the handler is freed, the module comes to its end.
use os_bmstu.Common.{
  ℕ, suc, ◌+◌, ◌≤◌, ◌<◌, ◌≡◌, ◌⊎◌, inl, inr, refl, ap, Bool, Bool-cases, true, false, none, some,
  Option, arith, one_if, if◌then◌else◌,
}
use mathlib.Core.Path.{subst}
use os_bmstu.Interrupts.{
  Program, lab9_1, lab9_2, Line, requesting, creating, undo_synchronizing, undo_freeing, failed,
  initialising, loaded, after_drain, synchronizing, freeing, draining, destroying, printing,
  unloaded, faulted, Module, Answers, md_step, my_work_func,
}
use os_bmstu.Interrupts.System.{
  System, Step, by_module, interrupted, worked, Reach, later, setting_up,
}
use os_bmstu.Interrupts.Invariant.{At}
use os_bmstu.Interrupts.Lifetime.{Reach-Inv}

-- md_exit behind free_irq.
abbrev pub closing : Line → Bool
closing draining = true
closing destroying = true
closing printing = true
closing unloaded = true
closing _ = false

-- How many steps are left at most.
abbrev steps_left : Line → ℕ
steps_left draining = 3
steps_left destroying = 2
steps_left printing = 1
steps_left _ = 0

abbrev size : Line × Module → ℕ
size (l, m) = steps_left l + one_if m.pending

-- `n` steps, one after another.
pub data Steps (p : Program) (arrives : Line → Bool) : ℕ → System → System → Type 0 where
  none_yet : {s : System} → Steps p arrives 0 s s
  one_more :
      {n : ℕ} {s t u : System}
      → Steps p arrives n s t
      → Step p arrives t u
      → Steps p arrives (suc n) s u

-- A module that is closing, nearer to its end than `n`.
abbrev Closer : ℕ → Line × Module → Type 0
Closer n (l, m) = (closing l ≡ true) × (size (l, m) < n)

abbrev IsCloser : ℕ → Option (Line × Module) → Type 0
IsCloser n none = Unit {0}
IsCloser n (some r) = Closer n r

-- A call that sleeps while `busy`.
IsCloser-if :
    (n : ℕ) (busy : Bool) (r : Line × Module)
    → (busy ≡ false → Closer n r)
    → IsCloser n (if busy then none else some r)
IsCloser-if n true r h = tt
IsCloser-if n false r h = h refl

after_drain-Closer : (p : Program) (m : Module) → Closer (3 + one_if m.pending) (after_drain p, m)
after_drain-Closer lab9_1 m = (refl, omega arith)
after_drain-Closer lab9_2 m = (refl, omega arith)

md_step-Closer :
    (p : Program) (a : Answers) (l : Line) (m : Module)
    → closing l ≡ true
    → IsCloser (size (l, m)) (md_step p a l m)
unfolding md_step
md_step-Closer p a draining m c =
    IsCloser-if (size (draining, m)) m.pending (after_drain p, m) (λ idle. after_drain-Closer p m)
md_step-Closer p a destroying m c =
    IsCloser-if (size (destroying, m)) m.pending (printing, record m { queue = false })
      (λ idle. (refl, omega arith))
md_step-Closer p a printing m c = (refl, omega arith)
md_step-Closer p a unloaded m c = tt
md_step-Closer p a requesting m c = cc
md_step-Closer p a creating m c = cc
md_step-Closer p a undo_synchronizing m c = cc
md_step-Closer p a undo_freeing m c = cc
md_step-Closer p a failed m c = tt
md_step-Closer p a initialising m c = cc
md_step-Closer p a loaded m c = cc
md_step-Closer p a synchronizing m c = cc
md_step-Closer p a freeing m c = cc
md_step-Closer p a faulted m c = tt

my_work_func-Closer :
    (l : Line) (m : Module)
    → closing l ≡ true
    → m.pending ≡ true
    → Closer (size (l, m)) (l, my_work_func m)
unfolding my_work_func
my_work_func-Closer l m c busy = (c, omega (arith, ap one_if busy))

-- No interrupt calls the handler any more.
closing-off :
    (p : Program) (l : Line) (m : Module) → closing l ≡ true → At p l m → m.registered ≡ false
closing-off p draining m c at = at.0
closing-off p destroying m c at = at.0
closing-off p printing m c at = at.0
closing-off p unloaded m c at = at.0.0
closing-off p requesting m c at = cc
closing-off p creating m c at = cc
closing-off p undo_synchronizing m c at = cc
closing-off p undo_freeing m c at = cc
closing-off p failed m c at = cc
closing-off p initialising m c at = cc
closing-off p loaded m c at = cc
closing-off p synchronizing m c at = cc
closing-off p freeing m c at = cc
closing-off p faulted m c at = cc

Step-Closer :
    (p : Program) (arrives : Line → Bool) (s t : System)
    → closing s.line ≡ true
    → s.mem.registered ≡ false
    → Step p arrives s t
    → Closer (size (s.line, s.mem)) (t.line, t.mem)
Step-Closer p arrives s t c off (by_module a l m e same) =
    rw same (subst (IsCloser (size (s.line, s.mem))) e (md_step-Closer p a s.line s.mem c))
Step-Closer p arrives s t c off (interrupted l m on now e same) = absurd (cc (on, off))
Step-Closer p arrives s t c off (worked busy same) =
    rw same (my_work_func-Closer s.line s.mem c busy)

abbrev both_succeed : Answers
both_succeed = record { request_irq = true; create_workqueue = true }

one_if-le : (b : Bool) → one_if b ≤ 1
one_if-le true = omega arith
one_if-le false = omega arith

-- A closing module has come to its end, or something can happen.
closing-moves :
    (p : Program) (arrives : Line → Bool) (l : Line) (m : Module)
    → closing l ≡ true
    → (l ≡ unloaded) ⊎ ((t : System) × Step p arrives (record { line = l; mem = m }) t)
unfolding md_step
closing-moves p arrives draining m c = elim (Bool-cases m.pending) [
  | inl busy ↦ inr (_, worked busy refl)
  | inr idle ↦ inr (
    _,
    by_module both_succeed (after_drain p) m
        (ap (λ b. if b then none else some (after_drain p, m)) idle) refl,
  )
]
closing-moves p arrives destroying m c = elim (Bool-cases m.pending) [
  | inl busy ↦ inr (_, worked busy refl)
  | inr idle ↦ inr (
    _,
    by_module both_succeed printing (record m { queue = false })
        (ap (λ b. if b then none else some (printing, record m { queue = false })) idle) refl,
  )
]
closing-moves p arrives printing m c = inr (_, by_module both_succeed unloaded _ refl refl)
closing-moves p arrives unloaded m c = inl refl
closing-moves p arrives requesting m c = cc
closing-moves p arrives creating m c = cc
closing-moves p arrives undo_synchronizing m c = cc
closing-moves p arrives undo_freeing m c = cc
closing-moves p arrives failed m c = cc
closing-moves p arrives initialising m c = cc
closing-moves p arrives loaded m c = cc
closing-moves p arrives synchronizing m c = cc
closing-moves p arrives freeing m c = cc
closing-moves p arrives faulted m c = cc

Steps-Closer :
    (p : Program) (arrives : Line → Bool) (n : ℕ) (s t : System)
    → ((l : Line) → arrives l ≡ true → setting_up l ≡ false)
    → Reach p arrives s
    → closing s.line ≡ true
    → Steps p arrives n s t
    → Reach p arrives t
      × (closing t.line ≡ true)
      × (n + size (t.line, t.mem) ≤ size (s.line, s.mem))
Steps-Closer p arrives n s t quiet r c none_yet = (r, c, omega arith)
Steps-Closer p arrives n s t quiet r c (one_more {n = k} {t = before} steps step) =
    let (r', c', less) = Steps-Closer p arrives k s before quiet r c steps in
    let off = closing-off p before.line before.mem c' (Reach-Inv p arrives before quiet r').0 in
    let (c'', closer) = Step-Closer p arrives before t c' off step in
    (later r' step, c'', omega (arith, less, closer))

-- In lab9_1 and lab9_2, if no interrupt arrives while md_init is between request_irq and the
-- initialisation of the tasklet or the work: when md_exit has freed the handler, at most four more
-- steps can follow, of md_exit and of the deferred function in any order; and until md_exit has
-- returned, one more can.
pub exit_ends :
    (p : Program) (arrives : Line → Bool) (n : ℕ) (s t : System)
    → ((l : Line) → arrives l ≡ true → setting_up l ≡ false)
    → Reach p arrives s
    → s.line ≡ draining
    → Steps p arrives n s t
    → (n ≤ 4) × ((t.line ≡ unloaded) ⊎ ((u : System) × Step p arrives t u))
exit_ends p arrives n s t quiet r at steps =
    let (r', c, less) = Steps-Closer p arrives n s t quiet r (ap closing at) steps in
    let left : steps_left s.line ≡ 3 = ap steps_left at in
    (omega (arith, less, left, one_if-le s.mem.pending), closing-moves p arrives t.line t.mem c)
