-- ===== src/Interrupts/Invariant.antt =====
-- What holds at each line of md_init and md_exit, and that the calls and the handler keep it.
use os_bmstu.Common.{
  ◌+◌, ◌%◌, ◌^◌, ◌≤◌, ◌≡◌, Bool, Bool-cases, true, false, some, none, Option, List, [], ◌∷◌, ◌++◌,
  inl, inr, refl, ap, arith, one_if, if◌then◌else◌,
}
use os_bmstu.Interrupts.{
  Program, lab9_1, lab9_2, Line, requesting, creating, undo_synchronizing, undo_freeing, failed,
  initialising, loaded, after_request, after_drain, synchronizing, freeing, draining, destroying,
  printing, unloaded, faulted, Module, Answers, Output, total, md_step, my_interrupt, my_work_func,
  can_schedule,
}
use os_bmstu.Interrupts.System.{setting_up}

-- Whether the module has a queue of its own while it is loaded.
abbrev pub queued : Program → Bool
queued lab9_1 = false
queued lab9_2 = true

-- Nothing is left in the kernel.
abbrev pub Gone : Module → Type 0
Gone m = (m.registered ≡ false) × (m.queue ≡ false) × (m.pending ≡ false)

abbrev pub Reported : Module → Type 0
Reported m = (before : List Output) × (m.out ≡ before ++ total m.irq_counter ∷ [])

abbrev Loaded : Program → Module → Type 0
Loaded p m = (m.queue ≡ queued p) × (m.ready ≡ true)

-- What holds where the module stands at a line.
abbrev pub At : Program → Line → Module → Type 0
At p requesting m = Gone m
At p creating m = (p ≡ lab9_2) × (m.queue ≡ false) × (m.pending ≡ false)
At p undo_synchronizing m = (m.queue ≡ false) × (m.pending ≡ false)
At p undo_freeing m = (m.queue ≡ false) × (m.pending ≡ false)
At p failed m = Gone m
At p initialising m = (m.queue ≡ queued p) × (m.pending ≡ false)
At p loaded m = Loaded p m
At p synchronizing m = Loaded p m
At p freeing m = Loaded p m
At p draining m = (m.registered ≡ false) × (m.queue ≡ queued p)
At p destroying m = (m.registered ≡ false) × (m.pending ≡ false)
At p printing m = Gone m
At p unloaded m = Gone m × Reported m
At p faulted m = ⊥

abbrev pub Counted : Module → Type 0
Counted m = (m.irq_counter ≡ m.interrupts % 2 ^ 32) × (m.runs + one_if m.pending ≤ m.interrupts)

abbrev pub Inv : Program → Line × Module → Type 0
Inv p (l, m) = At p l m × Counted m

abbrev pub KeepsInv : Program → Option (Line × Module) → Type 0
KeepsInv p none = Unit {0}
KeepsInv p (some r) = Inv p r

after_request-Inv :
    (p : Program) (m : Module)
    → Gone m
    → Counted m
    → Inv p (after_request p, record m { registered = true })
after_request-Inv lab9_1 m gone counted = ((gone.1, gone.2), counted)
after_request-Inv lab9_2 m gone counted = ((refl, gone.1, gone.2), counted)

after_drain-Inv :
    (p : Program) (m : Module)
    → m.registered ≡ false
    → m.queue ≡ queued p
    → m.pending ≡ false
    → Counted m
    → Inv p (after_drain p, m)
after_drain-Inv lab9_1 m free queue idle counted = ((free, queue, idle), counted)
after_drain-Inv lab9_2 m free queue idle counted = ((free, idle), counted)

-- A call that sleeps while `busy`.
KeepsInv-if :
    (p : Program) (busy : Bool) (r : Line × Module)
    → (busy ≡ false → Inv p r)
    → KeepsInv p (if busy then none else some r)
KeepsInv-if p true r h = tt
KeepsInv-if p false r h = h refl

pub md_step-Inv :
    (p : Program) (a : Answers) (l : Line) (m : Module)
    → Inv p (l, m)
    → KeepsInv p (md_step p a l m)
unfolding md_step
md_step-Inv p a requesting m (gone, counted) = elim (Bool-cases a.request_irq) [
  | inr fails ↦ rw fails (gone, counted)
  | inl succeeds ↦ rw succeeds (after_request-Inv p m gone counted)
]
md_step-Inv p a creating m (at, counted) = elim (Bool-cases a.create_workqueue) [
  | inr fails ↦ rw fails ((at.1, at.2), counted)
  | inl succeeds ↦ rw (succeeds, at.0) ((refl, at.2), counted)
]
md_step-Inv p a undo_synchronizing m inv = inv
md_step-Inv p a undo_freeing m ((queue, pending), counted) = ((refl, queue, pending), counted)
md_step-Inv p a failed m inv = tt
md_step-Inv p a initialising m ((queue, pending), counted) = ((queue, refl), counted)
md_step-Inv p a loaded m inv = inv
md_step-Inv p a synchronizing m inv = inv
md_step-Inv p a freeing m ((queue, ready), counted) = ((refl, queue), counted)
md_step-Inv p a draining m ((free, queue), counted) =
    KeepsInv-if p m.pending (after_drain p, m) (λ idle. after_drain-Inv p m free queue idle counted)
md_step-Inv p a destroying m ((free, idle), counted) =
    KeepsInv-if p m.pending (printing, record m { queue = false })
      (λ now. ((free, refl, now), counted))
md_step-Inv p a printing m (gone, counted) = ((gone, (m.out, refl)), counted)
md_step-Inv p a unloaded m inv = tt
md_step-Inv p a faulted m inv = tt

Loaded-can_schedule : (p : Program) (m : Module) → Loaded p m → can_schedule p m ≡ true
Loaded-can_schedule lab9_1 m (queue, ready) = ready
Loaded-can_schedule lab9_2 m (queue, ready) = rw (queue, ready) refl

-- The handler finds what it needs.
my_interrupt-Loaded :
    (p : Program) (l : Line) (m : Module)
    → Loaded p m
    → Counted m
    → ((m' : Module) → Loaded p m' → At p l m')
    → Inv p (my_interrupt p l m)
unfolding my_interrupt
my_interrupt-Loaded p l m ready counted at =
    rw (Loaded-can_schedule p m ready)
      (at _ ready, (omega (arith, counted.0), omega (arith, counted.1)))

pub my_interrupt-Inv :
    (p : Program) (l : Line) (m : Module)
    → m.registered ≡ true
    → setting_up l ≡ false
    → Inv p (l, m)
    → Inv p (my_interrupt p l m)
my_interrupt-Inv p requesting m on quiet (gone, counted) = cc
my_interrupt-Inv p creating m on quiet inv = cc
my_interrupt-Inv p undo_synchronizing m on quiet inv = cc
my_interrupt-Inv p undo_freeing m on quiet inv = cc
my_interrupt-Inv p failed m on quiet (gone, counted) = cc
my_interrupt-Inv p initialising m on quiet inv = cc
my_interrupt-Inv p loaded m on quiet (ready, counted) =
    my_interrupt-Loaded p loaded m ready counted (λ m' h. h)
my_interrupt-Inv p synchronizing m on quiet (ready, counted) =
    my_interrupt-Loaded p synchronizing m ready counted (λ m' h. h)
my_interrupt-Inv p freeing m on quiet (ready, counted) =
    my_interrupt-Loaded p freeing m ready counted (λ m' h. h)
my_interrupt-Inv p draining m on quiet (at, counted) = cc
my_interrupt-Inv p destroying m on quiet (at, counted) = cc
my_interrupt-Inv p printing m on quiet (gone, counted) = cc
my_interrupt-Inv p unloaded m on quiet (at, counted) = cc
my_interrupt-Inv p faulted m on quiet (at, counted) = absurd at

pub my_work_func-At :
    (p : Program) (l : Line) (m : Module) → m.pending ≡ true → At p l m → At p l (my_work_func m)
unfolding my_work_func
my_work_func-At p requesting m busy gone = (gone.0, gone.1, refl)
my_work_func-At p creating m busy at = (at.0, at.1, refl)
my_work_func-At p undo_synchronizing m busy at = (at.0, refl)
my_work_func-At p undo_freeing m busy at = (at.0, refl)
my_work_func-At p failed m busy gone = (gone.0, gone.1, refl)
my_work_func-At p initialising m busy at = (at.0, refl)
my_work_func-At p loaded m busy at = at
my_work_func-At p synchronizing m busy at = at
my_work_func-At p freeing m busy at = at
my_work_func-At p draining m busy at = at
my_work_func-At p destroying m busy at = (at.0, refl)
my_work_func-At p printing m busy gone = (gone.0, gone.1, refl)
my_work_func-At p unloaded m busy at = cc
my_work_func-At p faulted m busy at = at

pub my_work_func-Counted : (m : Module) → m.pending ≡ true → Counted m → Counted (my_work_func m)
unfolding my_work_func
my_work_func-Counted m busy counted = (counted.0, omega (arith, counted.1, ap one_if busy))
