-- ===== src/Interrupts.antt =====
-- sem_6/lab9_1/md.c and sem_6/lab9_2/md.c: a module whose interrupt handler hands the rest of its
-- work to a tasklet (lab9_1) or to a queue of its own (lab9_2).
pub mod System
pub mod Invariant
pub mod Lifetime
pub mod Closing
mod Examples
use os_bmstu.Common.{
  ℕ, ◌+◌, ◌%◌, ◌^◌, Bool, true, false, Option, none, some, List, [], ◌∷◌, ◌++◌, if◌then◌else◌, ◌&&◌,
}

pub data Program : Type 0 where
  lab9_1 : Program
  lab9_2 : Program

-- The call that `md_init` or `md_exit` makes next. `undo_synchronizing` and `undo_freeing` are in
-- `md_init` of lab9_2, behind a failed create_workqueue. `faulted` is a kernel that has failed.
pub data Line : Type 0 where
  requesting creating undo_synchronizing undo_freeing failed initialising loaded : Line
  synchronizing freeing draining destroying printing unloaded faulted : Line

pub data Output : Type 0 where
  counted : (irq_counter : ℕ) → Output
  deferred : Output
  total : (irq_counter : ℕ) → Output

-- Whether the handler is registered, whether `my_wq` points to a queue, whether the tasklet or the
-- work is initialised, and whether it is scheduled; `irq_counter`, an int of 32 bits; the lines
-- printed; and, for the theorems, how often the handler and the deferred function have been called.
pub record Module : Type 0 where
  pub registered : Bool
  pub queue : Bool
  pub ready : Bool
  pub pending : Bool
  pub irq_counter : ℕ
  pub out : List Output
  pub interrupts : ℕ
  pub runs : ℕ

pub record Answers : Type 0 where
  pub request_irq : Bool
  pub create_workqueue : Bool

abbrev pub after_request : Program → Line
after_request lab9_1 = initialising
after_request lab9_2 = creating

abbrev pub after_drain : Program → Line
after_drain lab9_1 = printing
after_drain lab9_2 = destroying

-- One call of `md_init` or of `md_exit`, which follows on `loaded` when the module is removed. The
-- calls behind `draining` (tasklet_kill, flush_workqueue) and `destroying` sleep, `none`, while the
-- deferred function is scheduled.
unfoldable pub md_step : Program → Answers → Line → Module → Option (Line × Module)
md_step p a requesting m =
    some (if a.request_irq then (after_request p, record m { registered = true }) else (failed, m))
md_step p a creating m = some (
    if a.create_workqueue
    then (initialising, record m { queue = true })
    else (undo_synchronizing, m))
md_step p a undo_synchronizing m = some (undo_freeing, m)
md_step p a undo_freeing m = some (failed, record m { registered = false })
md_step p a failed m = none
md_step p a initialising m = some (loaded, record m { ready = true })
md_step p a loaded m = some (synchronizing, m)
md_step p a synchronizing m = some (freeing, m)
md_step p a freeing m = some (draining, record m { registered = false })
md_step p a draining m = if m.pending then none else some (after_drain p, m)
md_step p a destroying m = if m.pending then none else some (printing, record m { queue = false })
md_step p a printing m = some (unloaded, record m { out = m.out ++ total m.irq_counter ∷ [] })
md_step p a unloaded m = none
md_step p a faulted m = none

-- Whether tasklet_schedule or queue_work finds what it needs.
abbrev pub can_schedule : Program → Module → Bool
can_schedule lab9_1 m = m.ready
can_schedule lab9_2 m = m.queue && m.ready

-- `my_interrupt`, where the module stands at this line. What is scheduled already stays so.
unfoldable pub my_interrupt : Program → Line → Module → Line × Module
my_interrupt p line m =
    let c = (m.irq_counter + 1) % 2 ^ 32 in
    let m' = record m {
      irq_counter = c;
      out = m.out ++ counted c ∷ [];
      interrupts = m.interrupts + 1;
    } in
    if can_schedule p m then (line, record m' { pending = true }) else (faulted, m')

-- `my_tasklet_func` or `my_work_func`.
unfoldable pub my_work_func : Module → Module
my_work_func m = record m { pending = false; out = m.out ++ deferred ∷ []; runs = m.runs + 1 }
