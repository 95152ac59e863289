-- ===== src/Interrupts/System.antt =====
-- The module, the interrupts and the deferred function, in any order.
use os_bmstu.Common.{◌≡◌, Bool, true, false, some, []}
use os_bmstu.Interrupts.{
  Program, Line, requesting, creating, undo_synchronizing, undo_freeing, initialising, Module,
  Answers, md_step, my_interrupt, my_work_func,
}

pub record System : Type 0 where
  pub line : Line
  pub mem : Module

-- The module makes its next call; or an interrupt calls the handler, which can be at the lines that
-- `arrives` names; or the kernel calls the deferred function.
pub data Step (p : Program) (arrives : Line → Bool) (s t : System) : Type 0 where
  by_module :
      (a : Answers) (l : Line) (m : Module)
      → md_step p a s.line s.mem ≡ some (l, m)
      → t ≡ record { line = l; mem = m }
      → Step p arrives s t
  interrupted :
      (l : Line) (m : Module)
      → s.mem.registered ≡ true
      → arrives s.line ≡ true
      → my_interrupt p s.line s.mem ≡ (l, m)
      → t ≡ record { line = l; mem = m }
      → Step p arrives s t
  worked : s.mem.pending ≡ true → t ≡ record s { mem = my_work_func s.mem } → Step p arrives s t

abbrev pub fresh : Module
fresh = record {
  registered = false;
  queue = false;
  ready = false;
  pending = false;
  irq_counter = 0;
  out = [];
  interrupts = 0;
  runs = 0;
}

pub data Reach (p : Program) (arrives : Line → Bool) : System → Type 0 where
  start : Reach p arrives (record { line = requesting; mem = fresh })
  later : {s t : System} → Reach p arrives s → Step p arrives s t → Reach p arrives t

-- The calls of md_init behind request_irq and before the tasklet or the work is initialised.
abbrev pub setting_up : Line → Bool
setting_up creating = true
setting_up undo_synchronizing = true
setting_up undo_freeing = true
setting_up initialising = true
setting_up _ = false
