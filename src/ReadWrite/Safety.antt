-- ===== src/ReadWrite/Safety.antt =====
-- What every interleaving of the readers and writers of lab3_2 guarantees.
use os_bmstu.Common.{
  ℕ, ◌≤◌, ◌<◌, ◌≡◌, ◌⊎◌, inl, inr, true, false, some, arith, count, count-two, count-update,
  ℕ_discrete, if◌then◌else◌, ◌==◌, update, refl, ◌∙◌,
}
use mathlib.Core.Logic.{if_pos, if_neg}
use os_bmstu.Semaphore.{SemApi, IsSystemV, semvmx, system_v}
use os_bmstu.ReadWrite.{
  Shared, Pc, read_direct, write_direct, write_awake, writing, reads, writes, waits_to_read,
  waits_to_write, step, write_check, read_count, signal_readers, signal_writers, read_signal,
}
use os_bmstu.ReadWrite.System.{System, Step, Reach, IsForked}
use os_bmstu.ReadWrite.Accounts.{Inv, Reach-Inv, Made, Step-Made}

-- A call by which a process begins to read or to write finds no writer inside; a writer that enters
-- at once finds no reader inside; and a reader that enters at once finds no writer waiting.
record Entry (m : Shared) (p p' : Pc) : Type 0 where
  no_writer :
      reads p ≡ false → writes p ≡ false → (reads p' ≡ true) ⊎ (writes p' ≡ true) → m.sems 0 ≡ 0
  no_reader : p ≡ write_direct → writes p' ≡ true → m.sems 1 ≡ 0
  no_queue : p ≡ read_direct → reads p' ≡ true → m.sems 2 ≡ 0
  from_awake :
      writes p ≡ false → writes p' ≡ true → (m.sems 1 ≡ 0) ⊎ ((p ≡ write_awake) × (p' ≡ writing))
  sides : (writes p ≡ true) ⊎ (writes p' ≡ true) → reads p' ≡ false

step-Entry :
    {m m' : Shared} (r : ℕ) (p : Pc) {p' : Pc} → step system_v r p m ≡ some (p', m') → Entry m p p'
unfolding step
step-Entry r read_direct e = ground arith
step-Entry r _ e = ground arith

-- A process other than the one that made the call stands where it stood.
pc_after :
    {n : ℕ} {s t : System} (d : Made n s t) (i : ℕ)
    → ((i ≡ d.who) × (s.pc i ≡ s.pc d.who) × (t.pc i ≡ d.next)) ⊎ (t.pc i ≡ s.pc i)
pc_after {s = s} d i = elim (ℕ_discrete i d.who) [
  | yes same ↦ inl (same, rw same refl, rw (d.result, if_pos (ℕ_discrete i d.who) same) refl)
  | no ne ↦ inr (rw (d.result, if_neg (ℕ_discrete i d.who) ne) refl)
]

update_self : (pc : ℕ → Pc) (i : ℕ) (p : Pc) → update pc i p i ≡ p
update_self pc i p = rw (if_pos (ℕ_discrete i i) refl) refl

module _ {api : SemApi} {n : ℕ} {roles : ℕ → Pc} {s : System} (law : IsSystemV api)
    (few : n < semvmx) (forked : (i : ℕ) → IsForked (roles i)) (r : Reach api n roles s) where
  inv : Inv n s
  inv = Reach-Inv law few forked r

  -- In every reachable state ACT_R_SEMN, ACT_W_SEMN, WAI_R_SEMN and WAI_W_SEMN are the numbers of
  -- the processes that read, write, wait to read and wait to write, and CAN_R_SEMN and CAN_W_SEMN
  -- are at most 1.
  pub semaphores_count :
      (s.mem.sems 1 ≡ count reads n s.pc)
      × (s.mem.sems 0 ≡ count writes n s.pc)
      × (s.mem.sems 3 ≡ count waits_to_read n s.pc)
      × (s.mem.sems 2 ≡ count waits_to_write n s.pc)
      × (s.mem.sems 5 ≤ 1)
      × (s.mem.sems 4 ≤ 1)
  semaphores_count =
      (inv.act_r, inv.act_w, inv.wai_r, inv.wai_w, inv.binary.can_r, inv.binary.can_w)

  -- Two writers are never inside together.
  pub one_writer :
      (i j : ℕ) → i < n → j < n → writes (s.pc i) ≡ true → writes (s.pc j) ≡ true → i ≡ j
  one_writer i j hi hj wi wj = elim (ℕ_discrete i j) [
    | yes same ↦ same
    | no ne ↦
        absurd
          (omega (arith, count-two writes n i j s.pc hi hj ne wi wj, inv.act_w, inv.binary.act_w))
  ]

  -- Whoever begins to read or to write finds no writer inside, in whichever way it got in.
  pub entry_without_writer :
      {t : System}
      → Step api n s t
      → (i : ℕ) → reads (s.pc i) ≡ false
      → writes (s.pc i) ≡ false
      → (reads (t.pc i) ≡ true) ⊎ (writes (t.pc i) ≡ true)
      → count writes n s.pc ≡ 0
  entry_without_writer st i nr nw enters =
      let d = Step-Made law few inv st in
      ground (arith, pc_after d i, (step-Entry d.random (s.pc d.who) d.call).no_writer, inv.act_w)

  -- A reader that begins to read without having queued up finds no writer inside and no writer
  -- waiting: writers that wait go first.
  pub direct_reader_gives_way :
      {t : System}
      → Step api n s t
      → (i : ℕ) → s.pc i ≡ read_direct
      → reads (t.pc i) ≡ true
      → (count writes n s.pc ≡ 0) × (count waits_to_write n s.pc ≡ 0)
  direct_reader_gives_way st i at enters =
      let d = Step-Made law few inv st in
      ground (
        arith,
        pc_after d i,
        (step-Entry d.random (s.pc d.who) d.call).no_writer,
        (step-Entry d.random (s.pc d.who) d.call).no_queue,
        inv.act_w,
        inv.wai_w,
      )

  -- A step after which a reader and a writer are inside together, while before it they were not, is
  -- the last `semop` of `start_write`, by a writer that had queued up. No other step lets them meet.
  pub overlap_only_by_awake :
      {t : System}
      → Step api n s t
      → (count reads n s.pc ≡ 0) ⊎ (count writes n s.pc ≡ 0)
      → 0 < count reads n t.pc
      → 0 < count writes n t.pc
      → (i : ℕ) × (i < n) × (s.pc i ≡ write_awake) × (t.pc i ≡ writing)
  overlap_only_by_awake {t} st apart rt wt =
      let d = Step-Made law few inv st in
      let here : t.pc d.who ≡ d.next = rw d.result (update_self s.pc d.who d.next) in
      let reads_t : 0 < count reads n (update s.pc d.who d.next) = rw d.result at rt in
      let writes_t : 0 < count writes n (update s.pc d.who d.next) = rw d.result at wt in
      let awake : (s.pc d.who ≡ write_awake) × (d.next ≡ writing) = ground (
        arith,
        step-Entry d.random (s.pc d.who) d.call,
        count-update reads n d.who s.pc d.next d.below,
        count-update writes n d.who s.pc d.next d.below,
        inv.act_r,
        inv.act_w,
      ) in
      (d.who, d.below, awake.0, here ∙ awake.1)

  -- A writer that leaves raises CAN_R_SEMN if some reader waits, else CAN_W_SEMN; a reader that has
  -- left raises CAN_W_SEMN if no other reads.
  pub hand_over :
      (x : ℕ)
      → (step api x write_check s.mem
          ≡ some
              (if count waits_to_read n s.pc == 0 then signal_writers else signal_readers, s.mem))
        × (step api x read_count s.mem
            ≡ some (if count reads n s.pc == 0 then read_signal else read_direct, s.mem))
  unfolding step
  hand_over x = (
    rw (law.getval_lem s.mem.sems 3, inv.wai_r) refl,
    rw (law.getval_lem s.mem.sems 1, inv.act_r) refl,
  )
