-- ===== src/ReadWrite/Accounts.antt =====
-- The four counting semaphores of lab3_2 count the processes that they are named for.
use mathlib.Core.Logic.{if_pos, if_neg}
use os_bmstu.Common.{
  ℕ, ◌+◌, ◌≤◌, ◌<◌, ◌≡◌, ◌≢◌, inl, inr, some, Bool, false, arith, sym, ◌∙◌, one_if, ℕ_discrete,
  refl, count, count-update, count-none, count-le, update, [], ◌∷◌,
}
use os_bmstu.Semaphore.{system_v, SemApi, IsSystemV, semvmx}
use os_bmstu.ReadWrite.{
  Shared, Pc, read_direct, read_queue, read_clear, read_awake, read_rearm, read_leave, read_count,
  read_signal, write_direct, write_queue, write_clear, write_awake, write_check, signal_readers,
  signal_writers, write_leave, exited, step, reads, writes, waits_to_read, waits_to_write,
  read_dir_sem, read_wait_sem, read_awake_sem, write_dir_sem, write_wait_sem, write_awake_sem,
  minus_one, act_r_semn, act_w_semn,
}
use os_bmstu.ReadWrite.System.{System, Step, pick, Reach, start, later, IsForked}

-- A call of a process that goes from `p` to `p'` changes each counting semaphore as it changes the
-- process's part in what the semaphore counts.
pub record Balanced (m m' : Shared) (p p' : Pc) : Type 0 where
  pub act_w : m'.sems 0 + one_if (writes p) ≡ m.sems 0 + one_if (writes p')
  pub act_r : m'.sems 1 + one_if (reads p) ≡ m.sems 1 + one_if (reads p')
  pub wai_w : m'.sems 2 + one_if (waits_to_write p) ≡ m.sems 2 + one_if (waits_to_write p')
  pub wai_r : m'.sems 3 + one_if (waits_to_read p) ≡ m.sems 3 + one_if (waits_to_read p')

-- The semaphores that only take the values 0 and 1.
pub record Binary (m : Shared) : Type 0 where
  pub act_w : m.sems 0 ≤ 1
  pub can_w : m.sems 4 ≤ 1
  pub can_r : m.sems 5 ≤ 1

step-Balanced :
    {m m' : Shared} (r : ℕ) (p : Pc) {p' : Pc}
    → step system_v r p m ≡ some (p', m')
    → Balanced m m' p p'
unfolding step
step-Balanced r read_direct e = ground arith
step-Balanced r _ e = ground arith

step-Binary :
    {m m' : Shared} (r : ℕ) (p : Pc) {p' : Pc}
    → Binary m
    → step system_v r p m ≡ some (p', m')
    → Binary m'
unfolding step
step-Binary r read_direct b e = ground arith
step-Binary r _ b e = ground arith

step-alive :
    (m : Shared) {m' : Shared} (r : ℕ) (p : Pc) {p' : Pc}
    → p ≢ exited
    → step system_v r p m ≡ some (p', m')
    → p' ≢ exited
unfolding step
step-alive m r read_direct a e = ground arith
step-alive m r _ a e = ground arith

-- The semaphores are far from their limit.
abbrev Small : Shared → Type 0
Small m =
    (m.sems 0 < semvmx)
    × (m.sems 1 < semvmx)
    × (m.sems 2 < semvmx)
    × (m.sems 3 < semvmx)
    × (m.sems 4 < semvmx)
    × (m.sems 5 < semvmx)

-- On such a memory the calls of the operating system do what their documentation says.
step-documented :
    {api : SemApi}
    → IsSystemV api
    → (r : ℕ) (p : Pc) (m : Shared) → Small m
    → step api r p m ≡ step system_v r p m
unfolding step
step-documented law r read_direct m h = rw (law.semop_lem m.sems read_dir_sem (omega arith)) refl
step-documented law r read_queue m h = rw (law.semop_lem m.sems read_wait_sem (omega arith)) refl
step-documented law r read_clear m h = rw (law.setval_lem m.sems 5 0 (omega arith)) refl
step-documented law r read_awake m h = rw (law.semop_lem m.sems read_awake_sem (omega arith)) refl
step-documented law r read_rearm m h = rw (law.setval_lem m.sems 5 1 (omega arith)) refl
step-documented law r read_leave m h =
    rw (law.semop_lem m.sems (minus_one act_r_semn ∷ []) (omega arith)) refl
step-documented law r read_count m h = rw (law.getval_lem m.sems 1) refl
step-documented law r read_signal m h = rw (law.setval_lem m.sems 4 1 (omega arith)) refl
step-documented law r write_direct m h = rw (law.semop_lem m.sems write_dir_sem (omega arith)) refl
step-documented law r write_queue m h = rw (law.semop_lem m.sems write_wait_sem (omega arith)) refl
step-documented law r write_clear m h = rw (law.setval_lem m.sems 4 0 (omega arith)) refl
step-documented law r write_awake m h = rw (law.semop_lem m.sems write_awake_sem (omega arith)) refl
step-documented law r write_check m h = rw (law.getval_lem m.sems 3) refl
step-documented law r signal_readers m h = rw (law.setval_lem m.sems 5 1 (omega arith)) refl
step-documented law r signal_writers m h = rw (law.setval_lem m.sems 4 1 (omega arith)) refl
step-documented law r write_leave m h =
    rw (law.semop_lem m.sems (minus_one act_w_semn ∷ []) (omega arith)) refl
step-documented law r _ m h = refl

-- What holds between any two calls of a run of `n` processes.
pub record Inv (n : ℕ) (s : System) : Type 0 where
  pub act_w : s.mem.sems 0 ≡ count writes n s.pc
  pub act_r : s.mem.sems 1 ≡ count reads n s.pc
  pub wai_w : s.mem.sems 2 ≡ count waits_to_write n s.pc
  pub wai_r : s.mem.sems 3 ≡ count waits_to_read n s.pc
  pub binary : Binary s.mem
  pub alive : (i : ℕ) → s.pc i ≢ exited

Inv-Small : {n : ℕ} {s : System} → n < semvmx → Inv n s → Small s.mem
Inv-Small {n} {s} few inv = omega (
  arith,
  inv.binary,
  count-le writes n s.pc,
  count-le reads n s.pc,
  count-le waits_to_write n s.pc,
  count-le waits_to_read n s.pc,
)

-- What a step of a run is.
pub record Made (n : ℕ) (s t : System) : Type 0 where
  pub who : ℕ
  pub random : ℕ
  pub next : Pc
  pub mem : Shared
  pub below : who < n
  pub call : step system_v random (s.pc who) s.mem ≡ some (next, mem)
  pub result : t ≡ record { mem = mem; pc = update s.pc who next }

pub Step-Made :
    {api : SemApi} {n : ℕ} {s t : System}
    → IsSystemV api
    → n < semvmx
    → Inv n s
    → Step api n s t
    → Made n s t
Step-Made {s = s} law few inv (pick i r p m h e q) = record {
  who = i;
  random = r;
  next = p;
  mem = m;
  below = h;
  call = sym (step-documented law r (s.pc i) s.mem (Inv-Small few inv)) ∙ e;
  result = q;
}

module _ {n : ℕ} {s t : System} (inv : Inv n s) (d : Made n s t) where
  open d use {who, random, next, mem, below, call}

  balance : Balanced s.mem mem (s.pc who) next
  balance = step-Balanced random (s.pc who) call

  -- A semaphore that is balanced still counts the processes that pass `c`.
  kept :
      (c : Pc → Bool) (k : ℕ)
      → mem.sems k + one_if (c (s.pc who)) ≡ s.mem.sems k + one_if (c next)
      → s.mem.sems k ≡ count c n s.pc
      → mem.sems k ≡ count c n (update s.pc who next)
  kept c k b e = omega (arith, count-update c n who s.pc next below)

  alive_after : (i : ℕ) → update s.pc who next i ≢ exited
  alive_after i = elim (ℕ_discrete i who) [
    | yes same ↦
        rw (if_pos (ℕ_discrete i who) same)
          (step-alive s.mem random (s.pc who) (inv.alive who) call)
    | no ne ↦ rw (if_neg (ℕ_discrete i who) ne) (inv.alive i)
  ]

  Made-Inv : Inv n t
  Made-Inv = rw d.result (record {
    act_w = kept writes 0 balance.act_w inv.act_w;
    act_r = kept reads 1 balance.act_r inv.act_r;
    wai_w = kept waits_to_write 2 balance.wai_w inv.wai_w;
    wai_r = kept waits_to_read 3 balance.wai_r inv.wai_r;
    binary = step-Binary random (s.pc who) inv.binary call;
    alive = alive_after;
  })

nobody :
    (c : Pc → Bool) (n : ℕ) (roles : ℕ → Pc)
    → ((i : ℕ) → IsForked (roles i))
    → c read_direct ≡ false
    → c write_direct ≡ false
    → 0 ≡ count c n roles
nobody c n roles forked cr cw =
    sym (count-none c n roles λ i. elim (forked i) [ inl e ↦ rw e cr | inr e ↦ rw e cw ])

forked-alive : (p : Pc) → IsForked p → p ≢ exited
forked-alive p f = ground arith

pub Reach-Inv :
    {api : SemApi} {n : ℕ} {roles : ℕ → Pc} {s : System}
    → IsSystemV api
    → n < semvmx
    → ((i : ℕ) → IsForked (roles i))
    → Reach api n roles s
    → Inv n s
Reach-Inv {n = n} {roles} law few forked start = record {
  act_w = nobody writes n roles forked refl refl;
  act_r = nobody reads n roles forked refl refl;
  wai_w = nobody waits_to_write n roles forked refl refl;
  wai_r = nobody waits_to_read n roles forked refl refl;
  binary = omega arith;
  alive = λ i. forked-alive (roles i) (forked i);
}
Reach-Inv law few forked (later r st) =
    let inv = Reach-Inv law few forked r in Made-Inv inv (Step-Made law few inv st)
