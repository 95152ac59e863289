-- ===== src/ProdCons/Invariant.antt =====
-- The invariant of lab3_1, kept by every interleaving of any number of producers and consumers.
use mathlib.Core.Logic.{if_pos, if_neg}
use os_bmstu.Common.{
  ℕ, ◌+◌, ◌≤◌, ◌<◌, ◌≡◌, ◌≢◌, ◌⊎◌, inl, inr, some, true, false, arith, sym, ◌∙◌, one_if, ℕ_discrete,
  refl, count, count-update, count-pos, count-two, count-none, update, Bool-cases,
}
use os_bmstu.Semaphore.{system_v, SemApi, IsSystemV, semvmx}
use os_bmstu.ProdCons.{
  Shared, Pc, acquire_empty, release_full, acquire_full, release_empty, step, critical,
  prod_pre_sem, prod_post_sem, cons_pre_sem, cons_post_sem,
}
use os_bmstu.ProdCons.System.{System, Step, pick, fresh, Reach, start, later, IsForked}
use os_bmstu.ProdCons.View.{View, QuietIfFree, Quiet, View-outside, outside-View, View-bounds}
use os_bmstu.ProdCons.Moves.{Goes, Goes-lands, IsAlive}
use os_bmstu.ProdCons.Steps.{step-Goes}

-- The semaphores are far from their limit.
record Small (m : Shared) : Type 0 where
  full_small : m.sems 0 < semvmx
  empt_small : m.sems 1 < semvmx
  bin_small : m.sems 2 < semvmx

-- On such a memory the calls of the operating system do what their documentation says.
step-documented :
    {api : SemApi}
    → IsSystemV api
    → (p : Pc) (m : Shared) → Small m
    → step api p m ≡ step system_v p m
unfolding step
step-documented law acquire_empty m h = rw (law.semop_lem m.sems prod_pre_sem (omega arith)) refl
step-documented law release_full m h = rw (law.semop_lem m.sems prod_post_sem (omega arith)) refl
step-documented law acquire_full m h = rw (law.semop_lem m.sems cons_pre_sem (omega arith)) refl
step-documented law release_empty m h = rw (law.semop_lem m.sems cons_post_sem (omega arith)) refl
step-documented law _ m h = refl

-- What holds between any two lines of a run of `n` processes.
pub record Inv (n : ℕ) (s : System) : Type 0 where
  -- the binary semaphore is down exactly while a process is inside
  pub exclusive : s.mem.sems 2 + count critical n s.pc ≡ 1
  pub views : (i : ℕ) → i < n → View s.mem (s.pc i)
  pub alive : (i : ℕ) → i < n → IsAlive (s.pc i)
  pub full_le : s.mem.sems 0 ≤ 5
  pub empt_le : s.mem.sems 1 ≤ 5

-- A process that makes a line `g` of the run.
module _ {n : ℕ} {s : System} (inv : Inv n s) (i : ℕ) (below : i < n)
    (g : Goes s.mem (s.pc i)) where
  abbrev after : System
  after = record { mem = g.mem; pc = update s.pc i g.next }

  counted :
      count critical n after.pc + one_if (critical (s.pc i))
      ≡ one_if (critical g.next) + count critical n s.pc
  counted = count-update critical n i s.pc g.next below

  -- Every other process is outside its critical section.
  other_outside : (j : ℕ) → j < n → j ≢ i → critical (s.pc j) ≡ false
  other_outside j h ne = elim (Bool-cases (critical (s.pc j))) [
    | inl c ↦ absurd (
        ground (
          arith,
          g.bin,
          g.inside,
          inv.exclusive,
          count-two critical n j i s.pc h below ne c,
          count-pos critical n j s.pc h c,
        ))
    | inr c ↦ c
  ]

  bin_after : (critical g.next ≡ true) ⊎ (g.mem.sems 2 ≡ 1)
  bin_after = elim g.inside [
    | inl was ↦ ground (arith, g.bin, inv.exclusive, count-pos critical n i s.pc below was)
    | inr now ↦ inl now
  ]

  bounds_after : (g.mem.sems 0 ≤ 5) × (g.mem.sems 1 ≤ 5)
  bounds_after = View-bounds g.mem g.next g.view bin_after

  quiet_after : QuietIfFree g.mem
  quiet_after free = elim (Bool-cases (critical g.next)) [
    | inl c ↦ absurd (
        ground (
          arith,
          g.bin,
          inv.exclusive,
          counted,
          count-pos critical n i after.pc below (rw (if_pos (ℕ_discrete i i) refl) c),
        ))
    | inr c ↦ View-outside g.mem g.next c g.view free
  ]

  views_after : (j : ℕ) → j < n → View g.mem (after.pc j)
  views_after j h = elim (ℕ_discrete j i) [
    | yes same ↦ rw (if_pos (ℕ_discrete j i) same) g.view
    | no ne ↦
        rw (if_neg (ℕ_discrete j i) ne)
          (outside-View g.mem (s.pc j) (other_outside j h ne) quiet_after)
  ]

  IsAlive-after : (j : ℕ) → j < n → IsAlive (after.pc j)
  IsAlive-after j h = elim (ℕ_discrete j i) [
    | yes same ↦ rw (if_pos (ℕ_discrete j i) same) g.alive
    | no ne ↦ rw (if_neg (ℕ_discrete j i) ne) (inv.alive j h)
  ]

  Goes-Inv : Inv n after
  Goes-Inv = record {
    exclusive = omega (arith, g.bin, counted, inv.exclusive);
    views = views_after;
    alive = IsAlive-after;
    full_le = bounds_after.0;
    empt_le = bounds_after.1;
  }

Inv-Small : {n : ℕ} {s : System} → Inv n s → Small s.mem
Inv-Small inv = omega (arith, inv.exclusive)

-- The line that `Goes` describes is one that the process makes.
pub step_of_Goes :
    {api : SemApi} {n : ℕ} {s : System} {p : Pc}
    → IsSystemV api
    → Inv n s
    → (g : Goes s.mem p) → step api p s.mem ≡ some (g.next, g.mem)
step_of_Goes {s = s} {p} law inv g = step-documented law p s.mem (Inv-Small inv) ∙ g.runs

-- A step of a run is a line that goes where `Goes` says.
pub Step-Goes :
    {api : SemApi} {n : ℕ} {s t : System}
    → IsSystemV api
    → Inv n s
    → Step api n s t
    → (i : ℕ) × (i < n)
      × (g : Goes s.mem (s.pc i)) × (t ≡ record { mem = g.mem; pc = update s.pc i g.next })
Step-Goes {api} {n} {s} {t} law inv (pick i p m h e q) = (i, h, g, same)
  where
    e' : step system_v (s.pc i) s.mem ≡ some (p, m)
    e' = sym (step-documented law (s.pc i) s.mem (Inv-Small inv)) ∙ e

    g : Goes s.mem (s.pc i)
    g = step-Goes (s.pc i) (inv.views i h) (omega (arith, inv.exclusive)) e'

    same : t ≡ record { mem = g.mem; pc = update s.pc i g.next }
    same = let l = Goes-lands g e' in rw (l.0, l.1) q

pub Step-Inv :
    {api : SemApi} {n : ℕ} {s t : System} → IsSystemV api → Inv n s → Step api n s t → Inv n t
Step-Inv {n = n} law inv st = let (i, h, g, e) = Step-Goes law inv st in rw e (Goes-Inv inv i h g)

fresh-Quiet : Quiet fresh 0 0
unfolding ℕ_discrete
fresh-Quiet = ground arith

forked_outside : (p : Pc) → IsForked p → (critical p ≡ false) × IsAlive p × View fresh p
unfolding ℕ_discrete
forked_outside p (inl e) = rw e (refl, tt, λ _. (0, 0, fresh-Quiet))
forked_outside p (inr e) = rw e (refl, tt, λ _. (0, 0, fresh-Quiet))

Inv-start :
    (n : ℕ) (roles : ℕ → Pc)
    → ((i : ℕ) → IsForked (roles i))
    → Inv n (record { mem = fresh; pc = roles })
unfolding ℕ_discrete
Inv-start n roles forked = record {
  exclusive =
      omega (arith, count-none critical n roles (λ i. (forked_outside (roles i) (forked i)).0));
  views = λ i h. (forked_outside (roles i) (forked i)).2;
  alive = λ i h. (forked_outside (roles i) (forked i)).1;
  full_le = omega arith;
  empt_le = omega arith;
}

pub Reach-Inv :
    {api : SemApi} {n : ℕ} {roles : ℕ → Pc} {s : System}
    → IsSystemV api
    → ((i : ℕ) → IsForked (roles i))
    → Reach api n roles s
    → Inv n s
Reach-Inv {n = n} {roles} law forked start = Inv-start n roles forked
Reach-Inv law forked (later r st) = Step-Inv law (Reach-Inv law forked r) st
