-- ===== src/ProdCons/Progress.antt =====
-- The producers and consumers of lab3_1 never come to a standstill.
use os_bmstu.Common.{
  ℕ, ◌<◌, ◌≡◌, ◌⊎◌, inl, inr, true, false, some, arith, count, count-find, dec_lt, ℕ_discrete,
  count-pos, refl, sym, ◌∙◌, Bool-cases,
}
use mathlib.Core.Logic.{if_pos, if_neg}
use os_bmstu.Semaphore.{SemApi, IsSystemV}
use os_bmstu.ProdCons.{Shared, Pc, acquire_empty, acquire_full, critical, step, exited}
use os_bmstu.ProdCons.System.{System, Reach, IsForked, start, later}
use os_bmstu.ProdCons.View.{View-outside}
use os_bmstu.ProdCons.Moves.{Goes, produces, IsAlive}
use os_bmstu.ProdCons.Moves.Producer.{acquire_empty-Goes}
use os_bmstu.ProdCons.Moves.Consumer.{acquire_full-Goes}
use os_bmstu.ProdCons.Steps.{critical-Goes}
use os_bmstu.ProdCons.Invariant.{Inv, Reach-Inv, Step-Goes, step_of_Goes}

-- A producer stays a producer, and a consumer a consumer.
role_kept :
    {api : SemApi} {n : ℕ} {roles : ℕ → Pc} {s : System}
    → IsSystemV api
    → ((i : ℕ) → IsForked (roles i))
    → Reach api n roles s
    → (i : ℕ) → produces (s.pc i) ≡ produces (roles i)
role_kept law forked start i = refl
role_kept law forked (later {s} {t} r st) i =
    let (k, h, g, e) = Step-Goes law (Reach-Inv law forked r) st in
    rw e (elim (ℕ_discrete i k) [
      | yes same ↦
          rw (if_pos (ℕ_discrete i k) same) (g.role ∙ rw (sym same) (role_kept law forked r i))
      | no ne ↦ rw (if_neg (ℕ_discrete i k) ne) (role_kept law forked r i)
    ])

outside_role :
    (p : Pc)
    → critical p ≡ false
    → IsAlive p
    → ((produces p ≡ true) × (p ≡ acquire_empty)) ⊎ ((produces p ≡ false) × (p ≡ acquire_full))
outside_role acquire_empty c a = inl (refl, refl)
outside_role acquire_full c a = inr (refl, refl)
outside_role exited c a = absurd a
outside_role _ c a = cc

module _ {api : SemApi} {n : ℕ} {roles : ℕ → Pc} {s : System} (law : IsSystemV api)
    (forked : (i : ℕ) → IsForked (roles i)) (r : Reach api n roles s) where
  inv : Inv n s
  inv = Reach-Inv law forked r

  Goes-on :
      (k : ℕ)
      → k < n
      → Goes s.mem (s.pc k)
      → (k : ℕ) × (k < n) × (p : Pc) × (m : Shared) × (step api (s.pc k) s.mem ≡ some (p, m))
  Goes-on k h g = (k, h, g.next, g.mem, step_of_Goes law inv g)

  -- While nobody is inside, a process stands at its first `semop`.
  at_semop :
      count critical n s.pc ≡ 0
      → (k : ℕ) → k < n
      → ((produces (s.pc k) ≡ true) × (s.pc k ≡ acquire_empty))
        ⊎ ((produces (s.pc k) ≡ false) × (s.pc k ≡ acquire_full))
  at_semop idle k h = elim (Bool-cases (critical (s.pc k))) [
    | inl c ↦ absurd (omega (arith, count-pos critical n k s.pc h c))
    | inr c ↦ outside_role (s.pc k) c (inv.alive k h)
  ]

  -- While one of the forked processes is a producer and one is a consumer, some process can execute
  -- its next line: not all of them sleep, and not all have exited.
  pub no_deadlock :
      (i j : ℕ)
      → i < n
      → j < n
      → roles i ≡ acquire_empty
      → roles j ≡ acquire_full
      → (k : ℕ) × (k < n) × (p : Pc) × (m : Shared) × (step api (s.pc k) s.mem ≡ some (p, m))
  no_deadlock i j hi hj producer consumer = elim (dec_lt 0 (count critical n s.pc)) [
    | yes busy ↦
        let (k, h, c) = count-find critical n s.pc busy in
        Goes-on k h (critical-Goes (s.pc k) c (inv.views k h))
    | no idle ↦ from_idle (omega (arith))
  ]
    where
      from_idle :
          count critical n s.pc ≡ 0
          → (k : ℕ) × (k < n) × (p : Pc) × (m : Shared) × (step api (s.pc k) s.mem ≡ some (p, m))
      from_idle none_inside =
          let free : s.mem.sems 2 ≡ 1 = omega (arith, inv.exclusive) in
          let at_i : s.pc i ≡ acquire_empty =
            ground (arith, at_semop none_inside i hi, role_kept law forked r i) in
          let at_j : s.pc j ≡ acquire_full =
            ground (arith, at_semop none_inside j hj, role_kept law forked r j) in
          let (w, q, quiet) = View-outside s.mem (s.pc i) (rw at_i refl) (inv.views i hi) free in
          elim (dec_lt 0 (s.mem.sems 0)) [
            | yes some_full ↦
                Goes-on j hj (rw at_j (acquire_full-Goes (λ _. (w, q, quiet)) free some_full))
            | no none_full ↦
                Goes-on i hi (rw at_i (acquire_empty-Goes (λ _. (w, q, quiet)) free (omega arith)))
          ]
