-- ===== src/Common/Family.antt =====
-- Processes numbered from 0: a table `ℕ → A`, its update at one index, and the number of the first
-- `n` entries that pass a test.
use Prim.Native.Nat.{ℕ, zero, suc, ◌+◌, ◌≤◌, ◌<◌}
use mathlib.Core.Path.{◌≡◌, refl}
use mathlib.Core.Logic.{ite, ◌≢◌}
use mathlib.Core.Bool.{Bool, true, false}
use mathlib.Core.Logic.{inl, inr}
use os_bmstu.Common.Tests.{Bool-cases, one_if}
use native.Mathlib.Decide.{dec_lt, ℕ_discrete}
use native.Mathlib.Omega.{arith}

-- The table `t` with `a` at index `k`.
abbrev pub update {ℓ} : {A : Type ℓ} → (ℕ → A) → ℕ → A → ℕ → A
update t k a i = ite (ℕ_discrete i k) a (t i)

module _ {ℓ} {A : Type ℓ} (p : A → Bool) where
  -- How many of the entries 0 .. n - 1 pass `p`.
  unfoldable pub count : ℕ → (ℕ → A) → ℕ
  count zero t = 0
  count (suc n) t = one_if (p (t n)) + count n t

  count-update_above : (n k : ℕ) (t : ℕ → A) (a : A) → n ≤ k → count n (update t k a) ≡ count n t
  unfolding count
  count-update_above zero k t a h = refl
  count-update_above (suc n) k t a h = ground (arith, count-update_above n k t a)

  -- One entry changes: the count loses what it gave before and gains what it gives now.
  pub count-update :
      (n k : ℕ) (t : ℕ → A) (a : A)
      → k < n
      → count n (update t k a) + one_if (p (t k)) ≡ one_if (p a) + count n t
  unfolding count
  count-update zero k t a h = absurd (omega arith)
  count-update (suc n) k t a h = elim (dec_lt k n) [
    | yes inside ↦ ground (arith, count-update n k t a inside)
    | no at_end ↦ ground (arith, count-update_above n k t a)
  ]

  -- An entry that passes is counted.
  pub count-pos : (n k : ℕ) (t : ℕ → A) → k < n → p (t k) ≡ true → 0 < count n t
  unfolding count
  count-pos zero k t h e = absurd (omega arith)
  count-pos (suc n) k t h e = elim (dec_lt k n) [
    | yes inside ↦ omega (arith, count-pos n k t inside e)
    | no at_end ↦ ground arith
  ]

  -- Two different entries that pass are counted twice.
  pub count-two :
      (n i j : ℕ) (t : ℕ → A)
      → i < n
      → j < n
      → i ≢ j
      → p (t i) ≡ true
      → p (t j) ≡ true
      → 2 ≤ count n t
  unfolding count
  count-two zero i j t hi hj ne ei ej = absurd (omega arith)
  count-two (suc n) i j t hi hj ne ei ej = elim (dec_lt i n) [
    | yes i_in ↦ elim (dec_lt j n) [
      | yes j_in ↦ omega (arith, count-two n i j t i_in j_in ne ei ej)
      | no j_end ↦ ground (arith, count-pos n i t i_in ei)
    ]
    | no i_end ↦ ground (arith, count-pos n j t)
  ]

  -- A count of 0 leaves no entry that passes.
  pub count-none : (n : ℕ) (t : ℕ → A) → ((i : ℕ) → p (t i) ≡ false) → count n t ≡ 0
  unfolding count
  count-none zero t h = refl
  count-none (suc n) t h = ground (arith, h n, count-none n t h)

  pub count-le : (n : ℕ) (t : ℕ → A) → count n t ≤ n
  unfolding count
  count-le zero t = omega arith
  count-le (suc n) t = ground (arith, count-le n t)

  -- A positive count has an entry that passes.
  pub count-find : (n : ℕ) (t : ℕ → A) → 0 < count n t → (i : ℕ) × (i < n) × (p (t i) ≡ true)
  unfolding count
  count-find zero t h = absurd (omega arith)
  count-find (suc n) t h = elim (Bool-cases (p (t n))) [
    | inl found ↦ (n, omega arith, found)
    | inr not_here ↦
        let (i, below, found) = count-find n t (ground arith) in (i, omega arith, found)
  ]
