-- ===== src/ProdCons/Undo/Pairs.antt =====
-- What the four arrays of lab3_1 do to the semaphores and to the semadj values of the caller.
use os_bmstu.Common.{◌+◌, ◌-◌, ◌<◌, ◌≡◌, ◌⊎◌, arith, update, ℕ_discrete}
use os_bmstu.Semaphore.{Sems, done, asleep, semvmx}
use os_bmstu.Semaphore.Undo.{Adj, perform_undo}
use os_bmstu.ProdCons.{prod_pre_sem, prod_post_sem, cons_pre_sem, cons_post_sem}

pub prod_pre_sem-done :
    (s : Sems) (a : Adj)
    → 0 < s 1
    → 0 < s 2
    → s 1 < semvmx
    → s 2 < semvmx
    → a 1 < 65535
    → a 2 < 65535
    → perform_undo s a prod_pre_sem ≡ (
      done (update (update s 1 (s 1 - 1)) 2 (s 2 - 1)),
      update (update a 1 (a 1 + 1)) 2 (a 2 + 1),
    )
unfolding perform_undo ℕ_discrete
prod_pre_sem-done s a up1 up2 low1 low2 in1 in2 = ground arith

pub prod_pre_sem-asleep :
    (s : Sems) (a : Adj)
    → (s 1 ≡ 0) ⊎ (s 2 ≡ 0)
    → s 1 < semvmx
    → a 1 < 65535
    → perform_undo s a prod_pre_sem ≡ (asleep, a)
unfolding perform_undo ℕ_discrete
prod_pre_sem-asleep s a down low1 in1 = ground arith

pub cons_pre_sem-done :
    (s : Sems) (a : Adj)
    → 0 < s 0
    → 0 < s 2
    → s 0 < semvmx
    → s 2 < semvmx
    → a 0 < 65535
    → a 2 < 65535
    → perform_undo s a cons_pre_sem ≡ (
      done (update (update s 0 (s 0 - 1)) 2 (s 2 - 1)),
      update (update a 0 (a 0 + 1)) 2 (a 2 + 1),
    )
unfolding perform_undo ℕ_discrete
cons_pre_sem-done s a up1 up2 low1 low2 in1 in2 = ground arith

pub cons_pre_sem-asleep :
    (s : Sems) (a : Adj)
    → (s 0 ≡ 0) ⊎ (s 2 ≡ 0)
    → s 0 < semvmx
    → a 0 < 65535
    → perform_undo s a cons_pre_sem ≡ (asleep, a)
unfolding perform_undo ℕ_discrete
cons_pre_sem-asleep s a down low1 in1 = ground arith

pub prod_post_sem-done :
    (s : Sems) (a : Adj)
    → s 0 < semvmx
    → s 2 < semvmx
    → 0 < a 0
    → 0 < a 2
    → perform_undo s a prod_post_sem ≡ (
      done (update (update s 0 (s 0 + 1)) 2 (s 2 + 1)),
      update (update a 0 (a 0 - 1)) 2 (a 2 - 1),
    )
unfolding perform_undo ℕ_discrete
prod_post_sem-done s a low0 low2 in0 in2 = ground arith

pub cons_post_sem-done :
    (s : Sems) (a : Adj)
    → s 1 < semvmx
    → s 2 < semvmx
    → 0 < a 1
    → 0 < a 2
    → perform_undo s a cons_post_sem ≡ (
      done (update (update s 1 (s 1 + 1)) 2 (s 2 + 1)),
      update (update a 1 (a 1 - 1)) 2 (a 2 - 1),
    )
unfolding perform_undo ℕ_discrete
cons_post_sem-done s a low1 low2 in1 in2 = ground arith
