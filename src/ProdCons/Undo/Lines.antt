-- ===== src/ProdCons/Undo/Lines.antt =====
-- What a line of lab3_1 does to the semadj values of a process, while few letters are written.
use mathlib.Core.Option
use mathlib.Core.Path.{subst}
use os_bmstu.Common.{
  ℕ, ◌+◌, ◌-◌, ◌<◌, ◌≡◌, ◌∙◌, ◌⊎◌, inl, inr, refl, sym, ap, arith, none, some, Bool, true, false,
  if◌then◌else◌, List, [], ◌∷◌, ◌++◌, length, length-append, update, ℕ_discrete, dec_lt,
}
use os_bmstu.Semaphore.{system_v, done}
use os_bmstu.Semaphore.Undo.{Adj, UndoApi, IsSystemVUndo, met_by}
use os_bmstu.ProdCons.{
  Shared, Pc, acquire_empty, store, report_write, advance_tail, wrap_tail, advance_letter,
  wrap_letter, release_full, acquire_full, load, report_read, advance_head, wrap_head,
  release_empty, exited, step, at_end, past_z, inc_char, prod_pre_sem, prod_post_sem, cons_pre_sem,
  cons_post_sem,
}
use os_bmstu.ProdCons.Steps.{acquire_empty_sleeps, acquire_full_sleeps}
use os_bmstu.ProdCons.Undo.Pairs.{
  prod_pre_sem-done, prod_pre_sem-asleep, cons_pre_sem-done, cons_pre_sem-asleep,
  prod_post_sem-done, cons_post_sem-done,
}
use os_bmstu.ProdCons.Undo.Bounded.{Bounded, Low, Keeps}

landed :
    (api : UndoApi) (p p1 p' : Pc) (a : Adj) (m m1 m' : Shared)
    → step system_v p m ≡ some (p1, m1)
    → step system_v p m ≡ some (p', m')
    → Keeps api p a m p1 m1
    → Keeps api p a m p' m'
landed api p p1 p' a m m1 m' e1 e k =
    subst (λ x. Keeps api p a m x.0 x.1) (Option.some-injective (p1, m1) (p', m') (sym e1 ∙ e)) k

branch :
    (w r : ℕ) (a : Adj) (b : Bool) (p q : Pc)
    → Bounded w r a p
    → Bounded w r a q
    → Bounded w r a (if b then p else q)
branch w r a true p q v u = v
branch w r a false p q v u = u

length-snoc : (xs : List ℕ) (x : ℕ) → length (xs ++ x ∷ []) ≡ length xs + 1
length-snoc xs x = length-append xs (x ∷ [])

module _ (api : UndoApi) (law : IsSystemVUndo api) (a : Adj) (m : Shared) where
  acquire_empty-Keeps :
      0 < m.sems 1
      → 0 < m.sems 2
      → Low m
      → length m.wrote < 32767
      → Bounded (length m.wrote) (length m.read) a acquire_empty
      → Keeps api acquire_empty a m store
          (record m { sems = update (update m.sems 1 (m.sems 1 - 1)) 2 (m.sems 2 - 1) })
  unfolding step ℕ_discrete
  acquire_empty-Keeps room free low few v = (
    rw runs refl,
    subst (λ x. Bounded (length m.wrote) (length m.read) x store) (sym (ap (λ x. x.1) runs))
        (ground arith),
  )
    where
      runs : api.semop m.sems a prod_pre_sem ≡ (
        done (update (update m.sems 1 (m.sems 1 - 1)) 2 (m.sems 2 - 1)),
        update (update a 1 (a 1 + 1)) 2 (a 2 + 1),
      )
      runs =
          law.semop_lem m.sems a prod_pre_sem
          ∙ prod_pre_sem-done m.sems a room free low.empt_low low.bin_low (omega arith)
              (omega arith)

  acquire_full-Keeps :
      0 < m.sems 0
      → 0 < m.sems 2
      → Low m
      → length m.read < 32767
      → Bounded (length m.wrote) (length m.read) a acquire_full
      → Keeps api acquire_full a m load
          (record m { sems = update (update m.sems 0 (m.sems 0 - 1)) 2 (m.sems 2 - 1) })
  unfolding step ℕ_discrete
  acquire_full-Keeps room free low few v = (
    rw runs refl,
    subst (λ x. Bounded (length m.wrote) (length m.read) x load) (sym (ap (λ x. x.1) runs))
        (ground arith),
  )
    where
      runs : api.semop m.sems a cons_pre_sem ≡ (
        done (update (update m.sems 0 (m.sems 0 - 1)) 2 (m.sems 2 - 1)),
        update (update a 0 (a 0 + 1)) 2 (a 2 + 1),
      )
      runs =
          law.semop_lem m.sems a cons_pre_sem
          ∙ cons_pre_sem-done m.sems a room free low.full_low low.bin_low (omega arith)
              (omega arith)

  release_full-Keeps :
      Low m
      → length m.wrote < 32767
      → Bounded (length m.wrote) (length m.read) a release_full
      → Keeps api release_full a m acquire_empty
          (record m { sems = update (update m.sems 0 (m.sems 0 + 1)) 2 (m.sems 2 + 1) })
  unfolding step ℕ_discrete
  release_full-Keeps low few v = (
    rw runs refl,
    subst (λ x. Bounded (length m.wrote) (length m.read) x acquire_empty) (sym (ap (λ x. x.1) runs))
        (ground arith),
  )
    where
      runs : api.semop m.sems a prod_post_sem ≡ (
        done (update (update m.sems 0 (m.sems 0 + 1)) 2 (m.sems 2 + 1)),
        update (update a 0 (a 0 - 1)) 2 (a 2 - 1),
      )
      runs =
          law.semop_lem m.sems a prod_post_sem
          ∙ prod_post_sem-done m.sems a low.full_low low.bin_low (omega arith) (omega arith)

  release_empty-Keeps :
      Low m
      → length m.read < 32767
      → Bounded (length m.wrote) (length m.read) a release_empty
      → Keeps api release_empty a m acquire_full
          (record m { sems = update (update m.sems 1 (m.sems 1 + 1)) 2 (m.sems 2 + 1) })
  unfolding step ℕ_discrete
  release_empty-Keeps low few v = (
    rw runs refl,
    subst (λ x. Bounded (length m.wrote) (length m.read) x acquire_full) (sym (ap (λ x. x.1) runs))
        (ground arith),
  )
    where
      runs : api.semop m.sems a cons_post_sem ≡ (
        done (update (update m.sems 1 (m.sems 1 + 1)) 2 (m.sems 2 + 1)),
        update (update a 1 (a 1 - 1)) 2 (a 2 - 1),
      )
      runs =
          law.semop_lem m.sems a cons_post_sem
          ∙ cons_post_sem-done m.sems a low.empt_low low.bin_low (omega arith) (omega arith)

-- What the calls of semop without SEM_UNDO come to.
acquire_empty-runs :
    (m : Shared)
    → 0 < m.sems 1
    → 0 < m.sems 2
    → step system_v acquire_empty m
      ≡ some (store, record m { sems = update (update m.sems 1 (m.sems 1 - 1)) 2 (m.sems 2 - 1) })
unfolding step ℕ_discrete
acquire_empty-runs m room free = ground arith

acquire_full-runs :
    (m : Shared)
    → 0 < m.sems 0
    → 0 < m.sems 2
    → step system_v acquire_full m
      ≡ some (load, record m { sems = update (update m.sems 0 (m.sems 0 - 1)) 2 (m.sems 2 - 1) })
unfolding step ℕ_discrete
acquire_full-runs m room free = ground arith

-- With fewer than 32767 letters written and read, a line that would be executed without SEM_UNDO is
-- executed with it, and keeps the bounds.
pub step-Keeps :
    (api : UndoApi) (p p' : Pc) (a : Adj) (m m' : Shared)
    → IsSystemVUndo api
    → Low m
    → length m.wrote < 32767
    → length m.read < 32767
    → Bounded (length m.wrote) (length m.read) a p
    → step system_v p m ≡ some (p', m')
    → Keeps api p a m p' m'
unfolding step ℕ_discrete
step-Keeps api acquire_empty p' a m m' law low few few' v e = elim (dec_lt 0 (m.sems 1)) [
  | yes room ↦ elim (dec_lt 0 (m.sems 2)) [
    | yes free ↦
        landed api acquire_empty store p' a m _ m' (acquire_empty-runs m room free) e
          (acquire_empty-Keeps api law a m room free low few v)
    | no taken ↦ absurd (cc (e, acquire_empty_sleeps m (inr (omega arith))))
  ]
  | no crowd ↦ absurd (cc (e, acquire_empty_sleeps m (inl (omega arith))))
]
step-Keeps api acquire_full p' a m m' law low few few' v e = elim (dec_lt 0 (m.sems 0)) [
  | yes room ↦ elim (dec_lt 0 (m.sems 2)) [
    | yes free ↦
        landed api acquire_full load p' a m _ m' (acquire_full-runs m room free) e
          (acquire_full-Keeps api law a m room free low few' v)
    | no taken ↦ absurd (cc (e, acquire_full_sleeps m (inr (omega arith))))
  ]
  | no crowd ↦ absurd (cc (e, acquire_full_sleeps m (inl (omega arith))))
]
step-Keeps api release_full p' a m m' law low few few' v e =
    landed api release_full acquire_empty p' a m _ m' refl e
      (release_full-Keeps api law a m low few v)
step-Keeps api release_empty p' a m m' law low few few' v e =
    landed api release_empty acquire_full p' a m _ m' refl e
      (release_empty-Keeps api law a m low few' v)
step-Keeps api store p' a m m' law low few few' v e =
    landed api store report_write p' a m _ m' refl e (refl, v)
step-Keeps api report_write p' a m m' law low few few' v e =
    landed api report_write advance_tail p' a m _ m' refl e
      (refl, omega (arith, v.taken_le, v.given_le, v.bin_is, length-snoc m.wrote (m.buf 0)))
step-Keeps api advance_tail p' a m m' law low few few' v e =
    landed api advance_tail _ p' a m _ m' refl e
      (refl, branch _ _ a (at_end (inc_char (m.buf 2))) wrap_tail advance_letter v v)
step-Keeps api wrap_tail p' a m m' law low few few' v e =
    landed api wrap_tail advance_letter p' a m _ m' refl e (refl, v)
step-Keeps api advance_letter p' a m m' law low few few' v e =
    landed api advance_letter _ p' a m _ m' refl e
      (refl, branch _ _ a (past_z (inc_char (m.buf 0))) wrap_letter release_full v v)
step-Keeps api wrap_letter p' a m m' law low few few' v e =
    landed api wrap_letter release_full p' a m _ m' refl e (refl, v)
step-Keeps api load p' a m m' law low few few' v e =
    landed api load (report_read (m.buf (m.buf 1))) p' a m _ m' refl e (refl, v)
step-Keeps api (report_read c) p' a m m' law low few few' v e =
    landed api (report_read c) advance_head p' a m _ m' refl e
      (refl, omega (arith, v.taken_le, v.given_le, v.bin_is, length-snoc m.read c))
step-Keeps api advance_head p' a m m' law low few few' v e =
    landed api advance_head _ p' a m _ m' refl e
      (refl, branch _ _ a (at_end (inc_char (m.buf 1))) wrap_head release_empty v v)
step-Keeps api wrap_head p' a m m' law low few few' v e =
    landed api wrap_head release_empty p' a m _ m' refl e (refl, v)
step-Keeps api exited p' a m m' law low few few' v e = absurd (cc e)

pub step-Sleeps :
    (api : UndoApi) (p : Pc) (a : Adj) (m : Shared)
    → IsSystemVUndo api
    → Low m
    → length m.wrote < 32767
    → length m.read < 32767
    → Bounded (length m.wrote) (length m.read) a p
    → step system_v p m ≡ none
    → step (met_by a api) p m ≡ none
unfolding step
step-Sleeps api acquire_empty a m law low few few' v e = elim (dec_lt 0 (m.sems 1)) [
  | yes room ↦ elim (dec_lt 0 (m.sems 2)) [
    | yes free ↦ absurd (cc (e, acquire_empty-runs m room free))
    | no taken ↦ sleeps (inr (omega arith))
  ]
  | no crowd ↦ sleeps (inl (omega arith))
]
  where
    sleeps : (m.sems 1 ≡ 0) ⊎ (m.sems 2 ≡ 0) → step (met_by a api) acquire_empty m ≡ none
    sleeps down =
        rw
          (law.semop_lem m.sems a prod_pre_sem
            ∙ prod_pre_sem-asleep m.sems a down low.empt_low (omega arith))
          refl
step-Sleeps api acquire_full a m law low few few' v e = elim (dec_lt 0 (m.sems 0)) [
  | yes room ↦ elim (dec_lt 0 (m.sems 2)) [
    | yes free ↦ absurd (cc (e, acquire_full-runs m room free))
    | no taken ↦ sleeps (inr (omega arith))
  ]
  | no crowd ↦ sleeps (inl (omega arith))
]
  where
    sleeps : (m.sems 0 ≡ 0) ⊎ (m.sems 2 ≡ 0) → step (met_by a api) acquire_full m ≡ none
    sleeps down =
        rw
          (law.semop_lem m.sems a cons_pre_sem
            ∙ cons_pre_sem-asleep m.sems a down low.full_low (omega arith))
          refl
step-Sleeps api exited a m law low few few' v e = refl
step-Sleeps api release_full a m law low few few' v e = absurd (cc e)
step-Sleeps api release_empty a m law low few few' v e = absurd (cc e)
step-Sleeps api _ a m law low few few' v e = absurd (cc e)
