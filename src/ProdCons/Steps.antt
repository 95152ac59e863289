-- ===== src/ProdCons/Steps.antt =====
-- Every line of lab3_1 that is executed leads from one view of the shared memory to the next.
use os_bmstu.Common.{◌≤◌, ◌≡◌, ◌⊎◌, inl, inr, none, some, true, arith, refl, dec_lt}
use os_bmstu.Semaphore.{system_v}
use os_bmstu.ProdCons.{
  Shared, Pc, acquire_empty, store, report_write, advance_tail, wrap_tail, advance_letter,
  wrap_letter, release_full, acquire_full, load, report_read, advance_head, wrap_head,
  release_empty, exited, step, critical,
}
use os_bmstu.ProdCons.View.{View}
use os_bmstu.ProdCons.Moves.{Goes}
use os_bmstu.ProdCons.Moves.Producer.{
  store-Goes, report_write-Goes, advance_tail-Goes, wrap_tail-Goes, advance_letter-Goes,
  wrap_letter-Goes, release_full-Goes, acquire_empty-Goes,
}
use os_bmstu.ProdCons.Moves.Consumer.{
  load-Goes, report_read-Goes, advance_head-Goes, wrap_head-Goes, release_empty-Goes,
  acquire_full-Goes,
}

-- No line between the two calls of `semop` sleeps or fails.
pub critical-Goes : {m : Shared} (p : Pc) → critical p ≡ true → View m p → Goes m p
critical-Goes store c (w, r, v) = store-Goes w r v
critical-Goes report_write c (w, r, v) = report_write-Goes w r v
critical-Goes advance_tail c (w, r, v) = advance_tail-Goes w r v
critical-Goes wrap_tail c (w, r, v) = wrap_tail-Goes w r v
critical-Goes advance_letter c (w, r, v) = advance_letter-Goes w r v
critical-Goes wrap_letter c (w, r, v) = wrap_letter-Goes w r v
critical-Goes release_full c (w, r, v) = release_full-Goes w r v
critical-Goes load c (w, r, v) = load-Goes w r v
critical-Goes (report_read x) c (w, r, v) = report_read-Goes x w r v
critical-Goes advance_head c (w, r, v) = advance_head-Goes w r v
critical-Goes wrap_head c (w, r, v) = wrap_head-Goes w r v
critical-Goes release_empty c (w, r, v) = release_empty-Goes w r v
critical-Goes acquire_empty c v = cc
critical-Goes acquire_full c v = cc
critical-Goes exited c v = cc

-- Otherwise it sleeps.
pub acquire_empty_sleeps :
    (m : Shared) → m.sems 1 ≡ 0 ⊎ m.sems 2 ≡ 0 → step system_v acquire_empty m ≡ none
unfolding step
acquire_empty_sleeps m h = ground arith

pub acquire_full_sleeps :
    (m : Shared) → m.sems 0 ≡ 0 ⊎ m.sems 2 ≡ 0 → step system_v acquire_full m ≡ none
unfolding step
acquire_full_sleeps m h = ground arith

-- Every line that is executed keeps the views, as long as at most one process is inside.
pub step-Goes :
    {m m' : Shared} (p : Pc) {p' : Pc}
    → View m p
    → m.sems 2 ≤ 1
    → step system_v p m ≡ some (p', m')
    → Goes m p
step-Goes {m} acquire_empty v b e = elim (dec_lt 0 (m.sems 1)) [
  | yes room ↦ elim (dec_lt 0 (m.sems 2)) [
    | yes free ↦ acquire_empty-Goes v (omega arith) room
    | no taken ↦ absurd (cc (e, acquire_empty_sleeps m (inr (omega arith))))
  ]
  | no full ↦ absurd (cc (e, acquire_empty_sleeps m (inl (omega arith))))
]
step-Goes {m} acquire_full v b e = elim (dec_lt 0 (m.sems 0)) [
  | yes room ↦ elim (dec_lt 0 (m.sems 2)) [
    | yes free ↦ acquire_full-Goes v (omega arith) room
    | no taken ↦ absurd (cc (e, acquire_full_sleeps m (inr (omega arith))))
  ]
  | no none_left ↦ absurd (cc (e, acquire_full_sleeps m (inl (omega arith))))
]
step-Goes {m} exited v b e = absurd (unfold step in cc e)
step-Goes store v b e = critical-Goes _ refl v
step-Goes report_write v b e = critical-Goes _ refl v
step-Goes advance_tail v b e = critical-Goes _ refl v
step-Goes wrap_tail v b e = critical-Goes _ refl v
step-Goes advance_letter v b e = critical-Goes _ refl v
step-Goes wrap_letter v b e = critical-Goes _ refl v
step-Goes release_full v b e = critical-Goes _ refl v
step-Goes load v b e = critical-Goes _ refl v
step-Goes (report_read x) v b e = critical-Goes _ refl v
step-Goes advance_head v b e = critical-Goes _ refl v
step-Goes wrap_head v b e = critical-Goes _ refl v
step-Goes release_empty v b e = critical-Goes _ refl v
