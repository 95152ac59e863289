-- ===== src/ProdCons/Moves/Consumer.antt =====
-- The lines of `cons_func`, from one view of the shared memory to the next.
use os_bmstu.Common.{
  ℕ, suc, ◌+◌, ◌-◌, ◌%◌, ◌<◌, ◌≡◌, inl, inr, arith, ℕ_discrete, refl, ◌++◌, ◌∷◌, [], dec_lt, update,
}
use os_bmstu.ProdCons.{
  Shared, acquire_full, load, report_read, advance_head, wrap_head, release_empty, step, inc_char,
}
use os_bmstu.ProdCons.View.{View, ViewAt}
use os_bmstu.ProdCons.Moves.{Goes}

pub load-Goes : {m : Shared} (w r : ℕ) → ViewAt m load w r → Goes m load
unfolding step
load-Goes {m} w r v = record {
  next = report_read (m.buf (m.buf 1));
  mem = m;
  runs = refl;
  view = (w, r, (v, ground (arith, v.holds.cells r)));
  bin = refl;
  alive = tt;
  role = refl;
  inside = inl refl;
}

pub report_read-Goes :
    {m : Shared} (c w r : ℕ) → ViewAt m (report_read c) w r → Goes m (report_read c)
unfolding step
report_read-Goes {m} c w r v = record {
  next = advance_head;
  mem = record m { read = m.read ++ c ∷ [] };
  runs = refl;
  view = (w, r, ground arith);
  bin = refl;
  alive = tt;
  role = refl;
  inside = inl refl;
}

pub advance_head-Goes : {m : Shared} (w r : ℕ) → ViewAt m advance_head w r → Goes m advance_head
unfolding step
advance_head-Goes {m} w r v = elim (dec_lt (r % 5) 4) [
  | yes inside ↦ record {
    next = release_empty;
    mem = record m { buf = update m.buf 1 (inc_char (m.buf 1)) };
    runs = ground arith;
    view = (w, r, ground arith);
    bin = refl;
    alive = tt;
    role = refl;
    inside = inl refl;
  }
  | no outside ↦ record {
    next = wrap_head;
    mem = record m { buf = update m.buf 1 (inc_char (m.buf 1)) };
    runs = ground arith;
    view = (w, r, ground arith);
    bin = refl;
    alive = tt;
    role = refl;
    inside = inl refl;
  }
]

pub wrap_head-Goes : {m : Shared} (w r : ℕ) → ViewAt m wrap_head w r → Goes m wrap_head
unfolding step
wrap_head-Goes {m} w r v = record {
  next = release_empty;
  mem = record m { buf = update m.buf 1 3 };
  runs = refl;
  view = (w, r, ground arith);
  bin = refl;
  alive = tt;
  role = refl;
  inside = inl refl;
}

pub release_empty-Goes : {m : Shared} (w r : ℕ) → ViewAt m release_empty w r → Goes m release_empty
unfolding step ℕ_discrete
release_empty-Goes {m} w r v = record {
  next = acquire_full;
  mem = record m { sems = update (update m.sems 1 (m.sems 1 + 1)) 2 (m.sems 2 + 1) };
  runs = refl;
  view = λ e. (
    w,
    suc r,
    record {
      holds = record {
        letter_byte = ground arith;
        head_byte = ground arith;
        tail_byte = ground arith;
        cells = λ j h k. v.holds.cells j (omega arith) k;
        wrote = v.holds.wrote;
        read = v.holds.read;
        order = omega arith;
        room = omega arith;
      };
      full_sum = ground arith;
      empt_sum = ground arith;
    },
  );
  bin = ground arith;
  alive = tt;
  role = refl;
  inside = inl refl;
}

-- A consumer whose semaphores are up enters its critical section.
pub acquire_full-Goes :
    {m : Shared} → View m acquire_full → m.sems 2 ≡ 1 → 0 < m.sems 0 → Goes m acquire_full
unfolding step ℕ_discrete
acquire_full-Goes {m} v free room =
    let (w, r, q) = v free in
    record {
      next = load;
      mem = record m { sems = update (update m.sems 0 (m.sems 0 - 1)) 2 (m.sems 2 - 1) };
      runs = ground arith;
      view = (w, r, ground arith);
      bin = ground arith;
      alive = tt;
      role = refl;
      inside = inr refl;
    }
