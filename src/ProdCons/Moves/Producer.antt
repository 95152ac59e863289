-- ===== src/ProdCons/Moves/Producer.antt =====
-- The lines of `prod_func`, from one view of the shared memory to the next.
use os_bmstu.Common.{
  ℕ, suc, ◌+◌, ◌-◌, ◌%◌, ◌<◌, ◌≡◌, inl, inr, arith, ℕ_discrete, refl, ◌++◌, ◌∷◌, [], dec_lt, update,
}
use os_bmstu.ProdCons.{
  Shared, acquire_empty, store, report_write, advance_tail, wrap_tail, advance_letter, wrap_letter,
  release_full, step, inc_char,
}
use os_bmstu.ProdCons.View.{View, ViewAt}
use os_bmstu.ProdCons.Moves.{Goes, cell_at-ne}

pub store-Goes : {m : Shared} (w r : ℕ) → ViewAt m store w r → Goes m store
unfolding step
store-Goes {m} w r v = record {
  next = report_write;
  mem = record m { buf = update m.buf (m.buf 2) (m.buf 0) };
  runs = refl;
  view = (
    w,
    r,
    record {
      holds = record {
        letter_byte = ground arith;
        head_byte = ground arith;
        tail_byte = ground arith;
        cells = λ j h k. ground (arith, v.holds.cells j, cell_at-ne j w);
        wrote = v.holds.wrote;
        read = v.holds.read;
        order = omega arith;
        room = omega arith;
      };
      full_sum = v.full_sum;
      empt_sum = v.empt_sum;
    },
  );
  bin = refl;
  alive = tt;
  role = refl;
  inside = inl refl;
}

pub report_write-Goes : {m : Shared} (w r : ℕ) → ViewAt m report_write w r → Goes m report_write
unfolding step
report_write-Goes {m} w r v = record {
  next = advance_tail;
  mem = record m { wrote = m.wrote ++ m.buf 0 ∷ [] };
  runs = refl;
  view = (w, r, ground arith);
  bin = refl;
  alive = tt;
  role = refl;
  inside = inl refl;
}

pub advance_tail-Goes : {m : Shared} (w r : ℕ) → ViewAt m advance_tail w r → Goes m advance_tail
unfolding step
advance_tail-Goes {m} w r v = elim (dec_lt (w % 5) 4) [
  | yes inside ↦ record {
    next = advance_letter;
    mem = record m { buf = update m.buf 2 (inc_char (m.buf 2)) };
    runs = ground arith;
    view = (w, r, ground arith);
    bin = refl;
    alive = tt;
    role = refl;
    inside = inl refl;
  }
  | no outside ↦ record {
    next = wrap_tail;
    mem = record m { buf = update m.buf 2 (inc_char (m.buf 2)) };
    runs = ground arith;
    view = (w, r, ground arith);
    bin = refl;
    alive = tt;
    role = refl;
    inside = inl refl;
  }
]

pub wrap_tail-Goes : {m : Shared} (w r : ℕ) → ViewAt m wrap_tail w r → Goes m wrap_tail
unfolding step
wrap_tail-Goes {m} w r v = record {
  next = advance_letter;
  mem = record m { buf = update m.buf 2 3 };
  runs = refl;
  view = (w, r, ground arith);
  bin = refl;
  alive = tt;
  role = refl;
  inside = inl refl;
}

pub advance_letter-Goes :
    {m : Shared} (w r : ℕ) → ViewAt m advance_letter w r → Goes m advance_letter
unfolding step
advance_letter-Goes {m} w r v = elim (dec_lt (w % 26) 25) [
  | yes inside ↦ record {
    next = release_full;
    mem = record m { buf = update m.buf 0 (inc_char (m.buf 0)) };
    runs = ground arith;
    view = (w, r, ground arith);
    bin = refl;
    alive = tt;
    role = refl;
    inside = inl refl;
  }
  | no outside ↦ record {
    next = wrap_letter;
    mem = record m { buf = update m.buf 0 (inc_char (m.buf 0)) };
    runs = ground arith;
    view = (w, r, ground arith);
    bin = refl;
    alive = tt;
    role = refl;
    inside = inl refl;
  }
]

pub wrap_letter-Goes : {m : Shared} (w r : ℕ) → ViewAt m wrap_letter w r → Goes m wrap_letter
unfolding step
wrap_letter-Goes {m} w r v = record {
  next = release_full;
  mem = record m { buf = update m.buf 0 b'A' };
  runs = refl;
  view = (w, r, ground arith);
  bin = refl;
  alive = tt;
  role = refl;
  inside = inl refl;
}

pub release_full-Goes : {m : Shared} (w r : ℕ) → ViewAt m release_full w r → Goes m release_full
unfolding step ℕ_discrete
release_full-Goes {m} w r v = record {
  next = acquire_empty;
  mem = record m { sems = update (update m.sems 0 (m.sems 0 + 1)) 2 (m.sems 2 + 1) };
  runs = refl;
  view = λ e. (suc w, r, ground arith);
  bin = omega arith;
  alive = tt;
  role = refl;
  inside = inl refl;
}

-- A producer whose semaphores are up enters its critical section.
pub acquire_empty-Goes :
    {m : Shared} → View m acquire_empty → m.sems 2 ≡ 1 → 0 < m.sems 1 → Goes m acquire_empty
unfolding step ℕ_discrete
acquire_empty-Goes {m} v free room =
    let (w, r, q) = v free in
    record {
      next = store;
      mem = record m { sems = update (update m.sems 1 (m.sems 1 - 1)) 2 (m.sems 2 - 1) };
      runs = ground arith;
      view = (w, r, ground arith);
      bin = ground arith;
      alive = tt;
      role = refl;
      inside = inr refl;
    }
