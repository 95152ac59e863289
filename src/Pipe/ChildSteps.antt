-- ===== src/Pipe/ChildSteps.antt =====
-- Each line of a child keeps the pipe and the output right.
use mathlib.Core.Path.{subst}
use os_bmstu.Common.{
  ℕ, ◌≡◌, refl, ap, Bool, true, false, Bool-cases, Option, none, some, List, ◌++◌, inl, inr, arith,
  ◌≢◌,
}
use os_bmstu.Pipe.{
  message, Program, prog4, prog5, Answers, Child, unborn, writing, telling, closing, exited, reaped,
  Parent, forking1, forking2, waiting, reading1, reading2, testing, finishing, returned, Output,
  sent_message, write_error, flag_was, close_error, Shared, say, send, after_write, child1_step,
  child2_step, close_fails,
}
use os_bmstu.Pipe.Content.{Content, NotYet, unreaped, At, Fine, AllFine-append, Inv, sys}

-- The message of a child goes behind what is in the pipe.
Content-send1 :
    (sent2 : Bool) (pipe : List ℕ)
    → Content false sent2 pipe
    → Content true sent2 (pipe ++ message 1)
Content-send1 false pipe e = rw e refl
Content-send1 true pipe e = inr (rw e refl)

Content-send2 :
    (sent1 : Bool) (pipe : List ℕ)
    → Content sent1 false pipe
    → Content sent1 true (pipe ++ message 2)
Content-send2 false pipe e = rw e refl
Content-send2 true pipe e = inl (rw e refl)

-- A line of the first child leaves alone what the parent relies on.
child1-At :
    (l : Parent) (c c' c2 : Child) (m m' : Shared)
    → unreaped c ≡ 1
    → unreaped c' ≡ 1
    → c ≢ unborn
    → (Content m.sent1 m.sent2 m.pipe → Content m'.sent1 m'.sent2 m'.pipe)
    → At l c c2 m
    → At l c' c2 m'
child1-At forking1 c c' c2 m m' one one' born keeps at = absurd (born at.1)
child1-At forking2 c c' c2 m m' one one' born keeps at = (keeps at.0, one', at.2)
child1-At (waiting k) c c' c2 m m' one one' born keeps at = (keeps at.0, omega (arith, at.1))
child1-At reading1 c c' c2 m m' one one' born keeps at =
    absurd (omega (arith, one, ap unreaped at.1))
child1-At (reading2 none) c c' c2 m m' one one' born keeps at =
    absurd (omega (arith, one, ap unreaped at.0))
child1-At (reading2 (some x)) c c' c2 m m' one one' born keeps at =
    absurd (omega (arith, one, ap unreaped at.1))
child1-At (testing none y) c c' c2 m m' one one' born keeps at = tt
child1-At (testing (some x) none) c c' c2 m m' one one' born keeps at = tt
child1-At (testing (some x) (some y)) c c' c2 m m' one one' born keeps at = at
child1-At finishing c c' c2 m m' one one' born keeps at = tt
child1-At (returned success) c c' c2 m m' one one' born keeps at = tt

child2-At :
    (l : Parent) (c1 c c' : Child) (m m' : Shared)
    → unreaped c ≡ 1
    → unreaped c' ≡ 1
    → c ≢ unborn
    → (Content m.sent1 m.sent2 m.pipe → Content m'.sent1 m'.sent2 m'.pipe)
    → At l c1 c m
    → At l c1 c' m'
child2-At forking1 c1 c c' m m' one one' born keeps at = absurd (born at.2)
child2-At forking2 c1 c c' m m' one one' born keeps at = absurd (born at.2)
child2-At (waiting k) c1 c c' m m' one one' born keeps at = (keeps at.0, omega (arith, at.1))
child2-At reading1 c1 c c' m m' one one' born keeps at =
    absurd (omega (arith, one, ap unreaped at.2))
child2-At (reading2 none) c1 c c' m m' one one' born keeps at =
    absurd (omega (arith, one, ap unreaped at.1))
child2-At (reading2 (some x)) c1 c c' m m' one one' born keeps at =
    absurd (omega (arith, one, ap unreaped at.2))
child2-At (testing none y) c1 c c' m m' one one' born keeps at = tt
child2-At (testing (some x) none) c1 c c' m m' one one' born keeps at = tt
child2-At (testing (some x) (some y)) c1 c c' m m' one one' born keeps at = at
child2-At finishing c1 c c' m m' one one' born keeps at = tt
child2-At (returned success) c1 c c' m m' one one' born keeps at = tt

-- A line of the first child that does not write into the pipe.
child1_moves :
    (l : Parent) (c c' c2 : Child) (m : Shared) (o : Output)
    → unreaped c ≡ 1
    → unreaped c' ≡ 1
    → c ≢ unborn
    → NotYet c' m.sent1
    → Fine o
    → Inv (sys l c c2 m)
    → Inv (sys l c' c2 (say o m))
child1_moves l c c' c2 m o one one' born not_yet fine inv = record {
  at = child1-At l c c' c2 m (say o m) one one' born (λ e. e) inv.at;
  not_yet1 = not_yet;
  not_yet2 = inv.not_yet2;
  fine = AllFine-append m.out o inv.fine fine;
}

unreaped-after_write : (p : Program) → unreaped (after_write p) ≡ 1
unreaped-after_write prog4 = refl
unreaped-after_write prog5 = refl

NotYet-after_write : (p : Program) (sent : Bool) → NotYet (after_write p) sent
NotYet-after_write prog4 sent = tt
NotYet-after_write prog5 sent = tt

unfoldable pub Child1By : Parent → Child → Option (Child × Shared) → Type 0
Child1By l c2 none = Unit {0}
Child1By l c2 (some (c, m)) = Inv (sys l c c2 m)

pub child1_step-Inv :
    (p : Program) (a : Answers) (l : Parent) (c c2 : Child) (m : Shared)
    → Inv (sys l c c2 m)
    → Child1By l c2 (child1_step p a c m)
unfolding child1_step Child1By
child1_step-Inv p a l unborn c2 m inv = tt
child1_step-Inv p a l writing c2 m inv = elim (Bool-cases a.write) [
  | inl writes ↦ rw writes (record {
    at =
        child1-At l writing (after_write p) c2 m (record (send 1 m) { sent1 = true }) refl
          (unreaped-after_write p) (cc)
          (λ e. Content-send1 m.sent2 m.pipe (subst (λ b. Content b m.sent2 m.pipe) inv.not_yet1 e))
          inv.at;
    not_yet1 = NotYet-after_write p true;
    not_yet2 = inv.not_yet2;
    fine = AllFine-append m.out (sent_message 1) inv.fine tt;
  })
  | inr fails ↦
      rw fails (child1_moves l writing (exited false) c2 m write_error refl refl (cc) tt tt inv)
]
child1_step-Inv p a l telling c2 m inv =
    child1_moves l telling closing c2 m (flag_was m.send_flag) refl refl (cc) tt tt inv
child1_step-Inv p a l closing c2 m inv = elim (Bool-cases (close_fails a)) [
  | inl fails ↦
      rw fails (child1_moves l closing (exited false) c2 m close_error refl refl (cc) tt tt inv)
  | inr closes ↦ rw closes (record {
    at = child1-At l closing (exited true) c2 m m refl refl (cc) (λ e. e) inv.at;
    not_yet1 = tt;
    not_yet2 = inv.not_yet2;
    fine = inv.fine;
  })
]
child1_step-Inv p a l (exited success) c2 m inv = tt
child1_step-Inv p a l reaped c2 m inv = tt

-- A line of the second child that does not write into the pipe.
child2_moves :
    (l : Parent) (c1 c c' : Child) (m : Shared) (o : Output)
    → unreaped c ≡ 1
    → unreaped c' ≡ 1
    → c ≢ unborn
    → NotYet c' m.sent2
    → Fine o
    → Inv (sys l c1 c m)
    → Inv (sys l c1 c' (say o m))
child2_moves l c1 c c' m o one one' born not_yet fine inv = record {
  at = child2-At l c1 c c' m (say o m) one one' born (λ e. e) inv.at;
  not_yet1 = inv.not_yet1;
  not_yet2 = not_yet;
  fine = AllFine-append m.out o inv.fine fine;
}

unfoldable pub Child2By : Parent → Child → Option (Child × Shared) → Type 0
Child2By l c1 none = Unit {0}
Child2By l c1 (some (c, m)) = Inv (sys l c1 c m)

pub child2_step-Inv :
    (a : Answers) (l : Parent) (c1 c : Child) (m : Shared)
    → Inv (sys l c1 c m)
    → Child2By l c1 (child2_step a c m)
unfolding child2_step Child2By
child2_step-Inv a l c1 unborn m inv = tt
child2_step-Inv a l c1 writing m inv = elim (Bool-cases a.write) [
  | inl writes ↦ rw writes (record {
    at =
        child2-At l c1 writing closing m (record (send 2 m) { sent2 = true }) refl refl (cc)
          (λ e. Content-send2 m.sent1 m.pipe (subst (λ b. Content m.sent1 b m.pipe) inv.not_yet2 e))
          inv.at;
    not_yet1 = inv.not_yet1;
    not_yet2 = tt;
    fine = AllFine-append m.out (sent_message 2) inv.fine tt;
  })
  | inr fails ↦
      rw fails (child2_moves l c1 writing (exited false) m write_error refl refl (cc) tt tt inv)
]
child2_step-Inv a l c1 telling m inv = tt
child2_step-Inv a l c1 closing m inv = elim (Bool-cases (close_fails a)) [
  | inl fails ↦
      rw fails (child2_moves l c1 closing (exited false) m close_error refl refl (cc) tt tt inv)
  | inr closes ↦ rw closes (record {
    at = child2-At l c1 closing (exited true) m m refl refl (cc) (λ e. e) inv.at;
    not_yet1 = inv.not_yet1;
    not_yet2 = tt;
    fine = inv.fine;
  })
]
child2_step-Inv a l c1 (exited success) m inv = tt
child2_step-Inv a l c1 reaped m inv = tt
