-- ===== src/Pipe/ParentSteps.antt =====
-- Each line of the parent keeps the pipe and the output right.
use mathlib.Core.Path.{subst}
use mathlib.Core.Option
use mathlib.Core.List.{cons-ne-nil}
use os_bmstu.Common.{
  ℕ, ◌≡◌, ◌⊎◌, ◌∙◌, refl, ap, Bool, true, false, Bool-cases, Option, none, some, List, [], ◌∷◌,
  take, drop, inl, inr, arith, ◌≢◌,
}
use os_bmstu.Pipe.{
  msg_size, Answers, Child, unborn, Parent, forking1, forking2, waiting, reading1, reading2,
  testing, finishing, returned, close_error, fork_error, wait_error, read_error, messages, Shared,
  read, read_pipe, close_fails,
}
use os_bmstu.Pipe.System.{parent_step}
use os_bmstu.Pipe.Content.{
  BothMessages, Content, NotYet, AllFine-append, Inv, InvBy, sys, stops, moves,
}

-- What a read comes to.
abbrev Took : Shared → Option (Option (List ℕ) × Shared) → Type 0
Took m none = Unit {0}
Took m (some (none, m')) = m' ≡ m
Took m (some (some x, m')) =
    (m.pipe ≢ []) × (x ≡ take msg_size m.pipe) × (m' ≡ record m { pipe = drop msg_size m.pipe })

read_pipe-Took : (pipe : List ℕ) (m : Shared) → pipe ≡ m.pipe → Took m (read_pipe pipe m)
unfolding read_pipe
read_pipe-Took [] m e = tt
read_pipe-Took (b ∷ bs) m e = (
  λ empty. cons-ne-nil b bs (e ∙ empty),
  ap (take msg_size) e,
  ap (λ l. record m { pipe = drop msg_size l }) e,
)

read-Took : (a : Answers) (m : Shared) → Took m (read a m)
unfolding read
read-Took a m = elim (Bool-cases a.read) [
  | inr fails ↦ rw (fails, read) refl
  | inl reads ↦ rw (reads, read) (read_pipe-Took m.pipe m refl)
]

-- The first message, and what is left.
first_read :
    (sent1 sent2 : Bool) (pipe : List ℕ)
    → Content sent1 sent2 pipe
    → pipe ≢ []
    → (drop msg_size pipe ≡ []) ⊎ BothMessages (take msg_size pipe) (drop msg_size pipe)
first_read false false pipe empty some_bytes = absurd (some_bytes empty)
first_read true false pipe e some_bytes = inl (rw e refl)
first_read false true pipe e some_bytes = inl (rw e refl)
first_read true true pipe (inl e) some_bytes = inr (inl (rw e (refl, refl)))
first_read true true pipe (inr e) some_bytes = inr (inr (rw e (refl, refl)))

-- The second message, where the first is read.
second_read :
    (x y pipe : List ℕ)
    → (pipe ≡ []) ⊎ BothMessages x pipe
    → pipe ≢ []
    → y ≡ take msg_size pipe
    → BothMessages x y
second_read x y pipe (inl empty) some_bytes e = absurd (some_bytes empty)
second_read x y pipe (inr (inl (first, second))) some_bytes e =
    inl (first, e ∙ ap (take msg_size) second)
second_read x y pipe (inr (inr (first, second))) some_bytes e =
    inr (first, e ∙ ap (take msg_size) second)

reading1-Inv :
    (c1 c2 : Child) (m : Shared) (r : Option (Option (List ℕ) × Shared))
    → Took m r
    → Inv (sys reading1 c1 c2 m)
    → InvBy (Option.map (λ (res, m'). sys (reading2 res) c1 c2 m') r)
reading1-Inv c1 c2 m none took inv = tt
reading1-Inv c1 c2 m (some (none, m')) took inv =
    rw took (moves (reading2 none) inv (inv.at.1, inv.at.2))
reading1-Inv c1 c2 m (some (some x, m')) (some_bytes, e, left) inv =
    rw (left, e)
      (record {
        at = (first_read m.sent1 m.sent2 m.pipe inv.at.0 some_bytes, inv.at.1, inv.at.2);
        not_yet1 = inv.not_yet1;
        not_yet2 = inv.not_yet2;
        fine = inv.fine;
      })

reading2-Inv :
    (res1 : Option (List ℕ)) (c1 c2 : Child) (m : Shared) (r : Option (Option (List ℕ) × Shared))
    → Took m r
    → Inv (sys (reading2 res1) c1 c2 m)
    → InvBy (Option.map (λ (res, m'). sys (testing res1 res) c1 c2 m') r)
reading2-Inv res1 c1 c2 m none took inv = tt
reading2-Inv none c1 c2 m (some (none, m')) took inv = rw took (moves (testing none none) inv tt)
reading2-Inv (some x) c1 c2 m (some (none, m')) took inv =
    rw took (moves (testing (some x) none) inv tt)
reading2-Inv none c1 c2 m (some (some y, m')) took inv =
    rw took.2
      (record { at = tt; not_yet1 = inv.not_yet1; not_yet2 = inv.not_yet2; fine = inv.fine })
reading2-Inv (some x) c1 c2 m (some (some y, m')) (some_bytes, e, left) inv = rw left (record {
  at = second_read x y m.pipe inv.at.0 some_bytes e;
  not_yet1 = inv.not_yet1;
  not_yet2 = inv.not_yet2;
  fine = inv.fine;
})

unborn-NotYet : (c : Child) (sent : Bool) → c ≡ unborn → NotYet c sent → sent ≡ false
unborn-NotYet c sent e not_yet = subst (λ d. NotYet d sent) e not_yet

pub parent_step-Inv :
    (a : Answers) (l : Parent) (c1 c2 : Child) (m : Shared)
    → Inv (sys l c1 c2 m)
    → InvBy (parent_step a l c1 c2 m)
unfolding parent_step
parent_step-Inv a forking1 c1 c2 m inv = elim (Bool-cases a.fork) [
  | inl forks ↦ rw forks (record {
    at = (inv.at.0, refl, inv.at.2);
    not_yet1 = unborn-NotYet c1 m.sent1 inv.at.1 inv.not_yet1;
    not_yet2 = inv.not_yet2;
    fine = inv.fine;
  })
  | inr fails ↦ rw fails (stops false forking1 fork_error c1 c2 m tt inv)
]
parent_step-Inv a forking2 c1 c2 m inv = elim (Bool-cases a.fork) [
  | inl forks ↦ rw forks (record {
    at = (inv.at.0, omega (arith, inv.at.1));
    not_yet1 = inv.not_yet1;
    not_yet2 = unborn-NotYet c2 m.sent2 inv.at.2 inv.not_yet2;
    fine = inv.fine;
  })
  | inr fails ↦ rw fails (stops false forking2 fork_error c1 c2 m tt inv)
]
parent_step-Inv a (waiting k) c1 c2 m inv = elim (Bool-cases a.wait) [
  | inl waits ↦ rw waits tt
  | inr fails ↦ rw fails (stops false (waiting k) wait_error c1 c2 m tt inv)
]
parent_step-Inv a reading1 c1 c2 m inv = reading1-Inv c1 c2 m (read a m) (read-Took a m) inv
parent_step-Inv a (reading2 res1) c1 c2 m inv =
    reading2-Inv res1 c1 c2 m (read a m) (read-Took a m) inv
parent_step-Inv a (testing none res2) c1 c2 m inv =
    stops false (testing none res2) read_error c1 c2 m tt inv
parent_step-Inv a (testing (some x) none) c1 c2 m inv = record {
  at = tt;
  not_yet1 = inv.not_yet1;
  not_yet2 = inv.not_yet2;
  fine = AllFine-append m.out (messages (some x) none) inv.fine tt;
}
parent_step-Inv a (testing (some x) (some y)) c1 c2 m inv = record {
  at = tt;
  not_yet1 = inv.not_yet1;
  not_yet2 = inv.not_yet2;
  fine = AllFine-append m.out (messages (some x) (some y)) inv.fine inv.at;
}
parent_step-Inv a finishing c1 c2 m inv = elim (Bool-cases (close_fails a)) [
  | inl fails ↦ rw fails (stops false finishing close_error c1 c2 m tt inv)
  | inr closes ↦ rw closes (moves (returned true) inv tt)
]
parent_step-Inv a (returned success) c1 c2 m inv = tt
