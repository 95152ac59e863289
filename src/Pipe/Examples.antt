-- ===== src/Pipe/Examples.antt =====
-- Runs of prog4.c, and the theorem at one of them.
use os_bmstu.Common.{suc, ◌≡◌, ◌⊎◌, refl, true, false, Option, none, some, List, [], ◌∷◌}
use os_bmstu.Pipe.{
  message, prog4, Answers, Child, exited, Parent, waiting, reading1, messages, sent_message,
  child_exited, Shared, child1_step, child2_step,
}
use os_bmstu.Pipe.System.{
  System, parent_step, by_parent, by_child1, by_child2, reaps1, reaps2, Reach, start, later,
}
use os_bmstu.Pipe.Delivery.{messages_delivered}

-- A state of prog4.c that is reached.
record Run : Type 0 where
  last : System
  reach : Reach prog4 last

abbrev all_succeed : Answers
all_succeed = record {
  write = true;
  close_in = true;
  close_out = true;
  fork = true;
  wait = true;
  read = true;
}

-- Who executes the next line, and what the calls answer.
data Turn : Type 0 where
  parent : Answers → Turn
  child1 : Answers → Turn
  child2 : Answers → Turn
  reap1 : Turn
  reap2 : Turn

parent_turn :
    (r : Run) (a : Answers) (o : Option System)
    → parent_step a r.last.parent r.last.child1 r.last.child2 r.last.shared ≡ o
    → Run
parent_turn r a none e = r
parent_turn r a (some s) e = record { last = s; reach = later r.reach (by_parent a e) }

child1_turn :
    (r : Run) (a : Answers) (o : Option (Child × Shared))
    → child1_step prog4 a r.last.child1 r.last.shared ≡ o
    → Run
child1_turn r a none e = r
child1_turn r a (some (c, m)) e = record {
  last = _;
  reach = later r.reach (by_child1 a c m e refl);
}

child2_turn :
    (r : Run) (a : Answers) (o : Option (Child × Shared))
    → child2_step a r.last.child2 r.last.shared ≡ o
    → Run
child2_turn r a none e = r
child2_turn r a (some (c, m)) e = record {
  last = _;
  reach = later r.reach (by_child2 a c m e refl);
}

reap1_turn : (r : Run) (l : Parent) (c : Child) → r.last.parent ≡ l → r.last.child1 ≡ c → Run
reap1_turn r (waiting (suc k)) (exited success) e e' = record {
  last = _;
  reach = later r.reach (reaps1 k success e e' refl);
}
reap1_turn r l c e e' = r

reap2_turn : (r : Run) (l : Parent) (c : Child) → r.last.parent ≡ l → r.last.child2 ≡ c → Run
reap2_turn r (waiting (suc k)) (exited success) e e' = record {
  last = _;
  reach = later r.reach (reaps2 k success e e' refl);
}
reap2_turn r l c e e' = r

turn : Run → Turn → Run
unfolding parent_turn child1_turn child2_turn reap1_turn reap2_turn parent_step child1_step
    child2_step
turn r (parent a) = parent_turn r a _ refl
turn r (child1 a) = child1_turn r a _ refl
turn r (child2 a) = child2_turn r a _ refl
turn r reap1 = reap1_turn r _ _ refl refl
turn r reap2 = reap2_turn r _ _ refl refl

run : Run → List Turn → Run
unfolding turn
run r [] = r
run r (t ∷ ts) = run (turn r t) ts

abbrev forks : Run
forks = run (record { last = _; reach = start }) (parent all_succeed ∷ parent all_succeed ∷ [])

-- The second child is the first to write.
abbrev both_sent : Run
both_sent = run forks (
    child2 all_succeed
    ∷ child1 all_succeed
    ∷ child1 all_succeed
    ∷ child2 all_succeed
    ∷ reap1
    ∷ reap2
    ∷ [])

abbrev printed : Run
printed = run both_sent (parent all_succeed ∷ parent all_succeed ∷ parent all_succeed ∷ [])

messages_delivered_example :
    ((message 2 ≡ message 1) × (message 1 ≡ message 2))
    ⊎ ((message 2 ≡ message 2) × (message 1 ≡ message 1))
unfolding run
messages_delivered_example =
    messages_delivered prog4 printed.last
      (sent_message 2 ∷ sent_message 1 ∷ child_exited true ∷ child_exited true ∷ []) [] (message 2)
      (message 1) printed.reach refl

-- The second read fails; its buffer, which no call has written, is printed all the same.
abbrev second_fails : Run
second_fails =
    run both_sent
      (parent all_succeed ∷ parent (record all_succeed { read = false }) ∷ parent all_succeed ∷ [])

unread_buffer_printed :
    second_fails.last.shared.out
    ≡ sent_message 2
      ∷ sent_message 1
      ∷ child_exited true
      ∷ child_exited true
      ∷ messages (some (message 2)) none
      ∷ []
unfolding run
unread_buffer_printed = refl

-- No child writes: the parent sleeps in read, since its own descriptor keeps the pipe open.
abbrev none_sent : Run
none_sent = run forks (
    child1 (record all_succeed { write = false })
    ∷ child2 (record all_succeed { write = false })
    ∷ reap1
    ∷ reap2
    ∷ [])

parent_sleeps :
    (none_sent.last.parent ≡ reading1)
    × (parent_step all_succeed none_sent.last.parent none_sent.last.child1 none_sent.last.child2
          none_sent.last.shared
        ≡ none)
unfolding run parent_step
parent_sleeps = (refl, refl)
