-- ===== src/Pipe/Content.antt =====
-- What holds of the pipe and of the output at every line of prog4.c and prog5.c.
use os_bmstu.Common.{ℕ, ◌+◌, ◌≡◌, ◌⊎◌, Bool, true, false, Option, none, some, List, [], ◌∷◌, ◌++◌}
use os_bmstu.Pipe.{
  message, Child, unborn, writing, reaped, Parent, forking1, forking2, waiting, reading1, reading2,
  testing, returned, Output, messages, Shared, say,
}
use os_bmstu.Pipe.System.{System}

-- The two messages, in one order or the other.
abbrev pub BothMessages : List ℕ → List ℕ → Type 0
BothMessages x y = ((x ≡ message 1) × (y ≡ message 2)) ⊎ ((x ≡ message 2) × (y ≡ message 1))

-- The pipe, by whose message went into it.
abbrev pub Content : Bool → Bool → List ℕ → Type 0
Content false false pipe = pipe ≡ []
Content true false pipe = pipe ≡ message 1
Content false true pipe = pipe ≡ message 2
Content true true pipe = (pipe ≡ message 1 ++ message 2) ⊎ (pipe ≡ message 2 ++ message 1)

-- A child that has yet to write has not sent.
abbrev pub NotYet : Child → Bool → Type 0
NotYet unborn sent = sent ≡ false
NotYet writing sent = sent ≡ false
NotYet c sent = Unit {0}

abbrev pub unreaped : Child → ℕ
unreaped reaped = 0
unreaped c = 1

-- What holds at a line of the parent.
abbrev pub At : Parent → Child → Child → Shared → Type 0
At forking1 c1 c2 m = Content m.sent1 m.sent2 m.pipe × (c1 ≡ unborn) × (c2 ≡ unborn)
At forking2 c1 c2 m = Content m.sent1 m.sent2 m.pipe × (unreaped c1 ≡ 1) × (c2 ≡ unborn)
At (waiting k) c1 c2 m = Content m.sent1 m.sent2 m.pipe × (unreaped c1 + unreaped c2 ≡ k)
At reading1 c1 c2 m = Content m.sent1 m.sent2 m.pipe × (c1 ≡ reaped) × (c2 ≡ reaped)
At (reading2 none) c1 c2 m = (c1 ≡ reaped) × (c2 ≡ reaped)
At (reading2 (some x)) c1 c2 m =
    ((m.pipe ≡ []) ⊎ BothMessages x m.pipe) × (c1 ≡ reaped) × (c2 ≡ reaped)
At (testing (some x) (some y)) c1 c2 m = BothMessages x y
At l c1 c2 m = Unit {0}

-- A line that is printed.
abbrev pub Fine : Output → Type 0
Fine (messages none res2) = ⊥
Fine (messages (some x) (some y)) = BothMessages x y
Fine o = Unit {0}

abbrev pub AllFine : List Output → Type 0
AllFine [] = Unit {0}
AllFine (o ∷ out) = Fine o × AllFine out

pub AllFine-append :
    (out : List Output) (o : Output) → AllFine out → Fine o → AllFine (out ++ o ∷ [])
AllFine-append [] o all fine = (fine, tt)
AllFine-append (x ∷ out) o (first, all) fine = (first, AllFine-append out o all fine)

pub record Inv (s : System) : Type 0 where
  pub at : At s.parent s.child1 s.child2 s.shared
  pub not_yet1 : NotYet s.child1 s.shared.sent1
  pub not_yet2 : NotYet s.child2 s.shared.sent2
  pub fine : AllFine s.shared.out

abbrev pub InvBy : Option System → Type 0
InvBy none = Unit {0}
InvBy (some s) = Inv s

abbrev pub sys : Parent → Child → Child → Shared → System
sys l c1 c2 m = record { parent = l; child1 = c1; child2 = c2; shared = m }

-- A line without messages, at a parent that has nothing more to do with the pipe.
pub stops :
    (success : Bool) (l : Parent) (o : Output) (c1 c2 : Child) (m : Shared)
    → Fine o
    → Inv (sys l c1 c2 m)
    → Inv (sys (returned success) c1 c2 (say o m))
stops success l o c1 c2 m fine inv = record {
  at = tt;
  not_yet1 = inv.not_yet1;
  not_yet2 = inv.not_yet2;
  fine = AllFine-append m.out o inv.fine fine;
}

-- The parent goes on, and nothing else changes.
pub moves :
    (l' : Parent) {l : Parent} {c1 c2 : Child} {m : Shared}
    → Inv (sys l c1 c2 m)
    → At l' c1 c2 m
    → Inv (sys l' c1 c2 m)
moves l' inv at = record {
  at = at;
  not_yet1 = inv.not_yet1;
  not_yet2 = inv.not_yet2;
  fine = inv.fine;
}
