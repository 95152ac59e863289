-- ===== src/Forks/Knowing.antt =====
-- What the children of prog1.c know of their parent, and what they print of it.
use os_bmstu.Common.{ℕ, ◌≡◌, refl, Bool, true, false, Option, none, some, List, [], ◌∷◌, ◌++◌}
use os_bmstu.Forks.{
  Program, prog1, prog3, wait_prog, Answers, parent_id, adopter_id, Child, unborn, saving,
  greeting_saved, spinning, leaving, greeting, executing, showing, exited, reaped, Parent, Output,
  after_parent_exit, gone, first_line, after_greeting, after_execl, child_step,
}
use os_bmstu.Forks.System.{System}

abbrev pub Fine : Bool → Output → Type 0
Fine orphan (after_parent_exit n id) = (orphan ≡ true) × (id ≡ adopter_id)
Fine orphan _ = Unit {0}

abbrev pub AllFine : Bool → List Output → Type 0
AllFine orphan [] = Unit {0}
AllFine orphan (o ∷ out) = Fine orphan o × AllFine orphan out

-- A child of a parent that lives has its parent's id in PPID, and has not seen it change.
abbrev pub Knows : Bool → Child → Type 0
Knows true c = Unit {0}
Knows false (greeting_saved ppid) = ppid ≡ parent_id
Knows false (spinning ppid) = ppid ≡ parent_id
Knows false leaving = ⊥
Knows false _ = Unit {0}

pub AllFine-snoc :
    (orphan : Bool) (out : List Output) (o : Output)
    → AllFine orphan out
    → Fine orphan o
    → AllFine orphan (out ++ o ∷ [])
AllFine-snoc orphan [] o fine f = (f, tt)
AllFine-snoc orphan (x ∷ out) o (first, fine) f = (first, AllFine-snoc orphan out o fine f)

Fine-gone : (orphan : Bool) (o : Output) → Fine orphan o → Fine true o
Fine-gone orphan (after_parent_exit n id) fine = (refl, fine.1)
Fine-gone orphan Output.parent_info fine = tt
Fine-gone orphan (Output.child_info n id) fine = tt
Fine-gone orphan (Output.child_exited success) fine = tt
Fine-gone orphan (Output.demo_line n l) fine = tt
Fine-gone orphan Output.exec_error fine = tt
Fine-gone orphan Output.fork_error fine = tt
Fine-gone orphan Output.wait_error fine = tt

pub AllFine-gone : (orphan : Bool) (out : List Output) → AllFine orphan out → AllFine true out
AllFine-gone orphan [] fine = tt
AllFine-gone orphan (o ∷ out) (first, fine) =
    (Fine-gone orphan o first, AllFine-gone orphan out fine)

abbrev pub KeepsKnowing : Bool → Option (Child × List Output) → Type 0
KeepsKnowing orphan none = Unit {0}
KeepsKnowing orphan (some (c, out)) = Knows orphan c × AllFine orphan out

pub first_line-Knows : (p : Program) (orphan : Bool) → Knows orphan (first_line p)
first_line-Knows p true = tt
first_line-Knows prog1 false = tt
first_line-Knows prog3 false = tt
first_line-Knows wait_prog false = tt

after_greeting-Knows : (p : Program) (orphan : Bool) → Knows orphan (after_greeting p)
after_greeting-Knows p true = tt
after_greeting-Knows prog1 false = tt
after_greeting-Knows prog3 false = tt
after_greeting-Knows wait_prog false = tt

pub child_step-Knows :
    (p : Program) (a : Answers) (n : ℕ) (orphan : Bool) (c : Child) (out : List Output)
    → Knows orphan c
    → AllFine orphan out
    → KeepsKnowing orphan (child_step p a n orphan c out)
unfolding child_step
child_step-Knows p a n orphan unborn out k f = tt
child_step-Knows p a n true saving out k f = (tt, f)
child_step-Knows p a n false saving out k f = (refl, f)
child_step-Knows p a n true (greeting_saved ppid) out k f = (tt, AllFine-snoc true out _ f tt)
child_step-Knows p a n false (greeting_saved ppid) out k f = (k, AllFine-snoc false out _ f tt)
child_step-Knows p a n true (spinning ppid) out k f = (tt, f)
child_step-Knows p a n false (spinning ppid) out k f = rw k (refl, f)
child_step-Knows p a n true leaving out k f = (tt, AllFine-snoc true out _ f (refl, refl))
child_step-Knows p a n false leaving out k f = absurd k
child_step-Knows p a n orphan greeting out k f =
    (after_greeting-Knows p orphan, AllFine-snoc orphan out _ f tt)
child_step-Knows p a n orphan executing out k f = execs orphan a.exec f
  where
    execs : (b e : Bool) → AllFine b out → KeepsKnowing b (some (after_execl e out))
    execs true true f' = (tt, f')
    execs true false f' = (tt, AllFine-snoc true out _ f' tt)
    execs false true f' = (tt, f')
    execs false false f' = (tt, AllFine-snoc false out _ f' tt)
child_step-Knows p a n true (showing []) out k f = (tt, f)
child_step-Knows p a n false (showing []) out k f = (tt, f)
child_step-Knows p a n true (showing (l ∷ ls)) out k f = (tt, AllFine-snoc true out _ f tt)
child_step-Knows p a n false (showing (l ∷ ls)) out k f = (tt, AllFine-snoc false out _ f tt)
child_step-Knows p a n orphan (exited success) out k f = tt
child_step-Knows p a n orphan reaped out k f = tt

pub record Inv (s : System) : Type 0 where
  pub knows1 : Knows (gone s.parent) s.child1
  pub knows2 : Knows (gone s.parent) s.child2
  pub fine : AllFine (gone s.parent) s.out

abbrev pub KeepsInv : Option System → Type 0
KeepsInv none = Unit {0}
KeepsInv (some s) = Inv s

-- Where the parent goes on to any line.
pub move-Inv :
    (l : Parent) (c1 c2 : Child) (out : List Output)
    → Knows false c1
    → Knows false c2
    → AllFine false out
    → Inv (record { parent = l; child1 = c1; child2 = c2; out = out })
move-Inv l c1 c2 out k1 k2 f = moves (gone l) refl
  where
    moves :
        (b : Bool) → gone l ≡ b → Inv (record { parent = l; child1 = c1; child2 = c2; out = out })
    moves true e = record {
      knows1 = rw e tt;
      knows2 = rw e tt;
      fine = rw e (AllFine-gone false out f);
    }
    moves false e = record { knows1 = rw e k1; knows2 = rw e k2; fine = rw e f }
