-- ===== src/Streams/LastCloser.antt =====
-- What main3.c and th3.c of lab5 leave in the file: the letters of the stream that is closed last.
use mathlib.Core.Path.{subst}
use mathlib.Core.Bool.{or_comm, and_comm}
use mathlib.Core.List.{append-nil, append_assoc}
use os_bmstu.Common.{
  ℕ, zero, suc, ◌+◌, ◌*◌, ◌-◌, ◌≤◌, ◌≡◌, ◌⊎◌, ◌∙◌, refl, sym, ap, Bool, true, false, ◌&&◌, ◌||◌,
  Option, none, some, List, [], ◌∷◌, ◌++◌, arith, inl, inr, ltb, Bool-cases,
}
use os_bmstu.Streams.Writers.{
  Line, opening, sizing, looping, closing, sizing_again, ended, failed, Writer, Shared, step_at,
  System, Step, by_main, by_thread, Reach, start, later, flush, main3,
}

-- `n` letters from `i` on, every other one.
abbrev pub letters : ℕ → ℕ → List ℕ
letters zero i = []
letters (suc n) i = (b'a' + i) ∷ letters n (i + 2)

-- main3.c, once its two streams are open, leaves 13 of the 26 letters in the file, whatever was in
-- it: those of fd1, which is closed last, at the place of those of fd2.
pub main3-letters :
    (file : List ℕ)
    → main3 true true file
      ≡ record { success = true; sizes = 0 ∷ 0 ∷ 13 ∷ 13 ∷ []; file = letters 13 0 }
unfolding main3
main3-letters file = refl

-- The buffer of a writer at a line: the letters that it has put so far.
abbrev BufAt : ℕ → Line → List ℕ → Type 0
BufAt first (looping i) buf =
    (k : ℕ) × (k ≤ 13) × (i ≡ first + 2 * k) × (buf ++ letters (13 - k) i ≡ letters 13 first)
BufAt first closing buf = buf ≡ letters 13 first
BufAt first sizing buf = buf ≡ []
BufAt first l buf = Unit {0}

-- The file holds the letters of one stream.
abbrev pub Half : List ℕ → Type 0
Half file = (file ≡ letters 13 0) ⊎ (file ≡ letters 13 1)

abbrev started : Line → Bool
started opening = false
started failed = false
started l = true

abbrev closed : Line → Bool
closed sizing_again = true
closed ended = true
closed l = false

-- The file at the lines of two writers: once one has opened it, it is empty or holds the letters of
-- one of them, and once both have closed it, it is not empty.
record Fine (l other : Line) (file : List ℕ) : Type 0 where
  small : ((started l || started other) ≡ false) ⊎ ((file ≡ []) ⊎ Half file)
  half : ((closed l && closed other) ≡ false) ⊎ Half file

Fine-swap : (l other : Line) (file : List ℕ) → Fine l other file → Fine other l file
Fine-swap l other file f = record {
  small = rw⁻¹ (or_comm (started l) (started other)) f.small;
  half = rw⁻¹ (and_comm (closed l) (closed other)) f.half;
}

letters_left : (k i : ℕ) → k ≤ 12 → letters (13 - k) i ≡ (b'a' + i) ∷ letters (13 - (k + 1)) (i + 2)
letters_left k i few = let one_more : 13 - k ≡ suc (13 - (k + 1)) = omega arith in rw one_more refl

-- A writer that has opened the file.
touched :
    (a b : Bool) (file : List ℕ)
    → ((a || b) ≡ false) ⊎ ((file ≡ []) ⊎ Half file)
    → a ≡ true
    → (file ≡ []) ⊎ Half file
touched a b file (inl none_yet) opened = absurd (ground arith)
touched a b file (inr small) opened = small

-- A writer whose loop begins at 0 or 1.
module _ (first : ℕ) (low : first ≤ 1) (mine : Half (letters 13 first)) where
  flush-letters :
      (buf file : List ℕ)
      → buf ≡ letters 13 first
      → (file ≡ []) ⊎ Half file
      → flush buf file ≡ letters 13 first
  flush-letters buf file e (inl empty) = rw (e, empty) refl
  flush-letters buf file e (inr (inl even)) = rw (e, even) refl
  flush-letters buf file e (inr (inr odd)) = rw (e, odd) refl

  abbrev Keeps : Line → Option (Writer × Shared) → Type 0
  Keeps other none = Unit {0}
  Keeps other (some (w, m)) = BufAt first w.line w.buf × Fine w.line other m.file

  step_at-Keeps :
      (opens : Bool) (l : Line) (buf : List ℕ) (m : Shared) (other : Line)
      → BufAt first l buf
      → Fine l other m.file
      → Keeps other (step_at first opens l buf m)
  unfolding step_at
  step_at-Keeps true opening buf m other b f =
      (refl, record { small = inr (inl refl); half = inl refl })
  step_at-Keeps false opening buf m other b f = (tt, record { small = f.small; half = inl refl })
  step_at-Keeps opens sizing buf m other b f =
      ((0, omega arith, omega arith, rw b refl), record { small = f.small; half = inl refl })
  step_at-Keeps opens (looping i) buf m other (k, few, at, e) f = elim (Bool-cases (ltb i 26)) [
    | inl more ↦
        let few' : k ≤ 12 = ground arith in
        rw more (
          (
            k + 1,
            omega arith,
            omega arith,
            append_assoc buf ((b'a' + i) ∷ []) (letters (13 - (k + 1)) (i + 2))
                ∙ ap (λ l. buf ++ l) (sym (letters_left k i few'))
                ∙ e,
          ),
          record { small = f.small; half = inl refl },
        )
    | inr done ↦
        let all : 13 - k ≡ 0 = ground arith in
        rw done (
          sym (append-nil buf) ∙ ap (λ n. buf ++ letters n i) (sym all) ∙ e,
          record { small = f.small; half = inl refl },
        )
  ]
  step_at-Keeps opens closing buf m other b f =
      let whole = flush-letters buf m.file b (touched _ (started other) m.file f.small refl) in
      (tt, record { small = inr (inr (rw whole mine)); half = inr (rw whole mine) })
  step_at-Keeps opens sizing_again buf m other b f = (tt, record { small = f.small; half = f.half })
  step_at-Keeps opens ended buf m other b f = tt
  step_at-Keeps opens failed buf m other b f = tt

record Inv (s : System) : Type 0 where
  main_buf : BufAt 0 s.main.line s.main.buf
  thread_buf : BufAt 1 s.thread.line s.thread.buf
  fine : Fine s.main.line s.thread.line s.shared.file

Step-Inv : (s t : System) → Step s t → Inv s → Inv t
Step-Inv s t (by_main opens w m e same) inv =
    let (buf, fine) = subst (Keeps 0 (omega arith) (inl refl) s.thread.line) e (
      step_at-Keeps 0 (omega arith) (inl refl) opens s.main.line s.main.buf s.shared s.thread.line
        inv.main_buf inv.fine) in
    rw same (record { main_buf = buf; thread_buf = inv.thread_buf; fine = fine })
Step-Inv s t (by_thread opens w m e same) inv =
    let (buf, fine) = subst (Keeps 1 (omega arith) (inr refl) s.main.line) e (
      step_at-Keeps 1 (omega arith) (inr refl) opens s.thread.line s.thread.buf s.shared s.main.line
        inv.thread_buf (Fine-swap s.main.line s.thread.line s.shared.file inv.fine)) in
    rw same (record {
      main_buf = inv.main_buf;
      thread_buf = buf;
      fine = Fine-swap w.line s.main.line m.file fine;
    })

Reach-Inv : (file : List ℕ) (s : System) → Reach file s → Inv s
Reach-Inv file s start = record {
  main_buf = tt;
  thread_buf = tt;
  fine = record { small = inl refl; half = inl refl };
}
Reach-Inv file s (later {s = before} r st) = Step-Inv before s st (Reach-Inv file before r)

-- In th3.c, in whichever order main and the thread execute their lines, and whatever the file held
-- before: once both have opened the file and closed it, it holds exactly the 13 letters of one of
-- them, and none of the other's.
pub half_is_lost :
    (file : List ℕ) (s : System)
    → Reach file s
    → s.main.line ≡ ended
    → s.thread.line ≡ ended
    → (s.shared.file ≡ letters 13 0) ⊎ (s.shared.file ≡ letters 13 1)
half_is_lost file s r main_ends thread_ends =
    let closed_both : (closed s.main.line && closed s.thread.line) ≡ true =
      rw (main_ends, thread_ends) refl in
    last (closed s.main.line && closed s.thread.line) (Reach-Inv file s r).fine.half closed_both
  where
    last : (b : Bool) → (b ≡ false) ⊎ Half s.shared.file → b ≡ true → Half s.shared.file
    last b (inl open_yet) shut = absurd (ground arith)
    last b (inr half) shut = half
