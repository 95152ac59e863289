-- ===== src/SeqFile/Fifo.antt =====
-- A client of lab4_seq_file sees a queue: every message once, in the order of the writes.
use mathlib.Core.Option
use mathlib.Core.Path.{subst}
use os_bmstu.Common.{
  ℕ, zero, suc, ◌+◌, ◌-◌, ◌<◌, ◌^◌, ◌≡◌, refl, Option, some, List, [], ◌∷◌, ◌++◌, length, arith,
  length-append, true, ap,
}
use os_bmstu.Memory.{zeros}
use os_bmstu.Memory.Laws.{length-zeros}
use os_bmstu.Memory.UserCopy.{CopyFromUser}
use os_bmstu.ProcFs.{Calls, nothing}
use os_bmstu.SeqFile.{
  Module, Written, count, my_write, my_show, fortune_init, loaded, SeqPrintf, printed,
}
use os_bmstu.SeqFile.Queue.{IsMessage, Holds, my_write-Holds, my_show-Holds, my_show-empty, encode}

-- A client writes a text and one more byte (the newline of `echo`), or has the file shown.
pub data Op : Type 0 where
  write : (body : List ℕ) → (last : ℕ) → Op
  show : Op

pub data Reply : Type 0 where
  written : Written → Reply
  shown : Option (ℕ × List ℕ) → Reply

-- The module's answers; `none` once an access leaves the pot.
unfoldable pub run : CopyFromUser → SeqPrintf → Module → List Op → Option (List Reply)
run copy printf m [] = some []
run copy printf m (write body last ∷ ops) =
    Option.bind (my_write copy (body ++ last ∷ []) m)
      λ (w, m'). Option.map (λ rs. written w ∷ rs) (run copy printf m' ops)
run copy printf m (show ∷ ops) =
    Option.bind (my_show printf m)
      λ (line, m'). Option.map (λ rs. shown line ∷ rs) (run copy printf m' ops)

-- A queue of messages, with the number of bytes that went through it.
unfoldable pub queue_run : ℕ → List (List ℕ) → List Op → List Reply
queue_run index q [] = []
queue_run index q (write body last ∷ ops) =
    written (count (length body + 1)) ∷ queue_run index (q ++ body ∷ []) ops
queue_run index [] (show ∷ ops) = shown (some (index, [])) ∷ queue_run index [] ops
queue_run index (s ∷ q) (show ∷ ops) =
    shown (some (index, s)) ∷ queue_run (index + (length s + 1)) q ops

-- The bytes of the line beside the message: "Index is ", at most ten digits, ", message is " and the
-- newline.
abbrev pub line_extra : ℕ
line_extra = 33

-- What is documented of seq_printf: a line that is shorter than the page is not discarded.
abbrev pub TakesLines : ℕ → SeqPrintf → Type 0
TakesLines page printf =
    (index : ℕ) (message : List ℕ)
    → index < 2 ^ 32
    → length message + line_extra < page
    → printf index message ≡ true

-- The writes are of messages whose lines are shorter than the page, and leave a byte of the pot free.
abbrev pub Fits : ℕ → ℕ → List Op → Type 0
Fits page free [] = Unit {0}
Fits page free (write body last ∷ ops) =
    IsMessage body
    × (length body + line_extra < page)
    × (length body + 1 < free)
    × Fits page (free - (length body + 1)) ops
Fits page free (show ∷ ops) = Fits page free ops

-- Every message of the queue has a line shorter than the page.
abbrev pub AllShort : ℕ → List (List ℕ) → Type 0
AllShort page [] = Unit {0}
AllShort page (s ∷ q) = (length s + line_extra < page) × AllShort page q

AllShort-more :
    (page : ℕ) (q : List (List ℕ)) (s : List ℕ)
    → AllShort page q
    → length s + line_extra < page
    → AllShort page (q ++ s ∷ [])
AllShort-more page [] s all short = (short, tt)
AllShort-more page (t ∷ q) s all short = (all.0, AllShort-more page q s all.1 short)

read_index-small :
    {m : Module} {q : List (List ℕ)} {free : ℕ} → Holds m q free → m.read_index < 2 ^ 32
read_index-small {m} {q} {free} h =
    omega
      (arith, h.read_at, h.small, ap length h.layout, length-append h.past (encode q ++ zeros free))

delivered :
    (page : ℕ) (printf : SeqPrintf) (index : ℕ) (s : List ℕ)
    → TakesLines page printf
    → index < 2 ^ 32
    → length s + line_extra < page
    → printed printf index s ≡ some (index, s)
delivered page printf index s takes small short = rw (takes index s small short) refl

run-queue :
    (copy : CopyFromUser) (printf : SeqPrintf) (page : ℕ)
    → ((bytes : List ℕ) → copy bytes ≡ (bytes, 0))
    → TakesLines page printf
    → line_extra < page
    → (ops : List Op) (m : Module) (q : List (List ℕ)) (free : ℕ) → 0 < free
    → Holds m q free
    → AllShort page q
    → Fits page free ops
    → run copy printf m ops ≡ some (queue_run m.read_index q ops)
unfolding run queue_run Option.bind
run-queue copy printf page copied takes wide [] m q free some_free h short fits = refl
run-queue copy printf page copied takes wide (write body last ∷ ops) m q free some_free h short
      (good, brief, room, fits) =
    let spare : ℕ = free - (length body + 1) in
    let enough : free ≡ length body + 1 + spare = omega arith in
    let (m', e, same, h') =
      my_write-Holds copy m q spare body last (copied (body ++ last ∷ [])) good
        (subst (λ k. Holds m q k) enough h) in
    let rest =
      run-queue copy printf page copied takes wide ops m' (q ++ body ∷ []) spare (omega arith) h'
        (AllShort-more page q body short brief) fits in
    rw (e, rest, same) refl
run-queue copy printf page copied takes wide (show ∷ ops) m [] (suc free) some_free h short fits =
    rw
      (
        my_show-empty printf m free h,
        delivered page printf m.read_index [] takes (read_index-small h) (omega arith),
        run-queue copy printf page copied takes wide ops m [] (suc free) some_free h short fits,
      )
      refl
run-queue copy printf page copied takes wide (show ∷ ops) m [] zero some_free h short fits =
    absurd (omega arith)
run-queue copy printf page copied takes wide (show ∷ ops) m (s ∷ q) free some_free h (brief, short)
      fits =
    let (m', e, next, h') = my_show-Holds printf m s q free h in
    rw
      (
        e,
        delivered page printf m.read_index s takes (read_index-small h) brief,
        run-queue copy printf page copied takes wide ops m' q free some_free h' short fits,
        next,
      )
      refl

fresh-Holds :
    (page : ℕ)
    → page < 2 ^ 32
    → Holds (record { str = zeros page; write_index = 0; read_index = 0 }) [] page
fresh-Holds page small = record {
  past = [];
  layout = refl;
  read_at = refl;
  write_end = refl;
  messages = tt;
  small = omega (arith, length-zeros page);
}

-- From loading on, while the copies from user space succeed, while seq_printf takes every line that is
-- shorter than the page, and while the written messages are not empty, hold no byte 0, are at least 34
-- bytes shorter than the page, and leave a byte of the pot free: the module answers every sequence of
-- writes and shows as a queue does, no message is lost, doubled or reordered, and no access leaves the
-- pot.
pub messages_fifo :
    (copy : CopyFromUser) (printf : SeqPrintf)
    → ((bytes : List ℕ) → copy bytes ≡ (bytes, 0))
    → (page : ℕ) (calls : Calls) (m : Module) (ops : List Op)
    → (fortune_init page calls nothing).0 ≡ loaded m
    → TakesLines page printf
    → page < 2 ^ 32
    → line_extra < page
    → Fits page page ops
    → run copy printf m ops ≡ some (queue_run 0 [] ops)
unfolding fortune_init
messages_fifo copy printf copied page calls m ops e takes small wide fits =
    let at_start = fresh_module page calls m e in
    rw at_start (
      run-queue copy printf page copied takes wide ops _ [] page (omega arith)
        (fresh-Holds page small) tt fits)
  where
    fresh_module :
        (page : ℕ) (calls : Calls) (m : Module)
        → (fortune_init page calls nothing).0 ≡ loaded m
        → m ≡ record { str = zeros page; write_index = 0; read_index = 0 }
    fresh_module page calls m e = ground arith
