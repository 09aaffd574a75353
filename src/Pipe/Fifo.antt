-- ===== src/Pipe/Fifo.antt =====
-- A pipe of kernel/pipe.c passes on the bytes in the order in which they were written, however the
-- turns of the readers, the writers, the signals and the closings follow each other.
use mathlib.Core.Path.{subst}
use aurora_os.Prelude.{
  ℕ, ◌-◌, ◌≤◌, ◌≡◌, refl, sym, ap, ◌∙◌, Option, none, some, List, [], ◌++◌, arith, length, ltb, not,
  ◌&&◌, Bool-cases, Option-cases, inl, inr, append-nil, append_assoc,
}
use aurora_os.Circular.Copy.{slice}
use aurora_os.Pipe.{
  PipeRing, World, TaskState, PipeEnd, copy_in, copy_out, at_most, ReadTurn, got, end_of_file,
  reader_waits, WriteTurn, wrote, broken, writer_waits, read_turn, write_turn, read_interrupted,
  write_interrupted, pipe_close, wake_all, unlink, block_reader, block_writer, update, close_end,
  read_end, write_end,
}
use aurora_os.Pipe.Contents.{
  IsValid, contents, at_most-eq-min, copy_in-IsValid, copy_in-contents, copy_out-IsValid,
  copy_out-contents,
}

-- The bytes that a turn takes over from a writer, and those that it gives to a reader.
unfoldable pub accepted : List ℕ → ℕ → WriteTurn → List ℕ
accepted src total (wrote n) = slice src total n
accepted src total broken = []
accepted src total writer_waits = []

unfoldable pub delivered : ReadTurn → List ℕ
delivered (got bytes) = bytes
delivered end_of_file = []
delivered reader_waits = []

abbrev Written : List ℕ → ℕ → World → WriteTurn → World → Type 0
Written src total before o after =
    IsValid after.ring × (contents after.ring ≡ contents before.ring ++ accepted src total o)

abbrev Delivers : World → ReadTurn → World → Type 0
Delivers before o after =
    IsValid after.ring × (contents before.ring ≡ delivered o ++ contents after.ring)

-- The lists of tasks and the two flags have no part in what a ring holds.
relinked-IsValid :
    {r s : PipeRing}
    → s.buf ≡ r.buf
    → s.head ≡ r.head
    → s.tail ≡ r.tail
    → s.count ≡ r.count
    → IsValid r
    → IsValid s
relinked-IsValid b h t c v = record {
  size = ap length b ∙ v.size;
  head_low = omega arith;
  count_low = omega arith;
  tail_place = omega (arith, v.tail_place);
}

-- The one outcome of an operation.
outcome {ℓ} :
    {A : Type ℓ} (P : A → World → Type 0) {answer : Option (A × World)} {o o' : A} {w w' : World}
    → answer ≡ some (o, w)
    → answer ≡ some (o', w')
    → P o w
    → P o' w'
outcome {A = A} P {o = o} {w = w} e e' p =
    let default : A × World = (o, w) in
    let same = ap (λ x. elim x [ none ↦ default | some y ↦ y ]) (sym e ∙ e') in
    subst (λ y. P (y.0) (y.1)) same p

pub no_outcome {ℓ} :
    {A : Type ℓ} {P : Type 0} {answer : Option A} {a : A} → answer ≡ none → answer ≡ some a → P
no_outcome e e' = absurd (cc)

module _ (w : World) (v : IsValid w.ring) (fuel task : ℕ) where
  write_turn-Written :
      (src : List ℕ) (total count : ℕ) (w' : World) (o : WriteTurn)
      → write_turn fuel task src total count w ≡ some (o, w')
      → Written src total w o w'
  unfolding write_turn accepted
  write_turn-Written src total count w' o e =
      let n = at_most (4096 - w.ring.count) (count - total) in
      let few : n ≤ 4096 - w.ring.count =
        omega (arith, at_most-eq-min (4096 - w.ring.count) (count - total)) in
      let same : contents w.ring ≡ contents w.ring ++ [] = sym (append-nil _) in
      let P = Written src total w in
      let answer = write_turn fuel task src total count w in
      elim (Bool-cases (ltb w.ring.count 4096)) [
        | inl room ↦ elim (Option-cases (wake_all fuel w.next w.ring.blocked_readers w.states)) [
          | inl endless ↦
              let none_here : answer ≡ none = rw (room, endless, write_turn) in
              no_outcome none_here e
          | inr (states, woken) ↦
              let ring = record (copy_in src total n w.ring) { blocked_readers = none } in
              let here : answer ≡ some (wrote n, record w { ring = ring; states = states }) =
                rw (room, woken, write_turn) in
              outcome P here e (
                relinked-IsValid refl refl refl refl (copy_in-IsValid w.ring v src total n few),
                copy_in-contents w.ring v src total n few,
              )
        ]
        | inr full ↦ elim (Bool-cases w.ring.read_open) [
          | inl opened ↦
              let here : answer ≡ some (writer_waits, block_writer task w) =
                rw (full, opened, write_turn) in
              outcome P here e (relinked-IsValid refl refl refl refl v, same)
          | inr shut ↦
              let here : answer ≡ some (broken, w) = rw (full, shut, write_turn) in
              outcome P here e (v, same)
        ]
      ]

  read_turn-Delivers :
      (count : ℕ) (w' : World) (o : ReadTurn)
      → read_turn fuel task count w ≡ some (o, w')
      → Delivers w o w'
  unfolding read_turn delivered
  read_turn-Delivers count w' o e =
      let n = at_most w.ring.count count in
      let few : n ≤ w.ring.count = omega (arith, at_most-eq-min w.ring.count count) in
      let P = Delivers w in
      let answer = read_turn fuel task count w in
      elim (Bool-cases (ltb 0 w.ring.count)) [
        | inl data_there ↦
            elim (Option-cases (wake_all fuel w.next w.ring.blocked_writers w.states)) [
              | inl endless ↦
                  let none_here : answer ≡ none = rw (data_there, endless, read_turn) in
                  no_outcome none_here e
              | inr (states, woken) ↦
                  let ring = record ((copy_out n w.ring).1) { blocked_writers = none } in
                  let here : answer
                      ≡ some
                          (got (copy_out n w.ring).0, record w { ring = ring; states = states }) =
                    rw (data_there, woken, read_turn) in
                  outcome P here e (
                    relinked-IsValid refl refl refl refl (copy_out-IsValid w.ring v n few),
                    copy_out-contents w.ring v n few,
                  )
            ]
        | inr empty ↦ elim (Bool-cases w.ring.write_open) [
          | inl opened ↦
              let here : answer ≡ some (reader_waits, block_reader task w) =
                rw (empty, opened, read_turn) in
              outcome P here e (relinked-IsValid refl refl refl refl v, refl)
          | inr shut ↦
              let here : answer ≡ some (end_of_file, w) = rw (empty, shut, read_turn) in
              outcome P here e (v, refl)
        ]
      ]

-- The ring holds the same bytes.
abbrev Kept : World → World → Type 0
Kept before after = IsValid after.ring × (contents after.ring ≡ contents before.ring)

pub kept_outcome :
    (P : World → Type 0) {answer : Option World} {w w' : World}
    → answer ≡ some w
    → answer ≡ some w'
    → P w
    → P w'
kept_outcome P {w = w} e e' p =
    let same = ap (λ x. elim x [ none ↦ w | some y ↦ y ]) (sym e ∙ e') in subst P same p

close_end-Kept :
    (side : PipeEnd) (ring : PipeRing)
    → IsValid ring
    → IsValid (close_end side ring) × (contents (close_end side ring) ≡ contents ring)
close_end-Kept read_end ring v = (relinked-IsValid refl refl refl refl v, refl)
close_end-Kept write_end ring v = (relinked-IsValid refl refl refl refl v, refl)

module _ (w : World) (v : IsValid w.ring) (fuel : ℕ) where
  pub pipe_close-Kept : (side : PipeEnd) (w' : World) → pipe_close fuel side w ≡ some w' → Kept w w'
  unfolding pipe_close
  pipe_close-Kept side w' e =
      let answer = pipe_close fuel side w in
      let shut = close_end side w.ring in
      let (valid, same) = close_end-Kept side w.ring v in
      elim (Option-cases (wake_all fuel w.next w.ring.blocked_readers w.states)) [
        | inl endless ↦
            let none_here : answer ≡ none = rw (endless, pipe_close) in no_outcome none_here e
        | inr (states, woken) ↦
            elim (Option-cases (wake_all fuel w.next w.ring.blocked_writers states)) [
              | inl endless ↦
                  let none_here : answer ≡ none = rw (woken, endless, pipe_close) in
                  no_outcome none_here e
              | inr (states', woken') ↦
                  let here = record w {
                    ring = record shut { blocked_readers = none; blocked_writers = none };
                    states = states';
                    freed = not shut.read_open && not shut.write_open;
                  } in
                  let answered : answer ≡ some here = rw (woken, woken', pipe_close) in
                  kept_outcome (Kept w) answered e
                    (relinked-IsValid refl refl refl refl valid, same)
            ]
      ]

  read_interrupted-Kept :
      (task : ℕ) (w' : World) → read_interrupted fuel task w ≡ some w' → Kept w w'
  unfolding read_interrupted
  read_interrupted-Kept task w' e =
      let answer = read_interrupted fuel task w in
      elim (Option-cases (unlink fuel task w.next w.ring.blocked_readers)) [
        | inl endless ↦
            let none_here : answer ≡ none = rw (endless, read_interrupted) in no_outcome none_here e
        | inr ((first, next), found) ↦
            let here = record w {
              ring = record (w.ring) { blocked_readers = first };
              next = next;
              states = update w.states task TaskState.ready;
            } in
            let answered : answer ≡ some here = rw (found, read_interrupted) in
            kept_outcome (Kept w) answered e (relinked-IsValid refl refl refl refl v, refl)
      ]

  write_interrupted-Kept :
      (task : ℕ) (w' : World) → write_interrupted fuel task w ≡ some w' → Kept w w'
  unfolding write_interrupted
  write_interrupted-Kept task w' e =
      let answer = write_interrupted fuel task w in
      elim (Option-cases (unlink fuel task w.next w.ring.blocked_writers)) [
        | inl endless ↦
            let none_here : answer ≡ none = rw (endless, write_interrupted) in
            no_outcome none_here e
        | inr ((first, next), found) ↦
            let here = record w {
              ring = record (w.ring) { blocked_writers = first };
              next = next;
              states = update w.states task TaskState.ready;
            } in
            let answered : answer ≡ some here = rw (found, write_interrupted) in
            kept_outcome (Kept w) answered e (relinked-IsValid refl refl refl refl v, refl)
      ]

-- A history of the pipe from `w` on: the bytes that the writers handed over, the bytes that the readers
-- got, and where it ends. Any task may have the next turn, and in between other parts of the kernel
-- may change the tasks' states. A ring that has been freed is taken to keep its memory.
pub data History (fuel : ℕ) (w : World) : List ℕ → List ℕ → World → Type 0 where
  start : History fuel w [] [] w
  write :
      {sent received : List ℕ} {v v' : World} {o : WriteTurn}
      → History fuel w sent received v
      → (task : ℕ) (src : List ℕ) (total count : ℕ)
      → write_turn fuel task src total count v ≡ some (o, v')
      → History fuel w (sent ++ accepted src total o) received v'
  read :
      {sent received : List ℕ} {v v' : World} {o : ReadTurn}
      → History fuel w sent received v
      → (task count : ℕ) → read_turn fuel task count v ≡ some (o, v')
      → History fuel w sent (received ++ delivered o) v'
  stop_read :
      {sent received : List ℕ} {v v' : World}
      → History fuel w sent received v
      → (task : ℕ) → read_interrupted fuel task v ≡ some v'
      → History fuel w sent received v'
  stop_write :
      {sent received : List ℕ} {v v' : World}
      → History fuel w sent received v
      → (task : ℕ) → write_interrupted fuel task v ≡ some v'
      → History fuel w sent received v'
  close :
      {sent received : List ℕ} {v v' : World}
      → History fuel w sent received v
      → (side : PipeEnd) → pipe_close fuel side v ≡ some v'
      → History fuel w sent received v'
  reschedule :
      {sent received : List ℕ} {v : World}
      → History fuel w sent received v
      → (states : ℕ → TaskState) → History fuel w sent received (record v { states = states })

-- In any history of a pipe with valid indices, whichever tasks have their turns in whichever order, what
-- the pipe held at first and then all that was written is what was read and then what it still holds,
-- byte for byte; and its indices stay valid, so that it never holds more than 4096 bytes.
pub History-fifo :
    {fuel : ℕ} {w v : World} {sent received : List ℕ}
    → IsValid w.ring
    → History fuel w sent received v
    → IsValid v.ring × (contents w.ring ++ sent ≡ received ++ contents v.ring)
History-fifo {w = w} valid start = (valid, append-nil _)
History-fifo {fuel = fuel} {w = w} valid
      (write {sent = sent} {received = received} {v = v} {v' = v'} {o = o} h task src total count
        e) =
    let (before, flow) = History-fifo valid h in
    let (after, more) = write_turn-Written v before fuel task src total count v' o e in
    (
      after,
      sym (append_assoc (contents w.ring) sent (accepted src total o))
          ∙ ap (λ l. l ++ accepted src total o) flow
          ∙ append_assoc received (contents v.ring) (accepted src total o)
          ∙ ap (λ l. received ++ l) (sym more),
    )
History-fifo {fuel = fuel} valid
      (read {received = received} {v = v} {v' = v'} {o = o} h task count e) =
    let (before, flow) = History-fifo valid h in
    let (after, less) = read_turn-Delivers v before fuel task count v' o e in
    (
      after,
      flow
          ∙ ap (λ l. received ++ l) less
          ∙ sym (append_assoc received (delivered o) (contents v'.ring)),
    )
History-fifo {fuel = fuel} valid (stop_read {received = received} {v = v} {v' = v'} h task e) =
    let (before, flow) = History-fifo valid h in
    let (after, same) = read_interrupted-Kept v before fuel task v' e in
    (after, flow ∙ ap (λ l. received ++ l) (sym same))
History-fifo {fuel = fuel} valid (stop_write {received = received} {v = v} {v' = v'} h task e) =
    let (before, flow) = History-fifo valid h in
    let (after, same) = write_interrupted-Kept v before fuel task v' e in
    (after, flow ∙ ap (λ l. received ++ l) (sym same))
History-fifo {fuel = fuel} valid (close {received = received} {v = v} {v' = v'} h side e) =
    let (before, flow) = History-fifo valid h in
    let (after, same) = pipe_close-Kept v before fuel side v' e in
    (after, flow ∙ ap (λ l. received ++ l) (sym same))
History-fifo valid (reschedule h states) = History-fifo valid h
