-- ===== src/Pipe/Cycle.antt =====
-- A reader of kernel/pipe.c that is woken by something else than the pipe. signal_send makes a blocked
-- task ready and leaves its node in the list; pipe_read then adds the node a second time.
use aurora_os.Prelude.{ℕ, zero, suc, ◌≡◌, refl, ap, ◌∙◌, List, true, Option, none, some, ==_refl}
use aurora_os.Pipe.{
  World, TaskState, ready, PipeEnd, reader_waits, read_turn, write_turn, read_interrupted,
  pipe_close, wake_all, unlink, block_reader, update, wake,
}

-- From a node that is its own successor the loop goes on for ever.
wake_all-cycle :
    (fuel : ℕ) (next : ℕ → Option ℕ) (task : ℕ) (states : ℕ → TaskState)
    → next task ≡ some task
    → wake_all fuel next (some task) states ≡ none
unfolding wake_all
wake_all-cycle zero next task states e = refl
wake_all-cycle (suc fuel) next task states e =
    ap (λ n. wake_all fuel next n (wake task states)) e
    ∙ wake_all-cycle fuel next task (wake task states) e

unlink_first :
    (fuel node : ℕ) (next : ℕ → Option ℕ)
    → unlink (suc fuel) node next (some node) ≡ some (next node, next)
unfolding unlink
unlink_first fuel node next = rw (==_refl node) refl

module _ (w : World) (task : ℕ) (empty : w.ring.count ≡ 0) (opened : w.ring.write_open ≡ true) where
  read_turn-waits :
      (fuel count : ℕ) → read_turn fuel task count w ≡ some (reader_waits, block_reader task w)
  unfolding read_turn
  read_turn-waits fuel count = rw (empty, opened, read_turn)

  self_linked : w.ring.blocked_readers ≡ some task → (block_reader task w).next task ≡ some task
  self_linked first = rw (==_refl task, first) refl

  pipe_close-cycle :
      (fuel : ℕ) (side : PipeEnd)
      → w.ring.blocked_readers ≡ some task
      → pipe_close fuel side (block_reader task w) ≡ none
  unfolding pipe_close
  pipe_close-cycle fuel side first =
      let loop =
        wake_all-cycle fuel (block_reader task w).next task (block_reader task w).states
          (self_linked first) in
      rw (loop, pipe_close)

  write_turn-cycle :
      (fuel writer : ℕ) (src : List ℕ) (total count : ℕ)
      → w.ring.blocked_readers ≡ some task
      → write_turn fuel writer src total count (block_reader task w) ≡ none
  unfolding write_turn
  write_turn-cycle fuel writer src total count first =
      let loop =
        wake_all-cycle fuel (block_reader task w).next task (block_reader task w).states
          (self_linked first) in
      rw (empty, loop, write_turn)

  read_interrupted-cycle :
      (fuel : ℕ)
      → w.ring.blocked_readers ≡ some task
      → read_interrupted (suc fuel) task (block_reader task w)
        ≡ some (record (block_reader task w) {
          states = update (block_reader task w).states task ready;
        })
  unfolding read_interrupted
  read_interrupted-cycle fuel first =
      let found : unlink (suc fuel) task (block_reader task w).next (some task)
          ≡ some (some task, (block_reader task w).next) =
        unlink_first fuel task (block_reader task w).next
        ∙ ap (λ n. some (n, (block_reader task w).next)) (self_linked first) in
      rw (found, read_interrupted)

  -- A reader whose node is the first of the list, as it is when something else than the pipe has woken
  -- it, and that finds the pipe empty and open again, links its node to itself. Then every later write
  -- and every close of the pipe goes round that node for ever with the lock held, and the removal on a
  -- signal leaves the node in the list.
  pub woken_reader :
      (fuel count total : ℕ) (writer : ℕ) (src : List ℕ) (side : PipeEnd)
      → w.ring.blocked_readers ≡ some task
      → (read_turn fuel task count w ≡ some (reader_waits, block_reader task w))
        × (write_turn fuel writer src total count (block_reader task w) ≡ none)
        × (pipe_close fuel side (block_reader task w) ≡ none)
        × (read_interrupted (suc fuel) task (block_reader task w)
            ≡ some (record (block_reader task w) {
              states = update (block_reader task w).states task ready;
            }))
  woken_reader fuel count total writer src side first = (
    read_turn-waits fuel count,
    write_turn-cycle fuel writer src total count first,
    pipe_close-cycle fuel side first,
    read_interrupted-cycle fuel first,
  )
