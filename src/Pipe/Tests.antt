-- ===== src/Pipe/Tests.antt =====
-- Runs of kernel/pipe.c, and the theorems at them.
use aurora_os.Prelude.{
  ℕ, ◌≡◌, refl, ◌++◌, true, false, none, some, List, [], ◌∷◌, arith, replicate, ◌⊎◌,
}
use aurora_os.Pipe.{
  PipeRing, World, ready, running, create, wrote, got, read_turn, write_turn, read_interrupted,
  pipe_close, write_end, reader_waits, block_reader, update, copy_in, copy_out, wake_all, at_most,
}
use aurora_os.Pipe.Contents.{IsValid, contents}
use aurora_os.Pipe.Fifo.{accepted, delivered, History, start, write, read, History-fifo}
use aurora_os.Pipe.Cycle.{woken_reader}
use aurora_os.Capability.{Task, free, raw, fill_first}
use aurora_os.File.{fd_alloc}
use aurora_os.Pipe.Create.{sys_pipe, BothEnds, NoPipe, sys_pipe-cases}

-- A ring whose next byte goes into its last place.
abbrev near_the_end : PipeRing
near_the_end = record create { head = 4095; tail = 4095 }

abbrev idle : World
idle = record { ring = near_the_end; next = λ t. none; states = λ t. running; freed = false }

near_the_end-IsValid : IsValid near_the_end
near_the_end-IsValid = record {
  size = refl;
  head_low = omega arith;
  count_low = omega arith;
  tail_place = omega arith;
}

abbrev message : List ℕ
message = 104 ∷ 105 ∷ 33 ∷ []

after_write : World
after_write = record idle {
  ring = record (copy_in message 0 3 near_the_end) { blocked_readers = none };
}

wrote_three : write_turn 9 1 message 0 3 idle ≡ some (wrote 3, after_write)
unfolding write_turn after_write wake_all at_most
wrote_three = refl

held : contents after_write.ring ≡ message
unfolding after_write copy_in at_most aurora_os.Kstring.Memcpy.copy_bytes
held = refl

after_read : World
unfolding after_write
after_read = record after_write {
  ring = record ((copy_out 2 after_write.ring).1) { blocked_writers = none };
}

read_two : read_turn 9 2 2 after_write ≡ some (got (104 ∷ 105 ∷ []), after_read)
unfolding read_turn after_write after_read wake_all at_most copy_in copy_out
    aurora_os.Kstring.Memcpy.copy_bytes
read_two = refl

sample :
    History 9 idle
      ([] ++ accepted message 0 (wrote 3))
      ([] ++ delivered (got (104 ∷ 105 ∷ [])))
      after_read
sample = read (write start 1 message 0 3 wrote_three) 2 2 read_two

History-fifo_example :
    IsValid after_read.ring
    × (contents near_the_end ++ ([] ++ accepted message 0 (wrote 3))
        ≡ ([] ++ delivered (got (104 ∷ 105 ∷ []))) ++ contents after_read.ring)
History-fifo_example = History-fifo near_the_end-IsValid sample

-- Task 4 is in the list of readers, and has been made ready by a signal.
abbrev signalled : World
signalled = record idle { ring = record near_the_end { blocked_readers = some 4 } }

woken_reader_example :
    (read_turn 9 4 10 signalled ≡ some (reader_waits, block_reader 4 signalled))
    × (write_turn 9 1 message 0 10 (block_reader 4 signalled) ≡ none)
    × (pipe_close 9 write_end (block_reader 4 signalled) ≡ none)
    × (read_interrupted 10 4 (block_reader 4 signalled)
        ≡ some (record (block_reader 4 signalled) {
          states = update (block_reader 4 signalled).states 4 ready;
        }))
woken_reader_example = woken_reader signalled 4 refl refl 9 10 0 1 message write_end refl

after_close : World
unfolding after_write
after_close = record after_write {
  ring = record (after_write.ring) { write_open = false; closed = true };
  freed = false;
}

-- A task with room for one descriptor, and one with room for all.
abbrev crowded : Task
crowded = record {
  pid = 4;
  state = ready;
  fd_table = replicate 15 (raw 2) ++ free ∷ [];
  children = [];
}

abbrev roomy : Task
roomy = record { pid = 4; state = ready; fd_table = replicate 16 free; children = [] }

no_room : (sys_pipe true true true 8 12 crowded).0 ≡ none
unfolding sys_pipe fd_alloc fill_first
no_room = refl

two_ends : (sys_pipe true true true 8 12 roomy).0 ≡ some (0, 1)
unfolding sys_pipe fd_alloc fill_first
two_ends = refl

sys_pipe-cases_example :
    BothEnds roomy 8 12 (sys_pipe true true true 8 12 roomy)
    ⊎ NoPipe roomy (sys_pipe true true true 8 12 roomy)
sys_pipe-cases_example = sys_pipe-cases true true true 8 12 roomy refl
