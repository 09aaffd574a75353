-- ===== src/Pipe.antt =====
-- kernel/pipe.c: the ring of a pipe, its lists of blocked tasks, and what the code does under the
-- ring's lock. Each part of pipe_read, pipe_write and pipe_close between a lock and its unlock is one
-- step. The calls of memcpy are read as its byte loop, copy_bytes of Kstring. A blocked task has one list node, on its own stack, which the task's number stands for.
pub mod Contents
pub mod Fifo
pub mod Cycle
pub mod Closing
pub mod Create
pub mod Tests
use aurora_os.Prelude.{
  ℕ, zero, suc, ◌+◌, ◌-◌, ◌%◌, ◌^◌, Bool, true, false, not, ◌&&◌, Option, none, some, List, [], ◌∷◌,
  ◌++◌, replicate, ltb, ◌==◌, if◌then◌else◌,
}
use aurora_os.Kstring.Memcpy.{copy_bytes}
use aurora_os.Circular.Copy.{slice}
pub use aurora_os.Sched.{TaskState, running, ready, blocked, zombie, dead}

abbrev pub pipe_buf_size : ℕ
pipe_buf_size = 4096

-- `struct pipe_ring`. The lock is left out, and so are the pointers to the two inodes.
pub record PipeRing : Type 0 where
  pub buf : List ℕ
  pub head : ℕ
  pub tail : ℕ
  pub count : ℕ
  pub read_open : Bool
  pub write_open : Bool
  pub closed : Bool
  pub blocked_readers : Option ℕ
  pub blocked_writers : Option ℕ

-- The ring, the `next` of each task's node, the tasks' states, and whether the ring has been freed.
pub record World : Type 0 where
  pub ring : PipeRing
  pub next : ℕ → Option ℕ
  pub states : ℕ → TaskState
  pub freed : Bool

abbrev pub update {ℓ} : {A : Type ℓ} → (ℕ → A) → ℕ → A → ℕ → A
update f i v j = if i == j then v else f j

-- What sys_pipe makes of the memory for the ring.
abbrev pub create : PipeRing
create = record {
  buf = replicate 4096 0;
  head = 0;
  tail = 0;
  count = 0;
  read_open = true;
  write_open = true;
  closed = false;
  blocked_readers = none;
  blocked_writers = none;
}

-- `if (wn->task->state == TASK_BLOCKED) wn->task->state = TASK_READY;`
abbrev pub wake : ℕ → (ℕ → TaskState) → ℕ → TaskState
wake task states = elim (states task) [ blocked ↦ update states task ready | _ ↦ states ]

-- The loop that wakes the tasks of a list, for up to `fuel` nodes; `none` says that it goes on.
unfoldable pub wake_all : ℕ → (ℕ → Option ℕ) → Option ℕ → (ℕ → TaskState) → Option (ℕ → TaskState)
wake_all fuel next none states = some states
wake_all zero next (some task) states = none
wake_all (suc fuel) next (some task) states = wake_all fuel next (next task) (wake task states)

-- The loop that takes a node out of a list, with `*prev` and the nodes' `next` as it leaves them.
unfoldable pub unlink : ℕ → ℕ → (ℕ → Option ℕ) → Option ℕ → Option (Option ℕ × (ℕ → Option ℕ))
unlink fuel node next none = some (none, next)
unlink zero node next (some task) = none
unlink (suc fuel) node next (some task) =
    let rest = unlink fuel node next (next task) in
    if task == node
    then some (next node, next)
    else elim rest [ none ↦ none | some (prev, later) ↦ some (some task, update later task prev) ]

-- `if (n > limit) n = limit;`
unfoldable pub at_most : ℕ → ℕ → ℕ
at_most limit n = if ltb limit n then limit else n

-- The copy in pipe_write: up to the end of the buffer, and on from its start.
unfoldable pub copy_in : List ℕ → ℕ → ℕ → PipeRing → PipeRing
copy_in src at n ring =
    let first_chunk = at_most n (pipe_buf_size - ring.tail) in
    let part = copy_bytes ring.buf ring.tail src at first_chunk in
    record ring {
      buf =
          if ltb first_chunk n
          then copy_bytes part 0 src (at + first_chunk) (n - first_chunk)
          else part;
      tail = (ring.tail + n) % pipe_buf_size;
      count = (ring.count + n) % 2 ^ 32;
    }

-- The copy in pipe_read: the bytes that go to the reader, and the ring after it.
unfoldable pub copy_out : ℕ → PipeRing → List ℕ × PipeRing
copy_out n ring =
    let first_chunk = at_most n (pipe_buf_size - ring.head) in
    let part = slice ring.buf ring.head first_chunk in
    let bytes = if ltb first_chunk n then part ++ slice ring.buf 0 (n - first_chunk) else part in
    (
      bytes,
      record ring {
        head = (ring.head + n) % pipe_buf_size;
        count = (ring.count + 2 ^ 32 - n) % 2 ^ 32;
      },
    )

pub data ReadTurn : Type 0 where
  got : List ℕ → ReadTurn
  end_of_file : ReadTurn
  reader_waits : ReadTurn

pub data WriteTurn : Type 0 where
  wrote : ℕ → WriteTurn
  broken : WriteTurn
  writer_waits : WriteTurn

-- `current->state = TASK_BLOCKED; node.next = ring->blocked_readers; ...`
abbrev pub block_reader : ℕ → World → World
block_reader task w = record w {
  states = update w.states task blocked;
  next = update w.next task w.ring.blocked_readers;
  ring = record (w.ring) { blocked_readers = some task };
}

abbrev pub block_writer : ℕ → World → World
block_writer task w = record w {
  states = update w.states task blocked;
  next = update w.next task w.ring.blocked_writers;
  ring = record (w.ring) { blocked_writers = some task };
}

-- What pipe_read does with the lock held: it reads, ends, or adds its task to the list.
unfoldable pub read_turn : ℕ → ℕ → ℕ → World → Option (ReadTurn × World)
read_turn fuel task count w =
    let toread = at_most w.ring.count count in
    let (bytes, ring) = copy_out toread w.ring in
    let woken = wake_all fuel w.next w.ring.blocked_writers w.states in
    if ltb 0 w.ring.count
    then elim woken [
      | none ↦ none
      | some states ↦
          some
            (got bytes, record w { ring = record ring { blocked_writers = none }; states = states })
    ]
    else if not w.ring.write_open
    then some (end_of_file, w)
    else some (reader_waits, block_reader task w)

-- The same of pipe_write, with `total` of the `count` bytes of `src` written already.
unfoldable pub write_turn : ℕ → ℕ → List ℕ → ℕ → ℕ → World → Option (WriteTurn × World)
write_turn fuel task src total count w =
    let towrite = at_most (pipe_buf_size - w.ring.count) (count - total) in
    let ring = copy_in src total towrite w.ring in
    let woken = wake_all fuel w.next w.ring.blocked_readers w.states in
    if ltb w.ring.count pipe_buf_size
    then elim woken [
      | none ↦ none
      | some states ↦ some (
        wrote towrite,
        record w { ring = record ring { blocked_readers = none }; states = states },
      )
    ]
    else if not w.ring.read_open
    then some (broken, w)
    else some (writer_waits, block_writer task w)

-- The way out on a signal: the node leaves the list, and the task is ready.
unfoldable pub read_interrupted : ℕ → ℕ → World → Option World
read_interrupted fuel task w = elim (unlink fuel task w.next w.ring.blocked_readers) [
  | none ↦ none
  | some (first, next) ↦ some (record w {
    ring = record (w.ring) { blocked_readers = first };
    next = next;
    states = update w.states task ready;
  })
]

unfoldable pub write_interrupted : ℕ → ℕ → World → Option World
write_interrupted fuel task w = elim (unlink fuel task w.next w.ring.blocked_writers) [
  | none ↦ none
  | some (first, next) ↦ some (record w {
    ring = record (w.ring) { blocked_writers = first };
    next = next;
    states = update w.states task ready;
  })
]

pub data PipeEnd : Type 0 where
  read_end write_end : PipeEnd

abbrev pub close_end : PipeEnd → PipeRing → PipeRing
close_end read_end ring = record ring { read_open = false; closed = true }
close_end write_end ring = record ring { write_open = false; closed = true }

-- pipe_close: both lists are woken, and with the second end the ring is freed.
unfoldable pub pipe_close : ℕ → PipeEnd → World → Option World
pipe_close fuel side w = elim (wake_all fuel w.next w.ring.blocked_readers w.states) [
  | none ↦ none
  | some states ↦ elim (wake_all fuel w.next w.ring.blocked_writers states) [
    | none ↦ none
    | some woken ↦ some (record w {
      ring = record (close_end side w.ring) { blocked_readers = none; blocked_writers = none };
      states = woken;
      freed = not (close_end side w.ring).read_open && not (close_end side w.ring).write_open;
    })
  ]
]

pub data Refusal : Type 0 where
  epipe efault reader_gone : Refusal

-- The tests before the loops; `addr_ok` is the answer of user_addr_range_ok.
unfoldable pub read_entry : Bool → PipeRing → Option Refusal
read_entry addr_ok ring =
    if ring.closed then some epipe else if not addr_ok then some efault else none

unfoldable pub write_entry : Bool → PipeRing → Option Refusal
write_entry addr_ok ring =
    if ring.closed
    then some epipe
    else if not addr_ok
    then some efault
    else if not ring.read_open
    then some reader_gone
    else none
