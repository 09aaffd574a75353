-- ===== src/Hid/Queue.antt =====
-- The event queue of kernel/hid_event.c is a bounded FIFO of the events that it holds.

use aurora_os.Prelude.{
  arith, ℕ, ◌+◌, ◌%◌, ◌<◌, ◌≤◌, ◌≡◌, refl, Option, none, some, List, [], ◌∷◌, ◌++◌, length,
  length-set, leb, if◌then◌else◌, length-replicate,
}
use aurora_os.Circular.{span, length-span, span-set, span_of_pos}
use aurora_os.Hid.{
  HidEvent, EventQueue, zero_event, hid_event_queue_size, init, hid_event_push, hid_event_pop,
}

pub record IsValid (q : EventQueue) : Type 0 where
  pub storage : length q.slots ≡ hid_event_queue_size
  pub head_in : q.head < hid_event_queue_size
  pub count_in : q.count ≤ hid_event_queue_size
  pub tail_at : q.tail ≡ (q.head + q.count) % hid_event_queue_size

-- The events waiting, oldest first.
abbrev pub events : EventQueue → List HidEvent
events q = span zero_event hid_event_queue_size q.slots q.head q.count

-- A request of a driver or of the window manager, and what it gets back.
pub data Request : Type 0 where
  push : HidEvent → Request
  pop : Request

pub data Reply : Type 0 where
  pushed : Option ℕ → Reply
  popped : Option HidEvent → Reply

-- The specification: a list, and a bound on its length.
unfoldable pub serve : List HidEvent → Request → Reply × List HidEvent
serve es (push ev) =
    if leb hid_event_queue_size (length es)
    then (pushed none, es)
    else (pushed (some 0), es ++ ev ∷ [])
serve [] pop = (popped none, [])
serve (e ∷ es) pop = (popped (some e), es)

unfoldable pub serve_all : List HidEvent → List Request → List Reply
unfolding serve
serve_all es [] = []
serve_all es (r ∷ rs) = let (y, es') = serve es r in y ∷ serve_all es' rs

pub step : EventQueue → Request → Reply × EventQueue
step q (push ev) = let (y, q') = hid_event_push ev q in (pushed y, q')
step q pop = let (y, q') = hid_event_pop q in (popped y, q')

unfoldable pub run : EventQueue → List Request → List Reply
unfolding step
run q [] = []
run q (r ∷ rs) = let (y, q') = step q r in y ∷ run q' rs

pub init-IsValid : IsValid init
init-IsValid = record {
  storage = length-replicate 256 zero_event;
  head_in = omega arith;
  count_in = omega arith;
  tail_at = refl;
}

pub step-IsValid : (r : Request) {q : EventQueue} → IsValid q → IsValid (step q r).1
unfolding step hid_event_push hid_event_pop
step-IsValid (push ev) {q} v = ground (arith, length-set q.slots q.tail ev)
step-IsValid pop {q} v = ground arith

-- One request on a valid queue answers as the list of its events does, and leaves the queue
-- holding what the list then holds.
step-serve :
    (r : Request) {q : EventQueue}
    → IsValid q
    → ((step q r).0, events (step q r).1) ≡ serve (events q) r
unfolding step serve hid_event_push hid_event_pop
step-serve (push ev) {q} v = ground (
  arith,
  length-span zero_event 256 q.slots q.head q.count,
  span-set zero_event 256 q.slots ev q.count q.head q.tail,
)
step-serve pop {q} v = ground (arith, span_of_pos zero_event 256 q.slots q.head q.count)

-- Whatever the requests, from a valid queue the replies are those of the list of its events
-- with the bound 256: first in, first out, -1 on a full queue and on an empty one.
pub run-eq-serve_all :
    (rs : List Request) {q : EventQueue} → IsValid q → run q rs ≡ serve_all (events q) rs
unfolding run serve_all
run-eq-serve_all [] v = refl
run-eq-serve_all (r ∷ rs) v = rw (run-eq-serve_all rs (step-IsValid r v), ← step-serve r v)
