-- ===== src/Hid.antt =====
-- kernel/hid_event.c and kernel/include/hid_event.h: the queue of keyboard and mouse events,
-- an array of 256 with a head and a tail index and a count.
pub mod Queue
pub mod Tests
use mathlib.Core.Path.{◌≡◌}
use aurora_os.Prelude.{
  ℕ, ◌+◌, ◌-◌, ◌%◌, Option, none, some, List, [], ◌∷◌, get_or, set, leb, ◌==◌, if◌then◌else◌,
  replicate,
}

-- `hid_event_type_t`
pub data EventType : Type 0 where
  event_none key_down key_up mouse_move mouse_button_down mouse_button_up mouse_scroll : EventType

-- `struct hid_event`. The `int` fields are carried as bit patterns and never computed with.
pub record HidEvent : Type 0 where
  pub event_type : EventType
  pub keycode : ℕ
  pub mouse_x : ℕ
  pub mouse_y : ℕ
  pub mouse_button : ℕ
  pub mouse_dz : ℕ
  pub timestamp : ℕ

-- `struct hid_event ev = {0};`
abbrev pub zero_event : HidEvent
zero_event = record {
  event_type = event_none;
  keycode = 0;
  mouse_x = 0;
  mouse_y = 0;
  mouse_button = 0;
  mouse_dz = 0;
  timestamp = 0;
}

abbrev pub hid_event_queue_size : ℕ
hid_event_queue_size = 256

-- `g_event_queue`, `g_event_head`, `g_event_tail` and `g_event_count`.
pub record EventQueue : Type 0 where
  pub slots : List HidEvent
  pub head : ℕ
  pub tail : ℕ
  pub count : ℕ

abbrev pub init : EventQueue
init = record { slots = replicate 256 zero_event; head = 0; tail = 0; count = 0 }

-- The result is the C function's: 0, or `none` for -1.
pub hid_event_push : HidEvent → EventQueue → Option ℕ × EventQueue
hid_event_push ev q = if leb hid_event_queue_size q.count then (none, q) else (
  some 0,
  record q {
    slots = set q.slots q.tail ev;
    tail = (q.tail + 1) % hid_event_queue_size;
    count = q.count + 1;
  },
)

-- The event that goes out through `*ev`, or `none` for -1.
pub hid_event_pop : EventQueue → Option HidEvent × EventQueue
hid_event_pop q = if q.count == 0 then (none, q) else (
  some (get_or q.slots q.head zero_event),
  record q { head = (q.head + 1) % hid_event_queue_size; count = q.count - 1 },
)

pub hid_event_available : EventQueue → ℕ
hid_event_available q = q.count

-- The helpers for drivers drop the result of the push.
pub hid_key_down : ℕ → EventQueue → EventQueue
unfolding hid_event_push
hid_key_down keycode q =
    (hid_event_push (record zero_event { event_type = key_down; keycode = keycode }) q).1

pub hid_key_up : ℕ → EventQueue → EventQueue
unfolding hid_event_push
hid_key_up keycode q =
    (hid_event_push (record zero_event { event_type = key_up; keycode = keycode }) q).1

pub hid_mouse_move : ℕ → ℕ → EventQueue → EventQueue
unfolding hid_event_push
hid_mouse_move x y q =
    (hid_event_push (record zero_event { event_type = mouse_move; mouse_x = x; mouse_y = y }) q).1

pub hid_mouse_button : ℕ → ℕ → EventQueue → EventQueue
unfolding hid_event_push
hid_mouse_button button down q =
    let kind = if down == 0 then mouse_button_up else mouse_button_down in
    (hid_event_push (record zero_event { event_type = kind; mouse_button = button }) q).1

pub hid_mouse_scroll : ℕ → EventQueue → EventQueue
unfolding hid_event_push
hid_mouse_scroll dz q =
    (hid_event_push (record zero_event { event_type = mouse_scroll; mouse_dz = dz }) q).1
