-- ===== src/Hid/Tests.antt =====
-- Runs of kernel/hid_event.c, and the theorems at them.
use aurora_os.Prelude.{◌≡◌, refl, none, some, List, [], ◌∷◌}
use aurora_os.Hid.{
  HidEvent, key_down, key_up, zero_event, init, hid_key_down, hid_key_up, hid_event_pop,
  hid_event_push,
}
use aurora_os.Hid.Queue.{
  events, Request, push, pop, pushed, popped, serve_all, run, init-IsValid, run-eq-serve_all,
}

abbrev press : HidEvent
press = record zero_event { event_type = key_down; keycode = 30 }

abbrev release : HidEvent
release = record zero_event { event_type = key_up; keycode = 30 }

abbrev script : List Request
script = pop ∷ push press ∷ push release ∷ pop ∷ pop ∷ pop ∷ []

run-script :
    run init script
    ≡ popped none
      ∷ pushed (some 0)
      ∷ pushed (some 0)
      ∷ popped (some press)
      ∷ popped (some release)
      ∷ popped none
      ∷ []
unfolding run hid_event_push hid_event_pop
run-script = refl

helpers_push : (hid_event_pop (hid_key_up 30 (hid_key_down 30 init))).0 ≡ some press
unfolding hid_event_pop hid_key_up hid_key_down
helpers_push = refl

run-eq-serve_all_example : run init script ≡ serve_all (events init) script
run-eq-serve_all_example = run-eq-serve_all script init-IsValid
