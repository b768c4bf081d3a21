-- ===== src/Events/Examples.antt =====
-- Runs of the event bus and of its streams on concrete events.
use astrbot_ex.Prelude.{
  ℕ, String, String-discrete, ◌≡◌, inl, inr, refl, none, some, List, [], ◌∷◌, arith,
}
use astrbot_ex.Prelude.Table.{find, put}
use astrbot_ex.Prelude.Text.{text_take}
use astrbot_ex.Events.Event.{
  Event, error, debug, contains, explicit_level, has_error, is_lifecycle, normalize_level,
  should_publish,
}
use astrbot_ex.Events.Bus.{Retained, Bus, new_bus, emit, emit_throttled, history, stamp}
use astrbot_ex.Events.Bus.Laws.{IsRing, Exact, history-Exact}
use astrbot_ex.Events.Bus.Throttle.{
  Emission, plain, throttled, run as run_bus, run-IsRing, throttled_once,
}
use astrbot_ex.Events.Stream.{
  event, open_stream, on_event, take_locked, take_next, take_hole, evict, drop_lowest, slot_at,
  without, lowest, highest, estimate_frame_bytes, add_entries, step, Step, calling, taking, run,
}
use astrbot_ex.Events.Stream.Bounds.{IsBounded, run-IsBounded}
use astrbot_ex.Events.Stream.Arrival.{InOrder}
use astrbot_ex.Events.Stream.Order.{Taken, take_exact, run-InOrder}

-- on texts that are in lower case already
abbrev lower : String → String
lower s = s

abbrev fault : Event
fault = record { event_type = "fault"; message = "arm"; payload = [] }

abbrev quiet : Event
quiet = record { event_type = "tick"; message = ""; payload = [] }

test_level : normalize_level lower fault ≡ error
unfolding normalize_level explicit_level has_error String-discrete find
test_level = refl

test_quiet : normalize_level lower quiet ≡ debug
unfolding normalize_level explicit_level has_error is_lifecycle contains text_take String-discrete
    find
test_quiet = refl

abbrev emissions : List Emission
emissions =
    plain fault
    ∷ plain quiet
    ∷ throttled fault none 1000 5
    ∷ throttled fault none 1000 6
    ∷ plain fault
    ∷ []

run-IsRing_example : IsRing (run_bus lower emissions (new_bus "b" 2))
run-IsRing_example = run-IsRing lower "b" 2 emissions

abbrev numbered : ℕ → Retained
numbered n = stamp fault (record { level = error; stream_id = "b"; sequence = n })

abbrev full_bus : Bus
full_bus = record (new_bus "b" 2) { events = numbered 2 ∷ numbered 3 ∷ []; sequence = 3 }

full-IsRing : IsRing full_bus
full-IsRing = record {
  bounded = omega arith;
  counted = omega arith;
  full = inr refl;
  run = (refl, (refl, tt));
  noted = omega arith;
}

history-Exact_example :
    Exact full_bus 0 (history (some ("b", 0)) full_bus).0 (history (some ("b", 0)) full_bus).1
history-Exact_example = history-Exact full_bus 0 full-IsRing (omega arith) (omega arith)

abbrev throttled_bus : Bus
throttled_bus = record (new_bus "b" 2) {
  events = numbered 1 ∷ [];
  sequence = 1;
  last_emit_at = ("fault:arm", 5) ∷ [];
}

test_throttled :
    emit_throttled lower fault 1000 none 5 (new_bus "b" 2)
    ≡ (some (some (numbered 1)), throttled_bus)
unfolding emit_throttled emit normalize_level explicit_level has_error should_publish find put
    String-discrete
test_throttled = refl

new_bus-IsRing : IsRing (new_bus "b" 2)
new_bus-IsRing = record {
  bounded = omega arith;
  counted = omega arith;
  full = inl refl;
  run = tt;
  noted = omega arith;
}

throttled_once_example :
    emit_throttled lower fault 1000 none 9 throttled_bus ≡ (none, throttled_bus)
throttled_once_example =
    throttled_once lower fault fault none 1000 1000 5 9 (new_bus "b" 2) (some (numbered 1))
      throttled_bus new_bus-IsRing test_throttled refl (omega arith)

abbrev steps : List Step
steps = calling (numbered 1) ∷ calling (numbered 2) ∷ taking 3 ∷ calling (numbered 3) ∷ []

run-IsBounded_example : IsBounded (run steps (open_stream "b" 0 [] 2 100000 250))
run-IsBounded_example =
    run-IsBounded steps (open_stream "b" 0 [] 2 100000 250)
      (record { counted = refl; frames = omega arith; bytes = omega arith })

run-InOrder_example : InOrder 3 (run steps (open_stream "b" 0 [] 2 100000 250))
run-InOrder_example = run-InOrder "b" 0 2 100000 250 steps (refl, (refl, (refl, tt)))

take_exact_example :
    InOrder 3 (take_locked 9 (run steps (open_stream "b" 0 [] 2 100000 250))).1
    × Taken 3
        (run steps (open_stream "b" 0 [] 2 100000 250))
        (take_locked 9 (run steps (open_stream "b" 0 [] 2 100000 250))).1
        (take_locked 9 (run steps (open_stream "b" 0 [] 2 100000 250))).0
take_exact_example =
    take_exact 3 9 (run steps (open_stream "b" 0 [] 2 100000 250)) run-InOrder_example

-- A callback that comes after its place was skipped as a hole is released all the same, after the
-- event with the higher sequence.
abbrev late : List Step
late =
    calling (numbered 3)
    ∷ taking 0
    ∷ taking 5
    ∷ taking 6
    ∷ calling (numbered 2)
    ∷ taking 7
    ∷ taking 12
    ∷ []

test_late :
    (take_locked 13 (run late (open_stream "b" 0 [] 9 100000 5))).0 ≡ some (event (numbered 2))
unfolding run step take_locked take_next take_hole on_event evict drop_lowest slot_at without lowest
    highest estimate_frame_bytes add_entries find put String-discrete
test_late = refl
