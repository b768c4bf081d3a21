-- ===== src/Topics/Examples.antt =====
-- Runs of the topic bus on concrete messages.
use astrbot_ex.Prelude.{ℕ, String-discrete, ◌≡◌, refl, true, none, some, List, [], ◌∷◌, arith}
use astrbot_ex.Topics.{
  TopicMessage, TopicInbox, new_topic_bus, take_latest, receives, deliver, TopicStep, publishing,
  opening, closing, reading, run,
}
use astrbot_ex.Topics.Laws.{IsKept, run-IsKept, inbox_at, deliver-take_latest}

abbrev message : ℕ → TopicMessage
message n = record {
  topic = "pose";
  timestamp = n;
  source = "arm";
  payload = "{}";
  frame = none;
  seq = some n;
  ttl_ms = none;
}

abbrev steps : List TopicStep
steps =
    opening "pose" 1
    ∷ publishing "pose" (message 1)
    ∷ publishing "pose" (message 2)
    ∷ reading true 1
    ∷ closing 1
    ∷ publishing "pose" (message 3)
    ∷ []

run-IsKept_example : IsKept (run steps (new_topic_bus 2))
run-IsKept_example = run-IsKept 2 steps

abbrev inbox : TopicInbox
inbox = record { topic = "pose"; token = 1; maxsize = 1; queue = message 1 ∷ []; registered = true }

test_inbox : inbox_at 1 (inbox ∷ []) ≡ some inbox
unfolding inbox_at
test_inbox = refl

test_receives : receives "pose" inbox ≡ true
unfolding String-discrete
test_receives = refl

deliver-take_latest_example :
    (j : TopicInbox) × (inbox_at 1 (deliver "pose" (message 2) (inbox ∷ [])) ≡ some j)
    × (take_latest j.queue ≡ (some (message 2), []))
deliver-take_latest_example =
    deliver-take_latest "pose" (message 2) 1 inbox (inbox ∷ []) ((omega arith, omega arith), tt)
      test_inbox test_receives
