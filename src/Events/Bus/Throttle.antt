-- ===== src/Events/Bus/Throttle.antt =====
-- Throttled emissions, and the invariant of the bus over any emissions (astrbot_ex/core/event_bus.py).
use astrbot_ex.Prelude.{
  ℕ, zero, suc, ◌+◌, ◌-◌, ◌≤◌, ◌<◌, String, ◌≡◌, ◌⊎◌, inl, inr, refl, Option, none, some, List, [],
  ◌∷◌, arith, =?_refl, Bool-cases, length, drop, length-drop,
}
use astrbot_ex.Prelude.Table.{Table, find, put, find-put}
use astrbot_ex.Events.Event.{Event}
use astrbot_ex.Events.Bus.{
  Retained, Bus, new_bus, emit, emit_throttled, throttle_key, forget, max_throttle_keys, too_soon,
}
use astrbot_ex.Events.Bus.Laws.{IsRing, emit-IsRing}

-- One call of a producer; an interval and a clock's reading stand last.
pub data Emission : Type 0 where
  plain : Event → Emission
  throttled : Event → Option String → ℕ → ℕ → Emission

unfoldable pub step : (String → String) → Emission → Bus → Bus
unfolding emit emit_throttled
step lower (plain e) bus = (emit lower e bus).1
step lower (throttled e key interval now) bus = (emit_throttled lower e interval key now bus).1

unfoldable pub run : (String → String) → List Emission → Bus → Bus
run lower [] bus = bus
run lower (e ∷ es) bus = run lower es (step lower e bus)

abbrev let_through : (String → String) → Event → ℕ → String → ℕ → Bus → Bus
let_through lower e interval k now bus =
    (emit lower e (record bus { last_emit_at = forget (put k now bus.last_emit_at) })).1

noted-IsRing :
    (bus : Bus) (t : Table ℕ) → IsRing bus → IsRing (record bus { last_emit_at = forget t })
noted-IsRing bus t v = record {
  bounded = v.bounded;
  counted = v.counted;
  full = v.full;
  run = v.run;
  noted = omega (arith, length-drop (length t - max_throttle_keys) t);
}

throttled-IsRing :
    (lower : String → String) (e : Event) (interval : ℕ) (key : Option String) (now : ℕ) (bus : Bus)
    → IsRing bus
    → IsRing (emit_throttled lower e interval key now bus).1
unfolding emit_throttled
throttled-IsRing lower e interval key now bus v =
    elim (Bool-cases (too_soon (find (throttle_key key e) bus.last_emit_at) now interval)) [
      | inl soon ↦ rw soon v
      | inr late ↦ rw late (
          emit-IsRing lower e _
            (noted-IsRing bus (put (throttle_key key e) now bus.last_emit_at) v))
    ]

step-IsRing :
    (lower : String → String) (e : Emission) (bus : Bus) → IsRing bus → IsRing (step lower e bus)
unfolding step
step-IsRing lower (plain e) bus v = emit-IsRing lower e bus v
step-IsRing lower (throttled e key interval now) bus v =
    throttled-IsRing lower e interval key now bus v

run-keeps :
    (lower : String → String) (es : List Emission) (bus : Bus)
    → IsRing bus
    → IsRing (run lower es bus)
unfolding run
run-keeps lower [] bus v = v
run-keeps lower (e ∷ es) bus v = run-keeps lower es (step lower e bus) (step-IsRing lower e bus v)

new-IsRing : (stream_id : String) (max_events : ℕ) → IsRing (new_bus stream_id max_events)
new-IsRing stream_id max_events = record {
  bounded = omega arith;
  counted = omega arith;
  full = inl refl;
  run = tt;
  noted = omega arith;
}

-- After any emissions, the retained events are the last ones, with sequences that count up to the
-- head without a hole, at most as many as the ring holds and all of them until it is full; and at
-- most 512 throttle keys are kept.
pub run-IsRing :
    (lower : String → String) (stream_id : String) (max_events : ℕ) (es : List Emission)
    → IsRing (run lower es (new_bus stream_id max_events))
run-IsRing lower stream_id max_events es =
    run-keeps lower es (new_bus stream_id max_events) (new-IsRing stream_id max_events)

-- a key that was put at the end survives the deletion of keys in front
find-drop-put :
    (k : String) (v n : ℕ) (t : Table ℕ)
    → find k t ≡ none
    → n ≤ length t
    → find k (drop n (put k v t)) ≡ some v
unfolding find put
find-drop-put k v zero t new h = rw (find-put k k v t, =?_refl k) refl
find-drop-put k v (suc n) [] new h = ground arith
find-drop-put k v (suc n) ((j, w) ∷ t) new h = ground (arith, find-drop-put k v n t)

length-put :
    (k : String) (v : ℕ) (t : Table ℕ)
    → ((find k t ≡ none) × (length (put k v t) ≡ length t + 1)) ⊎ (length (put k v t) ≡ length t)
unfolding find put
length-put k v [] = inl (refl, omega arith)
length-put k v ((j, w) ∷ t) = ground (arith, length-put k v t)

find-forget :
    (k : String) (v : ℕ) (t : Table ℕ)
    → length t ≤ max_throttle_keys
    → find k (forget (put k v t)) ≡ some v
find-forget k v t h = elim (length-put k v t) [
  | inl (new, longer) ↦
      find-drop-put k v (length (put k v t) - max_throttle_keys) t new (omega (arith, longer, h))
  | inr same ↦
      let none_over : length (put k v t) - max_throttle_keys ≡ 0 = omega (arith, same, h) in
      rw (none_over, find-put k k v t, =?_refl k) refl
]

emit_notes :
    (lower : String → String) (e : Event) (bus : Bus)
    → (emit lower e bus).1.last_emit_at ≡ bus.last_emit_at
unfolding emit
emit_notes lower e bus = ground arith

notes_key :
    (lower : String → String) (e : Event) (key : Option String) (interval now : ℕ) (bus bus' : Bus)
    (out : Option Retained)
    → emit_throttled lower e interval key now bus ≡ (some out, bus')
    → bus'.last_emit_at ≡ forget (put (throttle_key key e) now bus.last_emit_at)
unfolding emit_throttled
notes_key lower e key interval now bus bus' out h = ground (
  arith,
  emit_notes lower e
      (record bus { last_emit_at = forget (put (throttle_key key e) now bus.last_emit_at) }),
)

held_back :
    (lower : String → String) (f : Event) (key : Option String) (later now then_at : ℕ) (bus : Bus)
    → find (throttle_key key f) bus.last_emit_at ≡ some now
    → then_at - now < later
    → emit_throttled lower f later key then_at bus ≡ (none, bus)
unfolding emit_throttled
held_back lower f key later now then_at bus there soon = ground arith

-- An event that is emitted with a key and let through holds back every throttled event with that key
-- directly after it whose time is within its interval: it is not emitted and the bus stays as it is.
pub throttled_once :
    (lower : String → String) (e f : Event) (key : Option String) (interval later now then_at : ℕ)
    (bus : Bus) (out : Option Retained) (bus' : Bus)
    → IsRing bus
    → emit_throttled lower e interval key now bus ≡ (some out, bus')
    → throttle_key key e ≡ throttle_key key f
    → then_at - now < later
    → emit_throttled lower f later key then_at bus' ≡ (none, bus')
throttled_once lower e f key interval later now then_at bus out bus' v through same soon =
    held_back lower f key later now then_at bus'
      (rw (notes_key lower e key interval now bus bus' out through, same)
        (find-forget (throttle_key key f) now bus.last_emit_at v.noted))
      soon
