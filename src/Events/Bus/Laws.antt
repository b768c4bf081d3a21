-- ===== src/Events/Bus/Laws.antt =====
-- What the event bus retains and what a cursor gets of it (astrbot_ex/core/event_bus.py).
use astrbot_ex.Prelude.{
  ℕ, zero, suc, ◌+◌, ◌-◌, ◌≤◌, ◌<◌, String, ◌≡◌, ◌⊎◌, inl, inr, refl, subst, sym, true, Option,
  none, some, List, [], ◌∷◌, ◌++◌, arith, ltb, =?_refl, if◌then◌else◌, Bool-cases, ap, length, drop,
  length-append, length-drop,
}
use astrbot_ex.Prelude.Table.{Table, put}
use astrbot_ex.Events.Event.{Event, normalize_level, should_publish}
use astrbot_ex.Events.Bus.{
  Retained, Bus, Control, emit, history, after, oldest, expired, push, stamp, next_log,
  max_throttle_keys, control, history_expired, gap_before,
}

-- the sequences count up from `n`
abbrev pub Run : ℕ → List Retained → Type 0
Run n [] = Unit
Run n (r ∷ rs) = (r.log.sequence ≡ n) × Run (n + 1) rs

pub record IsRing (bus : Bus) : Type 0 where
  pub bounded : length bus.events ≤ bus.max_events
  pub counted : length bus.events ≤ bus.sequence
  pub full : (length bus.events ≡ bus.sequence) ⊎ (length bus.events ≡ bus.max_events)
  pub run : Run (bus.sequence + 1 - length bus.events) bus.events
  pub noted : length bus.last_emit_at ≤ max_throttle_keys

Run-append :
    (n : ℕ) (rs : List Retained) (r : Retained)
    → Run n rs
    → r.log.sequence ≡ n + length rs
    → Run n (rs ++ r ∷ [])
Run-append n [] r h e = (omega arith, tt)
Run-append n (x ∷ rs) r h e = (h.0, Run-append (n + 1) rs r h.1 (omega arith))

Run-drop : (k n : ℕ) (rs : List Retained) → Run n rs → Run (n + k) (drop k rs)
Run-drop zero n rs h = subst (λ m. Run m rs) (omega arith) h
Run-drop (suc k) n [] h = tt
Run-drop (suc k) n (r ∷ rs) h =
    subst (λ m. Run m (drop k rs)) (omega arith) (Run-drop k (n + 1) rs h.1)

push-Run :
    (limit n : ℕ) (rs : List Retained) (r : Retained)
    → length rs ≤ n
    → r.log.sequence ≡ n + 1
    → Run (n + 1 - length rs) rs
    → Run (n + 1 + 1 - length (push limit r rs)) (push limit r rs)
push-Run limit n rs r short is_next h =
    let all = rs ++ r ∷ [] in
    let k = length all - limit in
    subst (λ m. Run m (drop k all)) (omega (arith, length-drop k all, length-append rs (r ∷ [])))
      (Run-drop k (n + 1 - length rs) all (Run-append (n + 1 - length rs) rs r h (omega arith)))

push-length :
    (limit : ℕ) (rs : List Retained) (r : Retained)
    → length rs ≤ limit
    → ((length (push limit r rs) ≡ length rs + 1) × (length rs + 1 ≤ limit))
      ⊎ ((length (push limit r rs) ≡ limit) × (length rs ≡ limit))
push-length limit rs r h =
    ground
      (arith, length-drop (length (rs ++ r ∷ []) - limit) (rs ++ r ∷ []), length-append rs (r ∷ []))

length-put-le : (k : String) (v : ℕ) (t : Table ℕ) → length (put k v t) ≤ length t + 1
unfolding put
length-put-le k v [] = omega arith
length-put-le k v ((j, w) ∷ t) = ground (arith, length-put-le k v t)

pushed-IsRing :
    (bus : Bus) (r : Retained)
    → r.log.sequence ≡ bus.sequence + 1
    → IsRing bus
    → IsRing (record bus { events = push bus.max_events r bus.events; sequence = bus.sequence + 1 })
pushed-IsRing bus r e v =
    let long = push-length bus.max_events bus.events r v.bounded in
    record {
      bounded = ground (arith, long, v.bounded);
      counted = ground (arith, long, v.counted);
      full = ground (arith, long, v.full);
      run = push-Run bus.max_events bus.sequence bus.events r v.counted e v.run;
      noted = v.noted;
    }

-- `emit` keeps the ring.
pub emit-IsRing :
    (lower : String → String) (e : Event) (bus : Bus) → IsRing bus → IsRing (emit lower e bus).1
unfolding emit
emit-IsRing lower e bus v = elim (Bool-cases (should_publish lower e (normalize_level lower e))) [
  | inl published ↦
      rw published (pushed-IsRing bus (stamp e (next_log (normalize_level lower e) bus)) refl v)
  | inr dropped ↦ rw dropped v
]

drop_nil : (k : ℕ) → drop {A = Retained} k [] ≡ []
drop_nil zero = refl
drop_nil (suc k) = refl

after-drop : (n m : ℕ) (rs : List Retained) → Run m rs → after n rs ≡ drop (n + 1 - m) rs
unfolding after
after-drop n m [] h = sym (drop_nil (n + 1 - m))
after-drop n m (r ∷ rs) h =
    let later = after-drop n (m + 1) rs h.1 in
    elim (Bool-cases (ltb n m)) [
      | inl below ↦
          let none_less : n + 1 - m ≡ 0 = ground arith in
          let none_left : n + 1 - (m + 1) ≡ 0 = ground arith in
          let less : ltb n r.log.sequence ≡ true = rw h.0 below in
          rw (less, none_less) (ap (λ t. r ∷ t) (rw none_left at later))
      | inr above ↦
          let one_more : n + 1 - m ≡ suc (n + 1 - (m + 1)) = ground arith in
          rw (h.0, above, one_more) later
    ]

-- how many events the control frames report as lost
abbrev pub lost : List Control → ℕ
lost [] = 0
lost (c ∷ cs) = counted c.dropped_count + lost cs
  where
    counted : Option ℕ → ℕ
    counted none = 0
    counted (some n) = n

oldest-Run : (m : ℕ) (rs : List Retained) → Run m rs → 1 ≤ length rs → oldest rs ≡ some m
oldest-Run m [] h l = ground arith
oldest-Run m (r ∷ rs) h l = ap some h.0

drop_all : (rs : List Retained) → drop (length rs) rs ≡ []
drop_all [] = refl
drop_all (r ∷ rs) = drop_all rs

-- the end of what is retained, its sequences, and the count of what is reported lost
abbrev pub Exact : Bus → ℕ → List Retained → List Control → Type 0
Exact bus n kept controls =
    ((k : ℕ) × (kept ≡ drop k bus.events))
    × Run (bus.sequence + 1 - length kept) kept
    × (length kept + lost controls ≡ bus.sequence - n)

suffix-Run :
    (bus : Bus) (k : ℕ)
    → IsRing bus
    → k ≤ length bus.events
    → Run (bus.sequence + 1 - length (drop k bus.events)) (drop k bus.events)
suffix-Run bus k v h =
    subst (λ m. Run m (drop k bus.events)) (omega (arith, length-drop k bus.events, v.counted))
      (Run-drop k (bus.sequence + 1 - length bus.events) bus.events v.run)

module _ (bus : Bus) (n : ℕ) (v : IsRing bus) (room : 1 ≤ bus.max_events)
    (behind : n < bus.sequence) where
  some_retained : 1 ≤ length bus.events
  some_retained = ground (arith, v.full)

  first : oldest bus.events ≡ some (bus.sequence + 1 - length bus.events)
  first = oldest-Run (bus.sequence + 1 - length bus.events) bus.events v.run some_retained

  after-Exact : bus.sequence - length bus.events ≤ n → Exact bus n (after n bus.events) []
  after-Exact h =
      let k = n + 1 - (bus.sequence + 1 - length bus.events) in
      rw (after-drop n (bus.sequence + 1 - length bus.events) bus.events v.run) (
        (k, refl),
        suffix-Run bus k v (omega (arith, v.counted)),
        omega (arith, length-drop k bus.events, v.counted),
      )

  gap-Exact :
      expired (oldest bus.events) n ≡ true
      → Exact bus n bus.events
          (control history_expired (some (gap_before (oldest bus.events) n)) bus.events ∷ [])
  gap-Exact late = ((0, refl), v.run, rw first (ground (arith, v.counted, rw first at late)))

  -- the branches of `_history_locked` for a cursor of this stream behind the head
  behind_history : history (some (bus.stream_id, n)) bus ≡ (
      if expired (oldest bus.events) n
      then (
        bus.events,
        control history_expired (some (gap_before (oldest bus.events) n)) bus.events ∷ [],
      )
      else (after n bus.events, []))
  unfolding history
  behind_history = ground (arith, =?_refl bus.stream_id)

  behind-Exact :
      Exact bus n
        (history (some (bus.stream_id, n)) bus).0
        (history (some (bus.stream_id, n)) bus).1
  behind-Exact = elim (Bool-cases (expired (oldest bus.events) n)) [
    | inl late ↦ rw (behind_history, late) (gap-Exact late)
    | inr kept ↦
        rw (behind_history, kept) (after-Exact (ground (arith, v.counted, rw first at kept)))
  ]

Nat-cases : (n m : ℕ) → n ≤ m → (n < m) ⊎ (n ≡ m)
Nat-cases n m h = ground arith

at_head : (bus : Bus) → history (some (bus.stream_id, bus.sequence)) bus ≡ ([], [])
unfolding history
at_head bus = ground (arith, =?_refl bus.stream_id)

head-Exact :
    (bus : Bus)
    → Exact bus bus.sequence
        (history (some (bus.stream_id, bus.sequence)) bus).0
        (history (some (bus.stream_id, bus.sequence)) bus).1
head-Exact bus = rw (at_head bus) ((length bus.events, sym (drop_all bus.events)), tt, omega arith)

-- A reconnecting client loses nothing silently: from a cursor of this stream that is not ahead, it
-- gets the end of what is retained, with the sequences counting up to the head, and those events
-- together with the number that the control frames report as lost are exactly the events since the
-- cursor. The ring must be able to retain an event.
pub history-Exact :
    (bus : Bus) (n : ℕ)
    → IsRing bus
    → 1 ≤ bus.max_events
    → n ≤ bus.sequence
    → Exact bus n
        (history (some (bus.stream_id, n)) bus).0
        (history (some (bus.stream_id, n)) bus).1
history-Exact bus n v room behind = elim (Nat-cases n bus.sequence behind) [
  | inl before ↦ behind-Exact bus n v room before
  | inr at ↦
      subst
        (λ i.
          Exact bus i (history (some (bus.stream_id, i)) bus).0
            (history (some (bus.stream_id, i)) bus).1)
        (sym at) (head-Exact bus)
]
