-- ===== src/Voice/Gate.antt =====
-- `ConversationGate` of astrbot_ex/core/voice/gate.py: whether an utterance is addressed to the
-- assistant. Scores and thresholds are numbers of thousandths, times are milliseconds.
pub mod Laws
mod Examples
use astrbot_ex.Prelude.{
  ℕ, ◌+◌, ◌-◌, ◌*◌, String, Bool, true, false, not, Option, none, some, List, [], ◌∷◌, ◌++◌, ◌&&◌,
  ◌||◌, ltb, leb, ◌==◌, ◌=?◌, if◌then◌else◌, length, drop,
}
use mathlib.Core.List.{reverse}
use astrbot_ex.Prelude.Text.{strip, text_length, text_take}
use astrbot_ex.Actions.Error.{value_error, runtime_error, Result, ok, raise, raise_if, ◌>>=◌, ◌>>◌}

-- the answers of the module `re`, for a pattern and a text
pub record Regex : Type 0 where
  pub full_match : String → String → Bool
  pub search : String → String → Bool
  -- `re.split(pattern, text, maxsplit=1)[0]`
  pub before : String → String → String
  -- `re.sub(pattern, "", text)`
  pub remove : String → String → String

-- an item of `history`
pub record Exchange : Type 0 where
  pub user : String
  pub assistant : String
  pub at : ℕ

pub record Gate : Type 0 where
  pub threshold : ℕ
  pub forward_threshold : ℕ
  pub quiet_threshold : ℕ
  pub followup : ℕ
  pub history : List Exchange
  pub overheard : List (ℕ × String)
  pub last_address : Option ℕ
  pub quiet : Bool

-- what the client judges by
pub record GateState : Type 0 where
  pub latest_utterance : String
  pub recent_exchange : List (String × String)
  pub recent_background : List String
  pub active_exchange : Bool
  pub quiet_requested : Bool

-- A score that is no finite number from 0 to 1 is `none`.
pub record Scores : Type 0 where
  pub addressed : Option ℕ
  pub forward : Option ℕ
  pub quiet : Option ℕ

pub record Judgment : Type 0 where
  pub allowed : Bool
  pub quiet : Bool
  pub captured_at : ℕ

-- `list[-n:]`, and the append of a bounded deque
abbrev pub last {ℓ} : {A : Type ℓ} → ℕ → List A → List A
last n xs = drop (length xs - n) xs

abbrev pub push {ℓ} : {A : Type ℓ} → A → List A → List A
push x xs = last 6 (xs ++ x ∷ [])

abbrev out_of_range : ℕ → Bool
out_of_range score = ltb 1000 score

abbrev pub or_threshold : Option ℕ → ℕ → ℕ
or_threshold none threshold = threshold
or_threshold (some n) threshold = n

unfoldable pub open_gate : ℕ → ℕ → Option ℕ → ℕ → Result Gate
open_gate threshold followup forward quiet_threshold = do
  raise_if (out_of_range threshold) value_error
  raise_if (not (leb 1000 followup && leb followup 120000)) value_error
  raise_if (out_of_range (or_threshold forward threshold)) value_error
  raise_if (out_of_range quiet_threshold) value_error
  ok (record {
    threshold = threshold;
    forward_threshold = or_threshold forward threshold;
    quiet_threshold = quiet_threshold;
    followup = followup;
    history = [];
    overheard = [];
    last_address = none;
    quiet = false;
  })

unfoldable pub set_thresholds : ℕ → Option ℕ → Gate → Result Gate
set_thresholds threshold forward g = do
  raise_if (out_of_range threshold) value_error
  raise_if (out_of_range (or_threshold forward threshold)) value_error
  ok (record g { threshold = threshold; forward_threshold = or_threshold forward threshold })

-- `0 <= now - at <= span`
abbrev pub is_recent : ℕ → ℕ → ℕ → Bool
is_recent now span at = leb at now && leb (now - at) span

unfoldable pub is_active : ℕ → Gate → Bool
is_active now g = elim g.last_address [ none ↦ false | some at ↦ is_recent now g.followup at ]

unfoldable pub recent_exchanges : ℕ → List Exchange → List (String × String)
recent_exchanges now [] = []
recent_exchanges now (e ∷ es) =
    let rest = recent_exchanges now es in
    if is_recent now 180000 e.at then (e.user, e.assistant) ∷ rest else rest

unfoldable pub recent_background : ℕ → List (ℕ × String) → List String
recent_background now [] = []
recent_background now ((at, text) ∷ rest) =
    let others = recent_background now rest in
    if is_recent now 120000 at then text ∷ others else others

-- `state`
unfoldable pub state_at : String → ℕ → Gate → GateState
unfolding is_active recent_exchanges recent_background
state_at text now g = record {
  latest_utterance = text;
  recent_exchange = last 3 (recent_exchanges now g.history);
  recent_background = last 4 (recent_background now g.overheard);
  active_exchange = is_active now g;
  quiet_requested = g.quiet;
}

unfoldable pub reported_quote_only : Regex → String → Bool
reported_quote_only re text =
    if re.search "解释|翻译|分析|说明|怎么理解|帮我|告诉我|请问" (re.before "[“\"「『]" text)
    then false
    else re.full_match "[^：:“”\"「」『』]{1,24}(?:说|问|说道|问道)[：:]?[“\"「『].+[”\"」』][。.!！?？]?" (strip text)

unfoldable pub local_quiet : Regex → String → ℕ → Gate → Bool
unfolding is_active
local_quiet re text now g =
    is_active now g
    && re.full_match
        "(?:请)?(?:你)?(?:现在)?(?:先)?(?:别回答|不要回答|不用回答|别说话|不要说话|别说|别讲|停止播报|暂停播报|停止说话|停止回答|安静一下|安静|保持安静|闭嘴|听着就行|听着就好)(?:了|吧|好吗)?(?:听着就行|听着就好)?"
        (re.remove "[\\s，,。.!！?？：:]" text)

-- the scores of a quotation, of a local command, or of the client
unfoldable pub scores_of : Regex → (GateState → Result Scores) → String → ℕ → Gate → Result Scores
unfolding reported_quote_only local_quiet state_at
scores_of re client text now g =
    if reported_quote_only re text
    then ok (record { addressed = some 0; forward = some 0; quiet = some 0 })
    else if local_quiet re text now g
    then ok (record { addressed = some 1000; forward = some 0; quiet = some 1000 })
    else client (state_at text now g)

abbrev pub checked_score : Option ℕ → Result ℕ
checked_score none = raise (runtime_error "Invalid decision score")
checked_score (some n) = ok n

abbrev pub reaches : ℕ → ℕ → Bool
reaches threshold score = ltb 0 score && leb threshold score

-- the verdict on three scores
unfoldable pub judge : Gate → ℕ → ℕ → ℕ → ℕ → Judgment
judge g now addressed forward quiet =
    let is_addressed = reaches g.threshold addressed in
    let is_quiet = is_addressed && reaches g.quiet_threshold quiet in
    record {
      allowed = is_addressed && reaches g.forward_threshold forward && not is_quiet;
      quiet = is_quiet;
      captured_at = now;
    }

-- `commit`
unfoldable pub commit : String → Judgment → Gate → Gate
commit text r g =
    if r.quiet
    then record g { quiet = true; last_address = none }
    else if r.allowed
    then record g {
      quiet = false;
      last_address = some r.captured_at;
      history =
          push (record { user = text_take 1200 text; assistant = ""; at = r.captured_at })
            g.history;
    }
    else record g { overheard = push (r.captured_at, text_take 1000 text) g.overheard }

-- `evaluate` at a given `captured_at`; `is_set` is what the event of the cancellation says before and after the client
unfoldable pub evaluate :
    Regex
    → (GateState → Result Scores)
    → Bool
    → Bool
    → Bool
    → String
    → ℕ
    → Gate
    → Result (Judgment × Gate)
unfolding scores_of judge commit
evaluate re client is_set is_set' commits text now g = do
  raise_if (strip text =? "" || ltb 4000 (text_length text)) (runtime_error "GateError")
  raise_if is_set (runtime_error "GateError")
  scores ← scores_of re client text now g
  raise_if is_set' (runtime_error "GateError")
  addressed ← checked_score scores.addressed
  forward ← checked_score scores.forward
  quiet ← checked_score scores.quiet
  (let r = judge g now addressed forward quiet in ok (r, if commits then commit text r g else g))

-- `captured_at is None or item["at"] == captured_at`
abbrev pub is_at : Option ℕ → ℕ → Bool
is_at none at = true
is_at (some n) at = at == n

-- The newest exchange that fits takes the answer; the list is the history from its end.
unfoldable pub answer_newest : String → String → Option ℕ → List Exchange → Option (List Exchange)
answer_newest user answer captured_at [] = none
answer_newest user answer captured_at (e ∷ es) =
    let older = answer_newest user answer captured_at es in
    if e.user =? user && is_at captured_at e.at
    then some (record e { assistant = answer } ∷ es)
    else elim older [ none ↦ none | some es' ↦ some (e ∷ es') ]

-- `answered`, with the clock's reading
unfoldable pub answered : String → String → Option ℕ → Bool → ℕ → Gate → Gate
unfolding answer_newest
answered user answer captured_at finished now g =
    elim (answer_newest (text_take 1200 user) (text_take 1600 answer) captured_at
      (reverse g.history)) [
        | none ↦ g
        | some es ↦ record g {
          history = reverse es;
          last_address = if not g.quiet && finished then some now else g.last_address;
        }
      ]

unfoldable pub reset : Gate → Gate
reset g = record g { history = []; overheard = []; last_address = none; quiet = false }
