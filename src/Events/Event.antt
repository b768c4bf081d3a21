-- ===== src/Events/Event.antt =====
-- A runtime event and its level: `RuntimeEvent` of astrbot_ex/core/models.py, `normalize_level` and
-- `_should_publish` of astrbot_ex/core/event_bus.py. `str.lower` is the parameter `lower`.
use Prim.Native.String
use astrbot_ex.Prelude.{
  ℕ, String, Bool, true, false, not, Option, none, some, List, [], ◌∷◌, ◌||◌, leb, ◌=?◌,
  if◌then◌else◌, any,
}
use astrbot_ex.Prelude.Table.{Table, find}
use astrbot_ex.Prelude.Text.{strip, text_length, text_take}

pub data Level : Type 0 where
  debug info warning error critical : Level

-- `_LEVEL_RANK`
abbrev pub rank : Level → ℕ
rank debug = 0
rank info = 1
rank warning = 2
rank error = 3
rank critical = 4

-- The reserved block `data["log"]`, less the source label. `event_id` is the text
-- `stream_id:sequence`.
pub record Log : Type 0 where
  pub level : Level
  pub stream_id : String
  pub sequence : ℕ

-- A value of an event's data; `other` has a truth value and stands for what is not looked into.
pub data Value : Type 0 where
  text : String → Value
  bytes : ℕ → Value
  flag : Bool → Value
  nothing : Value
  block : Log → Value
  other : Bool → Value

pub record Event : Type 0 where
  pub event_type : String
  pub message : String
  -- `data`
  pub payload : Table Value

-- `_LEVEL_ALIASES`
abbrev pub level_aliases : Table Level
level_aliases =
    ("debug", debug)
    ∷ ("trace", debug)
    ∷ ("verbose", debug)
    ∷ ("info", info)
    ∷ ("information", info)
    ∷ ("notice", info)
    ∷ ("warn", warning)
    ∷ ("warning", warning)
    ∷ ("error", error)
    ∷ ("err", error)
    ∷ ("fatal", critical)
    ∷ ("critical", critical)
    ∷ ("crit", critical)
    ∷ []

abbrev pub error_types : List String
error_types = "fault" ∷ "plugin_fault" ∷ "rule_rejected" ∷ []

abbrev pub always_types : List String
always_types =
    "environment" ∷ "environment_changed" ∷ "ros_graph_changed" ∷ "ros_endpoints_changed"
    ∷ "decision_changed" ∷ "fault" ∷ "plugin_fault" ∷ "rule_rejected" ∷ "runtime_state"
    ∷ "ros_diagnostic" ∷ "vision_health" ∷ []

abbrev pub lifecycle_keywords : List String
lifecycle_keywords =
    "start" ∷ "started" ∷ "stop" ∷ "stopped" ∷ "load" ∷ "loaded" ∷ "unload" ∷ "unloaded" ∷ "install"
    ∷ "installed" ∷ "uninstall" ∷ "uninstalled" ∷ "enable" ∷ "enabled" ∷ "disable" ∷ "disabled"
    ∷ "unavailable" ∷ "degraded" ∷ "open failed" ∷ "failed" ∷ []

-- `keyword in text`
unfoldable pub contains : String → String → Bool
unfolding text_take
contains keyword String.[] = keyword =? String.[]
contains keyword (String.◌∷◌ c s) =
    let rest = contains keyword s in
    text_take (text_length keyword) (String.◌∷◌ c s) =? keyword || rest

abbrev pub listed : String → List String → Bool
listed s names = any (λ n. s =? n) names

abbrev or_else : Option Level → Option Level → Option Level
or_else none b = b
or_else (some a) b = some a

module _ (lower : String → String) where
  abbrev named : Option Value → Option Level
  named (some (text t)) = find (lower (strip t)) level_aliases
  named _ = none

  -- `_explicit_level`
  unfoldable pub explicit_level : Table Value → Option Level
  unfolding strip
  explicit_level payload = or_else (named (find "severity" payload)) (named (find "level" payload))

  abbrev is_error : Option Value → Bool
  is_error none = false
  is_error (some nothing) = false
  is_error (some (flag b)) = b
  is_error (some (text t)) = not (strip t =? "")
  is_error (some (bytes n)) = not (leb n 0)
  is_error (some (block log)) = true
  is_error (some (other b)) = b

  -- `_has_error`
  unfoldable pub has_error : Table Value → Bool
  unfolding strip
  has_error payload = is_error (find "error" payload)

  -- `_is_lifecycle`
  unfoldable pub is_lifecycle : Event → Bool
  unfolding contains
  is_lifecycle e =
      let words = lower (String.◌++◌ e.event_type (String.◌++◌ " " e.message)) in
      any (λ keyword. contains keyword words) lifecycle_keywords

  -- `LEVELS[max(rank, ERROR)]`
  abbrev pub raised : Level → Level
  raised critical = critical
  raised _ = error

  abbrev explicit_or_debug : Option Level → Level
  explicit_or_debug none = debug
  explicit_or_debug (some l) = l

  abbrev unranked : Option Level → Bool
  unranked none = true
  unranked (some l) = false

  -- `normalize_level`
  unfoldable pub normalize_level : Event → Level
  unfolding explicit_level has_error is_lifecycle
  normalize_level e =
      let explicit = explicit_level e.payload in
      if listed e.event_type error_types || has_error e.payload
      then raised (explicit_or_debug explicit)
      else if unranked explicit
      then (if listed e.event_type always_types || is_lifecycle e then info else debug)
      else explicit_or_debug explicit

  -- `_should_publish` at the event's level
  unfoldable pub should_publish : Event → Level → Bool
  unfolding is_lifecycle
  should_publish e level =
      leb (rank warning) (rank level) || listed e.event_type always_types || is_lifecycle e
