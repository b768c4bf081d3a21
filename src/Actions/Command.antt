-- ===== src/Actions/Command.antt =====
-- `ActionCommand` and its `parse`, and the checks of single values that it makes: `require_text`,
-- `require_id`, `require_sequence`, `require_lease` of astrbot_ex/core/actions/models.py. The wire
-- object is the typed record; its fields may still be blank, too long or out of range.
use astrbot_ex.Prelude.{ℕ, String, Bool, Option, none, some, ltb, ◌==◌, ◌=?◌, ◌&&◌}
use astrbot_ex.Prelude.Text.{strip, text_length}
use astrbot_ex.Actions.Error.{
  Result, ok, reject_if, ◌>>=◌, ◌>>◌, empty_string, text_too_long, range_violation,
  non_positive_lease,
}
use astrbot_ex.Actions.Checks.{max_sequence, max_id_len}

pub data Operation : Type 0 where
  start cancel pause resume : Operation

pub record Command : Type 0 where
  pub command_id : String
  pub ex_session : String
  pub goal_id : String
  pub goal_revision : ℕ
  pub decision_id : String
  pub owner : String
  pub plugin_generation : ℕ
  pub action_id : String
  pub operation : Operation
  -- the JSON text of the parameters
  pub params : String
  pub lease_ms : ℕ

abbrev pub max_lease_ms : ℕ
max_lease_ms = 600000

unfoldable pub require_text : String → Option ℕ → Result String
unfolding strip
require_text value max_len =
    let text = strip value in
    do
      reject_if (text =? "") empty_string
      reject_if (too_long (text_length text) max_len) text_too_long
      ok text
  where
    too_long : ℕ → Option ℕ → Bool
    too_long n none = Bool.false
    too_long n (some limit) = ltb limit n

unfoldable pub require_id : String → Result String
unfolding require_text
require_id value = require_text value (some max_id_len)

unfoldable pub require_sequence : ℕ → Result ℕ
require_sequence value = do reject_if (ltb max_sequence value) range_violation; ok value

unfoldable pub require_lease : ℕ → Result ℕ
require_lease value = do
  reject_if (value == 0) non_positive_lease
  reject_if (ltb max_lease_ms value) range_violation
  ok value

unfoldable pub parse : Command → Result Command
unfolding require_id require_sequence require_lease
parse raw = do
  command_id ← require_id raw.command_id
  ex_session ← require_id raw.ex_session
  goal_id ← require_id raw.goal_id
  goal_revision ← require_sequence raw.goal_revision
  decision_id ← require_id raw.decision_id
  owner ← require_id raw.owner
  plugin_generation ← require_sequence raw.plugin_generation
  action_id ← require_id raw.action_id
  lease_ms ← require_lease raw.lease_ms
  ok (record {
    command_id = command_id;
    ex_session = ex_session;
    goal_id = goal_id;
    goal_revision = goal_revision;
    decision_id = decision_id;
    owner = owner;
    plugin_generation = plugin_generation;
    action_id = action_id;
    operation = raw.operation;
    params = raw.params;
    lease_ms = lease_ms;
  })

abbrev eq_operation : Operation → Operation → Bool
eq_operation start start = Bool.true
eq_operation cancel cancel = Bool.true
eq_operation pause pause = Bool.true
eq_operation resume resume = Bool.true
eq_operation _ _ = Bool.false

abbrev pub is_start : Operation → Bool
is_start o = eq_operation o start

-- Equality of two commands' canonical JSON texts.
unfoldable pub eq_command : Command → Command → Bool
eq_command a b =
    a.command_id =? b.command_id
    && (a.ex_session =? b.ex_session
        && (a.goal_id =? b.goal_id
            && (a.goal_revision == b.goal_revision
                && (a.decision_id =? b.decision_id
                    && (a.owner =? b.owner
                        && (a.plugin_generation == b.plugin_generation
                            && (a.action_id =? b.action_id
                                && (eq_operation a.operation b.operation
                                    && (a.params =? b.params && a.lease_ms == b.lease_ms)))))))))
