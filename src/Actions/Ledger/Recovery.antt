-- ===== src/Actions/Ledger/Recovery.antt =====
-- The recovery of `_initialize` and the queries `get`, `list_commands` and `events` of
-- astrbot_ex/core/actions/ledger.py.
use astrbot_ex.Prelude.{
  ℕ, String, Bool, true, false, not, Option, none, some, List, [], ◌∷◌, ltb, leb, ◌&&◌, ◌||◌,
  if◌then◌else◌, take,
}
use astrbot_ex.Prelude.Table.{Table}
use astrbot_ex.Prelude.Text.{sort, text_lt}
use astrbot_ex.Actions.Error.{value_error, Result, ok, raise_if, ◌>>=◌, ◌>>◌}
use astrbot_ex.Actions.Status.{Status, admitted, accepted, running, unknown}
use astrbot_ex.Actions.Checks.{max_sequence}
use astrbot_ex.Actions.Ledger.Admit.{valid_id}
use astrbot_ex.Actions.Ledger.Db.{
  CommandRow, EventRow, Db, Budgets, Snapshot, snapshot, fetch, event, set_status, transaction,
}

-- `status IN ('admitted','accepted','running')`
abbrev pub is_live : Status → Bool
is_live admitted = true
is_live accepted = true
is_live running = true
is_live _ = false

unfoldable pub live_ids : Table CommandRow → List String
live_ids [] = []
live_ids ((c, row) ∷ t) = let rest = live_ids t in if is_live row.status then c ∷ rest else rest

unfoldable pub recover_one : Budgets → (String → String) → String → Db → Result Db
recover_one budgets fresh c db = do
  row ← fetch db c
  (seq, db') ← event budgets (fresh c) c unknown "resume_review" [] db
  ok (set_status c row unknown "resume_review" [] seq db')

unfoldable pub recover_each : Budgets → (String → String) → List String → Db → Result Db
recover_each budgets fresh [] db = ok db
recover_each budgets fresh (c ∷ cs) db = do
  db' ← recover_one budgets fresh c db
  recover_each budgets fresh cs db'

abbrev pub done : Db → Result (Unit {0} × Db)
done db = ok (tt, db)

-- The fresh event ids are a function of the command.
unfoldable pub recover : Budgets → (String → String) → Db → Result (Unit {0}) × Db
unfolding transaction
recover budgets fresh db =
    transaction (λ d. recover_each budgets fresh (sort (live_ids d.commands)) d >>= done) db

-- `_page`
unfoldable pub check_page : ℕ → Result (Unit {0})
check_page limit = raise_if (not (leb 1 limit && leb limit 500)) value_error

-- `get`
unfoldable pub get : String → Db → Result (Option Snapshot)
unfolding snapshot
get c db = do raise_if (not (valid_id c)) value_error; ok (snapshot db c)

ids_after : String → Table CommandRow → List String
ids_after after [] = []
ids_after after ((c, row) ∷ t) =
    let rest = ids_after after t in if text_lt after c then c ∷ rest else rest

snapshots : Db → List String → List Snapshot
snapshots db [] = []
snapshots db (c ∷ cs) =
    let rest = snapshots db cs in elim (snapshot db c) [ none ↦ rest | some s ↦ s ∷ rest ]

unfoldable pub list_commands : String → ℕ → Db → Result (List Snapshot)
unfolding ids_after snapshots check_page
list_commands after_id limit db = do
  check_page limit
  ok (snapshots db (take limit (sort (ids_after after_id db.commands))))

-- `event_seq > after_seq AND (not unacknowledged_only OR acknowledged = 0)`
abbrev pub selects : ℕ → Bool → EventRow → Bool
selects after_seq unacknowledged_only e =
    ltb after_seq e.event_seq && (not unacknowledged_only || not e.acknowledged)

unfoldable pub select : ℕ → Bool → List EventRow → List EventRow
select after_seq unack [] = []
select after_seq unack (e ∷ es) =
    let rest = select after_seq unack es in if selects after_seq unack e then e ∷ rest else rest

-- The rows in the order of their key; the join adds the command's identity to each.
unfoldable pub events : ℕ → ℕ → Bool → Db → Result (List EventRow)
unfolding check_page select
events after_seq limit unack db = do
  check_page limit
  raise_if (ltb max_sequence after_seq) value_error
  ok (take limit (select after_seq unack db.events))
