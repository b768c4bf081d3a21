-- ===== src/Actions/Ledger/Report.antt =====
-- `ActionLedger.report`, `reconcile_stop`, `stop_proof` and `ack` of
-- astrbot_ex/core/actions/ledger.py: the checks before a request is queued and the transactions.
use astrbot_ex.Prelude.{
  ℕ, String, Bool, true, false, not, Option, none, some, List, [], ◌∷◌, ltb, leb, ◌==◌, ◌=?◌, ◌&&◌,
  ◌||◌, if◌then◌else◌,
}
use astrbot_ex.Prelude.Table.{Table, find, put}
use astrbot_ex.Prelude.Text.{text_length}
use astrbot_ex.Actions.Error.{
  value_error, Result, ok, raise, raise_if, reject_if, ◌>>=◌, ◌>>◌, illegal_transition,
}
use astrbot_ex.Actions.Status.{
  Status, rejected, succeeded, failed, canceled, timed_out, unknown, eq_status, can_transition,
}
use astrbot_ex.Actions.Checks.{max_id_len, max_sequence}
use astrbot_ex.Actions.Ledger.Db.{
  OwnerBinding, StopEvidence, Proof, Detail, Details, CommandRow, EventRow, Db, Budgets, Snapshot,
  insert, release, check_binding, fetch, event, set_status, transaction, take_snapshot,
}
use astrbot_ex.Actions.Ledger.Admit.{valid_id, validate_binding}

-- `_validate_stop`
unfoldable pub validate_stop : String → Option StopEvidence → Result Proof
unfolding valid_id
validate_stop c none = raise value_error
validate_stop c (some e) =
    if valid_id c && e.command_id =? c && e.stopped && valid_id e.source && valid_id e.reference
    then ok (record { source = e.source; reference = e.reference })
    else raise value_error

-- A report that passed the checks. The proof is there exactly for `canceled` and for a proven
-- failure, and is part of the details.
pub record Report : Type 0 where
  pub command_id : String
  pub binding : OwnerBinding
  pub status : Status
  pub reason_code : String
  pub details : Details
  pub proof : Option Proof

-- the details, with the trusted proof entered
abbrev with_proof : Option Proof → Details → Details
with_proof none details = details
with_proof (some p) details = put "stop_evidence" (Detail.proof p) details

-- `status == CANCELED or proven_failure`
abbrev pub needs_proof : Status → Option StopEvidence → Bool
needs_proof status none = eq_status status canceled
needs_proof status (some e) = eq_status status canceled || eq_status status failed

abbrev is_some {ℓ} : {A : Type ℓ} → Option A → Bool
is_some none = false
is_some (some a) = true

abbrev pub read_proof : Bool → String → Option StopEvidence → Result (Option Proof)
read_proof false c e = ok none
read_proof true c e = do p ← validate_stop c e; ok (some p)

unfoldable pub prepare_report :
    Budgets
    → String
    → OwnerBinding
    → Status
    → String
    → Details
    → Option StopEvidence
    → Result Report
prepare_report budgets c binding status reason payload evidence = do
  validate_binding binding
  raise_if (not (valid_id c)) value_error
  raise_if (is_some (budgets.of_details payload)) value_error
  raise_if (is_some (find "stop_evidence" payload)) value_error
  raise_if (ltb max_id_len (text_length reason)) value_error
  proof ← read_proof (needs_proof status evidence) c evidence
  ok (record {
    command_id = c;
    binding = binding;
    status = status;
    reason_code = reason;
    details = with_proof proof payload;
    proof = proof;
  })

-- the insertion into `stop_evidence` where the report carries a proof
abbrev pub record_proof : String → Option Proof → Table Proof → Result (Table Proof)
record_proof c none table = ok table
record_proof c (some p) table = insert c p table

-- `status in (REJECTED, SUCCEEDED, CANCELED) or proven_failure`
abbrev pub frees : Status → Option Proof → Bool
frees rejected p = true
frees succeeded p = true
frees canceled p = true
frees _ (some p) = true
frees _ none = false

-- the statements of a report that changes the status
unfoldable pub advance : Budgets → String → Report → CommandRow → Db → Result (Snapshot × Db)
advance budgets event_id r row db = do
  evidence ← record_proof r.command_id r.proof db.stop_evidence
  (seq, db') ←
      event budgets event_id r.command_id r.status r.reason_code r.details
        (record db { stop_evidence = evidence })
  let db'' = set_status r.command_id row r.status r.reason_code r.details seq db'
  take_snapshot r.command_id (record db'' {
    resources =
        if frees r.status r.proof then release r.command_id db''.resources else db''.resources;
  })

unfoldable pub report_body : Budgets → String → Report → Db → Result (Snapshot × Db)
unfolding check_binding
report_body budgets event_id r db = do
  row ← fetch db r.command_id
  check_binding row r.binding
  reject_if (not (can_transition row.status r.status)) illegal_transition
  if eq_status row.status r.status
      then take_snapshot r.command_id db
      else advance budgets event_id r row db

unfoldable pub report : Budgets → String → Report → Db → Result Snapshot × Db
unfolding report_body transaction
report budgets event_id r db = transaction (report_body budgets event_id r) db

abbrev pub is_uncertain : Status → Bool
is_uncertain unknown = true
is_uncertain timed_out = true
is_uncertain failed = true
is_uncertain _ = false

-- the proof is entered, or must be the one that is there
abbrev pub reconcile_proof : String → Proof → Table Proof → Result (Table Proof)
reconcile_proof c p table = elim (find c table) [
  | none ↦ insert c p table
  | some old ↦
      if old.source =? p.source && old.reference =? p.reference then ok table else raise value_error
]

-- The proof is the validated one; releasing nothing where nothing is held is the same deletion.
unfoldable pub reconcile_body : String → OwnerBinding → Proof → Db → Result (Snapshot × Db)
unfolding check_binding
reconcile_body c binding p db = do
  row ← fetch db c
  check_binding row binding
  raise_if (not (is_uncertain row.status)) value_error
  evidence ← reconcile_proof c p db.stop_evidence
  take_snapshot c (record db { stop_evidence = evidence; resources = release c db.resources })

unfoldable pub reconcile_stop : String → OwnerBinding → Proof → Db → Result Snapshot × Db
unfolding reconcile_body transaction
reconcile_stop c binding p db = transaction (reconcile_body c binding p) db

-- the checks of `reconcile_stop`
unfoldable pub prepare_reconcile : String → OwnerBinding → Option StopEvidence → Result Proof
prepare_reconcile c binding evidence = do validate_binding binding; validate_stop c evidence

-- `stop_proof`: the committed proof, for the bound owner only
unfoldable pub stop_proof : String → OwnerBinding → Db → Result (Option StopEvidence)
unfolding fetch check_binding
stop_proof c binding db = do
  validate_binding binding
  raise_if (not (valid_id c)) value_error
  row ← fetch db c
  check_binding row binding
  ok (elim (find c db.stop_evidence) [
    | none ↦ none
    | some p ↦
        some (record { command_id = c; stopped = true; source = p.source; reference = p.reference })
  ])

abbrev pub mark : ℕ → List EventRow → List EventRow × Bool
mark seq [] = ([], false)
mark seq (e ∷ es) =
    let rest = mark seq es in
    if e.event_seq == seq
    then (record e { acknowledged = true } ∷ rest.0, true)
    else (e ∷ rest.0, rest.1)

-- the check of `ack`
unfoldable pub prepare_ack : ℕ → Result ℕ
prepare_ack seq = do raise_if (not (ltb 0 seq && leb seq max_sequence)) value_error; ok seq

-- the transaction of `ack`: whether there is such an event
unfoldable pub ack : ℕ → Db → Bool × Db
ack seq db = let (events, found) = mark seq db.events in (found, record db { events = events })
