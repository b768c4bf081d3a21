-- ===== src/Actions/Ledger/Invariant/Writes.antt =====
-- What each transaction of the ledger writes when it succeeds.
use astrbot_ex.Prelude.{
  ℕ, ◌+◌, String, ◌≡◌, refl, sym, subst, true, false, Option, none, some, [], arith, ◌=?◌,
  if◌then◌else◌,
}
use astrbot_ex.Prelude.Table.{Table, find, put, find-put, Distinct, put-Distinct}
use astrbot_ex.Actions.Error.{ok}
use astrbot_ex.Actions.Status.{Status, admitted, unknown}
use astrbot_ex.Actions.Ledger.Db.{
  OwnerBinding, Proof, Details, CommandRow, EventRow, Db, Budgets, Snapshot, fetch, event,
  set_status, release, insert, snapshot,
}
use astrbot_ex.Actions.Ledger.Admit.{Prepared, Admission, new_row, admit_new, reserve}
use astrbot_ex.Actions.Ledger.Report.{
  Report, frees, record_proof, advance, is_uncertain, reconcile_body,
}
use astrbot_ex.Actions.Ledger.Recovery.{recover_one}
use astrbot_ex.Actions.Ledger.Invariant.Log.{Wrote}
use astrbot_ex.Actions.Ledger.Invariant.Holds.{proof_at}

-- the row and the event that a status change writes
abbrev pub changed : CommandRow → Status → String → Details → ℕ → CommandRow
changed row status reason details seq = record row {
  status = status;
  reason_code = reason;
  details = details;
  event_seq = seq;
}

abbrev pub logged : String → String → Status → String → Details → ℕ → EventRow
logged event_id c status reason details seq = record {
  event_seq = seq;
  command_id = c;
  status = status;
  reason_code = reason;
  details = details;
  acknowledged = false;
  event_id = event_id;
}

module _ (budgets : Budgets) (event_id : String) (p : Prepared) (db db' : Db) (a : Admission)
    (success : admit_new budgets event_id p db ≡ ok (a, db')) where
  admit_new_commands :
      db'.commands
      ≡ put p.command_id
          (changed (new_row p) admitted "" [] (db.sequence + 1))
          (put p.command_id (new_row p) db.commands)
  unfolding admit_new event set_status snapshot fetch insert
  admit_new_commands = ground arith

  pub admit_new-Wrote :
      Wrote p.command_id
        (changed (new_row p) admitted "" [] (db.sequence + 1))
        (logged event_id p.command_id admitted "" [] (db.sequence + 1))
        db
        db'
  unfolding admit_new event set_status snapshot fetch insert
  admit_new-Wrote = record {
    keys = λ d. subst Distinct (sym admit_new_commands) (
        put-Distinct p.command_id (changed (new_row p) admitted "" [] (db.sequence + 1))
          (put p.command_id (new_row p) db.commands)
          (put-Distinct p.command_id (new_row p) db.commands d));
    rows = λ j. ground (
      arith,
      find-put p.command_id j (new_row p) db.commands,
      find-put p.command_id j (changed (new_row p) admitted "" [] (db.sequence + 1))
          (put p.command_id (new_row p) db.commands),
    );
    appended = ground arith;
    owner = refl;
    number = refl;
    shows = record { status = refl; reason_code = refl; details = refl; event_seq = refl };
    sequence = ground arith;
  }

  pub admit_new_resources : reserve p.command_id p.names db.resources ≡ ok db'.resources
  unfolding admit_new event set_status snapshot fetch insert
  admit_new_resources = ground arith

  pub admit_new_evidence : db'.stop_evidence ≡ db.stop_evidence
  unfolding admit_new event set_status snapshot fetch insert
  admit_new_evidence = ground arith

  pub admit_new_fresh : find p.command_id db.commands ≡ none
  unfolding admit_new event set_status snapshot fetch insert
  admit_new_fresh = ground arith

record_proof_lem :
    (c j : String) (proof : Option Proof) (t t' : Table Proof)
    → record_proof c proof t ≡ ok t'
    → find j t' ≡ proof_at c proof j (find j t)
unfolding insert
record_proof_lem c j none t t' h = ground arith
record_proof_lem c j (some p) t t' h = ground (arith, find-put c j p t)

module _ (budgets : Budgets) (event_id : String) (r : Report) (row : CommandRow) (db db' : Db)
    (s : Snapshot) (there : find r.command_id db.commands ≡ some row)
    (success : advance budgets event_id r row db ≡ ok (s, db')) where
  advance_commands :
      db'.commands
      ≡ put r.command_id
          (changed row r.status r.reason_code r.details (db.sequence + 1))
          db.commands
  unfolding advance event set_status snapshot fetch insert
  advance_commands = ground arith

  pub advance-Wrote :
      Wrote r.command_id
        (changed row r.status r.reason_code r.details (db.sequence + 1))
        (logged event_id r.command_id r.status r.reason_code r.details (db.sequence + 1))
        db
        db'
  unfolding advance event set_status snapshot fetch insert
  advance-Wrote = record {
    keys = λ d. subst Distinct (sym advance_commands) (
        put-Distinct r.command_id (changed row r.status r.reason_code r.details (db.sequence + 1))
          db.commands d);
    rows = λ j. ground (
      arith,
      find-put r.command_id j (changed row r.status r.reason_code r.details (db.sequence + 1))
          db.commands,
    );
    appended = ground arith;
    owner = refl;
    number = refl;
    shows = record { status = refl; reason_code = refl; details = refl; event_seq = refl };
    sequence = ground arith;
  }

  pub advance_evidence :
      (j : String)
      → find j db'.stop_evidence ≡ proof_at r.command_id r.proof j (find j db.stop_evidence)
  unfolding advance event set_status snapshot fetch insert
  advance_evidence j =
      ground (arith, record_proof_lem r.command_id j r.proof db.stop_evidence db'.stop_evidence)

  pub advance_resources :
      db'.resources
      ≡ (if frees r.status r.proof then release r.command_id db.resources else db.resources)
  unfolding advance event set_status snapshot fetch insert
  advance_resources = ground arith

pub recover_one_row :
    (budgets : Budgets) (event_id : String → String) (c : String) (db db' : Db)
    → recover_one budgets event_id c db ≡ ok db'
    → (row : CommandRow) × (find c db.commands ≡ some row)
unfolding recover_one fetch
recover_one_row budgets event_id c db db' h = ground arith

module _ (budgets : Budgets) (event_id : String → String) (c : String) (row : CommandRow)
    (db db' : Db) (there : find c db.commands ≡ some row)
    (success : recover_one budgets event_id c db ≡ ok db') where
  recover_one_commands :
      db'.commands ≡ put c (changed row unknown "resume_review" [] (db.sequence + 1)) db.commands
  unfolding recover_one event set_status fetch
  recover_one_commands = ground arith

  pub recover_one-Wrote :
      Wrote c
        (changed row unknown "resume_review" [] (db.sequence + 1))
        (logged (event_id c) c unknown "resume_review" [] (db.sequence + 1))
        db
        db'
  unfolding recover_one event set_status fetch
  recover_one-Wrote = record {
    keys = λ d.
        subst Distinct (sym recover_one_commands)
          (put-Distinct c (changed row unknown "resume_review" [] (db.sequence + 1)) db.commands d);
    rows = λ j. ground (
      arith,
      find-put c j (changed row unknown "resume_review" [] (db.sequence + 1)) db.commands,
    );
    appended = ground arith;
    owner = refl;
    number = refl;
    shows = record { status = refl; reason_code = refl; details = refl; event_seq = refl };
    sequence = ground arith;
  }

  pub recover_one_evidence : db'.stop_evidence ≡ db.stop_evidence
  unfolding recover_one event set_status fetch
  recover_one_evidence = ground arith

  pub recover_one_resources : db'.resources ≡ db.resources
  unfolding recover_one event set_status fetch
  recover_one_resources = ground arith

module _ (c : String) (binding : OwnerBinding) (p : Proof) (db db' : Db) (s : Snapshot)
    (success : reconcile_body c binding p db ≡ ok (s, db')) where
  -- the command is there and uncertain
  pub reconcile_row :
      (row : CommandRow) × (find c db.commands ≡ some row) × (is_uncertain row.status ≡ true)
  unfolding reconcile_body fetch snapshot
  reconcile_row = ground arith

  pub reconcile_commands : db'.commands ≡ db.commands
  unfolding reconcile_body fetch snapshot insert
  reconcile_commands = ground arith

  pub reconcile_resources : db'.resources ≡ release c db.resources
  unfolding reconcile_body fetch snapshot insert
  reconcile_resources = ground arith

  pub reconcile_events : (db'.events ≡ db.events) × (db'.sequence ≡ db.sequence)
  unfolding reconcile_body fetch snapshot insert
  reconcile_events = ground arith

  pub reconcile_evidence :
      (j : String) → find j db'.stop_evidence ≡ (if c =? j then some p else find j db.stop_evidence)
  unfolding reconcile_body fetch snapshot insert
  reconcile_evidence j = ground (arith, find-put c j p db.stop_evidence)
