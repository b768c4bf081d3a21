-- ===== src/Actions/Ledger/Admission.antt =====
-- What an admission promises: `ActionLedger.admit` of astrbot_ex/core/actions/ledger.py.
use astrbot_ex.Prelude.{
  ◌+◌, String, ◌≡◌, refl, ap, subst, true, false, none, some, List, [], ◌∷◌, arith, ◌=?◌,
  if◌then◌else◌,
}
use astrbot_ex.Prelude.Table.{Table, find}
use astrbot_ex.Actions.Error.{ok, raise, contract, resource_conflict}
use astrbot_ex.Actions.Status.{admitted}
use astrbot_ex.Actions.Ledger.Db.{CommandRow, Db, Budgets, snapshot}
use astrbot_ex.Actions.Ledger.Admit.{
  Prepared, Admission, mem, new_row, check_free, admit_new, readmit, admit_body, admit,
}
use astrbot_ex.Actions.Ledger.Tables.{find-reserve}
use astrbot_ex.Actions.Ledger.Calls.{Call, run}
use astrbot_ex.Actions.Ledger.Invariant.Writes
use astrbot_ex.Actions.Ledger.Invariant.Kept.{Consistent, admit-Consistent}
use astrbot_ex.Actions.Ledger.Evolution.Rows.{run_known}

check_free_held :
    (n h : String) (names : List String) (t : Table String)
    → mem n names ≡ true
    → find n t ≡ some h
    → check_free names t ≡ raise (contract resource_conflict)
unfolding check_free
check_free_held n h [] t m held = cc
check_free_held n h (x ∷ xs) t m held = ground (arith, check_free_held n h xs t)

module _ (budgets : Budgets) (event_id : String) (p : Prepared) (db : Db) where
  -- A new command that asks for a resource which any command holds is refused with
  -- `resource_conflict`, whatever else it asks for, and the database stays as it is.
  pub admit_conflict :
      (n holder : String)
      → find p.command_id db.commands ≡ none
      → mem n p.names ≡ true
      → find n db.resources ≡ some holder
      → admit budgets event_id p db ≡ (raise (contract resource_conflict), db)
  unfolding admit admit_body admit_new snapshot
  admit_conflict n holder new asked held =
      ground (arith, check_free_held n holder p.names db.resources asked held)

  -- what a new admission writes, and what it leaves
  pub record Admits (db' : Db) : Type 0 where
    pub fresh : find p.command_id db.commands ≡ none
    pub row :
        (row : CommandRow) × (find p.command_id db'.commands ≡ some row)
        × (row.status ≡ admitted)
        × (row.canonical ≡ p.canonical)
        × (row.owner ≡ p.binding.owner)
        × (row.generation ≡ p.binding.generation)
        × (row.task_id ≡ p.task_id)
    pub others :
        (j : String) → (p.command_id =? j) ≡ false → find j db'.commands ≡ find j db.commands
    pub reservations :
        (n : String)
        → find n db'.resources ≡ (if mem n p.names then some p.command_id else find n db.resources)

  new_of_admit :
      (a : Admission) (db' : Db)
      → admit budgets event_id p db ≡ (ok a, db')
      → a.admitted_new ≡ true
      → admit_new budgets event_id p db ≡ ok (a, db')
  unfolding admit admit_body readmit
  new_of_admit a db' h new = ground arith

  -- A committed admission that is new admits an id that was not there; the row has the canonical
  -- command, the binding and the trusted task, and the status `admitted`; each requested name is
  -- held by it, and every other reservation is as before.
  pub admit-Admits :
      (a : Admission) (db' : Db)
      → admit budgets event_id p db ≡ (ok a, db')
      → a.admitted_new ≡ true
      → Admits db'
  admit-Admits a db' h new =
      let s = new_of_admit a db' h new in
      let w = Writes.admit_new-Wrote budgets event_id p db db' a s in
      record {
        fresh = Writes.admit_new_fresh budgets event_id p db db' a s;
        row = (
          Writes.changed (new_row p) admitted "" [] (db.sequence + 1),
          ground (arith, w.rows p.command_id),
          refl,
          refl,
          refl,
          refl,
          refl,
        );
        others = λ j other. ground (arith, w.rows j);
        reservations = λ n.
            find-reserve p.command_id p.names db.resources db'.resources n
              (Writes.admit_new_resources budgets event_id p db db' a s);
      }

  -- A command id that is known is never admitted as new, and the call changes nothing.
  pub admit_known :
      (row : CommandRow)
      → find p.command_id db.commands ≡ some row
      → ((admit budgets event_id p db).1 ≡ db)
        × ((a : Admission) → (admit budgets event_id p db).0 ≡ ok a → a.admitted_new ≡ false)
  unfolding admit admit_body readmit snapshot
  admit_known row there = (ground arith, λ a h. ground arith)

-- No replay: once an admission of a command id was new, no later one of that id is, after any calls,
-- restarts included, and with any other payload; so a caller that delivers only what is admitted as
-- new delivers each command id at most once. The later call also changes nothing.
pub admit_once :
    (budgets : Budgets) (event_id later_id : String) (p q : Prepared) (calls : List Call)
    (a : Admission) (db db' : Db)
    → Consistent db
    → admit budgets event_id p db ≡ (ok a, db')
    → a.admitted_new ≡ true
    → q.command_id ≡ p.command_id
    → ((admit budgets later_id q (run budgets calls db')).1 ≡ run budgets calls db')
      × ((b : Admission)
          → (admit budgets later_id q (run budgets calls db')).0 ≡ ok b
          → b.admitted_new ≡ false)
admit_once budgets event_id later_id p q calls a db db' v h new same =
    let first = (admit-Admits budgets event_id p db a db' h new).row in
    let (row', found, _) =
      run_known budgets calls p.command_id first.0 db'
        (subst Consistent (ap (λ r. r.1) h) (admit-Consistent budgets event_id p db v)) first.1 in
    admit_known budgets later_id q (run budgets calls db') row' (rw same found)
