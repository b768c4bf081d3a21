-- ===== src/Actions/Ledger/Invariant/Kept.antt =====
-- Every call keeps the invariant of the ledger.
use astrbot_ex.Prelude.{
  ℕ, String, ◌≡◌, ◌⊎◌, inl, inr, refl, sym, subst, true, false, some, List, [], ◌∷◌, arith,
}
use astrbot_ex.Prelude.Table.{find, Distinct}
use astrbot_ex.Prelude.Text.{sort}
use astrbot_ex.Actions.Error.{Result, ok, raise, ok-injective, ◌>>=◌}
use astrbot_ex.Actions.Status.{is_terminal, can_transition, eq_status}
use astrbot_ex.Actions.Ledger.Db.{
  OwnerBinding, Proof, CommandRow, Db, empty_db, Budgets, Snapshot, transaction, fetch, snapshot,
}
use astrbot_ex.Actions.Ledger.Admit.{Prepared, Admission, admit_new, readmit, admit_body, admit}
use astrbot_ex.Actions.Ledger.Report.{
  Report, ack, advance, report_body, report, reconcile_body, reconcile_stop,
}
use astrbot_ex.Actions.Ledger.Recovery.{recover_one, recover_each, recover, live_ids, done}
use astrbot_ex.Actions.Ledger.Invariant.Log.{IsLogged, latest, Wrote-IsLogged, ack-IsLogged}
use astrbot_ex.Actions.Ledger.Invariant.Holds.{
  IsReserved, Fits, reserve-IsReserved, advance-IsReserved, reconcile-IsReserved,
  unknown-IsReserved,
}
use astrbot_ex.Actions.Ledger.Invariant.Writes

pub record Consistent (db : Db) : Type 0 where
  pub logged : IsLogged db
  pub reserved : IsReserved db

pub empty-Consistent : Consistent empty_db
unfolding find latest
empty-Consistent = record {
  logged = record { distinct = tt; numbered = omega arith; agrees = λ c. tt };
  reserved = record { names_distinct = tt; holders = λ n c held. ground arith; proofs = λ c. tt };
}

settled {ℓ} :
    {A : Type ℓ} (P : Db → Type 0) (body : Db → Result (A × Db)) (db : Db) (r : Result (A × Db))
    → body db ≡ r
    → ((a : A) (db' : Db) → body db ≡ ok (a, db') → P db')
    → P db
    → P (transaction body db).1
unfolding transaction
settled P body db (ok (a, db')) e committed h = rw (e, transaction) (committed a db' e)
settled P body db (raise x) e committed h = rw (e, transaction) h

-- A transaction keeps what holds after each of its commits.
pub transaction_keeps {ℓ} :
    {A : Type ℓ} (P : Db → Type 0) (body : Db → Result (A × Db)) (db : Db)
    → ((a : A) (db' : Db) → body db ≡ ok (a, db') → P db')
    → P db
    → P (transaction body db).1
transaction_keeps P body db = settled P body db (body db) refl

module _ (budgets : Budgets) where
  admit_new-Consistent :
      (event_id : String) (p : Prepared) (a : Admission) {db db' : Db}
      → admit_new budgets event_id p db ≡ ok (a, db')
      → Consistent db
      → Consistent db'
  admit_new-Consistent event_id p a {db} {db'} h v =
      let w = Writes.admit_new-Wrote budgets event_id p db db' a h in
      record {
        logged = Wrote-IsLogged w v.logged;
        reserved =
            reserve-IsReserved p.command_id _ p.names
              (Writes.admit_new_fresh budgets event_id p db db' a h) refl w.rows
              (Writes.admit_new_resources budgets event_id p db db' a h)
              (Writes.admit_new_evidence budgets event_id p db db' a h) v.reserved;
      }

  pub admit_body_cases :
      (event_id : String) (p : Prepared) (a : Admission) (db db' : Db)
      → admit_body budgets event_id p db ≡ ok (a, db')
      → (admit_new budgets event_id p db ≡ ok (a, db')) ⊎ (db ≡ db')
  unfolding admit_body readmit
  admit_body_cases event_id p a db db' h = ground arith

  pub admit-Consistent :
      (event_id : String) (p : Prepared) (db : Db)
      → Consistent db
      → Consistent (admit budgets event_id p db).1
  unfolding admit
  admit-Consistent event_id p db v =
      transaction_keeps Consistent (admit_body budgets event_id p) db
        (λ a db' h. elim (admit_body_cases event_id p a db db' h) [
          | inl new ↦ admit_new-Consistent event_id p a new v
          | inr same ↦ rw same at v
        ])
        v

  pub report_body_cases :
      (event_id : String) (r : Report) (s : Snapshot) (db db' : Db)
      → report_body budgets event_id r db ≡ ok (s, db')
      → ((row : CommandRow) × (find r.command_id db.commands ≡ some row)
          × (is_terminal row.status ≡ false)
          × (can_transition row.status r.status ≡ true)
          × (eq_status row.status r.status ≡ false)
          × (advance budgets event_id r row db ≡ ok (s, db')))
        ⊎ (db ≡ db')
  unfolding report_body fetch snapshot is_terminal can_transition
  report_body_cases event_id r s db db' h = ground arith

  advance-Consistent :
      (event_id : String) (r : Report) (s : Snapshot) (row : CommandRow) {db db' : Db}
      → Fits r.status r.proof
      → find r.command_id db.commands ≡ some row
      → is_terminal row.status ≡ false
      → advance budgets event_id r row db ≡ ok (s, db')
      → Consistent db
      → Consistent db'
  advance-Consistent event_id r s row {db} {db'} fits there live h v =
      let w = Writes.advance-Wrote budgets event_id r row db db' s there h in
      record {
        logged = Wrote-IsLogged w v.logged;
        reserved =
            advance-IsReserved r.command_id row _ r.proof there live fits w.rows
              (Writes.advance_evidence budgets event_id r row db db' s there h)
              (Writes.advance_resources budgets event_id r row db db' s there h) v.reserved;
      }

  pub report-Consistent :
      (event_id : String) (r : Report) (db : Db)
      → Fits r.status r.proof
      → Consistent db
      → Consistent (report budgets event_id r db).1
  unfolding report
  report-Consistent event_id r db fits v =
      transaction_keeps Consistent (report_body budgets event_id r) db
        (λ s db' h. elim (report_body_cases event_id r s db db' h) [
          | inl (row, there, live, legal, moves, moved) ↦
              advance-Consistent event_id r s row fits there live moved v
          | inr same ↦ rw same at v
        ])
        v

  recover_one-Consistent :
      (fresh : String → String) (c : String) (db db' : Db)
      → recover_one budgets fresh c db ≡ ok db'
      → Consistent db
      → Consistent db'
  recover_one-Consistent fresh c db db' h v =
      let (row, there) = Writes.recover_one_row budgets fresh c db db' h in
      let w = Writes.recover_one-Wrote budgets fresh c row db db' there h in
      record {
        logged = Wrote-IsLogged w v.logged;
        reserved =
            unknown-IsReserved c row _ there refl w.rows
              (Writes.recover_one_evidence budgets fresh c row db db' there h)
              (Writes.recover_one_resources budgets fresh c row db db' there h) v.reserved;
      }

  recover_each_cases :
      (fresh : String → String) (c : String) (cs : List String) (db db' : Db)
      → recover_each budgets fresh (c ∷ cs) db ≡ ok db'
      → (mid : Db) × (recover_one budgets fresh c db ≡ ok mid)
        × (recover_each budgets fresh cs mid ≡ ok db')
  unfolding recover_each
  recover_each_cases fresh c cs db db' h = ground arith

  recover_each-Consistent :
      (fresh : String → String) (cs : List String) (db db' : Db)
      → recover_each budgets fresh cs db ≡ ok db'
      → Consistent db
      → Consistent db'
  unfolding recover_each
  recover_each-Consistent fresh [] db db' h v = subst Consistent (ok-injective h) v
  recover_each-Consistent fresh (c ∷ cs) db db' h v =
      let (mid, one, rest) = recover_each_cases fresh c cs db db' h in
      recover_each-Consistent fresh cs mid db' rest (recover_one-Consistent fresh c db mid one v)

  pub recover_body_cases :
      (fresh : String → String) (db db' : Db) (u : Unit {0}) (cs : List String)
      → (recover_each budgets fresh cs db >>= done) ≡ ok (u, db')
      → recover_each budgets fresh cs db ≡ ok db'
  recover_body_cases fresh db db' u cs h = ground arith

  pub recover-Consistent :
      (fresh : String → String) (db : Db) → Consistent db → Consistent (recover budgets fresh db).1
  unfolding recover
  recover-Consistent fresh db v =
      transaction_keeps Consistent
        (λ d. recover_each budgets fresh (sort (live_ids d.commands)) d >>= done) db
        (λ u db' h.
          recover_each-Consistent fresh (sort (live_ids db.commands)) db db'
            (recover_body_cases fresh db db' u (sort (live_ids db.commands)) h) v)
        v

same_log :
    (db db' : Db)
    → db'.commands ≡ db.commands
    → db'.events ≡ db.events
    → db'.sequence ≡ db.sequence
    → IsLogged db
    → IsLogged db'
same_log db db' p q r l = record {
  distinct = subst Distinct (sym p) l.distinct;
  numbered = rw (q, r) l.numbered;
  agrees = λ c. rw (p, q) (l.agrees c);
}

reconcile_body-Consistent :
    (c : String) (binding : OwnerBinding) (p : Proof) (s : Snapshot) (db db' : Db)
    → reconcile_body c binding p db ≡ ok (s, db')
    → Consistent db
    → Consistent db'
reconcile_body-Consistent c binding p s db db' h v =
    let (row, there, uncertain) = Writes.reconcile_row c binding p db db' s h in
    let same = Writes.reconcile_commands c binding p db db' s h in
    let (kept, seq) = Writes.reconcile_events c binding p db db' s h in
    record {
      logged = same_log db db' same kept seq v.logged;
      reserved =
          reconcile-IsReserved c row p there uncertain same
            (Writes.reconcile_evidence c binding p db db' s h)
            (Writes.reconcile_resources c binding p db db' s h) v.reserved;
    }

pub reconcile-Consistent :
    (c : String) (binding : OwnerBinding) (p : Proof) (db : Db)
    → Consistent db
    → Consistent (reconcile_stop c binding p db).1
unfolding reconcile_stop
reconcile-Consistent c binding p db v =
    transaction_keeps Consistent (reconcile_body c binding p) db
      (λ s db' h. reconcile_body-Consistent c binding p s db db' h v) v

pub ack-Consistent : (seq : ℕ) (db : Db) → Consistent db → Consistent (ack seq db).1
unfolding ack
ack-Consistent seq db v = record {
  logged = unfold ack in ack-IsLogged seq db v.logged;
  reserved = record {
    names_distinct = v.reserved.names_distinct;
    holders = v.reserved.holders;
    proofs = v.reserved.proofs;
  };
}
