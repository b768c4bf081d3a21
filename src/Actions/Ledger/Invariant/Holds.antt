-- ===== src/Actions/Ledger/Invariant/Holds.antt =====
-- Reservations and stop proofs: a resource is held by a command that is there, whose status keeps
-- the reservation and for which no stop proof is recorded; a stop proof belongs to a command that is
-- terminal; a canceled command has one.
use astrbot_ex.Prelude.{
  String, ◌≡◌, ◌≢◌, ◌⊎◌, refl, subst, sym, ◌∙◌, Bool, true, false, Option, none, some, List, arith,
  ◌=?◌, if◌then◌else◌,
}
use astrbot_ex.Prelude.Table.{Table, find, Distinct}
use astrbot_ex.Actions.Error.{ok}
use astrbot_ex.Actions.Status.{Status, admitted, canceled, failed, unknown, is_terminal}
use astrbot_ex.Actions.Ledger.Db.{Proof, CommandRow, Db, release}
use astrbot_ex.Actions.Ledger.Admit.{reserve}
use astrbot_ex.Actions.Ledger.Report.{frees, is_uncertain}
use astrbot_ex.Actions.Ledger.Tables.{
  find-reserve, reserve-Distinct, find-release, release-Distinct, without_holder,
}

abbrev pub MayHold : Option CommandRow → Option Proof → Type 0
MayHold (some row) none = frees row.status none ≡ false
MayHold _ _ = ⊥

abbrev pub MayProve : Option CommandRow → Option Proof → Type 0
MayProve none none = Unit
MayProve none (some p) = ⊥
MayProve (some row) none = row.status ≢ canceled
MayProve (some row) (some p) = is_terminal row.status ≡ true

pub record IsReserved (db : Db) : Type 0 where
  pub names_distinct : Distinct db.resources
  pub holders :
      (n c : String)
      → find n db.resources ≡ some c
      → MayHold (find c db.commands) (find c db.stop_evidence)
  pub proofs : (c : String) → MayProve (find c db.commands) (find c db.stop_evidence)

-- what a write of one row does to the lookups
abbrev pub Rows : String → CommandRow → Db → Db → Type 0
Rows c row db db' =
    (j : String) → find j db'.commands ≡ (if c =? j then some row else find j db.commands)

-- A new command takes names that were free.
pub reserve-IsReserved :
    (c : String) (row : CommandRow) {db db' : Db} (names : List String)
    → find c db.commands ≡ none
    → row.status ≡ admitted
    → Rows c row db db'
    → reserve c names db.resources ≡ ok db'.resources
    → db'.stop_evidence ≡ db.stop_evidence
    → IsReserved db
    → IsReserved db'
reserve-IsReserved c row {db} {db'} names new is_admitted rows reserved same v = record {
  names_distinct = reserve-Distinct c names db.resources db'.resources reserved v.names_distinct;
  holders = λ n h held.
      rw (rows h, same)
        (ground (
          arith,
          find-reserve c names db.resources db'.resources n reserved,
          v.holders n h,
          v.proofs c,
        ));
  proofs = λ j. rw (rows j, same) (ground (arith, v.proofs j));
}

-- A proof comes with `canceled`, always, and otherwise only with `failed`.
abbrev pub Fits : Status → Option Proof → Type 0
Fits status none = status ≢ canceled
Fits status (some p) = (status ≡ canceled) ⊎ (status ≡ failed)

abbrev pub proof_at : String → Option Proof → String → Option Proof → Option Proof
proof_at c none j old = old
proof_at c (some p) j old = if c =? j then some p else old

freed-Distinct :
    (c : String) (b : Bool) (t : Table String)
    → Distinct t
    → Distinct (if b then release c t else t)
freed-Distinct c true t d = release-Distinct c t d
freed-Distinct c false t d = d

pub find-freed :
    (c n : String) (b : Bool) (t : Table String)
    → Distinct t
    → find n (if b then release c t else t) ≡ (if b then without_holder c (find n t) else find n t)
find-freed c n true t d = find-release c n t d
find-freed c n false t d = refl

-- A command that was not terminal gets a status, with a proof or without.
pub advance-IsReserved :
    (c : String) (old row : CommandRow) (proof : Option Proof) {db db' : Db}
    → find c db.commands ≡ some old
    → is_terminal old.status ≡ false
    → Fits row.status proof
    → Rows c row db db'
    → ((j : String) → find j db'.stop_evidence ≡ proof_at c proof j (find j db.stop_evidence))
    → db'.resources ≡ (if frees row.status proof then release c db.resources else db.resources)
    → IsReserved db
    → IsReserved db'
unfolding is_terminal
advance-IsReserved c old row proof {db} {db'} there live fits rows proven freed v = record {
  names_distinct =
      subst Distinct (sym freed)
        (freed-Distinct c (frees row.status proof) db.resources v.names_distinct);
  holders = λ n h held.
      rw (rows h, proven h)
        (holder_at n h (
          sym (find-freed c n (frees row.status proof) db.resources v.names_distinct)
          ∙ rw freed at held));
  proofs = λ j. rw (rows j, proven j) (proof_at_lem j);
}
  where
    holder_at :
        (n h : String)
        → (if frees row.status proof
            then without_holder c (find n db.resources)
            else find n db.resources)
          ≡ some h
        → MayHold
            (if c =? h then some row else find h db.commands)
            (proof_at c proof h (find h db.stop_evidence))
    holder_at n h held = ground (arith, v.holders n h, v.holders n c, v.proofs c)

    proof_at_lem :
        (j : String)
        → MayProve
            (if c =? j then some row else find j db.commands)
            (proof_at c proof j (find j db.stop_evidence))
    proof_at_lem j = ground (arith, v.proofs j, v.proofs c)

-- A restart makes the command's status unknown, and releases nothing.
pub unknown-IsReserved :
    (c : String) (old row : CommandRow) {db db' : Db}
    → find c db.commands ≡ some old
    → row.status ≡ unknown
    → Rows c row db db'
    → db'.stop_evidence ≡ db.stop_evidence
    → db'.resources ≡ db.resources
    → IsReserved db
    → IsReserved db'
unfolding is_terminal
unknown-IsReserved c old row {db} {db'} there is_unknown rows same kept v = record {
  names_distinct = subst Distinct (sym kept) v.names_distinct;
  holders = λ n h held. rw (rows h, same) (ground (arith, kept, v.holders n h));
  proofs = λ j. rw (rows j, same) (ground (arith, v.proofs j));
}

-- An uncertain command gets a proof, and all that it holds is released.
pub reconcile-IsReserved :
    (c : String) (row : CommandRow) (p : Proof) {db db' : Db}
    → find c db.commands ≡ some row
    → is_uncertain row.status ≡ true
    → db'.commands ≡ db.commands
    → ((j : String)
        → find j db'.stop_evidence ≡ (if c =? j then some p else find j db.stop_evidence))
    → db'.resources ≡ release c db.resources
    → IsReserved db
    → IsReserved db'
unfolding is_terminal
reconcile-IsReserved c row p {db} {db'} there uncertain same proven freed v = record {
  names_distinct = subst Distinct (sym freed) (release-Distinct c db.resources v.names_distinct);
  holders = λ n h held.
      rw (same, proven h)
        (ground (arith, find-release c n db.resources v.names_distinct, freed, v.holders n h));
  proofs = λ j. rw (same, proven j) (ground (arith, v.proofs j));
}
