-- ===== src/Actions/Ledger/Invariant/Log.antt =====
-- The log: events are numbered without repetition, and every command's row shows its last event.
use astrbot_ex.Prelude.{
  ℕ, ◌+◌, ◌≤◌, ◌<◌, String, ◌≡◌, refl, true, Option, none, some, List, [], ◌∷◌, ◌++◌, arith, ◌=?◌,
  ◌==◌, if◌then◌else◌,
}
use astrbot_ex.Prelude.Table.{find, Distinct}
use astrbot_ex.Actions.Ledger.Db.{CommandRow, EventRow, Db}
use astrbot_ex.Actions.Ledger.Report.{mark, ack}

-- the numbers increase strictly, from above `low` up to `high`
abbrev pub Numbered : ℕ → List EventRow → ℕ → Type 0
Numbered low [] high = low ≤ high
Numbered low (e ∷ es) high = (low < e.event_seq) × Numbered e.event_seq es high

pub Numbered-snoc :
    (low high : ℕ) (es : List EventRow) (e : EventRow)
    → Numbered low es high
    → e.event_seq ≡ high + 1
    → Numbered low (es ++ e ∷ []) (high + 1)
Numbered-snoc low high [] e h n = (omega arith, omega arith)
Numbered-snoc low high (x ∷ es) e h n = (h.0, Numbered-snoc x.event_seq high es e h.1 n)

abbrev or_else : Option EventRow → Option EventRow → Option EventRow
or_else none o = o
or_else (some e) o = some e

-- the last event of a command
unfoldable pub latest : String → List EventRow → Option EventRow
latest c [] = none
latest c (e ∷ es) = or_else (latest c es) (if e.command_id =? c then some e else none)

latest-snoc :
    (c : String) (es : List EventRow) (e : EventRow)
    → latest c (es ++ e ∷ []) ≡ (if e.command_id =? c then some e else latest c es)
unfolding latest
latest-snoc c [] e = ground arith
latest-snoc c (x ∷ es) e = ground (arith, latest-snoc c es e)

pub record Shows (row : CommandRow) (e : EventRow) : Type 0 where
  pub status : e.status ≡ row.status
  pub reason_code : e.reason_code ≡ row.reason_code
  pub details : e.details ≡ row.details
  pub event_seq : e.event_seq ≡ row.event_seq

abbrev pub AgreesWith : Option CommandRow → Option EventRow → Type 0
AgreesWith none none = Unit
AgreesWith (some row) (some e) = Shows row e
AgreesWith _ _ = ⊥

pub record IsLogged (db : Db) : Type 0 where
  pub distinct : Distinct db.commands
  pub numbered : Numbered 0 db.events db.sequence
  pub agrees : (c : String) → AgreesWith (find c db.commands) (latest c db.events)

-- One command's row is written, and the event that it shows is appended.
pub record Wrote (c : String) (row : CommandRow) (e : EventRow) (db db' : Db) : Type 0 where
  pub keys : Distinct db.commands → Distinct db'.commands
  pub rows : (j : String) → find j db'.commands ≡ (if c =? j then some row else find j db.commands)
  pub appended : db'.events ≡ db.events ++ e ∷ []
  pub owner : e.command_id ≡ c
  pub number : e.event_seq ≡ db.sequence + 1
  pub shows : Shows row e
  pub sequence : db'.sequence ≡ db.sequence + 1

pub Wrote-IsLogged :
    {c : String} {row : CommandRow} {e : EventRow} {db db' : Db}
    → Wrote c row e db db'
    → IsLogged db
    → IsLogged db'
Wrote-IsLogged {c} {row} {e} {db} {db'} w l = record {
  distinct = w.keys l.distinct;
  numbered =
      rw (w.appended, w.sequence) (Numbered-snoc 0 db.sequence db.events e l.numbered w.number);
  agrees = λ j. rw (w.rows j, w.appended, latest-snoc j db.events e) (agrees_at j);
}
  where
    agrees_at :
        (j : String)
        → AgreesWith
            (if c =? j then some row else find j db.commands)
            (if e.command_id =? j then some e else latest j db.events)
    agrees_at j = ground (arith, w.owner, w.shows, l.agrees j)

abbrev acked : ℕ → Option EventRow → Option EventRow
acked seq none = none
acked seq (some e) = some (if e.event_seq == seq then record e { acknowledged = true } else e)

latest-mark :
    (c : String) (seq : ℕ) (es : List EventRow) → latest c (mark seq es).0 ≡ acked seq (latest c es)
unfolding latest
latest-mark c seq [] = refl
latest-mark c seq (e ∷ es) = ground (arith, latest-mark c seq es)

Numbered-mark :
    (low high seq : ℕ) (es : List EventRow)
    → Numbered low es high
    → Numbered low (mark seq es).0 high
Numbered-mark low high seq [] h = h
Numbered-mark low high seq (e ∷ es) h = ground (arith, Numbered-mark e.event_seq high seq es h.1)

AgreesWith-acked :
    (row : Option CommandRow) (seq : ℕ) (e : Option EventRow)
    → AgreesWith row e
    → AgreesWith row (acked seq e)
AgreesWith-acked row seq e h = ground arith

pub ack-IsLogged : (seq : ℕ) (db : Db) → IsLogged db → IsLogged (ack seq db).1
unfolding ack
ack-IsLogged seq db l = record {
  distinct = l.distinct;
  numbered = Numbered-mark 0 db.sequence seq db.events l.numbered;
  agrees = λ c.
      rw (latest-mark c seq db.events)
        (AgreesWith-acked (find c db.commands) seq (latest c db.events) (l.agrees c));
}
