-- ===== src/Actions/Ledger/Evolution/Restart.antt =====
-- The recovery at a restart: which commands it visits, and what becomes of their rows.
use astrbot_ex.Prelude.{
  String, ◌≡◌, ◌⊎◌, inl, inr, refl, sym, ◌∙◌, true, false, ◌||◌, Option, none, some, List, [], ◌∷◌,
  arith, ◌=?◌,
}
use astrbot_ex.Prelude.Table.{Table, find, Distinct}
use astrbot_ex.Prelude.Text.{sort, insert_sorted}
use astrbot_ex.Actions.Error.{ok}
use astrbot_ex.Actions.Status.{unknown}
use astrbot_ex.Actions.Ledger.Db.{CommandRow, Db, Budgets}
use astrbot_ex.Actions.Ledger.Admit.{mem}
use astrbot_ex.Actions.Ledger.Recovery.{is_live, live_ids, recover_one, recover_each, recover}
use astrbot_ex.Actions.Ledger.Invariant.Writes

mem-insert_sorted :
    (c s : String) (ts : List String) → mem c (insert_sorted s ts) ≡ (c =? s || mem c ts)
unfolding insert_sorted
mem-insert_sorted c s [] = refl
mem-insert_sorted c s (t ∷ ts) = ground (arith, mem-insert_sorted c s ts)

pub mem-sort : (c : String) (ss : List String) → mem c (sort ss) ≡ mem c ss
unfolding sort
mem-sort c [] = refl
mem-sort c (s ∷ ss) = ground (arith, mem-insert_sorted c s (sort ss), mem-sort c ss)

-- a row that a restart visits
abbrev pub IsLive : Option CommandRow → Type 0
IsLive none = ⊥
IsLive (some row) = is_live row.status ≡ true

live_ids_absent : (c : String) (t : Table CommandRow) → find c t ≡ none → mem c (live_ids t) ≡ false
unfolding find live_ids
live_ids_absent c [] h = refl
live_ids_absent c ((j, row) ∷ t) h = ground (arith, live_ids_absent c t)

pub mem-live_ids :
    (c : String) (t : Table CommandRow) → Distinct t → mem c (live_ids t) ≡ true → IsLive (find c t)
unfolding find live_ids
mem-live_ids c [] d h = cc
mem-live_ids c ((j, row) ∷ t) d h = ground (arith, mem-live_ids c t, live_ids_absent c t)

pub live_ids_complete :
    (c : String) (row : CommandRow) (t : Table CommandRow)
    → find c t ≡ some row
    → is_live row.status ≡ true
    → mem c (live_ids t) ≡ true
unfolding find live_ids
live_ids_complete c row [] h l = cc
live_ids_complete c row ((j, w) ∷ t) h l = ground (arith, live_ids_complete c row t)

-- the parts of a row that say whose command it is
pub record SameCommand (a b : CommandRow) : Type 0 where
  pub canonical : b.canonical ≡ a.canonical
  pub owner : b.owner ≡ a.owner
  pub generation : b.generation ≡ a.generation
  pub task_id : b.task_id ≡ a.task_id

-- the row of a command that the recovery visits
pub record Reviewed (old new : CommandRow) : Type 0 where
  pub status : new.status ≡ unknown
  pub reason_code : new.reason_code ≡ "resume_review"
  pub same : SameCommand old new

module _ (budgets : Budgets) (fresh : String → String) where
  recover_one_at :
      (x c : String) (old : CommandRow) (db db' : Db)
      → recover_one budgets fresh x db ≡ ok db'
      → find c db.commands ≡ some old
      → ((x =? c) ≡ false) × (find c db'.commands ≡ some old)
        ⊎ ((x =? c) ≡ true)
          × ((new : CommandRow) × (find c db'.commands ≡ some new) × Reviewed old new)
  recover_one_at x c old db db' h there =
      let (row, found) = Writes.recover_one_row budgets fresh x db db' h in
      let w = Writes.recover_one-Wrote budgets fresh x row db db' found h in
      ground (arith, w.rows c)

  recover_each_cons :
      (x : String) (cs : List String) (db db' : Db)
      → recover_each budgets fresh (x ∷ cs) db ≡ ok db'
      → (mid : Db) × (recover_one budgets fresh x db ≡ ok mid)
        × (recover_each budgets fresh cs mid ≡ ok db')
  unfolding recover_each
  recover_each_cons x cs db db' h = ground arith

  recover_each_nil : (db db' : Db) → recover_each budgets fresh [] db ≡ ok db' → db ≡ db'
  unfolding recover_each
  recover_each_nil db db' h = ground arith

  -- A visited command is reviewed; the row of any other stays.
  pub recover_each_at :
      (c : String) (cs : List String) (old : CommandRow) (db db' : Db)
      → recover_each budgets fresh cs db ≡ ok db'
      → find c db.commands ≡ some old
      → (mem c cs ≡ false) × (find c db'.commands ≡ some old)
        ⊎ (mem c cs ≡ true)
          × ((new : CommandRow) × (find c db'.commands ≡ some new) × Reviewed old new)
  recover_each_at c [] old db db' h there = inl (refl, rw (recover_each_nil db db' h) at there)
  recover_each_at c (x ∷ cs) old db db' h there =
      let (mid, one, rest) = recover_each_cons x cs db db' h in
      elim (recover_one_at x c old db mid one there) [
        | inl (other, same) ↦ elim (recover_each_at c cs old mid db' rest same) [
          | inl (absent, kept) ↦ inl (ground arith, kept)
          | inr (present, found) ↦ inr (ground arith, found)
        ]
        | inr (this, (new, found, first)) ↦ elim (recover_each_at c cs new mid db' rest found) [
          | inl (absent, kept) ↦ inr (ground arith, (new, kept, first))
          | inr (present, (new', found', again)) ↦
              inr (ground arith, (new', found', ground (arith, first, again)))
        ]
      ]

  recover_one_kept :
      (x : String) (db db' : Db)
      → recover_one budgets fresh x db ≡ ok db'
      → (db'.resources ≡ db.resources) × (db'.stop_evidence ≡ db.stop_evidence)
  recover_one_kept x db db' h =
      let (row, found) = Writes.recover_one_row budgets fresh x db db' h in
      (
        Writes.recover_one_resources budgets fresh x row db db' found h,
        Writes.recover_one_evidence budgets fresh x row db db' found h,
      )

  -- A restart touches neither reservations nor proofs.
  pub recover_each_kept :
      (cs : List String) (db db' : Db)
      → recover_each budgets fresh cs db ≡ ok db'
      → (db'.resources ≡ db.resources) × (db'.stop_evidence ≡ db.stop_evidence)
  recover_each_kept [] db db' h = rw (recover_each_nil db db' h) (refl, refl)
  recover_each_kept (x ∷ cs) db db' h =
      let (mid, one, rest) = recover_each_cons x cs db db' h in
      let (r, e) = recover_one_kept x db mid one in
      let (r', e') = recover_each_kept cs mid db' rest in (r' ∙ r, e' ∙ e)

  recovered_body :
      (db db' : Db)
      → recover budgets fresh db ≡ (ok tt, db')
      → recover_each budgets fresh (sort (live_ids db.commands)) db ≡ ok db'
  unfolding recover
  recovered_body db db' h = ground arith

-- What a completed restart leaves: each command that was admitted, accepted or running is unknown,
-- for review; every other row, every reservation and every proof is as before.
pub record Restarted (db db' : Db) : Type 0 where
  pub live :
      (c : String) (old : CommandRow)
      → find c db.commands ≡ some old
      → is_live old.status ≡ true
      → (new : CommandRow) × (find c db'.commands ≡ some new) × Reviewed old new
  pub others :
      (c : String) (old : CommandRow)
      → find c db.commands ≡ some old
      → is_live old.status ≡ false
      → find c db'.commands ≡ some old
  pub resources : db'.resources ≡ db.resources
  pub stop_evidence : db'.stop_evidence ≡ db.stop_evidence

-- A restart that completes, of a database whose command ids are distinct, makes every live command
-- unknown and releases nothing: no command is live after it, so none is delivered again.
pub recover-Restarted :
    (budgets : Budgets) (fresh : String → String) (db db' : Db)
    → Distinct db.commands
    → recover budgets fresh db ≡ (ok tt, db')
    → Restarted db db'
recover-Restarted budgets fresh db db' d h =
    let body = recovered_body budgets fresh db db' h in
    let kept = recover_each_kept budgets fresh (sort (live_ids db.commands)) db db' body in
    record {
      live = λ c old there is_live.
          elim (recover_each_at budgets fresh c (sort (live_ids db.commands)) old db db' body
            there) [
              | inl (absent, _) ↦ cc (
                mem-sort c (live_ids db.commands),
                live_ids_complete c old db.commands there is_live,
              )
              | inr (present, found) ↦ found
            ];
      others = λ c old there is_live.
          elim (recover_each_at budgets fresh c (sort (live_ids db.commands)) old db db' body
            there) [
              | inl (_, kept) ↦ kept
              | inr (present, _) ↦ cc (
                  rw there at (
                    mem-live_ids c db.commands d
                      (sym (mem-sort c (live_ids db.commands)) ∙ present)))
            ];
      resources = kept.0;
      stop_evidence = kept.1;
    }
