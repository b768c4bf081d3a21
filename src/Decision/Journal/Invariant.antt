-- ===== src/Decision/Journal/Invariant.antt =====
-- The facts of a journal are numbered without a hole, from the trimmed one to the head, and every source
-- of a fact is consumed.
use astrbot_ex.Prelude.{
  ℕ, suc, ◌+◌, ◌-◌, ◌≤◌, String, ◌≡◌, refl, sym, subst, =?_refl, true, none, some, List, [], ◌∷◌,
  ◌++◌, arith, length, leb, Bool-cases, Option-cases, inl, inr,
}
use astrbot_ex.Wire.Fields.Laws.{IsId}
use astrbot_ex.Wire.Messages.Commands.Reports.{IsEvent}
use astrbot_ex.Wire.Returns.{Returns, returned, then_returns}
use astrbot_ex.Decision.Journal.{SourceKey, ledger, summary, eq_key, Draft, Fact, Journal, Outside}
use astrbot_ex.Decision.Journal.Facts.{find_source, is_consumed, trim_facts, add_fact, append}
use astrbot_ex.Decision.Journal.Made.{MadeAs, make_fact-MadeAs}

-- the facts after a sequence up to another, of a session, each with a well-formed event
abbrev pub Consecutive : String → ℕ → List Fact → ℕ → Type 0
Consecutive s n [] h = n ≡ h
Consecutive s n (f ∷ fs) h =
    (f.seq ≡ suc n)
    × (f.feedback.event_seq ≡ suc n)
    × (f.event.event_seq ≡ suc n)
    × (f.event.ex_session ≡ s)
    × IsEvent f.event
    × Consecutive s (suc n) fs h

abbrev pub Consumed : List (SourceKey × ℕ) → List Fact → Type 0
Consumed ts [] = Unit
Consumed ts (f ∷ fs) = (is_consumed f.source_key ts ≡ true) × Consumed ts fs

pub record IsJournal (j : Journal) : Type 0 where
  pub session : IsId j.session
  pub page_size : 1 ≤ j.page_size
  pub retention : 1 ≤ j.retention
  -- the last facts are there, as many as are retained
  pub trimmed : j.trimmed ≡ j.head - j.retention
  pub facts : Consecutive j.session j.trimmed j.facts j.head
  -- each fact that ever was has one source
  pub sources : length j.tombstones ≡ j.head
  pub consumed : Consumed j.tombstones j.facts

Consecutive-append :
    (s : String) (n h : ℕ) (fs : List Fact) (f : Fact)
    → Consecutive s n fs h
    → (f.seq ≡ suc h)
      × (f.feedback.event_seq ≡ suc h)
      × (f.event.event_seq ≡ suc h)
      × (f.event.ex_session ≡ s)
      × IsEvent f.event
    → Consecutive s n (fs ++ f ∷ []) (suc h)
Consecutive-append s n h [] f c m = ground arith
Consecutive-append s n h (g ∷ fs) f c m = ground (arith, Consecutive-append s (suc n) h fs f)

trim_none :
    (s : String) (k n h : ℕ) (fs : List Fact) → k ≤ n → Consecutive s n fs h → trim_facts k fs ≡ fs
unfolding trim_facts
trim_none s k n h [] le c = refl
trim_none s k n h (f ∷ fs) le c = ground (arith, trim_none s k (suc n) h fs)

pub Consecutive-le : (s : String) (n h : ℕ) (fs : List Fact) → Consecutive s n fs h → n ≤ h
Consecutive-le s n h [] c = omega arith
Consecutive-le s n h (f ∷ fs) c = omega (arith, Consecutive-le s (suc n) h fs c.5)

pub trim-Consecutive :
    (s : String) (k n h : ℕ) (fs : List Fact)
    → n ≤ k
    → k ≤ h
    → Consecutive s n fs h
    → Consecutive s k (trim_facts k fs) h
unfolding trim_facts
trim-Consecutive s k n h [] le le' c = omega arith
trim-Consecutive s k n h (f ∷ fs) le le' c = elim (Bool-cases (leb k n)) [
  | inl e ↦
      let same : n ≡ k = ground arith in
      rw (trim_none s k n h (f ∷ fs) (ground arith) c)
        (subst (λ i. Consecutive s i (f ∷ fs) h) same c)
  | inr e ↦
      let old : leb f.seq k ≡ true = ground arith in
      rw old (trim-Consecutive s k (suc n) h fs (ground arith) le' c.5)
]

trim-Consumed :
    (k : ℕ) (ts : List (SourceKey × ℕ)) (fs : List Fact)
    → Consumed ts fs
    → Consumed ts (trim_facts k fs)
unfolding trim_facts
trim-Consumed k ts [] c = tt
trim-Consumed k ts (f ∷ fs) c = ground (arith, trim-Consumed k ts fs)

pub eq_key_refl : (k : SourceKey) → eq_key k k ≡ true
eq_key_refl (ledger a) = =?_refl a
eq_key_refl (summary a n) = ground (arith, =?_refl a)

Consumed-append :
    (key : SourceKey) (n : ℕ) (ts : List (SourceKey × ℕ)) (fs : List Fact) (f : Fact)
    → Consumed ts fs
    → f.source_key ≡ key
    → Consumed ((key, n) ∷ ts) (fs ++ f ∷ [])
unfolding is_consumed
Consumed-append key n ts [] f c e = (rw e (rw (eq_key_refl key) refl), tt)
Consumed-append key n ts (g ∷ fs) f c e = ground (arith, Consumed-append key n ts fs f)

-- The rows after a new fact of a source that was not consumed.
add_fact-IsJournal :
    (j : Journal) (key : SourceKey) (f : Fact)
    → IsJournal j
    → MadeAs j.session (j.head + 1) key f
    → IsJournal (add_fact f j)
unfolding add_fact
add_fact-IsJournal j key f v m = record {
  session = v.session;
  page_size = v.page_size;
  retention = v.retention;
  trimmed = refl;
  facts =
      let next : f.seq ≡ suc j.head = omega (arith, m.0) in
      trim-Consecutive j.session (f.seq - j.retention) j.trimmed f.seq (j.facts ++ f ∷ [])
        (omega (arith, v.trimmed, next)) (omega arith)
        (subst (λ h. Consecutive j.session j.trimmed (j.facts ++ f ∷ []) h) (sym next)
          (Consecutive-append j.session j.trimmed j.head j.facts f v.facts (ground arith)));
  sources = omega (arith, v.sources, m.0);
  consumed =
      trim-Consumed (f.seq - j.retention) ((f.source_key, f.seq) ∷ j.tombstones) (j.facts ++ f ∷ [])
        (Consumed-append f.source_key f.seq j.tombstones j.facts f v.consumed refl);
}

-- Appending keeps the numbering.
pub append-IsJournal :
    (o : Outside) (key : SourceKey) (d : Draft) (command_id owner : String) (j : Journal)
    → IsJournal j
    → Returns (λ r. IsJournal r.1) (append o key d command_id owner j)
unfolding append
append-IsJournal o key d command_id owner j v = elim (Option-cases (find_source key j.facts)) [
  | inl e ↦
      rw (e, append)
        (elim (Bool-cases (is_consumed key j.tombstones)) [
          | inl e' ↦ rw e' (returned (none, j) v)
          | inr e' ↦ rw e' (
              then_returns
                (make_fact-MadeAs o j.session (j.head + 1) key d command_id owner v.session)
                λ f m. returned (some f.feedback, add_fact f j) (add_fact-IsJournal j key f v m))
        ])
  | inr (f, e) ↦ rw (e, append) (returned (some f.feedback, j) v)
]
