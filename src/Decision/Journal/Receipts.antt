-- ===== src/Decision/Journal/Receipts.antt =====
-- What an acknowledgement changes.
use astrbot_ex.Prelude.{
  ℕ, suc, String, ◌≡◌, refl, true, false, List, [], ◌∷◌, ◌==◌, arith, if◌then◌else◌,
}
use astrbot_ex.Wire.Messages.Feedback.{Feedback}
use astrbot_ex.Decision.Journal.{Fact, Journal, Outside}
use astrbot_ex.Decision.Journal.Pages.{is_fact, find_fact, set_acknowledged, unacknowledged, ack}
use astrbot_ex.Decision.Journal.Invariant.{IsJournal, Consecutive}

-- the feedbacks but those of a sequence
abbrev pub without : ℕ → List Feedback → List Feedback
without n [] = []
without n (f ∷ fs) = let rest = without n fs in if f.event_seq == n then rest else f ∷ rest

unacknowledged-set_acknowledged :
    (s : String) (n k h : ℕ) (fs : List Fact)
    → Consecutive s k fs h
    → unacknowledged (set_acknowledged n fs) ≡ without n (unacknowledged fs)
unfolding unacknowledged set_acknowledged
unacknowledged-set_acknowledged s n k h [] c = refl
unacknowledged-set_acknowledged s n k h (f ∷ fs) c =
    ground (arith, unacknowledged-set_acknowledged s n (suc k) h fs)

-- An acknowledgement by a feedback that equals the retained one of its sequence is confirmed, and takes
-- exactly this one fact from those that wait.
pub ack_exact :
    (o : Outside) (feedback : Feedback) (j : Journal)
    → IsJournal j
    → is_fact o feedback (find_fact feedback.event_seq j.facts) ≡ true
    → ((ack o feedback j).0 ≡ true)
      × (unacknowledged (ack o feedback j).1.facts
          ≡ without feedback.event_seq (unacknowledged j.facts))
unfolding ack
ack_exact o feedback j v e = (
  rw e refl,
  rw e (
      unacknowledged-set_acknowledged j.session feedback.event_seq j.trimmed j.head j.facts
        v.facts),
)

-- Any other acknowledgement changes nothing.
pub ack_refused :
    (o : Outside) (feedback : Feedback) (j : Journal)
    → is_fact o feedback (find_fact feedback.event_seq j.facts) ≡ false
    → ack o feedback j ≡ (false, j)
unfolding ack
ack_refused o feedback j e = rw e refl
