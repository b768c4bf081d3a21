-- ===== src/Decision/Journal/Paging.antt =====
-- What a page of the journal holds.
use astrbot_ex.Prelude.{
  ℕ, zero, suc, ◌+◌, ◌≤◌, ◌<◌, ◌⊎◌, inl, inr, String, ◌≡◌, refl, sym, subst, ap, ◌∙◌, true, false,
  List, [], ◌∷◌, ◌||◌, arith, =?_refl, min, take, ltb,
}
use astrbot_ex.Actions.Error.{ok, ◌>>◌}
use astrbot_ex.Actions.Checks.{max_sequence}
use astrbot_ex.Wire.Fields.{check_input_budget}
use astrbot_ex.Wire.Messages.Commands.{ActionEvent}
use astrbot_ex.Decision.Journal.{Fact, Journal}
use astrbot_ex.Decision.Journal.Facts.{trim_facts}
use astrbot_ex.Decision.Journal.Pages.{
  Reply, facts_after, events_of, last_seq, horizon, select_page, check_order, check_reply,
  reply_to_dict, events,
}
use astrbot_ex.Decision.Journal.Replies.{AreEvents, IsReply, check_reply-IsReply}
use astrbot_ex.Decision.Journal.Invariant.{IsJournal, Consecutive, Consecutive-le, trim-Consecutive}

-- the events after a sequence up to another, of a session
abbrev pub Numbered : String → ℕ → List ActionEvent → ℕ → Type 0
Numbered s n [] h = n ≡ h
Numbered s n (e ∷ es) h = (e.event_seq ≡ suc n) × (e.ex_session ≡ s) × Numbered s (suc n) es h

facts_after-trim : (n : ℕ) (fs : List Fact) → facts_after n fs ≡ trim_facts n fs
unfolding facts_after trim_facts
facts_after-trim n [] = refl
facts_after-trim n (f ∷ fs) = ground (arith, facts_after-trim n fs)

page-Numbered :
    (s : String) (p n h : ℕ) (fs : List Fact)
    → Consecutive s n fs h
    → Numbered s n (events_of (take p fs)) (min h (n + p))
unfolding events_of
page-Numbered s zero n h fs c = omega (arith, Consecutive-le s n h fs c)
page-Numbered s (suc p) n h [] c = omega arith
page-Numbered s (suc p) n h (f ∷ fs) c = (
  c.2,
  c.3,
  subst (λ m. Numbered s (suc n) (events_of (take p fs)) (min h m)) (omega arith)
      (page-Numbered s p (suc n) h fs c.5),
)

Numbered-last :
    (s : String) (n h : ℕ) (es : List ActionEvent) → Numbered s n es h → last_seq n es ≡ h
Numbered-last s n h [] c = c
Numbered-last s n h (e ∷ es) c =
    subst (λ k. last_seq k es ≡ h) (sym c.0) (Numbered-last s (suc n) h es c.2)

Numbered-le : (s : String) (n h : ℕ) (es : List ActionEvent) → Numbered s n es h → n ≤ h
Numbered-le s n h [] c = omega arith
Numbered-le s n h (e ∷ es) c = omega (arith, Numbered-le s (suc n) h es c.2)

order_passes :
    (s : String) (oldest latest previous n : ℕ) (es : List ActionEvent)
    → previous ≤ n
    → oldest ≤ n + 1
    → Numbered s n es latest
    → check_order s oldest latest previous es ≡ ok tt
unfolding check_order
order_passes s oldest latest previous n [] hp ho c = refl
order_passes s oldest latest previous n (e ∷ es) hp ho c = ground (
  arith,
  =?_refl s,
  Numbered-le s (suc n) latest es,
  order_passes s oldest latest e.event_seq (suc n) es,
)

selected-Numbered :
    (j : Journal) (since : ℕ)
    → IsJournal j
    → j.trimmed ≤ since
    → since ≤ j.head
    → Numbered j.session since
        (events_of (take j.page_size (facts_after since j.facts)))
        (min j.head (since + j.page_size))
selected-Numbered j since v lo hi = rw (facts_after-trim since j.facts) (
    page-Numbered j.session j.page_size since j.head (trim_facts since j.facts)
      (trim-Consecutive j.session since j.trimmed j.head j.facts lo hi v.facts))

horizon-Numbered :
    (s : String) (n head latest : ℕ) (es : List ActionEvent)
    → Numbered s n es latest
    → (n ≡ latest → n ≡ head)
    → horizon head es ≡ latest
unfolding horizon
horizon-Numbered s n head latest [] c h = sym (h c) ∙ c
horizon-Numbered s n head latest (e ∷ es) c h = Numbered-last s n latest (e ∷ es) c

abbrev pub page_events : ℕ → Journal → List ActionEvent
page_events since j = events_of (take j.page_size (facts_after since j.facts))

-- the reply within the history
abbrev pub page_reply : ℕ → Journal → Reply
page_reply since j = record {
  ex_session = j.session;
  events = page_events since j;
  oldest_available_seq = j.trimmed + 1;
  latest_event_seq = min j.head (since + j.page_size);
  resync_required = false;
}

-- the reply outside it
abbrev pub resync_reply : Journal → Reply
resync_reply j = record {
  ex_session = j.session;
  events = [];
  oldest_available_seq = j.trimmed + 1;
  latest_event_seq = j.head;
  resync_required = true;
}

page_horizon :
    (since : ℕ) (j : Journal)
    → IsJournal j
    → j.trimmed ≤ since
    → since ≤ j.head
    → horizon j.head (page_events since j) ≡ min j.head (since + j.page_size)
page_horizon since j v lo hi =
    horizon-Numbered j.session since j.head (min j.head (since + j.page_size)) (page_events since j)
      (selected-Numbered j since v lo hi) (λ e. omega (arith, v.page_size))

select_page_within :
    (since : ℕ) (j : Journal)
    → IsJournal j
    → j.trimmed ≤ since
    → since ≤ j.head
    → select_page since j ≡ page_reply since j
unfolding select_page
select_page_within since j v lo hi =
    let low : ltb since j.trimmed ≡ false = ground arith in
    let high : ltb j.head since ≡ false = ground arith in
    rw (low, high, select_page) (rw (page_horizon since j v lo hi) refl)

last_bounded :
    (s : String) (n h : ℕ) (fs : List Fact) → Consecutive s n fs h → (n ≡ h) ⊎ (h ≤ max_sequence)
last_bounded s n h [] c = inl c
last_bounded s n h (f ∷ fs) c = elim (last_bounded s (suc n) h fs c.5) [
  | inl e ↦ inr (omega (arith, e, c.2, c.4.event_seq.1))
  | inr le ↦ inr le
]

journal_bounded :
    (j : Journal) → IsJournal j → (j.head ≤ max_sequence) × (j.trimmed + 1 ≤ max_sequence)
journal_bounded j v = elim (last_bounded j.session j.trimmed j.head j.facts v.facts) [
  | inl e ↦ (omega (arith, e, v.trimmed, v.retention), omega (arith, e, v.trimmed, v.retention))
  | inr le ↦ (le, omega (arith, le, v.trimmed, v.retention))
]

events-AreEvents :
    (s : String) (p n h : ℕ) (fs : List Fact)
    → Consecutive s n fs h
    → AreEvents (events_of (take p fs))
unfolding events_of
events-AreEvents s zero n h fs c = tt
events-AreEvents s (suc p) n h [] c = tt
events-AreEvents s (suc p) n h (f ∷ fs) c = (c.4, events-AreEvents s p (suc n) h fs c.5)

page-AreEvents :
    (since : ℕ) (j : Journal)
    → IsJournal j
    → j.trimmed ≤ since
    → since ≤ j.head
    → AreEvents (page_events since j)
page-AreEvents since j v lo hi = rw (facts_after-trim since j.facts) (
    events-AreEvents j.session j.page_size since j.head (trim_facts since j.facts)
      (trim-Consecutive j.session since j.trimmed j.head j.facts lo hi v.facts))

page-IsReply :
    (since : ℕ) (j : Journal)
    → IsJournal j
    → j.trimmed ≤ since
    → since ≤ j.head
    → IsReply (page_reply since j)
page-IsReply since j v lo hi =
    let (top, low) = journal_bounded j v in
    record {
      session = v.session;
      oldest = low;
      latest = omega (arith, top);
      range = ground arith;
      events = page-AreEvents since j v lo hi;
      resync = refl;
      order =
          order_passes j.session (j.trimmed + 1) (min j.head (since + j.page_size)) 0 since
            (page_events since j) (omega arith) (omega arith) (selected-Numbered j since v lo hi);
    }

-- Asked for what follows a sequence within the history, the journal makes a reply without a resync, with
-- exactly the events that follow it, in order and without a hole, up to the sequence that it reports,
-- which is the head or a whole page further. It answers with this reply if the reply's dictionary is
-- within the budget for JSON, and otherwise raises the code of the budget.
pub events_page :
    (since : ℕ) (j : Journal)
    → IsJournal j
    → j.trimmed ≤ since
    → since ≤ j.head
    → (events since j
        ≡ (check_input_budget (reply_to_dict (page_reply since j)) >> ok (page_reply since j)))
      × ((page_reply since j).resync_required ≡ false)
      × ((page_reply since j).latest_event_seq ≡ min j.head (since + j.page_size))
      × Numbered j.session since (page_reply since j).events (page_reply since j).latest_event_seq
unfolding events
events_page since j v lo hi = (
  ap check_reply (select_page_within since j v lo hi)
      ∙ check_reply-IsReply (page_reply since j) (page-IsReply since j v lo hi),
  refl,
  refl,
  selected-Numbered j since v lo hi,
)

select_page_outside :
    (since : ℕ) (j : Journal)
    → (since < j.trimmed) ⊎ (j.head < since)
    → select_page since j ≡ resync_reply j
unfolding select_page
select_page_outside since j out =
    let gone : (ltb since j.trimmed || ltb j.head since) ≡ true = ground arith in
    rw (gone, select_page) refl

resync-IsReply : (j : Journal) → IsJournal j → IsReply (resync_reply j)
unfolding check_order
resync-IsReply j v =
    let (top, low) = journal_bounded j v in
    record {
      session = v.session;
      oldest = low;
      latest = top;
      range = ground (arith, v.trimmed);
      events = tt;
      resync = refl;
      order = refl;
    }

-- Asked for what follows a sequence that was trimmed or lies ahead, the journal answers, within the
-- budget, that a resync is required, with no events and the head.
pub events_resync :
    (since : ℕ) (j : Journal)
    → IsJournal j
    → (since < j.trimmed) ⊎ (j.head < since)
    → events since j ≡ (check_input_budget (reply_to_dict (resync_reply j)) >> ok (resync_reply j))
unfolding events
events_resync since j v out =
    ap check_reply (select_page_outside since j out)
    ∙ check_reply-IsReply (resync_reply j) (resync-IsReply j v)
