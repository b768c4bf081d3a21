-- ===== src/Decision/Journal/CatchUp.antt =====
-- A client that asks page after page, each time for what follows the sequence that the last reply
-- reported.
use astrbot_ex.Prelude.{
  ℕ, zero, suc, ◌-◌, ◌≤◌, String, ◌≡◌, refl, sym, ap, ◌∙◌, subst, List, [], ◌∷◌, ◌++◌, arith,
}
use astrbot_ex.Actions.Error.{Result, ok, ◌>>=◌, ◌>>◌}
use astrbot_ex.Wire.Fields.{check_input_budget}
use astrbot_ex.Wire.Messages.Commands.{ActionEvent}
use astrbot_ex.Decision.Journal.{Journal}
use astrbot_ex.Decision.Journal.Pages.{events, reply_to_dict}
use astrbot_ex.Decision.Journal.Invariant.{IsJournal}
use astrbot_ex.Decision.Journal.Paging.{Numbered, page_reply, events_page}

unfoldable pub read_on : ℕ → ℕ → Journal → Result (List ActionEvent × ℕ)
read_on zero since j = ok ([], since)
read_on (suc n) since j = do
  r ← events since j
  rest ← read_on n r.latest_event_seq j
  ok (r.events ++ rest.0, rest.1)

Numbered-append :
    (s : String) (n m h : ℕ) (es fs : List ActionEvent)
    → Numbered s n es m
    → Numbered s m fs h
    → Numbered s n (es ++ fs) h
Numbered-append s n m h [] fs c d = subst (λ i. Numbered s i fs h) (sym c) d
Numbered-append s n m h (e ∷ es) fs c d = (c.0, c.1, Numbered-append s (suc n) m h es fs c.2 d)

-- the pages from a sequence on are within the budget
abbrev pub PagesFit : ℕ → Journal → Type 0
PagesFit since j =
    (k : ℕ) → since ≤ k → k ≤ j.head → check_input_budget (reply_to_dict (page_reply k j)) ≡ ok tt

-- As long as the pages that follow are within the budget for JSON: with as many requests as there are
-- events to read, or more, a client that starts within the history gets to the head, and it has read
-- every event on the way, in order and without a hole.
pub read_on-head :
    (n since : ℕ) (j : Journal)
    → IsJournal j
    → PagesFit since j
    → j.trimmed ≤ since
    → since ≤ j.head
    → j.head - since ≤ n
    → (es : List ActionEvent) × (read_on n since j ≡ ok (es, j.head))
      × Numbered j.session since es j.head
unfolding read_on
read_on-head zero since j v fit lo hi enough =
    let e : since ≡ j.head = omega arith in ([], ground arith, e)
read_on-head (suc n) since j v fit lo hi enough =
    let (p, q, latest, numbered) = events_page since j v lo hi in
    let r = page_reply since j in
    let answered : events since j ≡ ok (page_reply since j) =
      p ∙ ap (λ b. b >> ok (page_reply since j)) (fit since (omega arith) hi) in
    let (es, p', numbered') =
      read_on-head n r.latest_event_seq j v (λ k from to. fit k (omega (arith, latest, from)) to)
        (omega (arith, latest)) (omega (arith, latest)) (omega (arith, latest, v.page_size)) in
    (
      r.events ++ es,
      rw (answered, p') refl,
      Numbered-append j.session since r.latest_event_seq j.head r.events es numbered numbered',
    )
