-- ===== src/Actions/Ledger/Writer/Order.antt =====
-- The order of the futures as one goes from the queue to those that the thread is done with
-- (astrbot_ex/core/actions/ledger.py).
use astrbot_ex.Prelude.{ℕ, ◌+◌, ◌≤◌, ◌≡◌, refl, sym, ap, false, List, [], ◌∷◌, ◌++◌, arith, length}
use astrbot_ex.Actions.Ledger.Writer.{Item, job, stop, Fate, settled, canceled, lost, Writer}
use astrbot_ex.Actions.Ledger.Writer.Fair.{
  StopLast, NoStop, taken, lost_count, IsFair, append_assoc,
}

append_nil : (xs : List ℕ) → xs ++ [] ≡ xs
append_nil [] = refl
append_nil (x ∷ xs) = ap (λ l. x ∷ l) (append_nil xs)

taken-append :
    (gone : List (ℕ × Fate)) (n : ℕ) (f : Fate) → taken (gone ++ (n, f) ∷ []) ≡ taken gone ++ n ∷ []
taken-append [] n f = refl
taken-append ((m, g) ∷ gone) n f = ap (λ l. m ∷ l) (taken-append gone n f)

pub lost_count-append :
    (gone : List (ℕ × Fate)) (n : ℕ) (f : Fate)
    → lost_count (gone ++ (n, f) ∷ []) ≡ lost_count gone + lost_count ((n, f) ∷ [])
lost_count-append [] n f = omega arith
lost_count-append ((m, settled) ∷ gone) n f = lost_count-append gone n f
lost_count-append ((m, canceled) ∷ gone) n f = lost_count-append gone n f
lost_count-append ((m, lost) ∷ gone) n f = omega (arith, lost_count-append gone n f)

-- a future that the thread is done with, and goes on to nothing at once
pub gone_next :
    (gone : List (ℕ × Fate)) (n : ℕ) (f : Fate) (q : List ℕ)
    → (taken gone ++ n ∷ []) ++ q ≡ (taken (gone ++ (n, f) ∷ []) ++ []) ++ q
gone_next gone n f q = rw (taken-append gone n f, append_nil (taken gone ++ n ∷ [])) refl

-- the first one that waits
pub first_waiting : (xs : List ℕ) (n : ℕ) (q : List ℕ) → (xs ++ []) ++ n ∷ q ≡ (xs ++ n ∷ []) ++ q
first_waiting xs n q = rw (append_nil xs) (sym (append_assoc xs (n ∷ []) q))

-- what the rest of the queue keeps
pub rest_of :
    (i : Item) (w : Writer) (q : List Item)
    → IsFair w
    → w.queue ≡ i ∷ q
    → (length q ≤ w.maxsize) × StopLast q × (w.closed ≡ false → NoStop q)
rest_of (job n) w q v is =
    let b : length (job n ∷ q) ≤ w.maxsize = rw is at v.bounded in
    (omega (arith, b), rw is at v.marker, λ c. rw is at (v.before_close c))
rest_of stop w q v is =
    let b : length (stop ∷ q) ≤ w.maxsize = rw is at v.bounded in
    let empty : q ≡ [] = rw is at v.marker in (omega (arith, b), rw empty tt, λ c. rw empty tt)
