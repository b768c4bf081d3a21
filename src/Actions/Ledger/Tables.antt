-- ===== src/Actions/Ledger/Tables.antt =====
-- Laws of the ledger's statements on single tables: INSERT, the reservation of names and the release
-- of a holder.
use astrbot_ex.Prelude.{
  String, ◌≡◌, refl, subst, Bool, true, false, Option, none, some, List, [], ◌∷◌, arith, ◌=?◌,
  if◌then◌else◌,
}
use astrbot_ex.Prelude.Table.{Table, find, put, find-put, Distinct, put-Distinct}
use astrbot_ex.Actions.Error.{Result, ok, raise, ok-injective}
use astrbot_ex.Actions.Ledger.Db.{insert, release}
use astrbot_ex.Actions.Ledger.Admit.{mem, distinct, check_free, reserve}

module _ {ℓ} {V : Type ℓ} where
  pub insert_free :
      (k : String) (v : V) (t : Table V) → find k t ≡ none → insert k v t ≡ ok (put k v t)
  unfolding insert
  insert_free k v t h = ground arith

  pub insert_lem :
      (k : String) (v : V) (t t' : Table V)
      → insert k v t ≡ ok t'
      → (find k t ≡ none) × (t' ≡ put k v t)
  unfolding insert
  insert_lem k v t t' h = ground arith

-- what a lookup finds after the names have gone to `c`
abbrev pub taken : String → List String → String → Option String → Option String
taken c names n old = if mem n names then some c else old

pub find-reserve :
    (c : String) (names : List String) (t t' : Table String) (n : String)
    → reserve c names t ≡ ok t'
    → find n t' ≡ taken c names n (find n t)
unfolding reserve insert
find-reserve c [] t t' n h = ground arith
find-reserve c (x ∷ xs) t t' n h =
    ground (arith, find-put x n c t, find-reserve c xs (put x c t) t' n)

reserve_cons :
    (c x : String) (xs : List String) (t t' : Table String)
    → reserve c (x ∷ xs) t ≡ ok t'
    → (find x t ≡ none) × (reserve c xs (put x c t) ≡ ok t')
unfolding reserve insert
reserve_cons c x xs t t' h = ground arith

pub reserve-Distinct :
    (c : String) (names : List String) (t t' : Table String)
    → reserve c names t ≡ ok t'
    → Distinct t
    → Distinct t'
unfolding reserve
reserve-Distinct c [] t t' h d = subst Distinct (ok-injective h) d
reserve-Distinct c (x ∷ xs) t t' h d =
    reserve-Distinct c xs (put x c t) t' (reserve_cons c x xs t t' h).1 (put-Distinct x c t d)

-- Names that are distinct and free can be reserved.
abbrev pub Free : List String → Table String → Type 0
Free [] t = Unit
Free (x ∷ xs) t = (find x t ≡ none) × Free xs t

pub check_free-Free :
    (names : List String) (t : Table String) → check_free names t ≡ ok tt → Free names t
unfolding check_free
check_free-Free [] t h = tt
check_free-Free (x ∷ xs) t h = ground (arith, check_free-Free xs t)

Free-put :
    (x c : String) (xs : List String) (t : Table String)
    → mem x xs ≡ false
    → Free xs t
    → Free xs (put x c t)
Free-put x c [] t m f = tt
Free-put x c (y ∷ ys) t m f = ground (arith, find-put x y c t, Free-put x c ys t)

abbrev pub is_ok {ℓ} : {A : Type ℓ} → Result A → Bool
is_ok (ok a) = true
is_ok (raise e) = false

pub reserve-Free :
    (c : String) (names : List String) (t : Table String)
    → distinct names ≡ true
    → Free names t
    → is_ok (reserve c names t) ≡ true
unfolding reserve
reserve-Free c [] t d f = refl
reserve-Free c (x ∷ xs) t d f =
    ground (arith, insert_free x c t, Free-put x c xs t, reserve-Free c xs (put x c t))

-- what a lookup finds after the release of `c`
abbrev pub without_holder : String → Option String → Option String
without_holder c none = none
without_holder c (some h) = if h =? c then none else some h

pub find-release :
    (c n : String) (t : Table String)
    → Distinct t
    → find n (release c t) ≡ without_holder c (find n t)
unfolding find release
find-release c n [] d = refl
find-release c n ((i, h) ∷ t) d = ground (arith, find-release c n t)

pub release-Distinct : (c : String) (t : Table String) → Distinct t → Distinct (release c t)
unfolding release
release-Distinct c [] d = tt
release-Distinct c ((i, h) ∷ t) d = ground (arith, find-release c i t, release-Distinct c t)
