-- ===== src/Wire/Returns.antt =====
-- What holds of the values that a chain of checks returns.
use astrbot_ex.Prelude.{◌≡◌, refl, subst}
use astrbot_ex.Actions.Error.{Error, Result, ok, raise, ◌>>=◌, ok-injective}

module _ {A : Type 0} where
  pub data Returns (P : A → Type 0) : Result A → Type 0 where
    returned : (a : A) → P a → Returns P (ok a)
    raised : (e : Error) → Returns P (raise e)

  pub of_result : {P : A → Type 0} (m : Result A) → ((a : A) → m ≡ ok a → P a) → Returns P m
  of_result (ok a) h = returned a (h a refl)
  of_result (raise e) h = raised e

  pub any_result : (m : Result A) → Returns (λ a. Unit {0}) m
  any_result m = of_result m (λ a e. tt)

  returns_at : {P : A → Type 0} {m : Result A} → Returns P m → (a : A) → m ≡ ok a → P a
  returns_at {P} (returned b p) a e = subst P (ok-injective e) p
  returns_at (raised e') a e = absurd (cc)

  pub of_returns : {P : A → Type 0} (m : Result A) (a : A) → Returns P m → m ≡ ok a → P a
  of_returns m a r e = returns_at r a e

module _ {A B : Type 0} {P : A → Type 0} {Q : B → Type 0} {f : A → Result B} where
  pub then_returns :
      {m : Result A} → Returns P m → ((a : A) → P a → Returns Q (f a)) → Returns Q (m >>= f)
  then_returns (returned a p) k = k a p
  then_returns (raised e) k = raised e

-- a test that has passed
pub checked : (m : Result (Unit {0})) → Returns (λ done. m ≡ ok tt) m
checked m = of_result m (λ done e. e)

pub returns_weaken :
    {A : Type 0} {P Q : A → Type 0} {m : Result A}
    → Returns P m
    → ((a : A) → P a → Q a)
    → Returns Q m
returns_weaken (returned a p) w = returned a (w a p)
returns_weaken (raised e) w = raised e
