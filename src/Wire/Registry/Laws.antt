-- ===== src/Wire/Registry/Laws.antt =====
-- What the idempotency registry answers.
use astrbot_ex.Prelude.{String, ◌≡◌, refl, ◌∙◌, ap, some, List, [], ◌∷◌, arith, if◌then◌else◌, ◌=?◌}
use astrbot_ex.Prelude.Table.{Table, find, find-put}
use astrbot_ex.Actions.Error.{contract, Result, ok, raise, ◌>>◌, duplicate_request_id_conflict}
use astrbot_ex.Wire.Json.{Json}
use astrbot_ex.Wire.Registry.{Resolution, new, replay, check_request, look_up, after_check, resolve}

module _ (canonical : Json → String) where
  -- the registry after a list of resolutions
  unfoldable pub resolve_all : Table String → List (String × Json) → Table String
  resolve_all seen [] = seen
  resolve_all seen ((r, p) ∷ rest) = resolve_all (resolve canonical seen r p).1 rest

  look_up_keeps :
      (seen : Table String) (k r text v : String)
      → find k seen ≡ some v
      → find k (look_up seen r text).1 ≡ some v
  unfolding look_up
  look_up_keeps seen k r text v h = ground (arith, find-put r k text seen)

  checked_keeps :
      (c : Result (Unit {0})) (seen : Table String) (rest : Result Resolution × Table String)
      (k v : String)
      → find k seen ≡ some v
      → find k rest.1 ≡ some v
      → find k (after_check c seen rest).1 ≡ some v
  checked_keeps (raise e) seen rest k v h h' = h
  checked_keeps (ok done) seen rest k v h h' = h'

  resolve_all-keeps :
      (seen : Table String) (rest : List (String × Json)) (k v : String)
      → find k seen ≡ some v
      → find k (resolve_all seen rest) ≡ some v
  unfolding resolve_all resolve
  resolve_all-keeps seen [] k v h = h
  resolve_all-keeps seen ((r, p) ∷ rest) k v h =
      resolve_all-keeps (resolve canonical seen r p).1 rest k v (
        checked_keeps (check_request r p) seen (look_up seen r (canonical p)) k v h
          (look_up_keeps seen k r (canonical p) v h))

  look_up_known :
      (seen : Table String) (k v text : String)
      → find k seen ≡ some v
      → (look_up seen k text).0
        ≡ (if v =? text then ok replay else raise (contract duplicate_request_id_conflict))
  unfolding look_up
  look_up_known seen k v text h = ground arith

  look_up_stores :
      (seen : Table String) (k text : String)
      → (look_up seen k text).0 ≡ ok new
      → find k (look_up seen k text).1 ≡ some text
  unfolding look_up
  look_up_stores seen k text h = ground (arith, find-put k k text seen)

  stored :
      (c : Result (Unit {0})) (seen : Table String) (k text : String)
      → (after_check c seen (look_up seen k text)).0 ≡ ok new
      → find k (after_check c seen (look_up seen k text)).1 ≡ some text
  stored (raise e) seen k text h = absurd (cc)
  stored (ok done) seen k text h = look_up_stores seen k text h

  checked_first :
      (c : Result (Unit {0})) (seen : Table String) (rest : Result Resolution × Table String)
      → (after_check c seen rest).0 ≡ (c >> rest.0)
  checked_first (raise e) seen rest = refl
  checked_first (ok done) seen rest = refl

  -- A request that was new to the registry is known after any further resolutions: with a payload that
  -- passes the checks it is a replay if the payload has the same canonical text and a conflict
  -- otherwise, and with any other payload the error of the checks.
  pub resolve-replay :
      (seen : Table String) (k : String) (p q : Json) (rest : List (String × Json))
      → (resolve canonical seen k p).0 ≡ ok new
      → (resolve canonical (resolve_all (resolve canonical seen k p).1 rest) k q).0 ≡ (
          check_request k q
          >> (if canonical p =? canonical q
              then ok replay
              else raise (contract duplicate_request_id_conflict)))
  unfolding resolve
  resolve-replay seen k p q rest h =
      let later : Table String = resolve_all (resolve canonical seen k p).1 rest in
      let known : find k later ≡ some (canonical p) =
        resolve_all-keeps (resolve canonical seen k p).1 rest k (canonical p)
          (stored (check_request k p) seen k (canonical p) h) in
      checked_first (check_request k q) later (look_up later k (canonical q))
      ∙ ap (λ x. check_request k q >> x) (look_up_known later k (canonical p) (canonical q) known)
