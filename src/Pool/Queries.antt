-- ===== src/Pool/Queries.antt =====
-- The query functions of APool, src/apool.cpp: each takes a connection of the pool, passes the query on
-- and hands its results to the caller.
use asql.Base.{
  ℕ, ◌≡◌, refl, sym, ap, ◌∙◌, ◌≢◌, Bool, true, false, List, [], ◌∷◌, ◌++◌, map, String, arith,
  append_assoc, subst,
}
use asql.Delivery.{Expected, value, unexpected, done, finished, Many, deliver_many, is_last}

-- AResult: rows, and whether they are the last result set, or `resultError`, which is a last one.
pub data Result (R : Type 0) : Type 0 where
  rows : R → Bool → Result R
  error : String → Result R

-- What the query functions of ADatabase deliver, one result or several.
pub record Connection (R Args : Type 0) : Type 0 where
  pub exec : String → Expected (R × Bool)
  pub exec_utf8 : List ℕ → Expected (R × Bool)
  pub exec_prepared : ℕ → Expected (R × Bool)
  pub exec_args : String → Args → Expected (R × Bool)
  pub exec_utf8_args : List ℕ → Args → Expected (R × Bool)
  pub exec_prepared_args : ℕ → Args → Expected (R × Bool)
  pub exec_multi : String → List (Expected (R × Bool))
  pub exec_multi_utf8 : List ℕ → List (Expected (R × Bool))
  pub begin : Expected R

abbrev pub pass_on : {R : Type 0} → Expected (R × Bool) → Result R
pass_on (value (r, l)) = rows r l
pass_on (unexpected e) = error e

-- The loop of `execMulti`; where the list ends without a last result the coroutine waits on.
unfoldable pub relay_all : {R : Type 0} → List (Expected (R × Bool)) → List (Result R)
relay_all [] = []
relay_all (unexpected e ∷ xs) = error e ∷ []
relay_all (value (r, true) ∷ xs) = rows r true ∷ []
relay_all (value (r, false) ∷ xs) = rows r false ∷ relay_all xs

module _ {R Args : Type 0} where
  -- The results that are delivered to the caller.
  unfoldable pub relay_one :
      Expected (Connection R Args) → (Connection R Args → Expected (R × Bool)) → List (Result R)
  relay_one (unexpected e) run = error e ∷ []
  relay_one (value db) run = pass_on (run db) ∷ []

  unfoldable pub relay_many :
      Expected (Connection R Args)
      → (Connection R Args → List (Expected (R × Bool)))
      → List (Result R)
  relay_many (unexpected e) run = error e ∷ []
  relay_many (value db) run = relay_all (run db)

  unfoldable pub begin_from : Expected (Connection R Args) → Expected R
  begin_from (unexpected e) = unexpected e
  begin_from (value db) = elim db.begin [ unexpected e ↦ unexpected e | value t ↦ value t ]

  module _ (c : Expected (Connection R Args)) where
    abbrev pub pool_exec : String → List (Result R)
    pool_exec q = relay_one c λ db. db.exec q

    abbrev pub pool_exec_utf8 : List ℕ → List (Result R)
    pool_exec_utf8 q = relay_one c λ db. db.exec_utf8 q

    abbrev pub pool_exec_prepared : ℕ → List (Result R)
    pool_exec_prepared q = relay_one c λ db. db.exec_prepared q

    abbrev pub pool_exec_args : String → Args → List (Result R)
    pool_exec_args q a = relay_one c λ db. db.exec_args q a

    abbrev pub pool_exec_utf8_args : List ℕ → Args → List (Result R)
    pool_exec_utf8_args q a = relay_one c λ db. db.exec_utf8_args q a

    abbrev pub pool_exec_prepared_args : ℕ → Args → List (Result R)
    pool_exec_prepared_args q a = relay_one c λ db. db.exec_prepared_args q a

    abbrev pub pool_exec_multi : String → List (Result R)
    pool_exec_multi q = relay_many c λ db. db.exec_multi q

    abbrev pub pool_exec_multi_utf8 : List ℕ → List (Result R)
    pool_exec_multi_utf8 q = relay_many c λ db. db.exec_multi_utf8 q

-- What the coroutine data of the caller makes of a result.
abbrev pub to_expected : {R : Type 0} → Result R → Expected R
to_expected (rows r l) = value r
to_expected (error e) = unexpected e

abbrev pub last_result_set : {R : Type 0} → Result R → Bool
last_result_set (rows r l) = l
last_result_set (error e) = true

unfoldable pub deliver_all : {R : Type 0} → List (Result R) → Many R → Many R
deliver_all [] d = d
deliver_all (x ∷ xs) d = deliver_all xs (deliver_many (last_result_set x) (to_expected x) d).0

abbrev pub forget : {R : Type 0} → Expected (R × Bool) → Expected R
forget (value (r, l)) = value r
forget (unexpected e) = unexpected e

-- An error, or a result that is the last.
abbrev pub IsEnd : {R : Type 0} → Expected (R × Bool) → Type 0
IsEnd (value (r, l)) = l ≡ true
IsEnd (unexpected e) = Unit

module _ {R : Type 0} where
  deliver_open :
      (x : Result R) (d : Many R)
      → d.status ≢ finished
      → (deliver_many (last_result_set x) (to_expected x) d).0 ≡ record d {
        results = d.results ++ (to_expected x ∷ []);
        status = is_last (last_result_set x);
      }
  unfolding deliver_many
  deliver_open x d n = ground (arith, n)

  ends :
      (end : Expected (R × Bool)) (rest : List (Expected (R × Bool)))
      → IsEnd end
      → (relay_all (end ∷ rest) ≡ pass_on end ∷ [])
        × (to_expected (pass_on end) ≡ forget end)
        × (last_result_set (pass_on end) ≡ true)
  unfolding relay_all
  ends (value (r, true)) rest h = (refl, refl, refl)
  ends (value (r, false)) rest h = absurd (cc)
  ends (unexpected e) rest h = (refl, refl, refl)

  relay_all-delivers :
      (rs : List R) (end : Expected (R × Bool)) (rest : List (Expected (R × Bool))) (d : Many R)
      → IsEnd end
      → d.status ≢ finished
      → let d' = deliver_all (relay_all (map (λ r. value (r, false)) rs ++ (end ∷ rest))) d in
        (d'.results ≡ d.results ++ (map value rs ++ (forget end ∷ []))) × (d'.status ≡ done)
  unfolding deliver_all relay_all
  relay_all-delivers [] end rest d h n =
      let (one, same, last) = ends end rest h in
      rw (one, deliver_open (pass_on end) d n, last) (ap (λ x. d.results ++ (x ∷ [])) same, refl)
  relay_all-delivers (r ∷ rs) end rest d h n =
      subst
        (λ y.
          let d' = deliver_all (relay_all (map (λ r. value (r, false)) rs ++ (end ∷ rest))) y in
          (d'.results ≡ d.results ++ (value r ∷ (map value rs ++ (forget end ∷ []))))
          × (d'.status ≡ done))
        (sym (deliver_open (rows r false) d n))
        (let (results, ended) =
            relay_all-delivers rs end rest
              (record d { results = d.results ++ (value r ∷ []); status = is_last false }) h
              (λ z. cc) in
          (
            results ∙ append_assoc d.results (value r ∷ []) (map value rs ++ (forget end ∷ [])),
            ended,
          ))

module _ {R Args : Type 0} where
  -- One result is delivered, in every case: the connection's error, or the query's error or result.
  pub relay_one-delivers :
      (c : Expected (Connection R Args)) (run : Connection R Args → Expected (R × Bool))
      → (x : Result R) × (relay_one c run ≡ x ∷ [])
        × (to_expected x ≡ elim c [ unexpected e ↦ unexpected e | value db ↦ forget (run db) ])
  unfolding relay_one
  relay_one-delivers (unexpected e) run = (error e, refl, refl)
  relay_one-delivers (value db) run = (pass_on (run db), refl, passed (run db))
    where
      passed : (y : Expected (R × Bool)) → to_expected (pass_on y) ≡ forget y
      passed (value (r, l)) = refl
      passed (unexpected e) = refl

  -- Several results reach the caller's stream as the connection gave them, in their order, up to the
  -- first that is the last or an error, and then the stream is done; what the connection would give after
  -- that is not awaited.
  pub relay_many-delivers :
      (db : Connection R Args) (run : Connection R Args → List (Expected (R × Bool))) (rs : List R)
      (end : Expected (R × Bool)) (rest : List (Expected (R × Bool))) (d : Many R)
      → run db ≡ map (λ r. value (r, false)) rs ++ (end ∷ rest)
      → IsEnd end
      → d.status ≢ finished
      → let d' = deliver_all (relay_many (value db) run) d in
        (d'.results ≡ d.results ++ (map value rs ++ (forget end ∷ []))) × (d'.status ≡ done)
  unfolding relay_many
  relay_many-delivers db run rs end rest d e h n = rw e (relay_all-delivers rs end rest d h n)
