-- ===== src/Migrations/Session/Progress.antt =====
-- `migrate` of src/amigrations.cpp with a database that does what it is asked.
use asql.Base.{
  ℕ, zero, suc, ◌≡◌, refl, ap, ◌≢◌, ◌∙◌, true, false, ◌&&◌, List, [], ◌∷◌, ◌++◌, none, some, arith,
  Bool-cases, inl, inr, ℤ, pos, ltb_ℤ, ◌≤ℤ◌, reverse, append_assoc, length, ◌<ℤ◌,
}
use mathlib.Core.List.{reverse-cons}
use asql.Migrations.Plan.Walk.{walk_stop, walk_on, next_query-le}
use asql.Migrations.Plan.Up.{walk-sql_list_for}
use asql.Migrations.Parser.{Migrations}
use asql.Migrations.Parser.Validity.{IsValid}
use asql.Migrations.Plan.{is_empty, next_query, walk, sql_list_for}
use asql.Migrations.Session.{
  begin, commit, update_version, Database, World, Delivery, success, Flow, go, stop, marks, handle,
  run_migration, in_transaction, leave, round, rounds, migrate, resolve,
}
use asql.Migrations.Session.Rules.{if-rule}
use asql.Migrations.Session.Served.{
  View, current, apply, Serves, scripts, exec-served, script-served, read-served,
}

module _ {S : Type 0} (db : Database S) (view : S → View) (serves : Serves db view) where
  module _ (d : Migrations) (target : ℤ) where
    -- The outcome of a round from a stored version.
    abbrev Rounds : ℤ → World S → Flow (Unit {0}) × World S → Type 0
    Rounds a w (stop r, w') =
        (r ≡ success)
        × (view w'.server ≡ view w.server)
        × (scripts w'.log ≡ scripts w.log)
        × ((next_query a target d).query ≡ [])
    Rounds a w (go _, w') =
        (view w'.server ≡ record { stored = (next_query a target d).version; pending = none })
        × (scripts w'.log ≡ (next_query a target d).query ∷ scripts w.log)
        × ((next_query a target d).query ≢ [])

    empty_nil : (l : List ℕ) → is_empty l ≡ true → l ≡ []
    empty_nil [] h = refl
    empty_nil (x ∷ l) h = cc

    regroup :
        (q : List ℕ) (qs : List (List ℕ)) {l l' : List (List ℕ)}
        → l' ≡ q ∷ l
        → reverse qs ++ l' ≡ reverse (q ∷ qs) ++ l
    regroup q qs e = rw (e, reverse-cons q qs, append_assoc)

    nonempty : (l : List ℕ) → is_empty l ≡ false → l ≢ []
    nonempty [] h = cc
    nonempty (x ∷ l) h = λ e. cc

    run_migration-Rounds :
        (a : ℤ) (w w1 : World S)
        → view w1.server ≡ record { stored = a; pending = some a }
        → scripts w1.log ≡ scripts w.log
        → is_empty (next_query a target d).query ≡ false
        → Rounds a w
            (leave db d target false (run_migration db d target false (next_query a target d) w1))
    unfolding run_migration
    run_migration-Rounds a w w1 v1 s1 t =
        let m = next_query a target d in
        if-rule (λ x. Rounds a w (leave db d target false x)) (m.no_transaction && false) _ _ w1
          (λ z. absurd (ground arith))
          (λ z.
            exec-served db view serves (λ x. Rounds a w (leave db d target false x))
              (update_version (marks db.driver) d.name m.version) w1 _
              (λ v s p q.
                script-served db view serves (λ x. Rounds a w (leave db d target false x))
                  (handle m.no_transaction) m.query _ _
                  (λ s' q'. exec-served db view serves (Rounds a w) commit _ _ (λ v' s'' p' q''. (
                    q''
                        ∙ ap (apply commit) (
                            q'
                            ∙ q
                            ∙ ap (apply (update_version (marks db.driver) d.name m.version)) v1),
                    ap (◌∷◌ m.query) s1,
                    nonempty m.query t,
                  )))))

    in_transaction-Rounds :
        (a : ℤ) (w w1 : World S)
        → view w1.server ≡ record { stored = a; pending = some a }
        → scripts w1.log ≡ scripts w.log
        → a ≤ℤ d.latest
        → is_empty (next_query a target d).query ≡ false
        → Rounds a w (leave db d target false (in_transaction db d target false w1))
    unfolding in_transaction
    in_transaction-Rounds a w w1 v1 s1 k t =
        read-served db view serves d target (λ x. Rounds a w (leave db d target false x)) true a w1
          _ (ap current v1) k
          (λ w2 v2 s2.
            if-rule (λ x. Rounds a w (leave db d target false x))
              (is_empty (next_query a target d).query) _ _ w2 (λ z. absurd (cc))
              (λ z. run_migration-Rounds a w w2 (v2 ∙ v1) (s2 ∙ s1) t))

    round-Rounds :
        (a : ℤ) (w : World S)
        → view w.server ≡ record { stored = a; pending = none }
        → a ≤ℤ d.latest
        → Rounds a w (round db d target false w)
    unfolding round
    round-Rounds a w e k =
        read-served db view serves d target (Rounds a w) false a w _ (ap current e) k (λ w1 v1 s1.
          if-rule (Rounds a w) (is_empty (next_query a target d).query) _ _ w1
            (λ t. (refl, v1, s1, empty_nil (next_query a target d).query t))
            (λ t.
              exec-served db view serves (Rounds a w) begin w1 _
                (λ v s p q. in_transaction-Rounds a w _ (q ∙ ap (apply begin) (v1 ∙ e)) s1 k t)))

    -- What a whole run from a stored version leaves, where the walk of so many steps gets to its end.
    abbrev Arrives : ℕ → ℤ → World S → Type 0
    Arrives f a w =
        (w' : World S) × (rounds db d target false (suc f) w ≡ some (success, w'))
        × (view w'.server ≡ record { stored = (walk f a target d).1; pending = none })
        × (scripts w'.log ≡ reverse (walk f a target d).0 ++ scripts w.log)

    rounds_stop :
        (f : ℕ) (w : World S) {r : Delivery} {w' : World S}
        → round db d target false w ≡ (stop r, w')
        → rounds db d target false (suc f) w ≡ some (r, w')
    unfolding rounds
    rounds_stop f w e = rw e

    rounds_go :
        (f : ℕ) (w : World S) {u : Unit {0}} {w' : World S}
        → round db d target false w ≡ (go u, w')
        → rounds db d target false (suc f) w ≡ rounds db d target false f w'
    unfolding rounds
    rounds_go f w e = rw e

    Arrives-here :
        (f : ℕ) (a : ℤ) (w w' : World S) (r : Delivery)
        → view w.server ≡ record { stored = a; pending = none }
        → round db d target false w ≡ (stop r, w')
        → Rounds a w (stop r, w')
        → Arrives f a w
    Arrives-here f a w w' r v e (s, v', l, n) =
        rw (walk_stop f a target d n) (w', rw (← s) (rounds_stop f w e), v' ∙ v, l)

    Arrives-on :
        (f : ℕ) (a : ℤ) (w w' : World S) (u : Unit {0})
        → round db d target false w ≡ (go u, w')
        → Rounds a w (go u, w')
        → Arrives f (next_query a target d).version w'
        → Arrives (suc f) a w
    Arrives-on f a w w' u e (v, l, n) (w2, r, v2, l2) = rw (walk_on f a target d n) (
      w2,
      rounds_go (suc f) w e ∙ r,
      v2,
      l2
          ∙ regroup (next_query a target d).query
              (walk f (next_query a target d).version target d).0 l,
    )

    rounds-Arrives :
        (f : ℕ) (a : ℤ) (w : World S)
        → IsValid d
        → view w.server ≡ record { stored = a; pending = none }
        → a ≤ℤ d.latest
        → (next_query (walk f a target d).1 target d).query ≡ []
        → Arrives f a w
    rounds-Arrives zero a w valid v k n =
        by_round (round db d target false w) refl (round-Rounds a w v k)
      where
        by_round :
            (x : Flow (Unit {0}) × World S)
            → round db d target false w ≡ x
            → Rounds a w x
            → Arrives zero a w
        by_round (stop r, w') e z = Arrives-here zero a w w' r v e z
        by_round (go u, w') e z = absurd (z.2 (unfold walk in n))
    rounds-Arrives (suc f) a w valid v k n =
        by_round (λ w' v' k' n'. rounds-Arrives f (next_query a target d).version w' valid v' k' n')
          (round db d target false w) refl (round-Rounds a w v k)
      where
        by_round :
            ((w' : World S)
              → view w'.server ≡ record { stored = (next_query a target d).version; pending = none }
              → (next_query a target d).version ≤ℤ d.latest
              → (next_query (walk f (next_query a target d).version target d).1 target d).query ≡ []
              → Arrives f (next_query a target d).version w')
            → (x : Flow (Unit {0}) × World S) → round db d target false w ≡ x
            → Rounds a w x
            → Arrives (suc f) a w
        by_round rec (stop r, w') e z = Arrives-here (suc f) a w w' r v e z
        by_round rec (go u, w') e z =
            Arrives-on f a w w' u e z (
              rec w' z.0 (next_query-le a target d valid k z.2)
                (rw (walk_on f a target d z.2) at n))

  -- With a database that does what it is asked, `migrate` ends with success and stores the version at
  -- which the walk over the queries ends, having run exactly the queries of that walk, in its order.
  -- One more round than the walk has steps is enough, where so many steps take it to its end.
  pub migrate-Serves :
      (f : ℕ) (d : Migrations) (target_version a : ℤ) (w : World S)
      → IsValid d
      → view w.server ≡ record { stored = a; pending = none }
      → a ≤ℤ d.latest
      → pos 0 ≤ℤ resolve d target_version
      → (next_query (walk f a (resolve d target_version) d).1 (resolve d target_version) d).query
        ≡ []
      → (w' : World S) × (migrate db (suc f) d target_version false w ≡ some (success, w'))
        × (view w'.server
            ≡ record { stored = (walk f a (resolve d target_version) d).1; pending = none })
        × (scripts w'.log ≡ reverse (walk f a (resolve d target_version) d).0 ++ scripts w.log)
  unfolding migrate
  migrate-Serves f d target_version a w valid v k t n =
      elim (Bool-cases (ltb_ℤ (resolve d target_version) (pos 0))) [
        | inl e ↦ absurd (ground arith)
        | inr e ↦ rw e (rounds-Arrives d (resolve d target_version) f a w valid v k n)
      ]

  -- With a database that does what it is asked and a well-formed plan: from a stored version that is below
  -- the target and not above the latest, to a target that is not negative, `migrate` ends with success
  -- after as many rounds as the plan has queries upwards and two more at most, and runs the queries that
  -- `sqlListFor` lists, each once and in its order.
  pub migrate-sql_list_for :
      (d : Migrations) (target a : ℤ) (w : World S)
      → IsValid d
      → view w.server ≡ record { stored = a; pending = none }
      → a <ℤ target
      → a ≤ℤ d.latest
      → pos 0 ≤ℤ target
      → (w' : World S) × (migrate db (suc (suc (length d.ups))) d target false w
          ≡ some (success, w'))
        × (scripts w'.log ≡ reverse (sql_list_for a target d) ++ scripts w.log)
  migrate-sql_list_for d target a w valid v h k t =
      let same : resolve d target ≡ target = ground arith in
      let f = suc (length d.ups) in
      let (listed, ended, _) = walk-sql_list_for f a target d valid h (omega arith) in
      let (w', done, _, ran_all) =
        migrate-Serves f d target a w valid v k (rw same t) (rw same ended) in
      let agree : (walk f a (resolve d target) d).0 ≡ sql_list_for a target d = rw same listed in
      (w', done, ran_all ∙ ap (λ l. reverse l ++ scripts w.log) agree)
