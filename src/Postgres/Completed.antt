-- ===== src/Postgres/Completed.antt =====
-- What ADriverPg, src/adriverpg.cpp, keeps of the invariant of its queue where it reads results and where
-- its connection ends.
use asql.Base.{
  ℕ, zero, suc, Bool, true, false, ◌||◌, Option, none, some, List, [], ◌∷◌, ◌++◌, if◌then◌else◌,
  ◌≡◌, refl, subst, sym, ap, ◌∙◌, arith, Bool-cases, inl, inr, All, append-nil, String, pos, eqb_ℤ,
}
use asql.Postgres.{
  PgResult, Result, Query, delivered, Libpq, Driver, note, set_state, is_wanted, error_result, Run,
  returns, undefined, ◌>>=◌,
}
use asql.Postgres.Sending.{is_off, pipeline_status}
use asql.Postgres.Serving.{
  Client, pop, set_front, result_of, is_sync, has_failed, is_preparing, react, done, next_query,
  fail_all, closed, finish_connection, take_result, complete, has_prepared, end_of_query, read,
}
use asql.Postgres.Facts.{answers, Always, Always-bind, IsSequential}
use asql.Postgres.Invariant.{
  IsLast, HasLast, IsGood, as_it_is, regard-Good, relink-Good, requeue-Good,
}
use asql.Postgres.Kept.{
  due, react-Good, done_more-Good, pop-Good, next_query-Good, next_query-IsGood,
}

result_of-IsLast : (r : PgResult) → (result_of r).last ≡ true
unfolding result_of
result_of-IsLast r = ground arith

module _ (pq : Libpq) (client : Client) (sequential : IsSequential pq) where
  module _ where
    -- The answer that is owed is given.
    done_last-Good :
        (q : Query) (d : Driver)
        → HasLast q
        → IsGood pq (due d.link.gone q) d
        → Always (IsGood pq []) (done pq client q d)
    unfolding done
    done_last-Good q d h v = by_wanted (is_wanted d.link.gone q) v
      where
        by_result :
            (o : Option Result)
            → IsLast o
            → IsGood pq (q.tag ∷ []) d
            → Always (IsGood pq []) (elim o as (λ x. Run) [
              | none ↦ undefined
              | some r ↦ returns (
                  react pq client (record d {
                    link =
                        note
                          (delivered q.tag (record r { query = q.query; args = q.params }))
                          d.link;
                  }))
            ])
        by_result none l w = tt
        by_result (some r) l w = react-Good pq client sequential _ record {
          gone_is = λ h. refl;
          ordered = w.ordered;
          held = w.held;
          lasts = w.lasts;
          answered = λ k. rw l (append-nil (answers d.link.log ++ (q.tag ∷ [])) ∙ w.answered k);
        }

        by_wanted :
            (b : Bool)
            → IsGood pq (if b then q.tag ∷ [] else []) d
            → Always (IsGood pq []) (
                if b
                then (elim q.result [
                  | none ↦ undefined
                  | some r ↦ returns (
                      react pq client (record d {
                        link =
                            note
                              (delivered q.tag (record r { query = q.query; args = q.params }))
                              d.link;
                      }))
                ])
                else returns d)
        by_wanted true w = by_result q.result h w
        by_wanted false w = w

    fail_all-Good :
        (n : ℕ) (e : String) (d : Driver)
        → IsGood pq [] d
        → Always (IsGood pq []) (fail_all pq client n e d)
    unfolding fail_all is_wanted
    fail_all-Good zero e d v = tt
    fail_all-Good (suc n) e d v = by_queue d.queue refl (λ d' v'. fail_all-Good n e d' v')
      where
        by_queue :
            (qs : List Query)
            → d.queue ≡ qs
            → ((d' : Driver) → IsGood pq [] d' → Always (IsGood pq []) (fail_all pq client n e d'))
            → Always (IsGood pq []) (elim qs as (λ x. Run) [
              | [] ↦ returns d
              | q ∷ rest ↦
                  done pq client (record q { result = some (error_result e q) }) (pop q rest d)
                  >>= λ d'. fail_all pq client n e d'
            ])
        by_queue [] f ih = v
        by_queue (q ∷ rest) f ih =
            Always-bind (IsGood pq [])
              (done pq client (record q { result = some (error_result e q) }) (pop q rest d))
              (λ d'. fail_all pq client n e d')
              (done_last-Good (record q { result = some (error_result e q) }) (pop q rest d) refl
                (pop-Good pq client sequential q rest d f v))
              ih

    pub finish_connection-Good :
        (n : ℕ) (e : String) (d : Driver)
        → IsGood pq [] d
        → Always (IsGood pq []) (finish_connection pq client n e d)
    unfolding finish_connection closed set_state
    finish_connection-Good n e d v = fail_all-Good n e _ record {
      gone_is = λ h. refl;
      ordered = v.ordered;
      held = v.held;
      lasts = v.lasts;
      answered = v.answered;
    }

    set_front-Good :
        (r : PgResult) (qs : List Query) (d : Driver)
        → IsGood pq [] (record d { queue = qs })
        → IsGood pq [] (
            set_front
              (λ (q : Query). record q { result = some (result_of r) })
              (record d { queue = qs }))
    set_front-Good r [] d v = v
    set_front-Good r (q ∷ rest) d v =
        requeue-Good pq sequential (record d { queue = q ∷ rest })
          (record q { result = some (result_of r) } ∷ rest) d.link refl
          (result_of-IsLast r, v.lasts.1) (λ e. absurd (cc)) refl (λ h. refl) v

    take_result-Good :
        (r : PgResult) (d : Driver)
        → IsGood pq [] d
        → Always (IsGood pq []) (take_result pq client r d)
    unfolding take_result
    take_result-Good r d v = by_queue d.queue
      where
        front-Good :
            (d' : Driver)
            → IsGood pq [] d'
            → Always
                (IsGood pq [])
                (returns (set_front (λ (q : Query). record q { result = some (result_of r) }) d'))
        front-Good d' w = set_front-Good r d'.queue d' w

        by_result :
            (q : Query) (o : Option Result)
            → Always (IsGood pq []) (elim o as (λ x. Run) [
              | none ↦ returns d
              | some x ↦ done pq client (record q { result = some (record x { last = false }) }) d
            ])
        by_result q none = v
        by_result q (some x) = done_more-Good pq client sequential q x d v

        by_queue :
            (qs : List Query)
            → Always (IsGood pq []) (elim qs as (λ x. Run) [
              | [] ↦ undefined
              | q ∷ rest ↦
                  (elim q.result [
                    | none ↦ returns d
                    | some x ↦
                        done pq client (record q { result = some (record x { last = false }) }) d
                  ])
                  >>= λ d'.
                      returns
                        (set_front (λ (q : Query). record q { result = some (result_of r) }) d')
            ])
        by_queue [] = tt
        by_queue (q ∷ rest) =
            Always-bind (IsGood pq [])
              (elim q.result as (λ x. Run) [
                | none ↦ returns d
                | some x ↦ done pq client (record q { result = some (record x { last = false }) }) d
              ])
              (λ d'.
                returns (set_front (λ (q : Query). record q { result = some (result_of r) }) d'))
              (by_result q q.result) front-Good

    complete-Good :
        (n : ℕ) (q : Query) (rest : List Query) (d : Driver)
        → d.queue ≡ q ∷ rest
        → IsGood pq [] d
        → Always (IsGood pq []) (complete pq client n q rest d)
    unfolding complete
    complete-Good n q rest d e v =
        Always-bind (IsGood pq []) (next_query pq client n (pop q rest d))
          (λ d'. done pq client q d')
          (next_query-Good pq client sequential n (pop q rest d)
            (pop-Good pq client sequential q rest d e v))
          (λ d' v'. done_last-Good q d' (subst (All HasLast) e v.lasts).0 (
            regard-Good pq d' (λ h. (refl, ap (λ g. due g q) (sym (v'.gone_is h))))
              (as_it_is pq d' v')))

    end_of_query-Good :
        (n : ℕ) (d : Driver) → IsGood pq [] d → Always (IsGood pq []) (end_of_query pq client n d)
    unfolding end_of_query
    end_of_query-Good n d v = by_queue d.queue d v
      where
        by_queue :
            (qs : List Query) (d : Driver)
            → IsGood pq [] (record d { queue = qs })
            → Always (IsGood pq []) (elim qs as (λ x. Run) [
              | [] ↦ returns (record d { queue = qs })
              | q ∷ rest ↦
                  (let d' = record d { queue = qs; link = record d.link { running = false } } in
                    if is_preparing q
                    then if has_failed q.result
                      then complete pq client n q rest d'
                      else next_query pq client n (has_prepared pq client q rest d')
                    else complete pq client n q rest d')
            ])
        by_queue [] d v = v
        by_queue (q ∷ rest) d v = by_flags (is_preparing q) (has_failed q.result)
          where
            d' : Driver
            d' = record d { queue = q ∷ rest; link = record d.link { running = false } }

            w : IsGood pq [] d'
            w = relink-Good pq sequential (record d { queue = q ∷ rest }) d'.link refl refl v

            by_flags :
                (b c : Bool)
                → Always (IsGood pq []) (
                    if b
                    then if c
                      then complete pq client n q rest d'
                      else next_query pq client n (has_prepared pq client q rest d')
                    else complete pq client n q rest d')
            by_flags true true = complete-Good n q rest d' refl w
            by_flags true false =
                next_query-IsGood pq client sequential n (has_prepared pq client q rest d') (
                  requeue-Good pq sequential d' _ _ refl (tt, v.lasts.1) (λ e. absurd (cc)) refl
                    (λ h. refl) w)
            by_flags false c = complete-Good n q rest d' refl w

    pub read-Good :
        (n : ℕ) (rs : List (Option PgResult)) (d : Driver)
        → IsGood pq [] d
        → Always (IsGood pq []) (read pq client n rs d)
    unfolding read
    read-Good n [] d v = v
    read-Good n (some r ∷ rs) d v = elim (Bool-cases (is_sync r.status)) [
      | inl e ↦ rw e (read-Good n rs _ (relink-Good pq sequential d _ refl refl v))
      | inr e ↦ rw e (
          Always-bind (IsGood pq []) (take_result pq client r d) (λ d'. read pq client n rs d')
            (take_result-Good r d v) (λ d' v'. read-Good n rs d' v'))
    ]
    read-Good n (none ∷ rs) d v =
        Always-bind (IsGood pq []) (end_of_query pq client n d)
          (λ d'.
            if is_off (pipeline_status pq d'.link) || eqb_ℤ d'.link.syncs (pos 0)
            then returns d'
            else read pq client n rs d')
          (end_of_query-Good n d v)
          (λ d' v'.
            elim (is_off (pipeline_status pq d'.link) || eqb_ℤ d'.link.syncs (pos 0))
              as (λ b. Always (IsGood pq []) (if b then returns d' else read pq client n rs d')) [
                | true ↦ v'
                | false ↦ read-Good n rs d' v'
              ])
