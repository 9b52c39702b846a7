-- ===== src/Postgres/Kept.antt =====
-- What the handlers of ADriverPg, src/adriverpg.cpp, keep of the invariant of its queue.
use asql.Base.{
  firsts, wanted-snoc, firsts-snoc, ℕ, zero, suc, true, false, ◌&&◌, ◌||◌, not, some, List, [], ◌∷◌,
  ◌++◌, if◌then◌else◌, ◌≡◌, refl, subst, sym, ap, ◌∙◌, arith, Bool-cases, inl, inr, ◌⊎◌, All,
  append_assoc, append-nil, ℤ,
}
use asql.Postgres.{
  Result, Query, set_single_row, cancel, delivered, Libpq, Driver, note, is_connected, may_receive,
  has_cb, is_wanted, Run, returns, Attempt,
}
use asql.Postgres.Sending.{
  is_off, is_none, mark_last, set_last_query_single_row_mode, exit_pipeline_mode, pipeline_status,
  run_query, enter_pipeline_mode, sync_pipeline, is_receiver, cancel_current, destroyed,
}
use asql.Postgres.Serving.{
  Request, executes, single_row, enters, exits, syncs, goes, Client, pop, request, perform, react,
  done, attempt, next_loop, next_query,
}
use asql.Postgres.Facts.{
  answers, Always, Always-map, IsSequential, run_query-Keeps, Near, run_query-Near,
  run_query-accepted,
}
use asql.Postgres.Invariant.{
  IsLast, HasLast, tags, mark_last-tags, mark_last-lasts, Good, IsGood, as_it_is, regard-Good,
  relink-Good, exec-Good, requeue-Good,
}

-- What a query that leaves is owed.
abbrev pub due : List ℕ → Query → List ℕ
due gone q = if is_wanted gone q then q.tag ∷ [] else []

skipped_unwanted :
    (g : List ℕ) (q : Query)
    → (not (may_receive g q.receiver) || not (has_cb g q.cb)) ≡ true
    → is_wanted g q ≡ false
unfolding is_wanted
skipped_unwanted g q h = ground (arith, h)

module _ (pq : Libpq) (client : Client) (sequential : IsSequential pq) where
  module _ {gone owed : List ℕ} where
    single_row-Good :
        (qs : List Query) (d : Driver)
        → Good pq gone owed (record d { queue = qs })
        → Good pq gone owed (set_last_query_single_row_mode (record d { queue = qs }))
    unfolding set_last_query_single_row_mode
    single_row-Good [] d v = v
    single_row-Good (q ∷ rest) d v =
        requeue-Good pq sequential (record d { queue = q ∷ rest }) (mark_last (q ∷ rest))
          (if is_none rest && (not q.preparing && is_connected d.link)
            then note set_single_row d.link
            else d.link)
          (mark_last-tags (q ∷ rest)) (mark_last-lasts (q ∷ rest) v.lasts) (λ e. absurd (cc))
          (ground arith) (λ h. ground arith) v

    enter-Good :
        (t : ℤ) (d : Driver) → Good pq gone owed d → Good pq gone owed (enter_pipeline_mode pq t d)
    unfolding enter_pipeline_mode
    enter-Good t d v = elim (Bool-cases (is_connected d.link && is_none d.queue)) [
      | inl e ↦ rw e (relink-Good pq sequential d _ (ground arith) (ground arith) v)
      | inr e ↦ rw e v
    ]

    exit-Good : (d : Driver) → Good pq gone owed d → Good pq gone owed (exit_pipeline_mode d)
    unfolding exit_pipeline_mode
    exit-Good d v = elim (Bool-cases (is_connected d.link)) [
      | inl e ↦ rw e (relink-Good pq sequential d _ refl refl v)
      | inr e ↦ rw e v
    ]

    pub sync-Good : (d : Driver) → Good pq gone owed d → Good pq gone owed (sync_pipeline pq d)
    unfolding sync_pipeline
    sync-Good d v = elim (Bool-cases (is_connected d.link)) [
      | inl e ↦ rw e (relink-Good pq sequential d _ (ground arith) (ground arith) v)
      | inr e ↦ rw e v
    ]

  module _ {owed : List ℕ} where
    destroyed-Good : (o : ℕ) (d : Driver) → IsGood pq owed d → IsGood pq owed (destroyed o d)
    unfolding destroyed cancel_current
    destroyed-Good o d v = as_it_is pq _ (by_queue d.queue d v)
      where
        by_queue :
            (qs : List Query) (d : Driver)
            → IsGood pq owed (record d { queue = qs })
            → Good pq (o ∷ d.link.gone) owed (elim qs as (λ x. Driver) [
              | [] ↦ record d { queue = qs; link = record d.link { gone = o ∷ d.link.gone } }
              | q ∷ rest ↦
                  if d.link.running && (d.link.conn && is_receiver o q.receiver)
                  then record d {
                    queue = qs;
                    link = note cancel (record d.link { gone = o ∷ d.link.gone });
                  }
                  else record d { queue = qs; link = record d.link { gone = o ∷ d.link.gone } }
            ])
        by_queue [] d v = record {
          gone_is = λ h. refl;
          ordered = v.ordered;
          held = v.held;
          lasts = v.lasts;
          answered = v.answered;
        }
        by_queue (q ∷ rest) d v =
            elim (d.link.running && (d.link.conn && is_receiver o q.receiver))
              as (λ b. Good pq (o ∷ d.link.gone) owed (
                if b
                then record d {
                  queue = q ∷ rest;
                  link = note cancel (record d.link { gone = o ∷ d.link.gone });
                }
                else record d {
                  queue = q ∷ rest;
                  link = record d.link { gone = o ∷ d.link.gone };
                })) [
                  | true ↦ record {
                    gone_is = λ h. refl;
                    ordered = v.ordered;
                    held = v.held;
                    lasts = v.lasts;
                    answered = v.answered;
                  }
                  | false ↦ record {
                    gone_is = λ h. refl;
                    ordered = v.ordered;
                    held = v.held;
                    lasts = v.lasts;
                    answered = v.answered;
                  }
                ]

    pub request-Good :
        (r : Request) (d : Driver) → IsGood pq owed d → IsGood pq owed (request pq r d)
    unfolding request
    request-Good (executes c) d v = as_it_is pq _ (exec-Good pq sequential c d v)
    request-Good single_row d v = as_it_is pq _ (single_row-Good d.queue d v)
    request-Good (enters t) d v = as_it_is pq _ (enter-Good t d v)
    request-Good exits d v = as_it_is pq _ (exit-Good d v)
    request-Good syncs d v = as_it_is pq _ (sync-Good d v)
    request-Good (goes o) d v = destroyed-Good o d v

    perform-Good :
        (rs : List Request) (d : Driver) → IsGood pq owed d → IsGood pq owed (perform pq rs d)
    unfolding perform
    perform-Good [] d v = v
    perform-Good (r ∷ rs) d v = perform-Good rs (request pq r d) (request-Good r d v)

    pub react-Good : (d : Driver) → IsGood pq owed d → IsGood pq owed (react pq client d)
    unfolding react
    react-Good d v = perform-Good (client.reacts d.link.log) d v

    -- The first result of several, which is not the last, is no answer.
    pub done_more-Good :
        (q : Query) (r : Result) (d : Driver)
        → IsGood pq owed d
        → Always
            (IsGood pq owed)
            (done pq client (record q { result = some (record r { last = false }) }) d)
    unfolding done
    done_more-Good q r d v =
        elim (is_wanted d.link.gone (record q { result = some (record r { last = false }) }))
          as (λ b. Always (IsGood pq owed) (
            if b
            then returns (
                react pq client (record d {
                  link =
                      note
                        (delivered q.tag
                          (record r { last = false; query = q.query; args = q.params }))
                        d.link;
                }))
            else returns d)) [
              | true ↦ react-Good _ (relink-Good pq sequential d _ refl refl v)
              | false ↦ v
            ]

  module _ {gone owed : List ℕ} where
    -- The query in front leaves, and is owed its answer if it is wanted.
    pub pop-Good :
        (q : Query) (rest : List Query) (d : Driver)
        → d.queue ≡ q ∷ rest
        → Good pq gone owed d
        → Good pq gone (owed ++ due gone q) (pop q rest d)
    pop-Good q rest d e v = record {
      gone_is = v.gone_is;
      ordered =
          v.ordered
          ∙ ap (λ x. firsts d.left ++ tags x) e
          ∙ sym (
              ap (λ x. x ++ tags rest) (firsts-snoc d.left q.tag (is_wanted d.link.gone q))
              ∙ append_assoc (firsts d.left) (q.tag ∷ []) (tags rest));
      held = elim v.held [ inl n ↦ absurd (cc) | inr s ↦ inr s ];
      lasts = (subst (All HasLast) e v.lasts).1;
      answered = λ h.
          sym (append_assoc (answers d.link.log) owed (due gone q))
          ∙ ap (λ x. x ++ due gone q) (v.answered h)
          ∙ rw (wanted-snoc d.left q.tag (is_wanted d.link.gone q), v.gone_is h);
    }

    attempt-Good :
        (q : Query) (rest : List Query) (d : Driver)
        → d.queue ≡ q ∷ rest
        → Good pq gone owed d
        → Good pq gone owed (attempt pq client q rest d)
    unfolding attempt
    attempt-Good q rest d e v =
        elim (Bool-cases
          (not (may_receive d.link.gone q.receiver) || not (has_cb d.link.gone q.cb))) [
            | inl skipped ↦ rw skipped (
                regard-Good pq (pop q rest d)
                  (λ h. (
                    refl,
                    ap (λ b. owed ++ (if b then q.tag ∷ [] else []))
                          (subst (λ g. is_wanted g q ≡ false) (v.gone_is h)
                            (skipped_unwanted d.link.gone q skipped))
                        ∙ append-nil owed,
                  ))
                  (pop-Good q rest d e v))
            | inr sent ↦ rw sent (by_outcome (Bool-cases s.accepted))
          ]
      where
        s : Attempt
        s = run_query pq q d.link

        near : Near pq q d.link s
        near = run_query-Near pq q d.link

        kept-HasLast : IsLast q.result → IsLast s.query.result
        kept-HasLast h = elim near.result [
          | inl r ↦ subst IsLast (sym r) h
          | inr r ↦ subst IsLast (sym r) tt
        ]

        front-Good : Good pq gone owed (record d { queue = s.query ∷ rest; link = s.link })
        front-Good =
            requeue-Good pq sequential d (s.query ∷ rest) s.link
              (ap (λ t. t ∷ tags rest) near.tag ∙ ap tags (sym e))
              (let h = subst (All HasLast) e v.lasts in (kept-HasLast h.0, h.1)) (λ n. absurd (cc))
              near.gone
              (λ h. (run_query-Keeps pq q d.link (run_query-accepted pq h q d.link).0).answers) v

        by_outcome :
            (s.accepted ≡ true) ⊎ (s.accepted ≡ false)
            → Good pq gone owed (
                if s.accepted
                then record d { queue = s.query ∷ rest; link = s.link }
                else react pq client (record d { queue = s.query ∷ rest; link = s.link }))
        by_outcome (inl a) = rw a front-Good
        by_outcome (inr a) = rw a (
            regard-Good pq _ (λ h. absurd (let b = (run_query-accepted pq h q d.link).0 in cc))
              (react-Good _ (as_it_is pq _ front-Good)))

    next_loop-Good :
        (n : ℕ) (d : Driver)
        → Good pq gone owed d
        → Always (Good pq gone owed) (next_loop pq client n d)
    unfolding next_loop
    next_loop-Good zero d v = tt
    next_loop-Good (suc n) d v =
        elim d.link.running
          as (λ b. Always (Good pq gone owed) (elim b as (λ x. Run) [
            | true ↦ returns d
            | false ↦ elim d.queue [
              | [] ↦ returns d
              | q ∷ rest ↦ next_loop pq client n (attempt pq client q rest d)
            ]
          ])) [ true ↦ v | false ↦ by_queue d.queue refl (λ d' v'. next_loop-Good n d' v') ]
      where
        by_queue :
            (qs : List Query)
            → d.queue ≡ qs
            → ((d' : Driver)
                → Good pq gone owed d'
                → Always (Good pq gone owed) (next_loop pq client n d'))
            → Always (Good pq gone owed) (elim qs as (λ x. Run) [
              | [] ↦ returns d
              | q ∷ rest ↦ next_loop pq client n (attempt pq client q rest d)
            ])
        by_queue [] e ih = v
        by_queue (q ∷ rest) e ih = ih (attempt pq client q rest d) (attempt-Good q rest d e v)

    pub next_query-Good :
        (n : ℕ) (d : Driver)
        → Good pq gone owed d
        → Always (Good pq gone owed) (next_query pq client n d)
    unfolding next_query
    next_query-Good n d v = elim (Bool-cases (is_off (pipeline_status pq d.link))) [
      | inl e ↦ rw e (next_loop-Good n d v)
      | inr e ↦ rw e v
    ]

  pub next_query-IsGood :
      {owed : List ℕ} (n : ℕ) (d : Driver)
      → IsGood pq owed d
      → Always (IsGood pq owed) (next_query pq client n d)
  next_query-IsGood n d v =
      Always-map (next_query pq client n d) (λ d' v'. as_it_is pq d' v') (next_query-Good n d v)
