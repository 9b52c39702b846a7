-- ===== src/Postgres/Facts.antt =====
-- What the sending of a query by ADriverPg, src/adriverpg.cpp, leaves as it was.
use asql.Base.{
  ℕ, Bool, true, false, Option, none, some, List, [], ◌∷◌, ◌++◌, if◌then◌else◌, ◌≡◌, ◌⊎◌, refl,
  subst, sym, arith, Bool-cases, inl, inr,
}
use asql.Postgres.{
  off, Variant, Prepared, Query, Effect, send_query, send_query_params, send_prepare, delivered,
  Libpq, Link, Driver, is_wanted, Run, returns, undefined, runs_on, ◌>>=◌, Attempt,
}
use asql.Postgres.Sending.{
  is_prepared, is_empty, send, after_prepare, execute_prepared, do_exec, do_exec_params, cmd_flush,
  done_error, started_query, run_query,
}

-- The tags of the last results that the log delivers, the oldest first.
abbrev pub add_answer : Effect → List ℕ → List ℕ
add_answer (delivered t r) ts = if r.last then ts ++ (t ∷ []) else ts
add_answer _ ts = ts

abbrev pub answers : List Effect → List ℕ
answers [] = []
answers (e ∷ log) = add_answer e (answers log)

-- What holds of the state that is returned, if one is.
abbrev pub Always : (Driver → Type 0) → Run → Type 0
Always P (returns d) = P d
Always P undefined = Unit
Always P runs_on = Unit

pub Always-bind :
    {P : Driver → Type 0} (Q : Driver → Type 0) (m : Run) (f : Driver → Run)
    → Always P m
    → ((d : Driver) → P d → Always Q (f d))
    → Always Q (m >>= f)
Always-bind Q (returns d) f h k = k d h
Always-bind Q undefined f h k = tt
Always-bind Q runs_on f h k = tt

pub Always-map :
    {P Q : Driver → Type 0} (m : Run) → ((d : Driver) → P d → Q d) → Always P m → Always Q m
Always-map (returns d) k h = k d h
Always-map undefined k h = tt
Always-map runs_on k h = tt

module _ (pq : Libpq) where
  -- Every call of libpq that sends is accepted.
  abbrev pub IsAccepting : Type 0
  IsAccepting = (log : List Effect) → pq.sends log ≡ true

  -- libpq has no pipeline mode, or it is not entered.
  abbrev pub IsSequential : Type 0
  IsSequential = (log : List Effect) → pq.pipeline log ≡ off

  -- What is common to a query and its driver before and after a step of its sending.
  pub record Keeps (q : Query) (l : Link) (s : Attempt) : Type 0 where
    pub tag : s.query.tag ≡ q.tag
    pub cb : s.query.cb ≡ q.cb
    pub receiver : s.query.receiver ≡ q.receiver
    pub result : s.query.result ≡ q.result
    pub state : s.link.state ≡ l.state
    pub gone : s.link.gone ≡ l.gone
    pub answers : answers s.link.log ≡ answers l.log

  after_prepare-Keeps :
      (k : Query → Link → Attempt) (p : Prepared) (q : Query) (l : Link) (s : Attempt)
      → ((q' : Query) (l' : Link) → Keeps q' l' (k q' l'))
      → Keeps q l s
      → Keeps q l (after_prepare pq k p s)
  unfolding after_prepare
  after_prepare-Keeps k p q l s h v = ground (
    arith,
    v,
    h (record s.query { preparing = true })
        (record s.link { prepared = p.identification ∷ s.link.prepared }),
  )

  execute_prepared-Keeps :
      (p : Prepared) (args : List Variant) (q : Query) (l : Link)
      → Keeps q l (execute_prepared pq p args q l)
  execute_prepared-Keeps p args q l = ground arith

  -- A statement is prepared first where it is not in the cache.
  prepared-Keeps :
      (p : Prepared) (args : List Variant) (q : Query) (l : Link)
      → Keeps q l (
          if is_prepared p.identification l.prepared
          then execute_prepared pq p args q l
          else after_prepare pq
              (execute_prepared pq p args)
              p
              (send pq (send_prepare q.tag p.identification p.sql) q l))
  prepared-Keeps p args q l = elim (Bool-cases (is_prepared p.identification l.prepared)) [
    | inl e ↦ rw e (execute_prepared-Keeps p args q l)
    | inr e ↦ rw e (
        after_prepare-Keeps (execute_prepared pq p args) p q l
          (send pq (send_prepare q.tag p.identification p.sql) q l) (execute_prepared-Keeps p args)
          (ground arith))
  ]

  -- Both ways of sending, by whether the query is prepared.
  by_prepared :
      (o : Option Prepared) (plain : Attempt) (args : List Variant) (q : Query) (l : Link)
      → Keeps q l plain
      → Keeps q l (elim o [
        | none ↦ plain
        | some p ↦
            if is_prepared p.identification l.prepared
            then execute_prepared pq p args q l
            else after_prepare pq
                (execute_prepared pq p args)
                p
                (send pq (send_prepare q.tag p.identification p.sql) q l)
      ])
  by_prepared none plain args q l v = v
  by_prepared (some p) plain args q l v = prepared-Keeps p args q l

  do_exec-Keeps : (q : Query) (l : Link) → Keeps q l (do_exec pq q l)
  unfolding do_exec
  do_exec-Keeps q l =
      by_prepared q.prepared (send pq (send_query q.tag q.query) q l) [] q l (ground arith)

  do_exec_params-Keeps : (q : Query) (l : Link) → Keeps q l (do_exec_params pq q l)
  unfolding do_exec_params
  do_exec_params-Keeps q l =
      by_prepared q.prepared (send pq (send_query_params q.tag q.query q.params) q l) q.params q l
        (ground arith)

  chosen-Keeps :
      (b : Bool) (q : Query) (l : Link)
      → Keeps q l (if b then do_exec pq q l else do_exec_params pq q l)
  chosen-Keeps true q l = do_exec-Keeps q l
  chosen-Keeps false q l = do_exec_params-Keeps q l

  -- What follows an accepted call changes none of it.
  started_query-Keeps :
      (q q' : Query) (l : Link) (s : Attempt)
      → Keeps q l s
      → Keeps q l (record s { link = started_query pq q' s.link })
  unfolding started_query cmd_flush
  started_query-Keeps q q' l s v = ground (arith, v)

  -- A query that is accepted, with its driver.
  pub run_query-Keeps :
      (q : Query) (l : Link) → (run_query pq q l).accepted ≡ true → Keeps q l (run_query pq q l)
  unfolding run_query done_error
  run_query-Keeps q l h =
      by_outcome (if is_empty q.params then do_exec pq q l else do_exec_params pq q l)
        (chosen-Keeps (is_empty q.params) q l) h
    where
      by_outcome :
          (s : Attempt)
          → Keeps q l s
          → (if s.accepted
              then record s { link = started_query pq s.query s.link }
              else done_error pq s.query s.link).accepted
            ≡ true
          → Keeps q l (
              if s.accepted
              then record s { link = started_query pq s.query s.link }
              else done_error pq s.query s.link)
      by_outcome s v h = elim (Bool-cases s.accepted) [
        | inl e ↦
            subst
              (λ b. Keeps q l (
                if b
                then record s { link = started_query pq s.query s.link }
                else done_error pq s.query s.link))
              (sym e) (started_query-Keeps q s.query l s v)
        | inr e ↦ absurd (ground (arith, e, h))
      ]

  -- What is left as it was whether the query is accepted or not.
  pub record Near (q : Query) (l : Link) (s : Attempt) : Type 0 where
    pub tag : s.query.tag ≡ q.tag
    pub result : (s.query.result ≡ q.result) ⊎ (s.query.result ≡ none)
    pub state : s.link.state ≡ l.state
    pub gone : s.link.gone ≡ l.gone

  done_error-Near :
      (q : Query) (l : Link) (s : Attempt) → Keeps q l s → Near q l (done_error pq s.query s.link)
  unfolding done_error
  done_error-Near q l s v = elim (Bool-cases (is_wanted s.link.gone s.query)) [
    | inl e ↦ rw e (record { tag = v.tag; result = inr refl; state = v.state; gone = v.gone })
    | inr e ↦ rw e (record { tag = v.tag; result = inl v.result; state = v.state; gone = v.gone })
  ]

  Near-of_Keeps : (q : Query) (l : Link) (s : Attempt) → Keeps q l s → Near q l s
  Near-of_Keeps q l s v = record {
    tag = v.tag;
    result = inl v.result;
    state = v.state;
    gone = v.gone;
  }

  pub run_query-Near : (q : Query) (l : Link) → Near q l (run_query pq q l)
  unfolding run_query
  run_query-Near q l =
      by_outcome (if is_empty q.params then do_exec pq q l else do_exec_params pq q l)
        (chosen-Keeps (is_empty q.params) q l)
    where
      by_outcome :
          (s : Attempt)
          → Keeps q l s
          → Near q l (
              if s.accepted
              then record s { link = started_query pq s.query s.link }
              else done_error pq s.query s.link)
      by_outcome s v =
          elim s.accepted
            as (λ b. Near q l (
              if b
              then record s { link = started_query pq s.query s.link }
              else done_error pq s.query s.link)) [
                | true ↦
                    Near-of_Keeps q l (record s { link = started_query pq s.query s.link })
                      (started_query-Keeps q s.query l s v)
                | false ↦ done_error-Near q l s v
              ]

  module _ (accepting : IsAccepting) where
    after_prepare-accepted :
        (k : Query → Link → Attempt) (p : Prepared) (s : Attempt)
        → ((q : Query) (l : Link) → (k q l).accepted ≡ true)
        → s.accepted ≡ true
        → (after_prepare pq k p s).accepted ≡ true
    unfolding after_prepare
    after_prepare-accepted k p s h e = ground (
      arith,
      h (record s.query { preparing = true })
          (record s.link { prepared = p.identification ∷ s.link.prepared }),
    )

    prepared-accepted :
        (p : Prepared) (args : List Variant) (q : Query) (l : Link)
        → (if is_prepared p.identification l.prepared
            then execute_prepared pq p args q l
            else after_prepare pq
                (execute_prepared pq p args)
                p
                (send pq (send_prepare q.tag p.identification p.sql) q l)).accepted
          ≡ true
    prepared-accepted p args q l = elim (Bool-cases (is_prepared p.identification l.prepared)) [
      | inl e ↦ rw e (accepting _)
      | inr e ↦ rw e (
          after_prepare-accepted (execute_prepared pq p args) p
            (send pq (send_prepare q.tag p.identification p.sql) q l) (λ q' l'. accepting _)
            (accepting _))
    ]

    by_prepared-accepted :
        (o : Option Prepared) (plain : Attempt) (args : List Variant) (q : Query) (l : Link)
        → plain.accepted ≡ true
        → (elim o as (λ x. Attempt) [
          | none ↦ plain
          | some p ↦
              if is_prepared p.identification l.prepared
              then execute_prepared pq p args q l
              else after_prepare pq
                  (execute_prepared pq p args)
                  p
                  (send pq (send_prepare q.tag p.identification p.sql) q l)
        ]).accepted
          ≡ true
    by_prepared-accepted none plain args q l v = v
    by_prepared-accepted (some p) plain args q l v = prepared-accepted p args q l

    chosen-accepted :
        (b : Bool) (q : Query) (l : Link)
        → (if b then do_exec pq q l else do_exec_params pq q l).accepted ≡ true
    unfolding do_exec do_exec_params
    chosen-accepted true q l =
        by_prepared-accepted q.prepared (send pq (send_query q.tag q.query) q l) [] q l
          (accepting _)
    chosen-accepted false q l =
        by_prepared-accepted q.prepared (send pq (send_query_params q.tag q.query q.params) q l)
          q.params q l (accepting _)

    -- Where every call is accepted so is every query, and it runs.
    pub run_query-accepted :
        (q : Query) (l : Link)
        → ((run_query pq q l).accepted ≡ true) × ((run_query pq q l).link.running ≡ true)
    unfolding run_query started_query cmd_flush
    run_query-accepted q l = ground (arith, chosen-accepted (is_empty q.params) q l)
