-- ===== src/Sqlite/Answers.antt =====
-- That the worker of ADriverSqlite, src/ADriverSqlite.cpp, answers each call to the end.
use asql.Base.{
  ℕ, zero, suc, ◌<◌, ◌≤◌, Bool, true, false, Option, none, some, List, [], ◌∷◌, ◌++◌, ◌≡◌, refl,
  arith, inl, inr, ◌⊎◌, All, All-append, length, ◌≢◌,
}
use asql.Workers.{Ticket, Reply}
use asql.Workers.Turns.{IsAnswer}
use asql.Sqlite.{
  Result, new_result, Running, Parsed, refused, blank, statement, Fetched, rows_of, stopped,
  steps_on, fetch, with_error, run_statement, final, skip_space, put_out, in_hand, exec_loop,
  query_exec,
}

-- What SQLite promises of a text that is not empty: what follows a statement, or a comment, is shorter.
abbrev pub Shortens : (List ℕ → Parsed) → Type 0
Shortens parse =
    (c : ℕ) (cs rest : List ℕ)
    → ((parse (c ∷ cs) ≡ blank rest) ⊎ ((sql : List ℕ) × (parse (c ∷ cs) ≡ statement sql rest)))
    → length rest ≤ length cs

-- A run of a statement comes to an answer that is no row.
abbrev pub Ends : (ℕ → Running) → Type 0
Ends running = (n : ℕ) → fetch (running n).steps [] ≢ steps_on

abbrev IsEarlier : Ticket → Reply Result → Type 0
IsEarlier t r = (r.ticket ≡ t) × (r.last ≡ false)

IsAnswer-final :
    (t : Ticket) (sent : List (Reply Result)) (r : Result)
    → All (IsEarlier t) sent
    → IsAnswer t (sent ++ (final t r ∷ []))
IsAnswer-final t [] r h = (refl, refl)
IsAnswer-final t (x ∷ []) r h = (h.0.0, h.0.1, (refl, refl))
IsAnswer-final t (x ∷ y ∷ sent) r h = (h.0.0, h.0.1, IsAnswer-final t (y ∷ sent) r h.1)

length-skip_space : (cs : List ℕ) → length (skip_space cs) ≤ length cs
unfolding skip_space
length-skip_space [] = omega arith
length-skip_space (c ∷ cs) = ground (arith, length-skip_space cs)

run_statement-some :
    (s : Running) (r : Result)
    → fetch s.steps [] ≢ steps_on
    → (x : Result) × (run_statement s r ≡ some x)
unfolding run_statement
run_statement-some s r h = by_fetch (fetch s.steps []) h
  where
    by_fetch :
        (f : Fetched)
        → f ≢ steps_on
        → (x : Result) × (elim f as (λ y. Option Result) [
          | steps_on ↦ none
          | stopped e ↦ some (with_error e (record r { fields = s.columns }))
          | rows_of cells ↦
              some (record r { fields = s.columns; affected = s.changes; rows = cells })
        ]
            ≡ some x)
    by_fetch steps_on h = absurd (h refl)
    by_fetch (stopped e) h = (_, refl)
    by_fetch (rows_of cells) h = (_, refl)

module _ (parse : List ℕ → Parsed) (running : ℕ → Running) (t : Ticket) (whole : List ℕ) where
  put_out-IsEarlier :
      (emits : Bool) (sent : List (Reply Result)) (r : Result)
      → All (IsEarlier t) sent
      → All (IsEarlier t) (put_out parse running t whole emits sent r)
  put_out-IsEarlier true sent r h = All-append (IsEarlier t) sent _ h ((refl, refl), tt)
  put_out-IsEarlier false sent r h = h

  exec_loop_answers :
      (fuel n : ℕ) (sql : List ℕ) (emits : Bool) (sent : List (Reply Result)) (r : Result)
      → Shortens parse
      → Ends running
      → length sql < fuel
      → All (IsEarlier t) sent
      → (rs : List (Reply Result)) × (exec_loop parse running t whole fuel n sql emits sent r
          ≡ some rs)
        × IsAnswer t rs
  unfolding exec_loop
  exec_loop_answers zero n sql emits sent r h k f v = absurd (omega arith)
  exec_loop_answers (suc fuel) n [] emits sent r h k f v = (_, refl, IsAnswer-final t sent r v)
  exec_loop_answers (suc fuel) n (c ∷ cs) emits sent r h k f v =
      by_parsed (parse (c ∷ cs)) refl
        (λ m sql e s x l w. exec_loop_answers fuel m sql e s x h k l w)
    where
      Goal : Option (List (Reply Result)) → Type 0
      Goal o = (rs : List (Reply Result)) × (o ≡ some rs) × IsAnswer t rs

      by_parsed :
          (p : Parsed)
          → parse (c ∷ cs) ≡ p
          → ((m : ℕ) (sql : List ℕ) (e : Bool) (s : List (Reply Result)) (x : Result)
              → length sql < fuel
              → All (IsEarlier t) s
              → (rs : List (Reply Result)) × (exec_loop parse running t whole fuel m sql e s x
                  ≡ some rs)
                × IsAnswer t rs)
          → (rs : List (Reply Result)) × (elim p as (λ y. Option (List (Reply Result))) [
            | refused e ↦ some (sent ++ (final t (with_error e r) ∷ []))
            | blank rest ↦ exec_loop parse running t whole fuel n rest emits sent r
            | statement sql rest ↦
                elim (run_statement
                    (running n)
                    (record (in_hand parse running t whole emits r) { query = sql }))
                  as (λ y. Option (List (Reply Result))) [
                    | none ↦ none
                    | some x ↦ elim x.error as (λ y. Option (List (Reply Result))) [
                      | some e ↦
                          some (put_out parse running t whole emits sent r ++ (final t x ∷ []))
                      | none ↦
                          exec_loop parse running t whole fuel
                            (suc n)
                            (skip_space rest)
                            true
                            (put_out parse running t whole emits sent r)
                            x
                    ]
                  ]
          ]
              ≡ some rs)
            × IsAnswer t rs
      by_parsed (refused e) q ih = (_, refl, IsAnswer-final t sent (with_error e r) v)
      by_parsed (blank rest) q ih =
          let l = h c cs rest (inl q) in ih n rest emits sent r (omega arith) v
      by_parsed (statement sql rest) q ih =
          let l = h c cs rest (inr (sql, q)) in
          let out = put_out-IsEarlier emits sent r v in
          let (x, ran) =
            run_statement-some (running n)
              (record (in_hand parse running t whole emits r) { query = sql }) (k n) in
          rw ran
            (elim x.error
              as (λ o.
                (rs : List (Reply Result)) × (elim o as (λ y. Option (List (Reply Result))) [
                  | some e ↦ some (put_out parse running t whole emits sent r ++ (final t x ∷ []))
                  | none ↦
                      exec_loop parse running t whole fuel (suc n) (skip_space rest) true
                        (put_out parse running t whole emits sent r) x
                ]
                  ≡ some rs)
                × IsAnswer t rs) [
                  | some e ↦
                      (_, refl, IsAnswer-final t (put_out parse running t whole emits sent r) x out)
                  | none ↦
                      ih (suc n) (skip_space rest) true _ x (omega (arith, length-skip_space rest))
                        out
                ])

  -- Where SQLite gives of each text that is not empty a shorter rest, and each statement that runs comes
  -- to an end, `queryExec` of the driver ends too, with as many rounds as the text has bytes and one
  -- more, and what it puts out is an answer: results of its call of which the last only is marked as the last,
  -- whichever statement fails, and one result at least.
  pub query_exec_answers :
      (fuel : ℕ)
      → Shortens parse
      → Ends running
      → length whole < fuel
      → (rs : List (Reply Result)) × (query_exec parse running t whole fuel ≡ some rs)
        × IsAnswer t rs
  unfolding query_exec
  query_exec_answers fuel h k f =
      exec_loop_answers fuel 0 whole false [] (new_result whole []) h k f tt
