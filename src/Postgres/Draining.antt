-- ===== src/Postgres/Draining.antt =====
-- That `nextQuery` of ADriverPg, src/adriverpg.cpp, comes to an end, and how.
use asql.Base.{
  ℕ, zero, suc, ◌<◌, ◌+◌, Bool, true, false, List, [], ◌∷◌, if◌then◌else◌, ◌≡◌, refl, sym, ap, ◌∙◌,
  arith, Bool-cases, inl, inr, ◌⊎◌, length,
}
use asql.Postgres.{Query, Libpq, Driver, is_wanted, returns}
use asql.Postgres.Sending.{run_query}
use asql.Postgres.Serving.{Client, pop, attempt, next_loop, next_query}
use asql.Postgres.Facts.{IsAccepting, IsSequential, run_query-Near, run_query-accepted}
use asql.Postgres.Invariant.{tags, status_off}

-- The queries from the first on that someone waits for.
unfoldable pub drop_unwanted : List ℕ → List Query → List Query
drop_unwanted gone [] = []
drop_unwanted gone (q ∷ qs) =
    let rest = drop_unwanted gone qs in if is_wanted gone q then q ∷ qs else rest

-- Something runs or nothing waits.
abbrev pub IsBusy : Driver → Type 0
IsBusy d = (d.queue ≡ []) ⊎ (d.link.running ≡ true)

module _ (pq : Libpq) (client : Client) (accepting : IsAccepting pq) where
  -- The query that is sent is in front, with what its sending changes of it.
  attempt_sent :
      (q : Query) (rest : List Query) (d : Driver)
      → is_wanted d.link.gone q ≡ true
      → ((attempt pq client q rest d).link.running ≡ true)
        × ((attempt pq client q rest d).queue ≡ (run_query pq q d.link).query ∷ rest)
  unfolding attempt is_wanted
  attempt_sent q rest d h = ground (arith, h, run_query-accepted pq accepting q d.link)

  attempt_dropped :
      (q : Query) (rest : List Query) (d : Driver)
      → is_wanted d.link.gone q ≡ false
      → attempt pq client q rest d ≡ pop q rest d
  unfolding attempt is_wanted
  attempt_dropped q rest d h = ground (arith, h)

  loop_done :
      (n : ℕ) (d : Driver) → d.link.running ≡ true → next_loop pq client (suc n) d ≡ returns d
  unfolding next_loop
  loop_done n d h = ground (arith, h)

  loop_empty : (n : ℕ) (d : Driver) → d.queue ≡ [] → next_loop pq client (suc n) d ≡ returns d
  unfolding next_loop
  loop_empty n d h = ground (arith, h)

  loop_round :
      (n : ℕ) (q : Query) (rest : List Query) (d : Driver)
      → d.link.running ≡ false
      → d.queue ≡ q ∷ rest
      → next_loop pq client (suc n) d ≡ next_loop pq client n (attempt pq client q rest d)
  unfolding next_loop
  loop_round n q rest d h e = ground (arith, h, e)

  -- What is left of a queue by which a loop that runs nothing goes on.
  abbrev left_of : Bool → List ℕ → List Query → List Query
  left_of running gone qs = if running then qs else drop_unwanted gone qs

  loop_returns :
      (qs : List Query) (n : ℕ) (d : Driver)
      → d.queue ≡ qs
      → length qs + 1 < n
      → (d' : Driver) × (next_loop pq client n d ≡ returns d')
        × IsBusy d'
        × (tags d'.queue ≡ tags (left_of d.link.running d.link.gone qs))
  unfolding drop_unwanted
  loop_returns qs zero d e h = absurd (omega arith)
  loop_returns [] (suc n) d e h = (d, loop_empty n d e, inl e, ap tags e ∙ none_left d.link.running)
    where
      none_left : (b : Bool) → tags [] ≡ tags (left_of b d.link.gone [])
      none_left true = refl
      none_left false = refl
  loop_returns (q ∷ rest) (suc zero) d e h = absurd (omega arith)
  loop_returns (q ∷ rest) (suc (suc n)) d e h = elim (Bool-cases d.link.running) [
    | inl r ↦ (
      d,
      loop_done (suc n) d r,
      inr r,
      ap tags e ∙ ap (λ b. tags (left_of b d.link.gone (q ∷ rest))) (sym r),
    )
    | inr r ↦ elim (Bool-cases (is_wanted d.link.gone q)) [
      | inl w ↦
          let (run, front) = attempt_sent q rest d w in
          (
            attempt pq client q rest d,
            loop_round (suc n) q rest d r e ∙ loop_done n (attempt pq client q rest d) run,
            inr run,
            ap tags front
                ∙ ap (λ t. t ∷ tags rest) (run_query-Near pq q d.link).tag
                ∙ sym (
                    ap (λ b. tags (left_of b d.link.gone (q ∷ rest))) r
                    ∙ ap (λ b. tags (if b then q ∷ rest else drop_unwanted d.link.gone rest)) w),
          )
      | inr w ↦
          let (d', f, b, t) = loop_returns rest (suc n) (pop q rest d) refl (omega arith) in
          (
            d',
            loop_round (suc n) q rest d r e
                ∙ ap (λ x. next_loop pq client (suc n) x) (attempt_dropped q rest d w)
                ∙ f,
            b,
            t
                ∙ ap (λ b. tags (left_of b d.link.gone rest)) r
                ∙ sym (
                    ap (λ b. tags (left_of b d.link.gone (q ∷ rest))) r
                    ∙ ap (λ b. tags (if b then q ∷ rest else drop_unwanted d.link.gone rest)) w),
          )
    ]
  ]

  -- Where libpq is not in pipeline mode and accepts what is sent, `nextQuery` returns with as many rounds
  -- as there are queries in the queue and two more, whoever waits for them. Then a query runs or the
  -- queue is empty, and where none ran before, what has left the queue are the queries ahead of the first
  -- that someone waits for.
  pub next_query_returns :
      (n : ℕ) (d : Driver)
      → IsSequential pq
      → length d.queue + 1 < n
      → (d' : Driver) × (next_query pq client n d ≡ returns d')
        × IsBusy d'
        × (tags d'.queue ≡ tags (left_of d.link.running d.link.gone d.queue))
  unfolding next_query
  next_query_returns n d s h = rw (status_off pq s d.link) (loop_returns d.queue n d refl h)
