-- ===== src/Migrations/Plan/Up.antt =====
-- The way upwards from query to query in src/amigrations.cpp, beside the list of queries.
use asql.Base.{
  ℕ, zero, suc, ◌≤◌, ◌<◌, ◌≡◌, refl, sym, ap, ◌∙◌, ◌≢◌, true, false, List, [], ◌∷◌, ◌++◌,
  append-nil, append_assoc, arith, length, if◌then◌else◌, Bool-cases, ◌⊎◌, inl, inr, ℤ, ◌≤ℤ◌, ◌<ℤ◌,
  ltb_ℤ,
}
use asql.Base.SortedMap.{AllAbove}
use asql.Migrations.Parser.{MigQuery, Migrations}
use asql.Migrations.Parser.Validity.{IsPlan, IsValid}
use asql.Migrations.Plan.{above_to, collect_up, sql_list_for, first_above, next_query, walk}
use asql.Migrations.Plan.Walk.{walk_stop, walk_on, next_query_up, next_query_here}

-- The queries of the versions above `from` up to `to`, in ascending order.
range : ℤ → ℤ → List (ℤ × MigQuery) → List (List ℕ)
range from to [] = []
range from to ((k, m) ∷ rest) =
    let r = range from to rest in if above_to from to k then m.query ∷ r else r

collect_up-range :
    (from to : ℤ) (ret : List (List ℕ)) (m : List (ℤ × MigQuery))
    → collect_up from to ret m ≡ ret ++ range from to m
unfolding collect_up range
collect_up-range from to ret [] = sym (append-nil ret)
collect_up-range from to ret ((k, e) ∷ m) = elim (Bool-cases (above_to from to k)) [
  | inl t ↦ rw (t, collect_up-range from to (ret ++ e.query ∷ []) m, append_assoc)
  | inr t ↦ rw (t, collect_up-range from to ret m)
]

-- Above `j` a lower bound below `j` takes nothing off.
range_above :
    (from to j : ℤ) (m : List (ℤ × MigQuery))
    → AllAbove j m
    → from ≤ℤ j
    → range from to m ≡ range j to m
unfolding range
range_above from to j [] a h = refl
range_above from to j ((k, e) ∷ m) a h = ground (arith, range_above from to j m a.1 h)

range_nil : (from to : ℤ) (m : List (ℤ × MigQuery)) → to ≤ℤ from → range from to m ≡ []
unfolding range
range_nil from to [] h = refl
range_nil from to ((k, e) ∷ m) h = ground (arith, range_nil from to m h)

-- What the search for the first entry says about the range.
abbrev Leads : ℤ → ℤ → List (ℤ × MigQuery) → MigQuery → Type 0
Leads from to m q =
    ((q.query ≡ []) × (range from to m ≡ []))
    ⊎ ((q.query ≢ [])
        × (from <ℤ q.version)
        × (q.version ≤ℤ to)
        × (range from to m ≡ q.query ∷ range q.version to m))

range_take :
    (from to k : ℤ) (e : MigQuery) (m : List (ℤ × MigQuery))
    → above_to from to k ≡ true
    → range from to ((k, e) ∷ m) ≡ e.query ∷ range from to m
unfolding range
range_take from to k e m t = rw t

range_skip :
    (from to k : ℤ) (e : MigQuery) (m : List (ℤ × MigQuery))
    → above_to from to k ≡ false
    → range from to ((k, e) ∷ m) ≡ range from to m
unfolding range
range_skip from to k e m t = rw t

skip_self : (to k : ℤ) → above_to k to k ≡ false
skip_self to k = ground arith

first_above-Leads :
    (latest from to : ℤ) (m : List (ℤ × MigQuery))
    → IsPlan latest m
    → Leads from to m (first_above from to m)
unfolding first_above
first_above-Leads latest from to [] p = inl (refl, unfold range in refl)
first_above-Leads latest from to ((k, e) ∷ m) p = elim (Bool-cases (above_to from to k)) [
  | inl t ↦ rw t (
      inr (
        p.1.0.filled,
        ground arith,
        ground arith,
        range_take from to k e m t
            ∙ ap (◌∷◌ e.query) (
                range_above from to k m p.0.0 (ground arith)
                ∙ sym (range_skip k to k e m (skip_self to k))),
      ))
  | inr t ↦ rw t (later (first_above-Leads latest from to m (p.0.1, p.1.1)) t)
]
  where
    later :
        Leads from to m (first_above from to m)
        → above_to from to k ≡ false
        → Leads from to ((k, e) ∷ m) (first_above from to m)
    later (inl (n, r)) t = inl (n, range_skip from to k e m t ∙ r)
    later (inr (n, a, b, r)) t = inr (
      n,
      a,
      b,
      range_skip from to k e m t
          ∙ r
          ∙ ap (◌∷◌ (first_above from to m).query)
              (sym (range_skip (first_above from to m).version to k e m (ground arith))),
    )

length-range : (from to : ℤ) (m : List (ℤ × MigQuery)) → length (range from to m) ≤ length m
unfolding range
length-range from to [] = omega arith
length-range from to ((k, e) ∷ m) = ground (arith, length-range from to m)

listed : (from to : ℤ) (d : Migrations) → from <ℤ to → sql_list_for from to d ≡ range from to d.ups
unfolding sql_list_for
listed from to d h = ground (arith, collect_up-range from to [] d.ups)

abbrev WalksUp : ℕ → ℤ → ℤ → Migrations → Type 0
WalksUp f from to d =
    ((walk f from to d).0 ≡ range from to d.ups)
    × ((next_query (walk f from to d).1 to d).query ≡ [])
    × ((walk f from to d).1 ≤ℤ to)

stays :
    (f : ℕ) (from to : ℤ) (d : Migrations)
    → from ≤ℤ to
    → range from to d.ups ≡ []
    → (next_query from to d).query ≡ []
    → WalksUp f from to d
stays f from to d h r n = rw (walk_stop f from to d n) (sym r, n, h)

goes_on :
    (f : ℕ) (from to : ℤ) (d : Migrations) (q : MigQuery)
    → next_query from to d ≡ q
    → q.query ≢ []
    → range from to d.ups ≡ q.query ∷ range q.version to d.ups
    → WalksUp f q.version to d
    → WalksUp (suc f) from to d
goes_on f from to d q e n r w =
    rw (walk_on f from to d (λ z. n (sym (ap (λ m. m.query) e) ∙ z)), e, r)
      (ap (◌∷◌ q.query) w.0, w.1, w.2)

walk-up :
    (f : ℕ) (from to : ℤ) (d : Migrations)
    → IsValid d
    → from ≤ℤ to
    → length (range from to d.ups) < f
    → WalksUp f from to d
walk-up zero from to d v h k = absurd (omega arith)
walk-up (suc f) from to d v h k = elim (Bool-cases (ltb_ℤ from to)) [
  | inr t ↦
      stays (suc f) from to d h (range_nil from to d.ups (ground arith))
        (next_query_here from to d (ground arith) h)
  | inl t ↦
      up (ground arith) (λ q b c. walk-up f q to d v b c)
        (first_above-Leads d.latest from to d.ups v.ups)
]
  where
    up :
        from <ℤ to
        → ((q : ℤ) → q ≤ℤ to → length (range q to d.ups) < f → WalksUp f q to d)
        → Leads from to d.ups (first_above from to d.ups)
        → WalksUp (suc f) from to d
    up lt rec (inl (n, r)) = stays (suc f) from to d h r (rw (next_query_up from to d lt) n)
    up lt rec (inr (n, a, b, r)) =
        goes_on f from to d (first_above from to d.ups) (next_query_up from to d lt) n r
          (rec (first_above from to d.ups).version b (omega (arith, ap length r)))

-- From a version below the target, on a plan that the parser made, the walk from query to query runs
-- exactly the queries that `sqlListFor` lists, in its order; it ends at no version beyond the target,
-- where no query is left. One more round than there are `up` queries is enough.
pub walk-sql_list_for :
    (f : ℕ) (from to : ℤ) (d : Migrations)
    → IsValid d
    → from <ℤ to
    → length d.ups < f
    → ((walk f from to d).0 ≡ sql_list_for from to d)
      × ((next_query (walk f from to d).1 to d).query ≡ [])
      × ((walk f from to d).1 ≤ℤ to)
walk-sql_list_for f from to d v h k =
    let w = walk-up f from to d v (omega arith) (omega (arith, length-range from to d.ups)) in
    (w.0 ∙ sym (listed from to d h), w.1, w.2)
