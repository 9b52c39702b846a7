-- ===== src/Migrations/Plan/Down.antt =====
-- The way downwards, one version at a time, in src/amigrations.cpp, beside the list of queries.
use asql.Base.{
  ℕ, zero, suc, ◌+◌, ◌<◌, ◌≡◌, refl, sym, ap, ◌∙◌, ◌≢◌, ◌&&◌, List, [], ◌∷◌, ◌++◌, append-nil,
  append_assoc, none, some, arith, All, if◌then◌else◌, Bool-cases, some_inj, inl, inr, ℤ, pos,
  pos_part, neg_part, ◌≤ℤ◌, ◌<ℤ◌, ltb_ℤ, leb_ℤ, eqb_ℤ, eq_of_parts, ◌-ℤ◌, -ℤ_parts, int_laws, subst,
}
use asql.Base.SortedMap.{find, AllAbove, IsSorted, find_above}
use asql.Migrations.Parser.{MigQuery, Migrations}
use asql.Migrations.Parser.Validity.{IsEntry, IsValid}
use asql.Migrations.Plan.{collect_down, sql_list_for, step_down, next_query, walk}
use asql.Migrations.Plan.Walk.{walk_stop, walk_on, next_query_down, next_query_here}

-- The queries of the versions from `from` down to the one above `to`.
descent : ℤ → ℤ → List (ℤ × MigQuery) → List (List ℕ)
descent from to [] = []
descent from to ((k, m) ∷ rest) =
    let r = descent from to rest in if ltb_ℤ to k && leb_ℤ k from then r ++ m.query ∷ [] else r

collect_down-descent :
    (from to : ℤ) (ret : List (List ℕ)) (m : List (ℤ × MigQuery))
    → collect_down from to ret m ≡ descent from to m ++ ret
unfolding collect_down descent
collect_down-descent from to ret [] = refl
collect_down-descent from to ret ((k, e) ∷ m) = elim (Bool-cases (ltb_ℤ to k && leb_ℤ k from)) [
  | inl t ↦ rw (t, collect_down-descent from to (e.query ∷ ret) m, append_assoc)
  | inr t ↦ rw (t, collect_down-descent from to ret m)
]

descent_above :
    (from to j : ℤ) (m : List (ℤ × MigQuery)) → AllAbove j m → from ≤ℤ j → descent from to m ≡ []
unfolding descent
descent_above from to j [] a h = refl
descent_above from to j ((k, e) ∷ m) a h = ground (arith, descent_above from to j m a.1 h)

descent_nil : (from to : ℤ) (m : List (ℤ × MigQuery)) → from ≤ℤ to → descent from to m ≡ []
unfolding descent
descent_nil from to [] h = refl
descent_nil from to ((k, e) ∷ m) h = ground (arith, descent_nil from to m h)

-- The entry of the version itself comes first, then those from the version below.
descent-find :
    (from to : ℤ) (m : List (ℤ × MigQuery)) (e : MigQuery)
    → IsSorted m
    → to <ℤ from
    → find from m ≡ some e
    → descent from to m ≡ e.query ∷ descent (from -ℤ pos 1) to m
unfolding descent
descent-find from to [] e s h f = cc
descent-find from to ((k, x) ∷ m) e s h f = ground (
  arith,
  descent_above from to k m s.0,
  descent_above (from -ℤ pos 1) to k m s.0,
  find_above k from m s.0,
  descent-find from to m e s.1 h,
  eq_of_parts k from,
  -ℤ_parts from (pos 1),
)

listed :
    (from to : ℤ) (d : Migrations) → to ≤ℤ from → sql_list_for from to d ≡ descent from to d.downs
unfolding sql_list_for
listed from to d h =
    ground (arith, collect_down-descent from to [] d.downs, append-nil (descent from to d.downs))

step_down_found :
    (from to : ℤ) (m : List (ℤ × MigQuery)) (e : MigQuery)
    → to <ℤ from
    → find from m ≡ some e
    → step_down from to m ≡ record e { version = from -ℤ pos 1 }
unfolding step_down
step_down_found from to m e h f = ground arith

find-All :
    (P : ℤ × MigQuery → Type 0) (k : ℤ) (m : List (ℤ × MigQuery)) (e : MigQuery)
    → All P m
    → find k m ≡ some e
    → P (k, e)
find-All P k [] e a f = absurd (cc)
find-All P k ((j, x) ∷ m) e a f = elim (Bool-cases (eqb_ℤ j k)) [
  | inl t ↦
      subst P
        (ap (λ y. (y, x)) (eq_of_parts j k (ground arith))
          ∙ ap (λ y. (k, y)) (some_inj (rw t at f)))
        a.0
  | inr t ↦ find-All P k m e a.1 (rw t at f)
]

-- Every version above `to` up to `from` has a query that leads down from it.
abbrev pub Covers : ℤ → ℤ → Migrations → Type 0
Covers from to d = (v : ℤ) → to <ℤ v → v ≤ℤ from → (e : MigQuery) × (find v d.downs ≡ some e)

abbrev WalksDown : ℕ → ℤ → ℤ → Migrations → Type 0
WalksDown f from to d = walk f from to d ≡ (descent from to d.downs, to)

goes_down :
    (f : ℕ) (from to : ℤ) (d : Migrations) (q : MigQuery)
    → next_query from to d ≡ q
    → q.query ≢ []
    → descent from to d.downs ≡ q.query ∷ descent q.version to d.downs
    → WalksDown f q.version to d
    → WalksDown (suc f) from to d
goes_down f from to d q e n r w =
    rw (walk_on f from to d (λ z. n (sym (ap (λ m. m.query) e) ∙ z)), e, r, w)

walk-down :
    (f : ℕ) (from to : ℤ) (d : Migrations)
    → IsValid d
    → to ≤ℤ from
    → Covers from to d
    → pos_part from + neg_part to < f + pos_part to + neg_part from
    → WalksDown f from to d
walk-down zero from to d v h c k = absurd (omega arith)
walk-down (suc f) from to d v h c k = elim (Bool-cases (ltb_ℤ to from)) [
  | inr t ↦
      walk_stop (suc f) from to d (next_query_here from to d h (ground arith))
      ∙ ground (arith, descent_nil from to d.downs, eq_of_parts from to)
  | inl t ↦
      let lt : to <ℤ from = ground arith in
      let (e, found) = c from lt (omega arith) in
      goes_down f from to d (record e { version = from -ℤ pos 1 })
        (next_query_down from to d h ∙ step_down_found from to d.downs e lt found)
        (find-All (IsEntry d.latest) from d.downs e v.downs.1 found).filled
        (descent-find from to d.downs e v.downs.0 lt found)
        (walk-down f (from -ℤ pos 1) to d v (omega int_laws) (λ j a b. c j a (omega int_laws))
          (omega int_laws))
]

-- From a version above the target, on a plan that the parser made in which no version between the two
-- is without a query that leads down from it, the walk runs exactly the queries that `sqlListFor`
-- lists, in its order, and ends at the target. One more round than there are versions is enough.
pub walk-sql_list_for_down :
    (f : ℕ) (from to : ℤ) (d : Migrations)
    → IsValid d
    → to ≤ℤ from
    → Covers from to d
    → pos_part from + neg_part to < f + pos_part to + neg_part from
    → walk f from to d ≡ (sql_list_for from to d, to)
walk-sql_list_for_down f from to d v h c k = rw (listed from to d h) (walk-down f from to d v h c k)

-- Where the version itself has no query that leads down, the walk runs nothing and stays, whatever
-- queries `sqlListFor` lists for the versions below.
pub walk_gap :
    (f : ℕ) (from to : ℤ) (d : Migrations)
    → to <ℤ from
    → find from d.downs ≡ none
    → walk f from to d ≡ ([], from)
unfolding step_down
walk_gap f from to d h n =
    walk_stop f from to d (rw (next_query_down from to d (omega arith), n, step_down) refl)
