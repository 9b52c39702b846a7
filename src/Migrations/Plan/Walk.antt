-- ===== src/Migrations/Plan/Walk.antt =====
-- One step of the walk over the queries of src/amigrations.cpp, with `nextQuery` kept shut.
use asql.Base.{
  ℕ, zero, suc, ◌≡◌, refl, ◌≢◌, false, List, [], ◌∷◌, arith, ℤ, pos, -ℤ_parts, All, ◌≤ℤ◌, ◌<ℤ◌,
}
use asql.Base.SortedMap.{find}
use asql.Migrations.Parser.{MigQuery, Migrations}
use asql.Migrations.Parser.Validity.{IsEntry, IsValid}
use asql.Migrations.Plan.{is_empty, first_above, step_down, next_query, walk}

pub is_empty-ne : {A : Type 0} (l : List A) → l ≢ [] → is_empty l ≡ false
is_empty-ne [] h = absurd (h refl)
is_empty-ne (x ∷ l) h = refl

pub walk_stop :
    (f : ℕ) (from to : ℤ) (d : Migrations)
    → (next_query from to d).query ≡ []
    → walk f from to d ≡ ([], from)
unfolding walk
walk_stop zero from to d h = refl
walk_stop (suc f) from to d h = rw h

pub walk_on :
    (f : ℕ) (from to : ℤ) (d : Migrations)
    → (next_query from to d).query ≢ []
    → walk (suc f) from to d ≡ (
      (next_query from to d).query ∷ (walk f (next_query from to d).version to d).0,
      (walk f (next_query from to d).version to d).1,
    )
unfolding walk
walk_on f from to d h = rw (is_empty-ne (next_query from to d).query h)

pub next_query_up :
    (from to : ℤ) (d : Migrations) → from <ℤ to → next_query from to d ≡ first_above from to d.ups
unfolding next_query
next_query_up from to d h = ground arith

pub next_query_down :
    (from to : ℤ) (d : Migrations) → to ≤ℤ from → next_query from to d ≡ step_down from to d.downs
unfolding next_query
next_query_down from to d h = ground arith

-- At the target there is no next query.
pub next_query_here :
    (from to : ℤ) (d : Migrations) → to ≤ℤ from → from ≤ℤ to → (next_query from to d).query ≡ []
unfolding next_query step_down
next_query_here from to d h k = ground arith

first_above-le :
    (latest from to : ℤ) (m : List (ℤ × MigQuery))
    → All (IsEntry latest) m
    → (first_above from to m).query ≢ []
    → (first_above from to m).version ≤ℤ latest
unfolding first_above
first_above-le latest from to [] a n = absurd (n refl)
first_above-le latest from to ((k, e) ∷ m) a n =
    ground (arith, a.0.known, first_above-le latest from to m a.1)

step_down-le :
    (latest from to : ℤ) (m : List (ℤ × MigQuery))
    → from ≤ℤ latest
    → (step_down from to m).query ≢ []
    → (step_down from to m).version ≤ℤ latest
unfolding step_down
step_down-le latest from to m h n = ground (arith, -ℤ_parts from (pos 1), find from m)

-- A next query leads to no version beyond the latest.
pub next_query-le :
    (from to : ℤ) (d : Migrations)
    → IsValid d
    → from ≤ℤ d.latest
    → (next_query from to d).query ≢ []
    → (next_query from to d).version ≤ℤ d.latest
unfolding next_query
next_query-le from to d v h n =
    ground (
      arith,
      first_above-le d.latest from to d.ups v.ups.1,
      step_down-le d.latest from to d.downs h,
    )
