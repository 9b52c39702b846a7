-- ===== src/Migrations/Plan.antt =====
-- AMigrations::sqlFor and sqlListFor and AMigrationsPrivate::nextQuery of src/amigrations.cpp: which
-- queries lead from one version to another.
pub mod Walk
pub mod Up
pub mod Down
use asql.Base.{
  ℕ, zero, suc, Bool, true, false, ◌&&◌, List, [], ◌∷◌, ◌++◌, none, some, if◌then◌else◌, ℤ, pos,
  ltb_ℤ, leb_ℤ, ◌-ℤ◌,
}
use asql.Base.SortedMap.{find}
use asql.Migrations.Parser.{MigQuery, no_query, Migrations}

abbrev pub is_empty {ℓ} : {A : Type ℓ} → List A → Bool
is_empty [] = true
is_empty (x ∷ xs) = false

abbrev pub above_to : ℤ → ℤ → ℤ → Bool
above_to from to k = leb_ℤ k to && ltb_ℤ from k

-- The loop over the `up` map, which appends, and that over the `down` map, which prepends.
unfoldable pub collect_up : ℤ → ℤ → List (List ℕ) → List (ℤ × MigQuery) → List (List ℕ)
collect_up from to ret [] = ret
collect_up from to ret ((k, m) ∷ rest) =
    collect_up from to (if above_to from to k then ret ++ (m.query ∷ []) else ret) rest

unfoldable pub collect_down : ℤ → ℤ → List (List ℕ) → List (ℤ × MigQuery) → List (List ℕ)
collect_down from to ret [] = ret
collect_down from to ret ((k, m) ∷ rest) =
    collect_down from to (if ltb_ℤ to k && leb_ℤ k from then m.query ∷ ret else ret) rest

unfoldable pub sql_list_for : ℤ → ℤ → Migrations → List (List ℕ)
sql_list_for from to d =
    if ltb_ℤ from to then collect_up from to [] d.ups else collect_down from to [] d.downs

-- QStringList::join
unfoldable pub join : ℕ → List (List ℕ) → List ℕ
join sep [] = []
join sep (s ∷ []) = s
join sep (s ∷ t ∷ l) = s ++ (sep ∷ join sep (t ∷ l))

unfoldable pub sql_for : ℤ → ℤ → Migrations → List ℕ
unfolding sql_list_for collect_up collect_down join
sql_for from to d = join b'\n' (sql_list_for from to d)

-- The first entry of the `up` map in the range.
unfoldable pub first_above : ℤ → ℤ → List (ℤ × MigQuery) → MigQuery
first_above from to [] = no_query
first_above from to ((k, m) ∷ rest) =
    if above_to from to k then record m { version = k } else first_above from to rest

unfoldable pub step_down : ℤ → ℤ → List (ℤ × MigQuery) → MigQuery
step_down from to m = elim (find from m) [
  | none ↦ no_query
  | some e ↦ if ltb_ℤ to from then record e { version = from -ℤ pos 1 } else no_query
]

unfoldable pub next_query : ℤ → ℤ → Migrations → MigQuery
next_query from to d =
    if ltb_ℤ from to then first_above from to d.ups else step_down from to d.downs

-- The queries that the loop of `migrateCoroutine` runs where every one succeeds: the next query, and
-- on from the version that it leads to, until there is none.
unfoldable pub walk : ℕ → ℤ → ℤ → Migrations → List (List ℕ) × ℤ
walk zero from to d = ([], from)
walk (suc f) from to d =
    let m = next_query from to d in
    let rest = walk f m.version to d in
    if is_empty m.query then ([], from) else (m.query ∷ rest.0, rest.1)
