-- ===== src/Pool/Registry.antt =====
-- The pools of a thread by their names: the public functions of src/apool.cpp over the hash
-- `m_connectionPool`, here an association list in which the order says nothing.
use asql.Base.{
  ℕ, ◌≡◌, refl, Bool, true, false, List, [], ◌∷◌, map, Option, none, some, arith, if◌then◌else◌,
  String, ℤ, pos, negsuc, Option-cases, ◌-ℤ◌, Bool-cases, inl, inr,
}
use text.Mathlib.Text.{◌==◌ as str_eq}
use text.Mathlib.TextEquality.{eq_iff}
use text.Mathlib.TextPositions.{eq_refl}
use asql.Pool.Cases.{give_back_closed}
use asql.Pool.{
  Env, disconnected, Pool, new_pool, Effect, deletes, fails_invalid, give_back, request,
  deliver_open,
}

abbrev pub Registry : Type 0
Registry = List (String × Pool)

unfoldable pub find : String → Registry → Option Pool
find k [] = none
find k ((j, p) ∷ m) = if str_eq j k then some p else find k m

-- A write through the iterator that `find` returned.
unfoldable pub update : String → Pool → Registry → Registry
update k p [] = []
update k p ((j, q) ∷ m) = if str_eq j k then (j, p) ∷ m else (j, q) ∷ update k p m

-- `contains` and `emplace`: a name that is taken keeps its pool.
unfoldable pub create : String → Registry → Registry
create k m = elim (find k m) [ none ↦ (k, new_pool) ∷ m | some p ↦ m ]

unfoldable pub remove : String → Registry → Registry
remove k [] = []
remove k ((j, p) ∷ m) = let rest = remove k m in if str_eq j k then rest else (j, p) ∷ rest

unfoldable pub pools : Registry → List String
pools m = map (λ e. e.0) m

abbrev put : String → Registry → Pool × List Effect → Registry × List Effect
put k m (p, e) = (update k p m, e)

-- A connection of a pool that is gone is deleted.
unfoldable pub push_database_back : Env → String → ℕ → Registry → Registry × List Effect
push_database_back env k d m = elim (find k m) [
  | none ↦ (m, deletes d ∷ [])
  | some p ↦ put k m (give_back env d p)
]

-- Without its pool a request is answered at once by a database that is not valid.
unfoldable pub deliver_database :
    Env → ℕ → ℕ → Option ℕ → String → Registry → Registry × List Effect
deliver_database env fresh cb receiver k m = elim (find k m) [
  | none ↦ (m, fails_invalid cb ∷ [])
  | some p ↦ put k m (request env fresh cb receiver p)
]

abbrev is_there : Option Pool → Bool
is_there none = false
is_there (some p) = true

-- The completion of an opening, which looks its pool up again.
unfoldable pub finish_open : Env → Bool → ℕ → ℕ → Bool → String → Registry → List Effect
finish_open env setup_hook cb d is_open k m =
    deliver_open env (is_there (find k m)) setup_hook cb d is_open

unfoldable pub current_connections : String → Registry → ℤ
current_connections k m = elim (find k m) [ none ↦ pos 0 | some p ↦ p.count ]

-- The setters leave the registry alone where there is no such pool.
abbrev modify : (Pool → Pool) → String → Registry → Registry
modify f k m = elim (find k m) [ none ↦ m | some p ↦ update k (f p) m ]

unfoldable pub set_max_idle_connections : ℤ → String → Registry → Registry
set_max_idle_connections n = modify λ p. record p { max_idle = n }

unfoldable pub set_max_connections : ℤ → String → Registry → Registry
set_max_connections n = modify λ p. record p { max_connections = n }

unfoldable pub set_setup_hook : Bool → String → Registry → Registry
set_setup_hook h = modify λ p. record p { setup_hook = h }

unfoldable pub set_reuse_hook : Bool → String → Registry → Registry
set_reuse_hook h = modify λ p. record p { reuse_hook = h }

abbrev or_new : Option Pool → Pool
or_new none = new_pool
or_new (some p) = p

-- `value(name)` makes a pool of default values where there is none.
unfoldable pub max_idle_connections : String → Registry → ℤ
max_idle_connections k m = (or_new (find k m)).max_idle

unfoldable pub max_connections : String → Registry → ℤ
max_connections k m = (or_new (find k m)).max_connections

find-update :
    (k j : String) (p : Pool) (m : Registry)
    → find j (update k p m)
      ≡ (if str_eq k j then elim (find j m) [ none ↦ none | some q ↦ some p ] else find j m)
unfolding find update
find-update k j p [] = ground arith
find-update k j p ((i, q) ∷ m) =
    ground (arith, eq_iff k j, eq_iff i k, eq_iff i j, find-update k j p m)

find-remove : (k : String) (m : Registry) → find k (remove k m) ≡ none
unfolding find remove
find-remove k [] = refl
find-remove k ((j, p) ∷ m) = elim (Bool-cases (str_eq j k)) [
  | inl t ↦ rw t (find-remove k m)
  | inr t ↦ rw (t, t) (find-remove k m)
]

-- A name that is taken keeps its pool, a new one gets the default pool, and no other name changes.
pub find-create :
    (k j : String) (m : Registry)
    → find j (create k m) ≡ (if str_eq k j then some (or_new (find k m)) else find j m)
unfolding create find
find-create k j m = elim (Option-cases (find k m)) [
  | inl n ↦ rw (n, create)
  | inr (p, e) ↦ rw (e, create) (ground (arith, eq_iff k j))
]

find-update_self :
    (k : String) (p : Pool) (m : Registry) {q : Pool}
    → find k m ≡ some q
    → find k (update k p m) ≡ some p
find-update_self k p m e = rw (find-update k k p m, eq_refl k, e)

recreated : (k : String) (m : Registry) → find k (create k (remove k m)) ≡ some new_pool
recreated k m = rw (find-create k k (remove k m), eq_refl k, find-remove k m)

-- The flaw: a pool that is removed and created anew under its name takes back the connections of the
-- old one, so a connection that comes back closed leaves the new pool with a count of -1.
pub recreate_miscounts :
    (env : Env) (d : ℕ) (k : String) (m : Registry)
    → env.state d ≡ disconnected
    → current_connections k (push_database_back env k d (create k (remove k m))).0 ≡ negsuc 0
unfolding current_connections push_database_back ◌-ℤ◌
recreate_miscounts env d k m e =
    rw (recreated k m, push_database_back)
      (rw (give_back_closed env d new_pool e) (
        rw
          (
            find-update_self k (record new_pool { count = negsuc 0 }) (create k (remove k m))
                (recreated k m),
            current_connections,
          )
          refl))
