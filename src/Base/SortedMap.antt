-- ===== src/Base/SortedMap.antt =====
-- QMap<int, V>: an association list in ascending order of its integer keys.
use asql.Base.Tests.{if◌then◌else◌}
use asql.Base.Int.{ℤ, ◌<ℤ◌, ltb_ℤ, eqb_ℤ, eq_of_parts}
use mathlib.Core.Path.{◌≡◌, refl}
use mathlib.Core.Option.{Option, none, some}
use mathlib.Core.List.{List, [], ◌∷◌}
use native.Mathlib.Omega.{arith}
use asql.Base.Lists.{All}

module _ {V : Type 0} where
  -- QMap::constFind and contains
  abbrev pub find : ℤ → List (ℤ × V) → Option V
  find k [] = none
  find k ((j, v) ∷ m) = if eqb_ℤ j k then some v else find k m

  -- QMap::insert: a key that is there gets the new value.
  abbrev pub insert : ℤ → V → List (ℤ × V) → List (ℤ × V)
  insert k v [] = (k, v) ∷ []
  insert k v ((j, w) ∷ m) =
      if eqb_ℤ j k
      then (k, v) ∷ m
      else if ltb_ℤ k j
      then (k, v) ∷ (j, w) ∷ m
      else (j, w) ∷ insert k v m

  abbrev pub AllAbove : ℤ → List (ℤ × V) → Type 0
  AllAbove k [] = Unit
  AllAbove k ((j, v) ∷ m) = (k <ℤ j) × AllAbove k m

  abbrev pub IsSorted : List (ℤ × V) → Type 0
  IsSorted [] = Unit
  IsSorted ((j, v) ∷ m) = AllAbove j m × IsSorted m

  pub AllAbove-insert :
      (b k : ℤ) (v : V) (m : List (ℤ × V)) → b <ℤ k → AllAbove b m → AllAbove b (insert k v m)
  AllAbove-insert b k v [] h a = (h, tt)
  AllAbove-insert b k v ((j, w) ∷ m) h a = ground (arith, AllAbove-insert b k v m h a.1)

  pub AllAbove-trans : (b k : ℤ) (m : List (ℤ × V)) → b <ℤ k → AllAbove k m → AllAbove b m
  AllAbove-trans b k [] h a = tt
  AllAbove-trans b k ((j, w) ∷ m) h a = (omega arith, AllAbove-trans b k m h a.1)

  pub insert-IsSorted : (k : ℤ) (v : V) (m : List (ℤ × V)) → IsSorted m → IsSorted (insert k v m)
  insert-IsSorted k v [] s = (tt, tt)
  insert-IsSorted k v ((j, w) ∷ m) s = ground (
    arith,
    insert-IsSorted k v m s.1,
    AllAbove-insert j k v m,
    AllAbove-trans k j m,
    eq_of_parts j k,
  )

  pub insert-All :
      (P : ℤ × V → Type 0) (k : ℤ) (v : V) (m : List (ℤ × V))
      → P (k, v)
      → All P m
      → All P (insert k v m)
  insert-All P k v [] p a = (p, tt)
  insert-All P k v ((j, w) ∷ m) p a = ground (arith, insert-All P k v m p a.1)

  pub find-insert :
      (k q : ℤ) (v : V) (m : List (ℤ × V))
      → find q (insert k v m) ≡ (if eqb_ℤ k q then some v else find q m)
  find-insert k q v [] = refl
  find-insert k q v ((j, w) ∷ m) =
      ground (arith, eq_of_parts k q, eq_of_parts j k, eq_of_parts j q, find-insert k q v m)

  -- Below every key nothing is found.
  pub find_above : (k q : ℤ) (m : List (ℤ × V)) → AllAbove k m → q <ℤ k → find q m ≡ none
  find_above k q [] a h = refl
  find_above k q ((j, w) ∷ m) a h = ground (arith, find_above k q m a.1 h)

  pub insert-insert :
      (k : ℤ) (v w : V) (m : List (ℤ × V)) → insert k w (insert k v m) ≡ insert k w m
  insert-insert k v w [] = ground arith
  insert-insert k v w ((j, x) ∷ m) = ground (arith, insert-insert k v w m)

  pub find-insert_self : (k : ℤ) (v : V) (m : List (ℤ × V)) → find k (insert k v m) ≡ some v
  find-insert_self k v [] = ground arith
  find-insert_self k v ((j, x) ∷ m) = ground (arith, find-insert_self k v m)
