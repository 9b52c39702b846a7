-- ===== src/Base/Lists.antt =====
-- Lists measured by native numbers, and predicates on all entries of a list.
use Prim.Native.Nat.{ℕ, zero, suc, ◌+◌}
use mathlib.Core.Path.{◌≡◌, refl, ap}
use mathlib.Core.List.{List, [], ◌∷◌, ◌++◌, map, map-append}
use mathlib.Core.Option.{Option, none, some}
use mathlib.Core.Bool.{Bool, true, false}
use native.Mathlib.Omega.{arith}
use asql.Base.Tests.{◌==◌, if◌then◌else◌}

module _ {ℓ} {A : Type ℓ} where
  abbrev pub length : List A → ℕ
  length [] = 0
  length (x ∷ xs) = suc (length xs)

  abbrev pub get_elem? : List A → ℕ → Option A
  get_elem? [] i = none
  get_elem? (x ∷ xs) zero = some x
  get_elem? (x ∷ xs) (suc i) = get_elem? xs i

  pub length-append : (xs ys : List A) → length (xs ++ ys) ≡ length xs + length ys
  length-append [] ys = omega arith
  length-append (x ∷ xs) ys = omega (arith, length-append xs ys)

  -- A predicate on every entry computes to a tuple.
  abbrev pub All {κ} : (A → Type κ) → List A → Type κ
  All P [] = Unit
  All P (x ∷ xs) = P x × All P xs

  pub All-append {κ} : (P : A → Type κ) (xs ys : List A) → All P xs → All P ys → All P (xs ++ ys)
  All-append P [] ys hx hy = hy
  All-append P (x ∷ xs) ys hx hy = (hx.0, All-append P xs ys hx.1 hy)

  pub All-mono {κ λ'} :
      {P : A → Type κ} {Q : A → Type λ'} (f : (x : A) → P x → Q x) (xs : List A)
      → All P xs
      → All Q xs
  All-mono f [] h = tt
  All-mono f (x ∷ xs) h = (f x h.0, All-mono f xs h.1)

module _ {ℓ κ} {A : Type ℓ} {B : Type κ} where
  pub length-map : (f : A → B) (xs : List A) → length (map f xs) ≡ length xs
  length-map f [] = refl
  length-map f (x ∷ xs) = ap suc (length-map f xs)

-- How often a number stands in a list.
unfoldable pub occ : ℕ → List ℕ → ℕ
occ d [] = 0
occ d (x ∷ xs) = let rest = occ d xs in if x == d then suc rest else rest

pub occ-append : (d : ℕ) (xs ys : List ℕ) → occ d (xs ++ ys) ≡ occ d xs + occ d ys
unfolding occ
occ-append d [] ys = omega arith
occ-append d (x ∷ xs) ys = ground (arith, occ-append d xs ys)

-- How many entries of a list pass a test.
module _ {ℓ} {A : Type ℓ} (p : A → Bool) where
  unfoldable pub count : List A → ℕ
  count [] = 0
  count (x ∷ xs) = let rest = count xs in if p x then suc rest else rest

  pub count-append : (xs ys : List A) → count (xs ++ ys) ≡ count xs + count ys
  unfolding count
  count-append [] ys = omega arith
  count-append (x ∷ xs) ys = ground (arith, count-append xs ys)

  pub count_none : (xs : List A) → All (λ x. p x ≡ false) xs → count xs ≡ 0
  unfolding count
  count_none [] h = refl
  count_none (x ∷ xs) h = rw (h.0) (count_none xs h.1)

-- Calls that are over, each with whether someone waited for it: the tags of all, and of those.
abbrev pub wanted : List (ℕ × Bool) → List ℕ
wanted [] = []
wanted ((t, w) ∷ ts) = if w then t ∷ wanted ts else wanted ts

pub wanted-append : (xs ys : List (ℕ × Bool)) → wanted (xs ++ ys) ≡ wanted xs ++ wanted ys
wanted-append [] ys = refl
wanted-append ((t, true) ∷ xs) ys = ap (λ l. t ∷ l) (wanted-append xs ys)
wanted-append ((t, false) ∷ xs) ys = wanted-append xs ys

abbrev pub firsts : List (ℕ × Bool) → List ℕ
firsts xs = map (λ x. x.0) xs

pub firsts-snoc :
    (xs : List (ℕ × Bool)) (t : ℕ) (w : Bool) → firsts (xs ++ ((t, w) ∷ [])) ≡ firsts xs ++ (t ∷ [])
firsts-snoc xs t w = map-append (λ (x : ℕ × Bool). x.0) xs ((t, w) ∷ [])

pub wanted-snoc :
    (xs : List (ℕ × Bool)) (t : ℕ) (w : Bool)
    → wanted (xs ++ ((t, w) ∷ [])) ≡ wanted xs ++ (if w then t ∷ [] else [])
wanted-snoc xs t true = wanted-append xs ((t, true) ∷ [])
wanted-snoc xs t false = wanted-append xs ((t, false) ∷ [])
