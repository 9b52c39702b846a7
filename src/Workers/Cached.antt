-- ===== src/Workers/Cached.antt =====
-- The hash of the statements that a worker keeps by the identification of their query, `m_preparedQueries`
-- of src/adrivermysql.cpp and `m_preparedStmts` of src/ADriverOdbc.cpp.
use asql.Base.{
  ℕ, Bool, true, false, Option, none, some, List, [], ◌∷◌, ◌≡◌, refl, ap, ◌∙◌, arith, if◌then◌else◌,
  ◌==◌, ==_iff, ℤ, pos, negsuc, eqb_ℤ, map, Bool-cases, inl, inr, some_inj, subst,
}
use asql.Workers.Handles.{Call, holds, Owns, with_handle, IsDistinct}

abbrev pub Cached : Type 0
Cached = List (ℤ × ℕ)

unfoldable pub lookup : ℤ → Cached → Option ℕ
lookup k [] = none
lookup k ((x, h) ∷ c) = let rest = lookup k c in if eqb_ℤ x k then some h else rest

unfoldable pub drop : ℤ → Cached → Cached
drop k [] = []
drop k ((x, h) ∷ c) = let rest = drop k c in if eqb_ℤ x k then rest else (x, h) ∷ rest

abbrev pub handles : Cached → List ℕ
handles c = map (λ (e : ℤ × ℕ). e.1) c

-- No key and no handle stands twice.
abbrev pub IsKeyed : Cached → Type 0
IsKeyed [] = Unit
IsKeyed ((k, h) ∷ c) = (lookup k c ≡ none) × IsKeyed c

abbrev pub IsCached : Cached → Type 0
IsCached c = IsKeyed c × IsDistinct (handles c)

pub drop_absent : (k : ℤ) (c : Cached) → lookup k c ≡ none → drop k c ≡ c
unfolding lookup drop
drop_absent k [] e = refl
drop_absent k ((x, h) ∷ c) e = elim (Bool-cases (eqb_ℤ x k)) [
  | inl q ↦ absurd (ground (arith, e, q))
  | inr q ↦ ground (arith, e, q, drop_absent k c)
]

pub holds-lookup : (k : ℤ) (c : Cached) (h : ℕ) → lookup k c ≡ some h → holds (handles c) h ≡ true
unfolding lookup holds
holds-lookup k [] h e = cc
holds-lookup k ((x, g) ∷ c) h e = elim (Bool-cases (eqb_ℤ x k)) [
  | inl q ↦ ground (arith, e, q)
  | inr q ↦ ground (arith, e, q, holds-lookup k c h)
]

holds-drop :
    (k : ℤ) (c : Cached) (h : ℕ)
    → holds (handles c) h ≡ false
    → holds (handles (drop k c)) h ≡ false
unfolding drop holds
holds-drop k [] h e = refl
holds-drop k ((x, g) ∷ c) h e = ground (arith, e, holds-drop k c h)

eqb_ℤ→≡ : (x k : ℤ) → eqb_ℤ x k ≡ true → x ≡ k
eqb_ℤ→≡ (pos a) (pos b) e = ap pos (ground (arith, e))
eqb_ℤ→≡ (pos a) (negsuc b) e = absurd (ground (arith, e))
eqb_ℤ→≡ (negsuc a) (pos b) e = absurd (ground (arith, e))
eqb_ℤ→≡ (negsuc a) (negsuc b) e = ap negsuc (ground (arith, e))

lookup-drop : (k j : ℤ) (c : Cached) → lookup j c ≡ none → lookup j (drop k c) ≡ none
unfolding lookup drop
lookup-drop k j [] e = refl
lookup-drop k j ((x, h) ∷ c) e = ground (arith, e, lookup-drop k j c)

pub drop-IsCached : (k : ℤ) (c : Cached) → IsCached c → IsCached (drop k c)
unfolding drop holds
drop-IsCached k [] v = v
drop-IsCached k ((x, h) ∷ c) v = by_key (eqb_ℤ x k) (drop-IsCached k c (v.0.1, v.1.1))
  where
    by_key : (b : Bool) → IsCached (drop k c) → IsCached (if b then drop k c else (x, h) ∷ drop k c)
    by_key true rest = rest
    by_key false rest = ((lookup-drop k x c v.0.0, rest.0), (holds-drop k c h v.1.0, rest.1))

-- What is dropped is the handle that was looked up, and no other.
pub drop-lookup :
    (k : ℤ) (c : Cached) (h : ℕ)
    → IsCached c
    → lookup k c ≡ some h
    → (holds (handles (drop k c)) h ≡ false)
      × ((g : ℕ) → holds (handles c) g ≡ with_handle h (holds (handles (drop k c))) g)
unfolding lookup drop holds
drop-lookup k [] h v e = cc
drop-lookup k ((x, f) ∷ c) h v e = elim (Bool-cases (eqb_ℤ x k)) [
  | inl q ↦
      let same : f ≡ h = some_inj (ground (arith, e, q)) in
      let gone : drop k c ≡ c =
        drop_absent k c (subst (λ (y : ℤ). lookup y c ≡ none) (eqb_ℤ→≡ x k q) v.0.0) in
      rw q (
        rw gone (
          subst
            (λ (y : ℕ).
              (holds (handles c) y ≡ false)
              × ((g : ℕ) → holds (f ∷ handles c) g ≡ with_handle y (holds (handles c)) g))
            same (v.1.0, λ g. ground arith)))
  | inr q ↦
      let later : lookup k c ≡ some h = ground (arith, e, q) in
      let (apart_from, alike) = drop-lookup k c h (v.0.1, v.1.1) later in
      let apart : (h == f) ≡ false = apart_lem k c h f v.1.0 later in
      rw q (
        ground (arith, apart, apart_from),
        λ g. ground (arith, alike g, apart, ==_iff g f, ==_iff g h, ==_iff h f),
      )
]
  where
    apart_lem :
        (k : ℤ) (c : Cached) (h f : ℕ)
        → holds (handles c) f ≡ false
        → lookup k c ≡ some h
        → (h == f) ≡ false
    apart_lem k c h f u e = elim (Bool-cases (h == f)) [
      | inl q ↦
          let same : h ≡ f = (==_iff h f).0 q in
          absurd (cc (holds-lookup k c h e, ap (holds (handles c)) same, u))
      | inr q ↦ q
    ]

pub lookup_self : (k : ℤ) (h : ℕ) (c : Cached) → lookup k ((k, h) ∷ c) ≡ some h
unfolding lookup
lookup_self (pos n) h c = ground arith
lookup_self (negsuc n) h c = ground arith

pub holds_more :
    (h : ℕ) (c : Cached) (log : List Call)
    → Owns (with_handle h (holds (handles c))) log
    → Owns (holds (h ∷ handles c)) log
unfolding holds
holds_more h c log o = (o.0, λ g. o.1 g ∙ ground arith)

pub lookup_dropped : (k : ℤ) (c : Cached) → lookup k (drop k c) ≡ none
unfolding lookup drop
lookup_dropped k [] = refl
lookup_dropped k ((x, h) ∷ c) = elim (Bool-cases (eqb_ℤ x k)) [
  | inl q ↦ rw q (lookup_dropped k c)
  | inr q ↦ rw q (rw q (lookup_dropped k c))
]
