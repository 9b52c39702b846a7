-- ===== src/Cache/Keys.antt =====
-- Queries with their arguments as the keys of the cache of src/acache.cpp, and where an operation
-- finds the entry of a key.
use asql.Base.{
  ◌≡◌, refl, ap, ◌∙◌, Bool, true, false, ◌&&◌, ◌||◌, List, [], ◌∷◌, ◌++◌, none, some, String, arith,
  if◌then◌else◌, Bool-cases, inl, inr, ◌⊎◌, All, ℤ,
}
use text.Mathlib.Text.{◌==◌ as str_eq}
use text.Mathlib.TextEquality.{eq_iff}
use text.Mathlib.TextPositions.{eq_refl}
use asql.Cache.{
  Entry, Request, Receiver, Result, schedules, failed, schedule_all, is_at, is_expired, is_stale,
  has_error, unchecked, hit, search_or_queue, fail_request, store_result, clear, expire,
}

-- What the cache relies on of QVariantList's equality among the arguments that it is used with: that it is an
-- equivalence. It is where the values at each position are of one type and none is NaN. It is not where a
-- number is compared with texts, since Qt makes the text a number first, nor for NaN.
pub record IsEquality {A : Type 0} (same : A → A → Bool) : Type 0 where
  pub reflexive : (x : A) → same x x ≡ true
  pub symmetric : (x y : A) → same x y ≡ same y x
  pub congruent : (x y z : A) → same x y ≡ true → same x z ≡ same y z

module _ {A : Type 0} (same_args : A → A → Bool) where
  abbrev pub is_key : String → A → String → A → Bool
  is_key q a q' a' = str_eq q q' && same_args a a'

  -- A request for a key, and an entry whose result is not there yet.
  abbrev pub is_for : String → A → Request A → Bool
  is_for q a req = is_key req.query req.args q a

  abbrev pub is_pending : String → A → Entry A → Bool
  is_pending q a e = is_at same_args q a e && elim e.ready [ none ↦ true | some t ↦ false ]

  abbrev pub IsAbsent : String → A → List (Entry A) → Type 0
  IsAbsent q a es = All (λ e. is_at same_args q a e ≡ false) es

  -- An entry of the key, behind others that are not of it.
  abbrev pub Place : String → A → List (Entry A) → Type 0
  Place q a es =
      (before : List (Entry A)) × (e : Entry A) × (rest : List (Entry A)) × IsAbsent q a before
      × (is_at same_args q a e ≡ true)
      × (es ≡ before ++ (e ∷ rest))

  pub place : (q : String) (a : A) (es : List (Entry A)) → IsAbsent q a es ⊎ Place q a es
  place q a [] = inl tt
  place q a (e ∷ es) = elim (Bool-cases (is_at same_args q a e)) [
    | inl t ↦ inr ([], e, es, tt, t, refl)
    | inr f ↦ elim (place q a es) [
      | inl h ↦ inl (f, h)
      | inr (before, x, rest, h, t, p) ↦ inr (e ∷ before, x, rest, (f, h), t, ap (◌∷◌ e) p)
    ]
  ]

  -- The three ends of a hit.
  module _ (now max_age : ℤ) (r : Receiver) (e : Entry A) (rest : List (Entry A)) where
    pub hit_pending :
        e.ready ≡ none
        → hit same_args now max_age r e rest
          ≡ (true, record e { receivers = e.receivers ++ (r ∷ []) } ∷ rest, [])
    unfolding hit
    hit_pending n = ground (arith, n)

    pub hit_stale :
        {t : ℤ}
        → e.ready ≡ some t
        → (is_stale now max_age t || has_error e.result) ≡ true
        → hit same_args now max_age r e rest ≡ (false, rest, [])
    unfolding hit
    hit_stale n b = ground (arith, n, b)

    pub hit_fresh :
        {t : ℤ}
        → e.ready ≡ some t
        → (is_stale now max_age t || has_error e.result) ≡ false
        → hit same_args now max_age r e rest
          ≡ (true, e ∷ rest, schedules (unchecked r) e.result ∷ [])
    unfolding hit
    hit_fresh n b = ground (arith, n, b)

  -- Where there is no entry of the key, nothing is found and nothing changes.
  module _ (q : String) (a : A) where
    pub search_absent :
        (now max_age : ℤ) (r : Receiver) (es : List (Entry A))
        → IsAbsent q a es
        → search_or_queue same_args now max_age q a r es ≡ (false, es, [])
    unfolding search_or_queue
    search_absent now max_age r [] h = refl
    search_absent now max_age r (e ∷ es) h = rw (h.0, search_absent now max_age r es h.1) refl

    pub search_place :
        (now max_age : ℤ) (r : Receiver) (before : List (Entry A)) (e : Entry A)
        (rest : List (Entry A))
        → IsAbsent q a before
        → is_at same_args q a e ≡ true
        → search_or_queue same_args now max_age q a r (before ++ (e ∷ rest)) ≡ (
          (hit same_args now max_age r e rest).0,
          before ++ (hit same_args now max_age r e rest).1,
          (hit same_args now max_age r e rest).2,
        )
    unfolding search_or_queue
    search_place now max_age r [] e rest h t = rw t refl
    search_place now max_age r (b ∷ before) e rest h t =
        rw (h.0, search_place now max_age r before e rest h.1 t) refl

    pub fail_absent :
        (error : String) (r : Receiver) (es : List (Entry A))
        → IsAbsent q a es
        → fail_request same_args q a error r es ≡ (es, schedules r (failed error) ∷ [])
    unfolding fail_request
    fail_absent error r [] h = refl
    fail_absent error r (e ∷ es) h = rw (h.0, fail_absent error r es h.1) refl

    pub fail_place :
        (error : String) (r : Receiver) (before : List (Entry A)) (e : Entry A)
        (rest : List (Entry A))
        → IsAbsent q a before
        → is_at same_args q a e ≡ true
        → fail_request same_args q a error r (before ++ (e ∷ rest))
          ≡ (before ++ rest, schedule_all (failed error) e.receivers)
    unfolding fail_request
    fail_place error r [] e rest h t = rw t refl
    fail_place error r (b ∷ before) e rest h t =
        rw (h.0, fail_place error r before e rest h.1 t) refl

    pub clear_place :
        (before : List (Entry A)) (e : Entry A) (rest : List (Entry A))
        → IsAbsent q a before
        → is_at same_args q a e ≡ true
        → clear same_args q a (before ++ (e ∷ rest)) ≡ (true, before ++ rest)
    unfolding clear
    clear_place [] e rest h t = rw t refl
    clear_place (b ∷ before) e rest h t = rw (h.0, clear_place before e rest h.1 t) refl

    pub clear_absent :
        (es : List (Entry A)) → IsAbsent q a es → clear same_args q a es ≡ (false, es)
    unfolding clear
    clear_absent [] h = refl
    clear_absent (e ∷ es) h = rw (h.0, clear_absent es h.1) refl

    pub expire_place :
        (now max_age : ℤ) (before : List (Entry A)) (e : Entry A) (rest : List (Entry A))
        → IsAbsent q a before
        → is_at same_args q a e ≡ true
        → expire same_args now max_age q a (before ++ (e ∷ rest)) ≡ (
            if is_expired now max_age e.ready
            then (true, before ++ rest)
            else (false, before ++ (e ∷ rest)))
    unfolding expire
    expire_place now max_age [] e rest h t = rw t refl
    expire_place now max_age (b ∷ before) e rest h t =
        rw (h.0, expire_place now max_age before e rest h.1 t)
          (elim (Bool-cases (is_expired now max_age e.ready)) [
            | inl x ↦ rw x refl
            | inr x ↦ rw x refl
          ])

    pub expire_absent :
        (now max_age : ℤ) (es : List (Entry A))
        → IsAbsent q a es
        → expire same_args now max_age q a es ≡ (false, es)
    unfolding expire
    expire_absent now max_age [] h = refl
    expire_absent now max_age (e ∷ es) h = rw (h.0, expire_absent now max_age es h.1) refl

  pub store_place :
      (now : ℤ) (result : Result) (req : Request A) (before : List (Entry A)) (e : Entry A)
      (rest : List (Entry A))
      → IsAbsent req.query req.args before
      → is_at same_args req.query req.args e ≡ true
      → store_result same_args now result req (before ++ (e ∷ rest)) ≡ (
        before ++ (record e { result = result; ready = some now; receivers = [] } ∷ rest),
        schedule_all result e.receivers,
      )
  unfolding store_result
  store_place now result req [] e rest h t = rw t refl
  store_place now result req (b ∷ before) e rest h t =
      rw (h.0, store_place now result req before e rest h.1 t) refl

  module _ (eq : IsEquality same_args) where
    pub is_key_refl : (q : String) (a : A) → is_key q a q a ≡ true
    is_key_refl q a = rw (eq_refl q, eq.reflexive a) refl

    str_left : (q q' z : String) → str_eq q q' ≡ true → str_eq q z ≡ str_eq q' z
    str_left q q' z h = ap (λ x. str_eq x z) ((eq_iff q q').0 h)

    str_right : (z q q' : String) → str_eq q q' ≡ true → str_eq z q ≡ str_eq z q'
    str_right z q q' h = ap (str_eq z) ((eq_iff q q').0 h)

    args_right : (z a a' : A) → same_args a a' ≡ true → same_args z a ≡ same_args z a'
    args_right z a a' h = eq.symmetric z a ∙ eq.congruent a a' z h ∙ eq.symmetric a' z

    pub is_key_left :
        (q q' z : String) (a a' y : A) → is_key q a q' a' ≡ true → is_key q a z y ≡ is_key q' a' z y
    is_key_left q q' z a a' y h = ground (arith, str_left q q' z, eq.congruent a a' y)

    pub is_key_right :
        (z q q' : String) (y a a' : A) → is_key q a q' a' ≡ true → is_key z y q a ≡ is_key z y q' a'
    is_key_right z q q' y a a' h = ground (arith, str_right z q q', args_right y a a')
