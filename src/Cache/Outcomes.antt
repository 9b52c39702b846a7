-- ===== src/Cache/Outcomes.antt =====
-- What a call of the cache of src/acache.cpp comes to.
use asql.Base.{
  ℕ, pos, ◌<ℤ◌, ◌≤ℤ◌, ◌+ℤ◌, ◌-ℤ◌, ◌⊎◌, ◌↔◌, suc, ◌+◌, ◌≡◌, refl, sym, ap, ◌∙◌, subst, Bool, true,
  false, ◌||◌, not, List, [], ◌∷◌, ◌++◌, Option, none, some, String, arith, if◌then◌else◌, ℤ, count,
  length, inl, inr, Bool-cases,
}
use asql.Cache.{
  Result, database, send, Entry, Request, Receiver, Cache, Effect, schedules, has_error,
  unless_settled, exec_expiring, request_data, is_at, hit, search_or_queue, is_stale, is_expired,
  unchecked, expire_all,
}
use asql.Cache.Keys.{
  IsAbsent, place, hit_pending, hit_stale, hit_fresh, search_absent, search_place,
}

module _ {A : Type 0} (same_args : A → A → Bool) (now max_age : ℤ) (q : String) (a : A)
    (r : Receiver) where
  abbrev request : Request A
  request = record { query = q; args = a; receiver = r }

  -- A call finds no entry of its key and requests the data; or the newest entry of the key waits for its
  -- data, and the caller with it; or that entry is too old or an error, goes, and the data is requested
  -- again; or its result is scheduled and the cache stays as it is.
  data Outcome (c : Cache A) : Cache A × List (Effect A) → Type 0 where
    requests : IsAbsent same_args q a c.entries → Outcome c (request_data same_args request c)
    queues :
        (before : List (Entry A)) (e : Entry A) (rest : List (Entry A))
        → IsAbsent same_args q a before
        → is_at same_args q a e ≡ true
        → c.entries ≡ before ++ (e ∷ rest)
        → e.ready ≡ none
        → Outcome c (
          record c {
            entries = before ++ (record e { receivers = e.receivers ++ (r ∷ []) } ∷ rest);
          },
          [],
        )
    renews :
        (before : List (Entry A)) (e : Entry A) (rest : List (Entry A)) (t : ℤ)
        → IsAbsent same_args q a before
        → is_at same_args q a e ≡ true
        → c.entries ≡ before ++ (e ∷ rest)
        → e.ready ≡ some t
        → (is_stale now max_age t || has_error e.result) ≡ true
        → Outcome c (request_data same_args request (record c { entries = before ++ rest }))
    serves :
        (before : List (Entry A)) (e : Entry A) (rest : List (Entry A)) (t : ℤ)
        → IsAbsent same_args q a before
        → is_at same_args q a e ≡ true
        → c.entries ≡ before ++ (e ∷ rest)
        → e.ready ≡ some t
        → is_stale now max_age t ≡ false
        → has_error e.result ≡ false
        → Outcome c (c, schedules (unchecked r) e.result ∷ [])

  at_hit :
      List (Entry A)
      → Bool × List (Entry A) × List (Effect A)
      → Bool × List (Entry A) × List (Effect A)
  at_hit before x = (x.0, before ++ x.1, x.2)

  exec_expiring-Outcome : (c : Cache A) → Outcome c (exec_expiring same_args now max_age q a r c)
  unfolding exec_expiring
  exec_expiring-Outcome c = elim (place same_args q a c.entries) [
    | inl h ↦ subst Good (sym (search_absent same_args q a now max_age r c.entries h)) (requests h)
    | inr (before, e, rest, h, t, p) ↦
        subst Good
          (sym (
            ap (search_or_queue same_args now max_age q a r) p
            ∙ search_place same_args q a now max_age r before e rest h t))
          (by_ready before e rest h t p e.ready refl)
  ]
    where
      Good : Bool × List (Entry A) × List (Effect A) → Type 0
      Good x = Outcome c (unless_settled same_args request c x)

      Hit : List (Entry A) → Bool × List (Entry A) × List (Effect A) → Type 0
      Hit before x = Good (x.0, before ++ x.1, x.2)

      by_ready :
          (before : List (Entry A)) (e : Entry A) (rest : List (Entry A))
          → IsAbsent same_args q a before
          → is_at same_args q a e ≡ true
          → c.entries ≡ before ++ (e ∷ rest)
          → (o : Option ℤ) → e.ready ≡ o
          → Hit before (hit same_args now max_age r e rest)
      by_ready before e rest h t p none n =
          subst (Hit before) (sym (hit_pending same_args now max_age r e rest n))
            (queues before e rest h t p n)
      by_ready before e rest h t p (some x) n =
          elim (Bool-cases (is_stale now max_age x || has_error e.result)) [
            | inl b ↦
                subst (Hit before) (sym (hit_stale same_args now max_age r e rest n b))
                  (renews before e rest x h t p n b)
            | inr b ↦ subst (Hit before) (sym (hit_fresh same_args now max_age r e rest n b)) (
                subst
                  (λ l. Outcome c (record c { entries = l }, schedules (unchecked r) e.result ∷ []))
                  p (serves before e rest x h t p n (ground (arith, b)) (ground (arith, b))))
          ]

  -- The newest entry of the key has a result that is no error and was stored at most `max_age` before now,
  -- whenever it was stored for a negative age.
  abbrev pub HasFresh : List (Entry A) → Result → Type 0
  HasFresh es x =
      (before : List (Entry A)) × (e : Entry A) × (rest : List (Entry A)) × (t : ℤ) × IsAbsent
        same_args q a before
      × (is_at same_args q a e ≡ true)
      × (es ≡ before ++ (e ∷ rest))
      × (e.ready ≡ some t)
      × (e.result ≡ x)
      × (has_error x ≡ false)
      × ((max_age <ℤ pos 0) ⊎ (now ≤ℤ t +ℤ max_age))

  stale_if : (t : ℤ) → (max_age <ℤ pos 0) ⊎ (now ≤ℤ t +ℤ max_age) → is_stale now max_age t ≡ false
  unfolding ◌+ℤ◌ ◌-ℤ◌
  stale_if t h = ground (arith, h)

  in_age : (t : ℤ) → is_stale now max_age t ≡ false → (max_age <ℤ pos 0) ⊎ (now ≤ℤ t +ℤ max_age)
  unfolding ◌+ℤ◌ ◌-ℤ◌
  in_age t h = ground (arith, h)

  served :
      (c : Cache A) (db : ℕ) (x : Result) (y : Cache A × List (Effect A))
      → c.source ≡ database db
      → Outcome c y
      → y.1 ≡ schedules (unchecked r) x ∷ []
      → HasFresh c.entries x
  unfolding request_data send
  served c db x _ s (requests h) e = absurd (ground (arith, s, e))
  served c db x _ s (queues before f rest h t p n) e = absurd (cc)
  served c db x _ s (renews before f rest t' h t p n b) e = absurd (ground (arith, s, e))
  served c db x _ s (serves before f rest t' h t p n u k) e =
      (before, f, rest, t', h, t, p, n, same e, cc, in_age t' u)
    where
      same :
          ◌≡◌ {A = List (Effect A)}
            (schedules (unchecked r) f.result ∷ [])
            (schedules (unchecked r) x ∷ [])
          → f.result ≡ x
      same e = cc

  -- With a database as its source the cache answers a call of `execExpiring` with a result at once exactly
  -- where the newest entry of the query and its arguments has that result, which is no error and, where the
  -- age is not negative, was stored at most that long ago. (`exec` calls it with a negative age.)
  pub exec_expiring_serves :
      (c : Cache A) (db : ℕ) (x : Result)
      → c.source ≡ database db
      → ((exec_expiring same_args now max_age q a r c).1 ≡ schedules (unchecked r) x ∷ [])
        ↔ HasFresh c.entries x
  unfolding exec_expiring at_hit
  exec_expiring_serves c db x s = (
    λ e. served c db x (exec_expiring same_args now max_age q a r c) s (exec_expiring-Outcome c) e,
    λ (before, e, rest, t, h, at, p, n, v, k, age).
        ap
          (λ l.
            (unless_settled same_args request c (search_or_queue same_args now max_age q a r l)).1)
          p
        ∙ ap (λ y. (unless_settled same_args request c y).1)
            (search_place same_args q a now max_age r before e rest h at)
        ∙ ap (λ y. (unless_settled same_args request c (at_hit before y)).1)
            (hit_fresh same_args now max_age r e rest n
              (ground (arith, stale_if t age, ap has_error v, k)))
        ∙ ap (λ y. schedules (unchecked r) y ∷ []) v,
  )

abbrev pub keep_if : {A : Type 0} → (A → Bool) → List A → List A
keep_if p [] = []
keep_if p (x ∷ xs) = if p x then x ∷ keep_if p xs else keep_if p xs

-- `expireAll` takes out exactly the entries whose result is there and older than the age, leaves the
-- others in their order, and returns the number of those it took out.
pub expire_all-keeps :
    {A : Type 0} (now max_age : ℤ) (es : List (Entry A))
    → (expire_all now max_age es ≡ (
      count (λ e. is_expired now max_age e.ready) es,
      keep_if (λ e. not (is_expired now max_age e.ready)) es,
    ))
      × (length es ≡ (expire_all now max_age es).0 + length (expire_all now max_age es).1)
unfolding expire_all count
expire_all-keeps now max_age [] = (refl, refl)
expire_all-keeps now max_age (e ∷ es) =
    let (same, sum) = expire_all-keeps now max_age es in
    elim (Bool-cases (is_expired now max_age e.ready)) [
      | inl x ↦ rw x (ap (λ y. (suc y.0, y.1)) same, omega (arith, sum))
      | inr x ↦ rw x (ap (λ y. (y.0, e ∷ y.1)) same, omega (arith, sum))
    ]
