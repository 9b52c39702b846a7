-- ===== src/Cache/Removal.antt =====
-- The books of a cache of src/acache.cpp with a database, when entries are cleared or expire.
use asql.Base.{
  ◌+◌, ◌≤◌, ◌≡◌, refl, sym, ap, ◌∙◌, subst, Bool, true, false, List, [], ◌∷◌, ◌++◌, Option, none,
  some, String, arith, if◌then◌else◌, ℤ, count, occ, All, inl, inr, Bool-cases,
}
use asql.Cache.{Entry, clear, expire, expire_all, is_at, is_expired}
use asql.Cache.Keys.{is_pending, place, clear_place, clear_absent, expire_place, expire_absent}
use asql.Cache.Ledger.{cbs, waiting, System, keep}
use asql.Cache.Agree.{IsSpent, entries_at}
use asql.Cache.Invariant.{Inv, drop-Inv}

module _ {A : Type 0} (same_args : A → A → Bool) where
  abbrev Kept : System A → Bool × List (Entry A) → Type 0
  Kept s x = Inv same_args (keep s x.1)

  pub expire-Inv :
      (now max_age : ℤ) (q : String) (a : A) (s : System A)
      → Inv same_args s
      → Inv same_args (keep s (expire same_args now max_age q a s.cache.entries).1)
  expire-Inv now max_age q a s v = elim (place same_args q a s.cache.entries) [
    | inl h ↦ rw (expire_absent same_args q a now max_age s.cache.entries h) v
    | inr (before, e, rest, h, t, p) ↦
        subst (Kept s)
          (sym (
            ap (expire same_args now max_age q a) p
            ∙ expire_place same_args q a now max_age before e rest h t))
          (by_ready before e rest p e.ready refl)
  ]
    where
      by_ready :
          (before : List (Entry A)) (e : Entry A) (rest : List (Entry A))
          → s.cache.entries ≡ before ++ (e ∷ rest)
          → (o : Option ℤ) → e.ready ≡ o
          → Kept s (
              if is_expired now max_age o
              then (true, before ++ rest)
              else (false, before ++ (e ∷ rest)))
      by_ready before e rest p none r = subst (λ l. Inv same_args (keep s l)) p v
      by_ready before e rest p (some t) r = elim (Bool-cases (is_expired now max_age (some t))) [
        | inl x ↦ rw x (drop-Inv same_args s before e rest r p v)
        | inr x ↦ rw x (subst (λ l. Inv same_args (keep s l)) p v)
      ]

  pub clear-Inv :
      (q : String) (a : A) (s : System A)
      → count (is_pending same_args q a) s.cache.entries ≡ 0
      → Inv same_args s
      → Inv same_args (keep s (clear same_args q a s.cache.entries).1)
  unfolding count
  clear-Inv q a s z v = elim (place same_args q a s.cache.entries) [
    | inl h ↦ rw (clear_absent same_args q a s.cache.entries h) v
    | inr (before, e, rest, h, t, p) ↦
        subst (Kept s)
          (sym (ap (clear same_args q a) p ∙ clear_place same_args q a before e rest h t))
          (by_ready before e rest t p e.ready refl)
  ]
    where
      by_ready :
          (before : List (Entry A)) (e : Entry A) (rest : List (Entry A))
          → is_at same_args q a e ≡ true
          → s.cache.entries ≡ before ++ (e ∷ rest)
          → (o : Option ℤ) → e.ready ≡ o
          → Inv same_args (keep s (before ++ rest))
      by_ready before e rest t p (some x) r = drop-Inv same_args s before e rest r p v
      by_ready before e rest t p none r = absurd (
          ground (
            arith,
            z,
            ap (count (is_pending same_args q a)) p,
            t,
            r,
            entries_at same_args before e rest (is_pending same_args q a) (e ∷ []),
          ))

  expire_all-count :
      (p : Entry A → Bool) (now max_age : ℤ) (es : List (Entry A))
      → count p (expire_all now max_age es).1 ≤ count p es
  unfolding count expire_all
  expire_all-count p now max_age [] = omega arith
  expire_all-count p now max_age (e ∷ es) = ground (arith, expire_all-count p now max_age es)

  expire_all-pending :
      (q : String) (a : A) (now max_age : ℤ) (es : List (Entry A))
      → count (is_pending same_args q a) (expire_all now max_age es).1
        ≡ count (is_pending same_args q a) es
  unfolding count expire_all
  expire_all-pending q a now max_age [] = refl
  expire_all-pending q a now max_age (e ∷ es) =
      ground (arith, expire_all-pending q a now max_age es)

  expire_all-IsSpent :
      (now max_age : ℤ) (es : List (Entry A))
      → All IsSpent es
      → All IsSpent (expire_all now max_age es).1
        × (waiting (expire_all now max_age es).1 ≡ waiting es)
  unfolding expire_all
  expire_all-IsSpent now max_age [] h = (tt, refl)
  expire_all-IsSpent now max_age (e ∷ es) h =
      let (spent, same) = expire_all-IsSpent now max_age es h.1 in
      elim (Bool-cases (is_expired now max_age e.ready)) [
        | inl x ↦ rw x (
          spent,
          same ∙ elim h.0 [
            | inl n ↦ absurd (ground (arith, x, n))
            | inr n ↦ sym (ap (λ l. cbs l ++ waiting es) n)
          ],
        )
        | inr x ↦ rw x ((h.0, spent), ap (◌++◌ (cbs e.receivers)) same)
      ]

  pub expire_all-Inv :
      (now max_age : ℤ) (s : System A)
      → Inv same_args s
      → Inv same_args (keep s (expire_all now max_age s.cache.entries).1)
  expire_all-Inv now max_age s v =
      let (spent, same) = expire_all-IsSpent now max_age s.cache.entries v.agree.spent in
      record {
        source = v.source;
        agree = record {
          single = λ q a. omega (
            arith,
            expire_all-count (is_at same_args q a) now max_age s.cache.entries,
            v.agree.single q a,
          );
          paired = λ q a. expire_all-pending q a now max_age s.cache.entries ∙ v.agree.paired q a;
          spent = spent;
        };
        balance = λ c. v.balance c ∙ ap (λ l. occ c s.answered + occ c l) (sym same);
      }
