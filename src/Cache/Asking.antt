-- ===== src/Cache/Asking.antt =====
-- The books of a cache of src/acache.cpp with a database, when something is asked for.
use asql.Base.{
  ◌≡◌, refl, sym, ap, ◌∙◌, subst, Bool, true, ◌||◌, List, [], ◌∷◌, ◌++◌, Option, none, some, String,
  arith, ℤ, count, count-append, count_none, occ, occ-append, All, All-append, inl, inr, Bool-cases,
}
use asql.Cache.{
  Entry, Receiver, has_error, Effect, exec_expiring, unless_settled, request_data, send, is_at, hit,
  search_or_queue, is_stale,
}
use asql.Cache.Keys.{
  IsEquality, is_pending, IsAbsent, place, hit_pending, hit_stale, hit_fresh, search_absent,
  search_place,
}
use asql.Cache.Ledger.{cbs, waiting, occ-waiting, occ-cbs, System, absorb, keep}
use asql.Cache.Agree.{IsSpent, Agree, send-Agree, All-split}
use asql.Cache.Invariant.{Inv, drop-Inv}

module _ {A : Type 0} (same_args : A → A → Bool) where
  send-Inv :
      IsEquality same_args
      → (s : System A) (es : List (Entry A)) (q : String) (a : A) (r : Receiver)
      → count (is_at same_args q a) es ≡ 0
      → Inv same_args (keep s es)
      → Inv same_args (
          absorb s.flying (r.cb ∷ s.asked) s.answered (
            request_data same_args
              (record { query = q; args = a; receiver = r })
              (record s.cache { entries = es })))
  unfolding request_data send occ
  send-Inv eq s es q a r z v =
      let (db, e) = v.source in
      rw e (record {
        source = (db, refl);
        agree = send-Agree same_args eq _ _ es s.flying refl refl refl z v.agree;
        balance = λ c. ground (arith, v.balance c);
      })

  -- One more waits for a result that is on its way.
  queue-Inv :
      (s : System A) (before : List (Entry A)) (e : Entry A) (rest : List (Entry A)) (r : Receiver)
      → e.ready ≡ none
      → s.cache.entries ≡ before ++ (e ∷ rest)
      → Inv same_args s
      → Inv same_args (record s {
        cache = record s.cache {
          entries = before ++ (record e { receivers = e.receivers ++ (r ∷ []) } ∷ rest);
        };
        asked = r.cb ∷ s.asked;
      })
  unfolding count occ
  queue-Inv s before e rest r n p v = record {
    source = v.source;
    agree = record {
      single = λ q a. ground (
        arith,
        v.agree.single q a,
        ap (count (is_at same_args q a)) p,
        count-append (is_at same_args q a) before (e ∷ rest),
        count-append (is_at same_args q a) before (e' ∷ rest),
      );
      paired = λ q a. ground (
        arith,
        v.agree.paired q a,
        ap (count (is_pending same_args q a)) p,
        count-append (is_pending same_args q a) before (e ∷ rest),
        count-append (is_pending same_args q a) before (e' ∷ rest),
      );
      spent =
          let h = All-split same_args before e rest (subst (All IsSpent) p v.agree.spent) in
          All-append IsSpent before (e' ∷ rest) h.0 (inl n, h.2);
    };
    balance = λ c. ground (
      arith,
      v.balance c,
      ap (λ l. occ c (waiting l)) p,
      occ-waiting c before (e ∷ rest),
      occ-waiting c before (e' ∷ rest),
      occ-append c (cbs e.receivers) (waiting rest),
      occ-append c (cbs (e.receivers ++ (r ∷ []))) (waiting rest),
      occ-cbs c e.receivers r,
    );
  }
    where
      e' : Entry A
      e' = record e { receivers = e.receivers ++ (r ∷ []) }

  pub exec_expiring-Inv :
      IsEquality same_args
      → (now max_age : ℤ) (q : String) (a : A) (r : Receiver) (s : System A) → Inv same_args s
      → Inv same_args (
          absorb s.flying
            (r.cb ∷ s.asked)
            s.answered
            (exec_expiring same_args now max_age q a r s.cache))
  unfolding exec_expiring count occ
  exec_expiring-Inv eq now max_age q a r s v = elim (place same_args q a s.cache.entries) [
    | inl h ↦
        subst Good (sym (search_absent same_args q a now max_age r s.cache.entries h)) (
          send-Inv eq s s.cache.entries q a r (count_none (is_at same_args q a) s.cache.entries h)
            v)
    | inr (before, e, rest, h, t, p) ↦
        subst Good
          (sym (
            ap (search_or_queue same_args now max_age q a r) p
            ∙ search_place same_args q a now max_age r before e rest h t))
          (by_ready before e rest h t p e.ready refl)
  ]
    where
      Good : Bool × List (Entry A) × List (Effect A) → Type 0
      Good x = Inv same_args (
          absorb s.flying (r.cb ∷ s.asked) s.answered
            (unless_settled same_args (record { query = q; args = a; receiver = r }) s.cache x))

      gone :
          (before : List (Entry A)) (e : Entry A) (rest : List (Entry A))
          → is_at same_args q a e ≡ true
          → s.cache.entries ≡ before ++ (e ∷ rest)
          → count (is_at same_args q a) (before ++ rest) ≡ 0
      gone before e rest t p = ground (
        arith,
        v.agree.single q a,
        t,
        ap (count (is_at same_args q a)) p,
        count-append (is_at same_args q a) before (e ∷ rest),
        count-append (is_at same_args q a) before rest,
      )

      at_hit :
          List (Entry A)
          → Bool × List (Entry A) × List (Effect A)
          → Bool × List (Entry A) × List (Effect A)
      at_hit before x = (x.0, before ++ x.1, x.2)

      by_ready :
          (before : List (Entry A)) (e : Entry A) (rest : List (Entry A))
          → IsAbsent same_args q a before
          → is_at same_args q a e ≡ true
          → s.cache.entries ≡ before ++ (e ∷ rest)
          → (o : Option ℤ) → e.ready ≡ o
          → Good (at_hit before (hit same_args now max_age r e rest))
      by_ready before e rest h t p none n =
          subst (λ x. Good (at_hit before x)) (sym (hit_pending same_args now max_age r e rest n))
            (queue-Inv s before e rest r n p v)
      by_ready before e rest h t p (some x) n =
          elim (Bool-cases (is_stale now max_age x || has_error e.result)) [
            | inl b ↦
                subst (λ y. Good (at_hit before y))
                  (sym (hit_stale same_args now max_age r e rest n b))
                  (send-Inv eq s (before ++ rest) q a r (gone before e rest t p)
                    (drop-Inv same_args s before e rest n p v))
            | inr b ↦
                subst (λ y. Good (at_hit before y))
                  (sym (hit_fresh same_args now max_age r e rest n b))
                  (record {
                    source = v.source;
                    agree = subst (λ l. Agree same_args l s.flying) p v.agree;
                    balance = λ c. ground (arith, v.balance c, ap (λ l. occ c (waiting l)) p);
                  })
          ]
