-- ===== src/Cache/Invariant.antt =====
-- The books of a cache of src/acache.cpp with a database, under replies.
use asql.Base.{
  ℕ, ◌+◌, ◌≤◌, ◌≡◌, refl, sym, ap, ◌∙◌, subst, Bool, true, List, [], ◌∷◌, ◌++◌, none, some, String,
  arith, ℤ, count, occ, occ-append, All, inl, inr, Bool-cases,
}
use asql.Cache.{
  Entry, Request, Result, failed, unexpected, replied, has_error, error_string, Reply, schedule_all,
  database, got_reply, is_at, with_entries, fail_request, store_result,
}
use asql.Cache.Keys.{IsEquality, is_pending, IsAbsent, fail_place, store_place}
use asql.Cache.Ledger.{
  cbs, waiting, answers-schedule_all, sent-schedule_all, occ-waiting, System, absorb, keep,
}
use asql.Cache.Agree.{
  IsSpent, Agree, drop-Agree, drop-waiting, settle-Agree, flying_place, All-split,
}

module _ {A : Type 0} (same_args : A → A → Bool) where
  pub record Inv (s : System A) : Type 0 where
    pub source : (db : ℕ) × (s.cache.source ≡ database db)
    pub agree : Agree same_args s.cache.entries s.flying
    pub balance : (c : ℕ) → occ c s.asked ≡ occ c s.answered + occ c (waiting s.cache.entries)

  -- A request is answered: the receivers of its entry are, and the entry is settled.
  answer-Inv :
      IsEquality same_args
      → (s : System A) (before : List (Entry A)) (e : Entry A) (mid rest : List (Entry A))
        (req : Request A) (fb fa : List (Request A)) (x : Result)
      → ((q : String) (a : A)
          → count (is_at same_args q a) mid ≤ count (is_at same_args q a) (e ∷ []))
      → ((q : String) (a : A) → count (is_pending same_args q a) mid ≡ 0)
      → All IsSpent mid
      → waiting mid ≡ []
      → e.ready ≡ none
      → is_at same_args req.query req.args e ≡ true
      → s.cache.entries ≡ before ++ (e ∷ rest)
      → s.flying ≡ fb ++ (req ∷ fa)
      → Inv s
      → Inv (
          absorb
            (fb ++ fa)
            s.asked
            s.answered
            (record s.cache { entries = before ++ (mid ++ rest) }, schedule_all x e.receivers))
  unfolding occ
  answer-Inv eq s before e mid rest req fb fa x fewer none_pending clean dry r t p f v =
      rw (sent-schedule_all A x e.receivers, answers-schedule_all A x e.receivers)
        (record {
          source = v.source;
          agree =
              settle-Agree same_args before e rest eq mid req fb fa fewer none_pending clean r t (
                subst (λ l. Agree same_args l (fb ++ (req ∷ fa))) p
                  (subst (Agree same_args s.cache.entries) f v.agree));
          balance = λ c. ground (
            arith,
            v.balance c,
            ap (λ l. occ c (waiting l)) p,
            occ-waiting c before (e ∷ rest),
            occ-waiting c before (mid ++ rest),
            occ-waiting c mid rest,
            ap (occ c) dry,
            occ-append c (cbs e.receivers) s.answered,
            occ-append c (cbs e.receivers) (waiting rest),
          );
        })

  pub got_reply-Inv :
      IsEquality same_args
      → (now : ℤ) (reply : Reply) (req : Request A) (fb fa : List (Request A)) (s : System A)
      → s.flying ≡ fb ++ (req ∷ fa)
      → Inv s
      → Inv (absorb (fb ++ fa) s.asked s.answered (got_reply same_args now reply req s.cache))
  unfolding got_reply count
  got_reply-Inv eq now reply req fb fa s f v =
      let (before, e, rest, h, t, p, r) =
        flying_place same_args eq s.cache.entries req fb fa
          (subst (Agree same_args s.cache.entries) f v.agree) in
      by_reply before e rest h t p r reply
    where
      by_failure :
          (before : List (Entry A)) (e : Entry A) (rest : List (Entry A))
          → IsAbsent same_args req.query req.args before
          → is_at same_args req.query req.args e ≡ true
          → s.cache.entries ≡ before ++ (e ∷ rest)
          → e.ready ≡ none
          → (error : String)
          → Inv (
              absorb (fb ++ fa) s.asked s.answered (
                with_entries s.cache
                  (fail_request same_args req.query req.args error req.receiver s.cache.entries)))
      by_failure before e rest h t p r error =
          rw (p, fail_place same_args req.query req.args error req.receiver before e rest h t)
            (answer-Inv eq s before e [] rest req fb fa (failed error) (λ q a. omega arith)
              (λ q a. refl) tt refl r t p f v)

      by_store :
          (before : List (Entry A)) (e : Entry A) (rest : List (Entry A))
          → IsAbsent same_args req.query req.args before
          → is_at same_args req.query req.args e ≡ true
          → s.cache.entries ≡ before ++ (e ∷ rest)
          → e.ready ≡ none
          → (result : Result)
          → Inv (
              absorb
                (fb ++ fa)
                s.asked
                s.answered
                (with_entries s.cache (store_result same_args now result req s.cache.entries)))
      by_store before e rest h t p r result =
          rw (p, store_place same_args now result req before e rest h t)
            (answer-Inv eq s before e
              (record e { result = result; ready = some now; receivers = [] } ∷ []) rest req fb fa
              result (λ q a. ground arith) (λ q a. ground arith) (inr refl, tt) refl r t p f v)

      by_reply :
          (before : List (Entry A)) (e : Entry A) (rest : List (Entry A))
          → IsAbsent same_args req.query req.args before
          → is_at same_args req.query req.args e ≡ true
          → s.cache.entries ≡ before ++ (e ∷ rest)
          → e.ready ≡ none
          → (reply : Reply)
          → Inv (absorb (fb ++ fa) s.asked s.answered (got_reply same_args now reply req s.cache))
      by_reply before e rest h t p r (unexpected error) = by_failure before e rest h t p r error
      by_reply before e rest h t p r (replied result) = elim (Bool-cases (has_error result)) [
        | inl b ↦ rw b (by_failure before e rest h t p r (error_string result))
        | inr b ↦ rw b (by_store before e rest h t p r result)
      ]

  -- An entry whose result is there goes.
  pub drop-Inv :
      (s : System A) (before : List (Entry A)) (e : Entry A) (rest : List (Entry A)) {t : ℤ}
      → e.ready ≡ some t
      → s.cache.entries ≡ before ++ (e ∷ rest)
      → Inv s
      → Inv (keep s (before ++ rest))
  drop-Inv s before e rest r p v = record {
    source = v.source;
    agree = drop-Agree same_args before e rest r agree;
    balance = λ c.
        v.balance c
        ∙ ap (λ l. occ c s.answered + occ c (waiting l)) p
        ∙ ap (λ n. occ c s.answered + n)
            (sym (
              drop-waiting same_args before e rest c r
                (All-split same_args before e rest agree.spent).1));
  }
    where
      agree : Agree same_args (before ++ (e ∷ rest)) s.flying
      agree = subst (λ l. Agree same_args l s.flying) p v.agree
