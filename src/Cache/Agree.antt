-- ===== src/Cache/Agree.antt =====
-- How the entries of a cache of src/acache.cpp and its requests in flight agree, and how an entry may
-- be dropped, settled or added.
use asql.Base.{
  ℕ, ◌+◌, ◌≤◌, ◌≡◌, refl, sym, ap, ◌∙◌, Bool, true, List, [], ◌∷◌, ◌++◌, none, some, String, arith,
  ℤ, count, count-append, count_none, occ, All, All-append, ◌⊎◌, inl, inr, Option-cases,
}
use asql.Cache.{Entry, Request, is_at}
use asql.Cache.Keys.{
  IsEquality, is_key, is_for, is_pending, IsAbsent, place, is_key_refl, is_key_left, is_key_right,
}
use asql.Cache.Ledger.{cbs, waiting, occ-waiting}

-- An entry whose result is there has no receivers.
abbrev pub IsSpent : {A : Type 0} → Entry A → Type 0
IsSpent e = (e.ready ≡ none) ⊎ (e.receivers ≡ [])

module _ {A : Type 0} (same_args : A → A → Bool) where
  -- The entries and the requests in flight agree: a key has one entry at most, and a request in flight
  -- where the result of its entry is not there yet.
  pub record Agree (es : List (Entry A)) (flying : List (Request A)) : Type 0 where
    pub single : (q : String) (a : A) → count (is_at same_args q a) es ≤ 1
    pub paired :
        (q : String) (a : A)
        → count (is_pending same_args q a) es ≡ count (is_for same_args q a) flying
    pub spent : All IsSpent es

  count-pending_le :
      (q : String) (a : A) (es : List (Entry A))
      → count (is_pending same_args q a) es ≤ count (is_at same_args q a) es
  unfolding count
  count-pending_le q a [] = omega arith
  count-pending_le q a (e ∷ es) = ground (arith, count-pending_le q a es)

  absent_pending :
      (q : String) (a : A) (es : List (Entry A))
      → IsAbsent same_args q a es
      → count (is_pending same_args q a) es ≡ 0
  absent_pending q a es h =
      omega (arith, count-pending_le q a es, count_none (is_at same_args q a) es h)

  pub All-split :
      (before : List (Entry A)) (e : Entry A) (rest : List (Entry A))
      → All IsSpent (before ++ (e ∷ rest))
      → All IsSpent before × IsSpent e × All IsSpent rest
  All-split [] e rest h = (tt, h.0, h.1)
  All-split (b ∷ before) e rest h = let r = All-split before e rest h.1 in ((h.0, r.0), r.1, r.2)

  -- What becomes of the counts where the entry at a place is replaced by some, or by none.
  module _ (before : List (Entry A)) (e : Entry A) (rest : List (Entry A)) where
    pub entries_at :
        (p : Entry A → Bool) (mid : List (Entry A))
        → count p (before ++ (mid ++ rest)) ≡ count p before + (count p mid + count p rest)
    entries_at p mid =
        count-append p before (mid ++ rest) ∙ ap (◌+◌ (count p before)) (count-append p mid rest)

    -- Out goes an entry whose result is there.
    pub drop-Agree :
        {flying : List (Request A)} {t : ℤ}
        → e.ready ≡ some t
        → Agree (before ++ (e ∷ rest)) flying
        → Agree (before ++ rest) flying
    unfolding count
    drop-Agree {flying} r v = record {
      single = λ q a. ground (
        arith,
        v.single q a,
        entries_at (is_at same_args q a) (e ∷ []),
        entries_at (is_at same_args q a) [],
      );
      paired = λ q a. ground (
        arith,
        v.paired q a,
        entries_at (is_pending same_args q a) (e ∷ []),
        entries_at (is_pending same_args q a) [],
      );
      spent = let h = All-split before e rest v.spent in All-append IsSpent before rest h.0 h.2;
    }

    pub drop-waiting :
        {t : ℤ} (c : ℕ)
        → e.ready ≡ some t
        → IsSpent e
        → occ c (waiting (before ++ rest)) ≡ occ c (waiting (before ++ (e ∷ rest)))
    drop-waiting c r (inl p) = absurd (cc)
    drop-waiting c r (inr p) =
        occ-waiting c before rest
        ∙ sym (
            occ-waiting c before (e ∷ rest)
            ∙ ap (λ l. occ c (waiting before) + occ c (cbs l ++ waiting rest)) p)

    -- The entry of a request that is answered is replaced by one that nobody waits for, or goes.
    pub settle-Agree :
        IsEquality same_args
        → (mid : List (Entry A)) (req : Request A) (fb fa : List (Request A))
        → ((q : String) (a : A)
            → count (is_at same_args q a) mid ≤ count (is_at same_args q a) (e ∷ []))
        → ((q : String) (a : A) → count (is_pending same_args q a) mid ≡ 0)
        → All IsSpent mid
        → e.ready ≡ none
        → is_at same_args req.query req.args e ≡ true
        → Agree (before ++ (e ∷ rest)) (fb ++ (req ∷ fa))
        → Agree (before ++ (mid ++ rest)) (fb ++ fa)
    unfolding count
    settle-Agree eq mid req fb fa fewer none_pending clean r t v = record {
      single = λ q a. ground (
        arith,
        v.single q a,
        fewer q a,
        entries_at (is_at same_args q a) (e ∷ []),
        entries_at (is_at same_args q a) mid,
      );
      paired = λ q a. ground (
        arith,
        v.paired q a,
        none_pending q a,
        entries_at (is_pending same_args q a) (e ∷ []),
        entries_at (is_pending same_args q a) mid,
        count-append (is_for same_args q a) fb (req ∷ fa),
        count-append (is_for same_args q a) fb fa,
        is_key_left same_args eq e.query req.query q e.args req.args a t,
        r,
      );
      spent =
          let h = All-split before e rest v.spent in
          All-append IsSpent before (mid ++ rest) h.0 (All-append IsSpent mid rest clean h.2);
    }

  -- A request in flight has its entry, whose result is not there yet.
  pub flying_place :
      IsEquality same_args
      → (es : List (Entry A)) (req : Request A) (fb fa : List (Request A))
      → Agree es (fb ++ (req ∷ fa))
      → (before : List (Entry A)) × (e : Entry A) × (rest : List (Entry A)) × IsAbsent same_args
          req.query req.args before
        × (is_at same_args req.query req.args e ≡ true)
        × (es ≡ before ++ (e ∷ rest))
        × (e.ready ≡ none)
  unfolding count
  flying_place eq es req fb fa v = elim (place same_args req.query req.args es) [
    | inl h ↦ absurd (omega (arith, flies, absent_pending req.query req.args es h))
    | inr (before, e, rest, h, t, p) ↦ (before, e, rest, h, t, p, by_ready before e rest h t p)
  ]
    where
      flies : 1 ≤ count (is_pending same_args req.query req.args) es
      flies = ground (
        arith,
        v.paired req.query req.args,
        count-append (is_for same_args req.query req.args) fb (req ∷ fa),
        is_key_refl same_args eq req.query req.args,
      )

      by_ready :
          (before : List (Entry A)) (e : Entry A) (rest : List (Entry A))
          → IsAbsent same_args req.query req.args before
          → is_at same_args req.query req.args e ≡ true
          → es ≡ before ++ (e ∷ rest)
          → e.ready ≡ none
      by_ready before e rest h t p = elim (Option-cases e.ready) [
        | inl r ↦ r
        | inr (x, r) ↦ absurd (
            ground (
              arith,
              flies,
              v.single req.query req.args,
              p,
              r,
              t,
              entries_at before e rest (is_at same_args req.query req.args) (e ∷ []),
              entries_at before e rest (is_pending same_args req.query req.args) (e ∷ []),
              count-pending_le req.query req.args rest,
              absent_pending req.query req.args before h,
            ))
      ]

  count_same :
      (p p' : Entry A → Bool)
      → ((e : Entry A) → p e ≡ p' e)
      → (es : List (Entry A)) → count p es ≡ count p' es
  unfolding count
  count_same p p' h [] = refl
  count_same p p' h (e ∷ es) = ground (arith, h e, count_same p p' h es)

  -- A request for a key without an entry gets one.
  pub send-Agree :
      IsEquality same_args
      → (req : Request A) (e : Entry A) (es : List (Entry A)) (flying : List (Request A))
      → e.query ≡ req.query
      → e.args ≡ req.args
      → e.ready ≡ none
      → count (is_at same_args req.query req.args) es ≡ 0
      → Agree es flying
      → Agree (e ∷ es) (req ∷ flying)
  unfolding count
  send-Agree eq req e es flying sq sa r z v = record {
    single = λ q a. ground (arith, v.single q a, other q a, sq, sa);
    paired = λ q a. ground (arith, v.paired q a, r, sq, sa);
    spent = (inl r, v.spent);
  }
    where
      other :
          (q : String) (a : A)
          → is_key same_args req.query req.args q a ≡ true
          → count (is_at same_args q a) es ≡ 0
      other q a h =
          sym (
            count_same (is_at same_args req.query req.args) (is_at same_args q a)
              (λ x. is_key_right same_args eq x.query req.query q x.args req.args a h) es)
          ∙ z
