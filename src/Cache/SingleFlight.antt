-- ===== src/Cache/SingleFlight.antt =====
-- A cache of src/acache.cpp with a database, its requests and those who ask.
use asql.Base.{ℕ, ◌≡◌, refl, ap, ◌∙◌, Bool, List, [], ◌∷◌, String, arith, count, occ, All, inl, inr}
use asql.Cache.{Entry, set_database}
use asql.Cache.Keys.{IsEquality, is_for, is_pending, is_key_refl}
use asql.Cache.Ledger.{
  waiting, System, Step, asks, replies, expires, expires_all, clears, moves, Reach, here, next,
  opened,
}
use asql.Cache.Agree.{IsSpent}
use asql.Cache.Invariant.{Inv, got_reply-Inv}
use asql.Cache.Removal.{expire-Inv, expire_all-Inv, clear-Inv}
use asql.Cache.Asking.{exec_expiring-Inv}

module _ {A : Type 0} (same_args : A → A → Bool) (eq : IsEquality same_args) where
  Step-Inv : {s t : System A} → Step same_args s t → Inv same_args s → Inv same_args t
  unfolding set_database
  Step-Inv {s} (asks now max_age q a r) v = exec_expiring-Inv same_args eq now max_age q a r s v
  Step-Inv {s} (replies now reply req fb fa f) v =
      got_reply-Inv same_args eq now reply req fb fa s f v
  Step-Inv {s} (expires now max_age q a) v = expire-Inv same_args now max_age q a s v
  Step-Inv {s} (expires_all now max_age) v = expire_all-Inv same_args now max_age s v
  Step-Inv {s} (clears q a z) v = clear-Inv same_args q a s z v
  Step-Inv {s} (moves db) v = record { source = (db, refl); agree = v.agree; balance = v.balance }

  opened-Inv : (db : ℕ) → Inv same_args (opened db)
  unfolding count occ set_database
  opened-Inv db = record {
    source = (db, refl);
    agree = record { single = λ q a. omega arith; paired = λ q a. refl; spent = tt };
    balance = λ c. refl;
  }

  -- Where Qt's equality is an equivalence among the arguments that the cache is used with (which it is for
  -- values of one type at each position, none of them NaN, and not for a number beside texts), after any
  -- history of a cache with a database in which only entries with a result are cleared: a query with its arguments has at most one entry, and a request in flight exactly where the result of
  -- that entry is not there; and each coroutine is as often answered or waiting in an entry as it asked.
  pub Reach-opened : (db : ℕ) {t : System A} → Reach same_args (opened db) t → Inv same_args t
  Reach-opened db here = opened-Inv db
  Reach-opened db (next r st) = Step-Inv st (Reach-opened db r)

  nobody_waits :
      (es : List (Entry A))
      → ((q : String) (a : A) → count (is_pending same_args q a) es ≡ 0)
      → All IsSpent es
      → waiting es ≡ []
  unfolding count
  nobody_waits [] z h = refl
  nobody_waits (e ∷ es) z h =
      let rest = nobody_waits es (λ q a. ground (arith, z q a)) h.1 in
      elim h.0 [
        | inl n ↦
            absurd (ground (arith, z e.query e.args, n, is_key_refl same_args eq e.query e.args))
        | inr n ↦ rw n rest
      ]

  -- Where Qt's equality is an equivalence among the arguments that the cache is used with (which it is for
  -- values of one type at each position, none of them NaN, and not for a number beside texts), after any
  -- history of a cache with a database in which only entries with a result are cleared: once no request is in flight, every coroutine has been answered exactly as often as it asked.
  pub everyone_is_answered :
      (db : ℕ) {t : System A}
      → Reach same_args (opened db) t
      → t.flying ≡ []
      → (c : ℕ) → occ c t.answered ≡ occ c t.asked
  unfolding count occ
  everyone_is_answered db {t} r f c =
      let v = Reach-opened db r in
      let idle =
        nobody_waits t.cache.entries
          (λ q a. v.agree.paired q a ∙ ap (count (is_for same_args q a)) f) v.agree.spent in
      ground (arith, v.balance c, ap (occ c) idle)
