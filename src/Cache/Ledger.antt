-- ===== src/Cache/Ledger.antt =====
-- Who waits in the cache of src/acache.cpp and whom its calls answer, and a history of calls of a cache
-- with a database.
use asql.Base.{
  ℕ, ◌+◌, ◌≡◌, refl, ap, Bool, List, [], ◌∷◌, ◌++◌, String, arith, ℤ, count, occ, occ-append,
}
use asql.Cache.{
  Entry, Request, Receiver, Result, Reply, Cache, Effect, schedules, asks_pool, sends, schedule_all,
  set_database, empty_cache, exec_expiring, got_reply, clear, expire, expire_all,
}
use asql.Cache.Keys.{is_pending}

abbrev pub cbs : List Receiver → List ℕ
cbs [] = []
cbs (r ∷ rs) = r.cb ∷ cbs rs

module _ {A : Type 0} where
  -- The coroutines in the entries.
  abbrev pub waiting : List (Entry A) → List ℕ
  waiting [] = []
  waiting (e ∷ es) = cbs e.receivers ++ waiting es

  abbrev pub answers : List (Effect A) → List ℕ
  answers [] = []
  answers (schedules r x ∷ out) = r.cb ∷ answers out
  answers (asks_pool p req ∷ out) = answers out
  answers (sends db req ∷ out) = answers out

  abbrev pub sent : List (Effect A) → List (Request A)
  sent [] = []
  sent (schedules r x ∷ out) = sent out
  sent (asks_pool p req ∷ out) = sent out
  sent (sends db req ∷ out) = req ∷ sent out

  pub occ-waiting :
      (c : ℕ) (es fs : List (Entry A))
      → occ c (waiting (es ++ fs)) ≡ occ c (waiting es) + occ c (waiting fs)
  unfolding occ
  occ-waiting c [] fs = omega arith
  occ-waiting c (e ∷ es) fs = ground (
    arith,
    occ-append c (cbs e.receivers) (waiting (es ++ fs)),
    occ-append c (cbs e.receivers) (waiting es),
    occ-waiting c es fs,
  )

module _ (A : Type 0) where
  pub answers-schedule_all :
      (x : Result) (rs : List Receiver) → answers (schedule_all {A = A} x rs) ≡ cbs rs
  answers-schedule_all x [] = refl
  answers-schedule_all x (r ∷ rs) = ap (◌∷◌ r.cb) (answers-schedule_all x rs)

  pub sent-schedule_all : (x : Result) (rs : List Receiver) → sent (schedule_all {A = A} x rs) ≡ []
  sent-schedule_all x [] = refl
  sent-schedule_all x (r ∷ rs) = sent-schedule_all x rs

pub occ-cbs :
    (c : ℕ) (rs : List Receiver) (r : Receiver)
    → occ c (cbs (rs ++ (r ∷ []))) ≡ occ c (cbs rs) + occ c (r.cb ∷ [])
unfolding occ
occ-cbs c [] r = omega arith
occ-cbs c (x ∷ rs) r = ground (arith, occ-cbs c rs r)

-- A cache, its requests that the database has not answered, and the coroutines that have asked and that
-- have been answered.
pub record System (A : Type 0) : Type 0 where
  pub cache : Cache A
  pub flying : List (Request A)
  pub asked : List ℕ
  pub answered : List ℕ

module _ {A : Type 0} where
  abbrev pub absorb : List (Request A) → List ℕ → List ℕ → Cache A × List (Effect A) → System A
  absorb flying asked answered (c, out) = record {
    cache = c;
    flying = sent out ++ flying;
    asked = asked;
    answered = answers out ++ answered;
  }

  abbrev pub keep : System A → List (Entry A) → System A
  keep s es = record s { cache = record s.cache { entries = es } }

module _ {A : Type 0} (same_args : A → A → Bool) where
  -- A query is asked for, or one is answered, by whatever reply; entries expire; one whose result is
  -- there is cleared; the database changes.
  pub data Step (s : System A) : System A → Type 0 where
    asks :
        (now max_age : ℤ) (q : String) (a : A) (r : Receiver)
        → Step s (
            absorb s.flying
              (r.cb ∷ s.asked)
              s.answered
              (exec_expiring same_args now max_age q a r s.cache))
    replies :
        (now : ℤ) (reply : Reply) (req : Request A) (before after : List (Request A))
        → s.flying ≡ before ++ (req ∷ after)
        → Step s (
            absorb (before ++ after) s.asked s.answered (got_reply same_args now reply req s.cache))
    expires :
        (now max_age : ℤ) (q : String) (a : A)
        → Step s (keep s (expire same_args now max_age q a s.cache.entries).1)
    expires_all : (now max_age : ℤ) → Step s (keep s (expire_all now max_age s.cache.entries).1)
    clears :
        (q : String) (a : A)
        → count (is_pending same_args q a) s.cache.entries ≡ 0
        → Step s (keep s (clear same_args q a s.cache.entries).1)
    moves : (db : ℕ) → Step s (record s { cache = set_database db s.cache })

  pub data Reach (s : System A) : System A → Type 0 where
    here : Reach s s
    next : {t u : System A} → Reach s t → Step t u → Reach s u

abbrev pub opened : {A : Type 0} → ℕ → System A
opened db = record { cache = set_database db empty_cache; flying = []; asked = []; answered = [] }
