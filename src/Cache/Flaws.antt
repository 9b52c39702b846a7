-- ===== src/Cache/Flaws.antt =====
-- Races and clears of the cache of src/acache.cpp, and who is left without an answer.
use asql.Base.{ℕ, ◌≡◌, refl, Bool, true, List, [], ◌∷◌, ◌++◌, none, some, String, ℤ}
use asql.Cache.{
  Entry, Request, Receiver, invalid, rows, failed, replied, granted, Cache, schedules, empty_cache,
  set_database_pool, exec, exec_expiring, request_data, send, search_or_queue, got_database,
  got_reply, store_result, clear,
}
use asql.Cache.Keys.{IsEquality, is_key_refl, store_place}
use asql.Cache.Ledger.{answers, waiting}

module _ {A : Type 0} (same_args : A → A → Bool) (eq : IsEquality same_args) where
  -- The flaw: where a query is cleared while its request is in flight, the coroutines that had queued
  -- behind that request are in no entry any more, and its reply answers the first of them alone, with an
  -- error.
  pub clear_strands :
      (q : String) (a : A) (r : Receiver) (rs : List Receiver) (c : Cache A) (now : ℤ) (n : ℕ)
      → c.entries
        ≡ record { query = q; args = a; receivers = r ∷ rs; result = invalid; ready = none } ∷ []
      → let req : Request A = record { query = q; args = a; receiver = r } in
        let (cleared, es) = clear same_args q a c.entries in
        (cleared ≡ true)
        × (got_reply same_args now (replied (rows n)) req (record c { entries = es }) ≡ (
          record c { entries = [] },
          schedules r (failed "Queued cache request not found") ∷ [],
        ))
  unfolding clear got_reply store_result
  clear_strands q a r rs c now n e = rw (e, is_key_refl same_args eq q a) (refl, refl)

  -- The flaw: two coroutines ask for the same query while the cache waits for connections of its pool.
  -- Each gets a request and an entry of its own, both replies go to the newer entry, and when nothing is
  -- in flight any more the first coroutine still waits in the older one.
  pub pool_race :
      (name q : String) (a : A) (r1 r2 : Receiver) (now t1 t2 : ℤ) (db1 db2 n1 n2 : ℕ)
      → let req : Receiver → Request A = λ r. record { query = q; args = a; receiver = r } in
        let (c1, o1) = exec same_args now q a r1 (set_database_pool name empty_cache) in
        let (c2, o2) = exec same_args now q a r2 c1 in
        let (c3, o3) = got_database same_args (granted db1) (req r1) c2 in
        let (c4, o4) = got_database same_args (granted db2) (req r2) c3 in
        let (c5, o5) = got_reply same_args t1 (replied (rows n1)) (req r1) c4 in
        let (c6, o6) = got_reply same_args t2 (replied (rows n2)) (req r2) c5 in
        (answers (o1 ++ o2 ++ o3 ++ o4 ++ o5 ++ o6) ≡ r2.cb ∷ [])
        × (waiting c6.entries ≡ r1.cb ∷ [])
  unfolding exec_expiring request_data send search_or_queue got_database got_reply set_database_pool
  pool_race name q a r1 r2 now t1 t2 db1 db2 n1 n2 =
      let fetched : Receiver → Entry A =
        λ r. record { query = q; args = a; receivers = r ∷ []; result = invalid; ready = none } in
      let settled : Entry A = record {
        query = q;
        args = a;
        receivers = [];
        result = rows n1;
        ready = some t1;
      } in
      let req : Receiver → Request A = λ r. record { query = q; args = a; receiver = r } in
      let same = is_key_refl same_args eq q a in
      rw
        (
          store_place same_args t1 (rows n1) (req r1) [] (fetched r2) (fetched r1 ∷ []) tt same,
          store_place same_args t2 (rows n2) (req r2) [] settled (fetched r1 ∷ []) tt same,
        )
        (refl, refl)
