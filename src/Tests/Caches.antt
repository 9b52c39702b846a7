-- ===== src/Tests/Caches.antt =====
-- Short histories of a cache of src/acache.cpp, whose arguments are numbers.
use asql.Base.{◌↔◌, ℕ, ◌≡◌, refl, ◌==◌, List, [], ◌∷◌, Option, none, some, arith, ℤ, pos, occ}
use asql.Cache.{
  schedules, unchecked, Entry, Request, Receiver, Result, invalid, rows, replied, Cache, database,
  set_database, exec_expiring, request_data, send, search_or_queue, hit, got_reply, store_result,
}
use asql.Cache.Keys.{IsEquality}
use asql.Cache.Ledger.{System, absorb, asks, replies, Reach, here, next, opened}
use asql.Cache.Invariant.{Inv}
use asql.Cache.SingleFlight.{Reach-opened, everyone_is_answered}
use asql.Cache.Outcomes.{HasFresh, exec_expiring_serves}

==-IsEquality : IsEquality ◌==◌
==-IsEquality = record {
  reflexive = λ x. ground arith;
  symmetric = λ x y. ground arith;
  congruent = λ x y z h. ground (arith, h);
}

abbrev client : ℕ → Receiver
client cb = record { cb = cb; receiver = none }

abbrev request : ℕ → ℕ → Request ℕ
request args cb = record { query = "q"; args = args; receiver = client cb }

-- Two coroutines ask the same of a database, and one reply answers both.
abbrev asked : System ℕ
asked =
    absorb [] (1 ∷ []) []
      (exec_expiring ◌==◌ (pos 0) (pos 9) "q" 5 (client 1) (opened {A = ℕ} 0).cache)

abbrev both : System ℕ
both =
    absorb asked.flying (2 ∷ 1 ∷ []) asked.answered
      (exec_expiring ◌==◌ (pos 1) (pos 9) "q" 5 (client 2) asked.cache)

abbrev told : System ℕ
told =
    absorb [] both.asked both.answered
      (got_reply ◌==◌ (pos 2) (replied (rows 3)) (request 5 1) both.cache)

history : Reach ◌==◌ (opened 0) told
unfolding exec_expiring search_or_queue hit request_data send set_database
history =
    next
      (next (next here (asks (pos 0) (pos 9) "q" 5 (client 1)))
        (asks (pos 1) (pos 9) "q" 5 (client 2)))
      (replies (pos 2) (replied (rows 3)) (request 5 1) [] [] refl)

Reach-opened_example : Inv ◌==◌ told
Reach-opened_example = Reach-opened ◌==◌ ==-IsEquality 0 history

settled : told.flying ≡ []
unfolding exec_expiring search_or_queue hit request_data send set_database got_reply store_result
settled = refl

everyone_is_answered_example : occ 2 told.answered ≡ occ 2 told.asked
everyone_is_answered_example = everyone_is_answered ◌==◌ ==-IsEquality 0 history settled 2

abbrev entry : ℕ → List Receiver → Result → Option ℤ → Entry ℕ
entry args rs x t = record { query = "q"; args = args; receivers = rs; result = x; ready = t }

abbrev filled : Cache ℕ
filled = record {
  entries =
      entry 5 [] (rows 1) (some (pos 3))
      ∷ entry 6 (client 1 ∷ client 2 ∷ []) invalid none
      ∷ entry 7 [] (rows 2) (some (pos 8))
      ∷ [];
  source = database 0;
}

exec_expiring_serves_example :
    ((exec_expiring ◌==◌ (pos 9) (pos 2) "q" 7 (client 3) filled).1
      ≡ schedules (unchecked (client 3)) (rows 2) ∷ [])
    ↔ HasFresh ◌==◌ (pos 9) (pos 2) "q" 7 (client 3) filled.entries (rows 2)
exec_expiring_serves_example =
    exec_expiring_serves ◌==◌ (pos 9) (pos 2) "q" 7 (client 3) filled 0 (rows 2) refl
