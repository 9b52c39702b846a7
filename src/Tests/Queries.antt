-- ===== src/Tests/Queries.antt =====
-- Queries through a pool of src/apool.cpp, over a connection that answers with numbers.
use asql.Base.{ℕ, ◌≡◌, refl, true, false, [], ◌∷◌, none}
use asql.Delivery.{value, unexpected, waiting, done, Many}
use asql.Pool.Queries.{Connection, deliver_all, relay_many-delivers, pool_exec_multi}

-- A second statement that fails.
abbrev connection : Connection ℕ ℕ
connection = record {
  exec = λ q. value (1, true);
  exec_utf8 = λ q. value (2, true);
  exec_prepared = λ q. unexpected "unknown";
  exec_args = λ q a. value (a, true);
  exec_utf8_args = λ q a. value (a, true);
  exec_prepared_args = λ q a. unexpected "unknown";
  exec_multi = λ q. value (5, false) ∷ unexpected "syntax" ∷ value (6, true) ∷ [];
  exec_multi_utf8 = λ q. value (7, true) ∷ [];
  begin = value 0;
}

abbrev stream : Many ℕ
stream = record { handle = none; results = []; status = waiting }

relay_many-delivers_example :
    let d = deliver_all (pool_exec_multi (value connection) "q") stream in
    (d.results ≡ value 5 ∷ unexpected "syntax" ∷ []) × (d.status ≡ done)
relay_many-delivers_example =
    relay_many-delivers connection (λ db. db.exec_multi "q") (5 ∷ []) (unexpected "syntax")
      (value (6, true) ∷ []) stream refl tt (λ e. cc)
