-- ===== src/Tests/Sqlite.antt =====
-- Texts of several statements for the worker of ADriverSqlite, src/ADriverSqlite.cpp.
use asql.Base.{ℕ, none, some, List, [], ◌∷◌, ◌≡◌, inl, inr, refl, pos, arith}
use asql.Workers.{Ticket, Reply}
use asql.Workers.Turns.{IsAnswer}
use asql.Sqlite.{
  integer, null, Result, new_result, row, finished, Running, Parsed, blank, statement, fetch,
  run_statement, query_exec,
}
use asql.Sqlite.Answers.{Shortens, Ends, query_exec_answers}
use asql.Sqlite.Table.{size, value, run_statement-value}

abbrev ticket : Ticket
ticket = record { tag = 1; cb = some 7; receiver = none }

-- Each byte is a statement.
abbrev by_byte : List ℕ → Parsed
by_byte [] = blank []
by_byte (c ∷ cs) = statement (c ∷ []) cs

by_byte-Shortens : Shortens by_byte
by_byte-Shortens c cs rest (inl e) = absurd (cc)
by_byte-Shortens c cs rest (inr (sql, e)) = let same : cs ≡ rest = cc in rw same (omega arith)

abbrev two_rows : Running
two_rows = record {
  columns = "a" ∷ "b" ∷ [];
  bound = [];
  steps = row (integer (pos 1) ∷ null ∷ []) ∷ row (integer (pos 2) ∷ null ∷ []) ∷ finished ∷ [];
  changes = pos 0;
}

two_rows-Ends : Ends (λ n. two_rows)
unfolding fetch
two_rows-Ends n e = cc

query_exec_answers_example :
    (rs : List (Reply Result)) × (query_exec by_byte (λ n. two_rows) ticket (b'A' ∷ b'B' ∷ []) 3
      ≡ some rs)
    × IsAnswer ticket rs
query_exec_answers_example =
    query_exec_answers by_byte (λ n. two_rows) ticket (b'A' ∷ b'B' ∷ []) 3 by_byte-Shortens
      two_rows-Ends (omega arith)

run_statement-value_example :
    (x : Result) × (run_statement two_rows (new_result [] []) ≡ some x)
    × (x.error ≡ none)
    × (value x 1 0 ≡ some (integer (pos 2)))
    × (size x ≡ 2)
run_statement-value_example =
    run_statement-value two_rows (new_result [] [])
      ((integer (pos 1) ∷ null ∷ []) ∷ (integer (pos 2) ∷ null ∷ []) ∷ []) 1 0
      (integer (pos 2) ∷ null ∷ []) refl (refl, (refl, tt)) refl (omega arith)
