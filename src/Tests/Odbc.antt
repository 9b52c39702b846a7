-- ===== src/Tests/Odbc.antt =====
-- Calls of the worker of ADriverOdbc, src/ADriverOdbc.cpp, with a library that grants them.
use asql.Base.{ℕ, false, none, some, List, [], ◌∷◌, ◌≡◌, refl, pos, negsuc, arith, inr}
use asql.Workers.{Ticket}
use asql.Workers.Handles.{holds, Owns}
use asql.Workers.Making.{next_handle, next_handle-IsNew}
use asql.Workers.Calls.{Task, direct, cached, AreAnswers, run_each}
use asql.Workers.Cached.{handles}
use asql.Odbc.{int, letters, Result, new_result, integer}
use asql.Odbc.Columns.{end, Cell, column_value}
use asql.Odbc.Binding.{bind, echoed, column_value-bind}
use asql.Odbc.Worker.{Server, row, no_data, run_task, leave}
use asql.Odbc.Statements.{run_each_answers}

abbrev text_cell : Cell
text_cell = record {
  fixed = some [];
  float = b'h' ∷ b'i' ∷ [];
  chunks = end (some 4) (b'h' ∷ b'i' ∷ 0 ∷ []);
}

column_value-bind_example :
    column_value (bind (letters (b'h' ∷ b'i' ∷ []))).kind text_cell
    ≡ echoed (letters (b'h' ∷ b'i' ∷ []))
unfolding bind
column_value-bind_example =
    column_value-bind (letters (b'h' ∷ b'i' ∷ [])) text_cell tt
      (refl, refl, (refl, omega arith, (0 ∷ [], refl)))

abbrev server : Server
server = record {
  makes = λ log. some (next_handle log);
  message = λ log. "lost";
  prepares = λ log sql. none;
  binds = λ log i b. none;
  executes = λ log. none;
  runs_direct = λ log sql. none;
  count_columns = λ log. inr 1;
  describes = λ log i. inr ("n", integer);
  rows = λ log. row (record text_cell { fixed = some (pos 5 ∷ []) } ∷ []) no_data;
  row_count = λ log. negsuc 0;
  resets = λ log. false;
}

abbrev ticket : ℕ → Ticket
ticket n = record { tag = n; cb = some 7; receiver = none }

-- The second call finds the statement of the first, which cannot be reset.
abbrev calls : List (Task × Result)
calls =
    (cached (pos 3) (ticket 1), new_result (b'Q' ∷ []) (int (pos 4) ∷ []))
    ∷ (cached (pos 3) (ticket 2), new_result (b'Q' ∷ []) (int (pos 5) ∷ []))
    ∷ (direct (ticket 3), new_result (b'R' ∷ []) [])
    ∷ []

run_each_answers_example :
    let ran = run_each (run_task server) calls [] [] in
    AreAnswers calls ran.0.0
    × Owns (holds (handles ran.0.1)) ran.1
    × Owns (λ k. false) (leave ran.0.1 ran.1)
run_each_answers_example = run_each_answers server calls next_handle-IsNew
