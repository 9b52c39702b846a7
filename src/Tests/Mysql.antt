-- ===== src/Tests/Mysql.antt =====
-- Calls of the worker of ADriverMysql, src/adrivermysql.cpp, with a client library that grants them.
use asql.Base.{
  inr, ℕ, true, false, Option, none, some, List, [], ◌∷◌, ◌++◌, ◌≡◌, refl, pos, negsuc, arith, map,
}
use asql.Workers.{Ticket, Reply}
use asql.Workers.Handles.{holds, Owns}
use asql.Workers.Making.{next_handle, next_handle-IsNew}
use asql.Workers.Calls.{Task, plain, cached, AreAnswers}
use asql.Workers.Cached.{handles}
use asql.Mysql.{int, uint, another, blob, Column, Cell, Result, new_result}
use asql.Mysql.Binding.{bind, received, meant, received-bind}
use asql.Mysql.Columns.{left, value, read_rows, value-read_rows}
use asql.Mysql.Columns as Columns
use asql.Mysql.Connecting.{Url, Answers, open_it}
use asql.Mysql.Worker.{Server, Worker, start, perform_each, link_up, leave}
use asql.Mysql.Statements.{perform_each_answers}

received-bind_example : received (bind (int (negsuc 4))) ≡ meant (int (negsuc 4))
received-bind_example = received-bind (int (negsuc 4)) (omega arith)

abbrev columns : List Column
columns =
    record { name = "n"; kind = another; charset = 33 }
    ∷ record { name = "b"; kind = blob; charset = 63 }
    ∷ []

abbrev table : List (List (Option (List ℕ)))
table = (some (b'7' ∷ []) ∷ none ∷ []) ∷ (some (b'8' ∷ []) ∷ some (0 ∷ 1 ∷ []) ∷ []) ∷ []

abbrev cell : List ℕ → ℕ → Cell
cell bs n = record {
  is_null = false;
  is_error = false;
  length = n;
  buffer = bs ++ (9 ∷ []);
  whole = some bs;
}

abbrev cells : List (List Cell)
cells =
    (cell (b'7' ∷ []) 1 ∷ record (cell [] 0) { is_null = true } ∷ [])
    ∷ (cell (b'8' ∷ []) 1 ∷ cell (0 ∷ 1 ∷ []) 2 ∷ [])
    ∷ []

value-read_rows_example :
    value
      (record (new_result [] []) {
        fields = map (λ (x : Column). x.name) columns;
        rows = read_rows columns cells [];
      })
      (pos 1)
      (pos 1)
    ≡ Columns.meant (record { name = "b"; kind = blob; charset = 63 }) (some (0 ∷ 1 ∷ []))
value-read_rows_example =
    value-read_rows (new_result [] []) columns table cells 1 1
      (some (b'8' ∷ []) ∷ some (0 ∷ 1 ∷ []) ∷ []) (record { name = "b"; kind = blob; charset = 63 })
      (some (0 ∷ 1 ∷ []))
      (
        ((refl, refl, omega arith, refl, (9 ∷ [], refl), refl), (refl, tt)),
        (
          (
            (refl, refl, omega arith, refl, (9 ∷ [], refl), refl),
            ((refl, refl, omega arith, refl, (9 ∷ [], refl), refl), tt),
          ),
          tt,
        ),
      )
      (refl, (refl, tt)) refl refl refl (inr (λ e. omega (arith, e))) (omega arith)

abbrev server : Server
server = record {
  makes = λ log. some (next_handle log);
  prepares = λ log sql. none;
  binds = λ log ps. none;
  executes = λ log. none;
  columns = λ log. none;
  binds_result = λ log. none;
  rows = λ log. [];
  ends = λ log. none;
  affected = λ log. pos 1;
  resets = λ log. true;
  queries = λ log sql. none;
  stores = λ log. none;
  has_fields = λ log. false;
  message = λ log. "lost";
}

abbrev url : Url
url = record {
  scheme = "mysql";
  host = "db";
  user = "me";
  password = "";
  path = "/test";
  port = pos 0;
  item = λ name. "";
  lower = λ s. s;
  number = λ s. 0;
  tail = λ s. "test";
}

abbrev granted : Answers
granted = record { makes = true; connects = λ calls. none }

opened_lem : (open_it url granted).0.0 ≡ true
unfolding open_it
opened_lem = refl

abbrev ticket : ℕ → Ticket
ticket n = record { tag = n; cb = some 7; receiver = none }

abbrev calls : List (Task × Result)
calls =
    (cached (pos 3) (ticket 1), new_result (b'Q' ∷ []) (uint 4 ∷ []))
    ∷ (plain (ticket 2), new_result (b'R' ∷ []) [])
    ∷ (cached (pos 3) (ticket 3), new_result (b'Q' ∷ []) (uint 5 ∷ []))
    ∷ []

perform_each_answers_example :
    (xs : List (Reply Result)) × (v : Worker) × (perform_each server calls
        (link_up url granted start)
      ≡ some (xs, v))
    × AreAnswers calls xs
    × Owns (holds (handles v.cache)) v.log
    × Owns (λ k. false) (leave v)
perform_each_answers_example =
    perform_each_answers server url granted calls next_handle-IsNew opened_lem
