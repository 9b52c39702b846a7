-- ===== src/Odbc/Worker.antt =====
-- What the worker makes of its calls: `fetchResults`, `query`, `queryPrepared`, `queryExec` and the destructor
-- of AOdbcThread, src/ADriverOdbc.cpp.
--
-- The ODBC library is a parameter: what it answers to a call may depend on all calls before. A statement on
-- a null connection is refused by the library, so that `makes` answers as it documents.
use asql.Base.{
  ℕ, zero, suc, Bool, true, false, Option, none, some, List, [], ◌∷◌, ◌++◌, ℤ, pos, negsuc, String,
  ◌⊎◌, inl, inr,
}
use asql.Workers.{Ticket, Reply}
use asql.Workers.Handles.{
  bind, execute, describe, fetch, count, reset, close_cursor, Call, frees, uses, Library, give,
  ◌>>=◌, call, frees_each,
}
use asql.Workers.Making.{Prepared, refused, ready, make_statement}
use asql.Workers.Calls.{Task, plain, direct, cached}
use asql.Workers.Cached.{Cached, lookup, drop, handles}
use asql.Odbc.{
  Value, SqlType, Bound, Failure, allocating, preparing, executing, executing_prepared, counting,
  fetching, binding, describing, interrupted, Result,
}
use asql.Odbc.Binding
use asql.Odbc.Columns.{Cell, column_value}

-- What SQLFetch gives, with the interruption that may be asked for before it.
pub data Fetching : Type 0 where
  no_data interrupts : Fetching
  fails : String → Fetching
  row : List Cell → Fetching → Fetching

pub record Server : Type 0 where
  pub makes : List Call → Option ℕ
  pub message : List Call → String
  pub prepares : List Call → List ℕ → Option String
  pub binds : List Call → ℕ → Bound → Option String
  pub executes : List Call → Option String
  pub runs_direct : List Call → List ℕ → Option String
  pub count_columns : List Call → String ⊎ ℕ
  pub describes : List Call → ℕ → String ⊎ (String × SqlType)
  pub rows : List Call → Fetching
  pub row_count : List Call → ℤ
  pub resets : List Call → Bool

abbrev pub with_error : Failure → Result → Result
with_error e r = record r { error = some e }

abbrev pub final : Ticket → Result → Reply Result
final t r = record { ticket = t; result = r; last = true }

-- The row count is kept where it is one.
abbrev pub with_count : ℤ → Result → Result
with_count (pos n) r = record r { affected = pos n }
with_count (negsuc n) r = r

unfoldable pub read_row : List SqlType → List Cell → List Value
read_row [] xs = []
read_row (k ∷ ks) [] = []
read_row (k ∷ ks) (x ∷ xs) = column_value k x ∷ read_row ks xs

-- The rows that were read, and the error that ended them.
unfoldable pub read_rows : List SqlType → Fetching → List Value → Option Failure × List Value
read_rows ks no_data rows = (none, rows)
read_rows ks interrupts rows = (some interrupted, rows)
read_rows ks (fails e) rows = (some (fetching e), rows)
read_rows ks (row xs f) rows = read_rows ks f (rows ++ read_row ks xs)

module _ (server : Server) where
  -- The parameters from a number on, up to the first that is not bound.
  unfoldable pub bind_all : ℕ → ℕ → List Value → Library (Option Failure)
  bind_all h i [] = give none
  bind_all h i (v ∷ vs) = call (uses bind h) (λ log. server.binds log i (Binding.bind v)) >>= λ e.
      elim e [ some x ↦ give (some (binding i x)) | none ↦ bind_all h (suc i) vs ]

  unfoldable pub count_it : ℕ → Result → Library Result
  count_it h r = call (uses count h) (λ log. with_count (server.row_count log) r)

  unfoldable pub fetch_rows : ℕ → List SqlType → Result → Library Result
  fetch_rows h ks r = call (uses fetch h) (λ log. read_rows ks (server.rows log) r.rows) >>= λ f.
      elim f.0 [
        | some e ↦ give (with_error e (record r { rows = f.1 }))
        | none ↦ count_it h (record r { rows = f.1 })
      ]

  -- The columns from a number on, of which so many are left, and then the rows.
  unfoldable pub describe_each : ℕ → ℕ → ℕ → List SqlType → Result → Library Result
  describe_each h i zero ks r = fetch_rows h ks r
  describe_each h i (suc n) ks r = call (uses describe h) (λ log. server.describes log i) >>= λ d.
      elim d [
        | inl e ↦ give (with_error (describing i e) r)
        | inr c ↦
            describe_each h (suc i) n (ks ++ (c.1 ∷ []))
              (record r { fields = r.fields ++ (c.0 ∷ []) })
      ]

  unfoldable pub fetch_results : ℕ → Result → Library Result
  fetch_results h r = call (uses describe h) server.count_columns >>= λ n. elim n [
    | inl e ↦ give (with_error (counting e) r)
    | inr k ↦ (elim k [ zero ↦ count_it h r | suc m ↦ describe_each h 1 (suc m) [] r ])
  ]

  unfoldable pub prepare_it : List ℕ → Library (Prepared Failure)
  unfolding make_statement
  prepare_it sql =
      make_statement server.makes (λ log. allocating (server.message log))
        (λ log. elim (server.prepares log sql) [ none ↦ none | some e ↦ some (preparing e) ])

  unfoldable pub run_it : ℕ → Result → Library Result
  run_it h r = bind_all h 1 r.args >>= λ unbound. elim unbound [
    | some e ↦ give (with_error e r)
    | none ↦ call (uses execute h) server.executes >>= λ failed. elim failed [
      | some e ↦ give (with_error (executing e) r)
      | none ↦ fetch_results h r
    ]
  ]

  unfoldable pub query : Ticket → Result → Library (Reply Result)
  query t r = prepare_it r.query >>= λ p. elim p [
    | refused e ↦ give (final t (with_error e r))
    | ready h ↦ run_it h r >>= λ x. call (frees h) (λ log. final t x)
  ]

  -- The cursor is closed whether the statement was executed or not.
  unfoldable pub run_cached : ℕ → Result → Library Result
  run_cached h r = bind_all h 1 r.args >>= λ unbound. elim unbound [
    | some e ↦ give (with_error e r)
    | none ↦ call (uses execute h) server.executes >>= λ failed. elim failed [
      | some e ↦ call (uses close_cursor h) (λ log. with_error (executing_prepared e) r)
      | none ↦ fetch_results h r >>= λ x. call (uses close_cursor h) (λ log. x)
    ]
  ]

  unfoldable pub prepare_anew : ℤ → Ticket → Result → Cached → Library (Reply Result × Cached)
  prepare_anew k t r cache = prepare_it r.query >>= λ p. elim p [
    | refused e ↦ give (final t (with_error e r), cache)
    | ready h ↦ run_cached h r >>= λ x. give (final t x, (k, h) ∷ cache)
  ]

  -- A statement that cannot be reset is freed, and another prepared.
  unfoldable pub query_prepared : ℤ → Ticket → Result → Cached → Library (Reply Result × Cached)
  query_prepared k t r cache = elim (lookup k cache) [
    | none ↦ prepare_anew k t r cache
    | some h ↦ call (uses reset h) server.resets >>= λ ok. elim ok [
      | true ↦ run_cached h r >>= λ x. give (final t x, cache)
      | false ↦ call (frees h) (λ log. true) >>= λ freed. prepare_anew k t r (drop k cache)
    ]
  ]

  -- The text is run with no preparation.
  unfoldable pub query_exec : Ticket → Result → Library (Reply Result)
  unfolding make_statement
  query_exec t r =
      make_statement server.makes (λ log. allocating (server.message log))
        (λ log. elim (server.runs_direct log r.query) [ none ↦ none | some e ↦ some (executing e) ])
      >>= λ p. elim p [
        | refused e ↦ give (final t (with_error e r))
        | ready h ↦ fetch_results h r >>= λ x. call (frees h) (λ log. final t x)
      ]

  unfoldable pub run_task : Task → Result → Cached → Library (Reply Result × Cached)
  run_task (plain t) r cache = query t r >>= λ x. give (x, cache)
  run_task (direct t) r cache = query_exec t r >>= λ x. give (x, cache)
  run_task (cached k t) r cache = query_prepared k t r cache

-- The destructor.
unfoldable pub leave : Cached → List Call → List Call
leave cache log = frees_each (handles cache) log
