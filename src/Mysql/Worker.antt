-- ===== src/Mysql/Worker.antt =====
-- What the worker makes of its calls: `prepare`, `query`, `queryPrepared`, `queryExec` and the destructor of
-- AMysqlThread, src/adrivermysql.cpp.
--
-- The client library is a parameter: what it answers to a call may depend on all calls before.
use asql.Base.{
  ℕ, Bool, true, false, Option, none, some, List, [], ◌∷◌, ◌++◌, map, ℤ, String, if◌then◌else◌,
}
use asql.Workers.{Ticket, Reply}
use asql.Workers.Handles.{
  bind, execute, describe, fetch, count, reset, Call, frees, uses, others, Library, give, ◌>>=◌,
  call, frees_each,
}
use asql.Workers.Making.{Prepared, refused, ready, make_statement}
use asql.Workers.Calls.{Task, plain, direct, cached, run_each}
use asql.Workers.Cached.{Cached, lookup, drop, handles}
use asql.Mysql.{Argument, Result, Bound, Column, Cell}
use asql.Mysql.Binding.{bind_params}
use asql.Mysql.Columns.{fill_rows, read_rows}
use asql.Mysql.Connecting.{Url, Answers, open_it}

-- `makes` is mysql_stmt_init, `rows` what mysql_stmt_fetch gives until it gives no row, and `ends` the error
-- that ends it, if any. `queries`, `stores` and `field_count` are for the text of a query.
pub record Server : Type 0 where
  pub makes : List Call → Option ℕ
  pub prepares : List Call → List ℕ → Option String
  pub binds : List Call → List Bound → Option String
  pub executes : List Call → Option String
  pub columns : List Call → Option (List Column)
  pub binds_result : List Call → Option String
  pub rows : List Call → List (List Cell)
  pub ends : List Call → Option String
  pub affected : List Call → ℤ
  pub resets : List Call → Bool
  pub queries : List Call → List ℕ → Option String
  pub stores : List Call → Option (List String × List (List (Option (List ℕ))))
  pub has_fields : List Call → Bool
  pub message : List Call → String

abbrev pub with_error : String → Result → Result
with_error e r = record r { error = some e }

abbrev pub final : Ticket → Result → Reply Result
final t r = record { ticket = t; result = r; last = true }

abbrev pub names_of : List Column → List String
names_of cs = map (λ (c : Column). c.name) cs

pub record Worker : Type 0 where
  pub linked : Bool
  pub cache : Cached
  pub log : List Call

abbrev pub start : Worker
start = record { linked = false; cache = []; log = [] }

module _ (server : Server) where
  unfoldable pub prepare_it : List ℕ → Library (Prepared String)
  unfolding make_statement
  prepare_it sql = make_statement server.makes server.message (λ log. server.prepares log sql)

  -- Nothing is bound where there is no argument.
  unfoldable pub bind_it : ℕ → List Argument → Library (Option String)
  bind_it h [] = give none
  bind_it h (a ∷ rest) = call (uses bind h) (λ log. server.binds log (bind_params (a ∷ rest)))

  unfoldable pub count_it : ℕ → Result → Library Result
  count_it h r = call (uses count h) (λ log. record r { affected = server.affected log })

  -- `mysqlFetchStmtRows`: what was read stays where an error ends it.
  unfoldable pub fetch_it : ℕ → List Column → Result → Library (Option String × Result)
  fetch_it h cs r = call (uses describe h) server.binds_result >>= λ refused. elim refused [
    | some e ↦ give (some e, r)
    | none ↦
        call (uses fetch h)
          (λ log. (server.ends log, record r { rows = read_rows cs (server.rows log) r.rows }))
  ]

  unfoldable pub collect : ℕ → Result → Library Result
  collect h r = call (uses describe h) server.columns >>= λ columns. elim columns [
    | none ↦ count_it h r
    | some cs ↦ fetch_it h cs (record r { fields = r.fields ++ names_of cs }) >>= λ f. elim f.0 [
      | some e ↦ give (with_error e f.1)
      | none ↦ count_it h f.1
    ]
  ]

  -- The part that `query` and `queryPrepared` share.
  unfoldable pub run_it : ℕ → Result → Library Result
  run_it h r = bind_it h r.args >>= λ refused. elim refused [
    | some e ↦ give (with_error e r)
    | none ↦ call (uses execute h) server.executes >>= λ failed. elim failed [
      | some e ↦ give (with_error e r)
      | none ↦ collect h r
    ]
  ]

  unfoldable pub query : Ticket → Result → Library (Reply Result)
  query t r = prepare_it r.query >>= λ p. elim p [
    | refused e ↦ give (final t (with_error e r))
    | ready h ↦ run_it h r >>= λ x. call (frees h) (λ log. final t x)
  ]

  -- The statement goes from the hash where it cannot be reset.
  unfoldable pub run_cached : ℤ → Ticket → Result → Cached → ℕ → Library (Reply Result × Cached)
  run_cached k t r cache h = run_it h r >>= λ x. call (uses reset h) server.resets >>= λ ok.
      elim ok [
        | true ↦ give (final t x, cache)
        | false ↦ call (frees h) (λ log. (final t x, drop k cache))
      ]

  unfoldable pub query_prepared : ℤ → Ticket → Result → Cached → Library (Reply Result × Cached)
  query_prepared k t r cache = elim (lookup k cache) [
    | some h ↦ run_cached k t r cache h
    | none ↦ prepare_it r.query >>= λ p. elim p [
      | refused e ↦ give (final t (with_error e r), cache)
      | ready h ↦ run_cached k t r ((k, h) ∷ cache) h
    ]
  ]

  unfoldable pub store_it : Result → Library Result
  store_it r = call others server.stores >>= λ stored. elim stored [
    | some table ↦ call others (λ log. record r {
      fields = r.fields ++ table.0;
      rows = fill_rows table.1 r.rows;
      affected = server.affected log;
    })
    | none ↦ call others (λ log.
        if server.has_fields log
        then with_error (server.message log) r
        else record r { affected = server.affected log })
  ]

  unfoldable pub query_exec : Ticket → Result → Library (Reply Result)
  query_exec t r = call others (λ log. server.queries log r.query) >>= λ failed. elim failed [
    | some e ↦ give (final t (with_error e r))
    | none ↦ store_it r >>= λ x. give (final t x)
  ]

  unfoldable pub run_task : Task → Result → Cached → Library (Reply Result × Cached)
  run_task (plain t) r cache = query t r >>= λ x. give (x, cache)
  run_task (direct t) r cache = query_exec t r >>= λ x. give (x, cache)
  run_task (cached k t) r cache = query_prepared k t r cache

-- The calls of a worker, one after the other; `none` where the client library gets a null pointer for its
-- connection.
unfoldable pub perform_each :
    Server → List (Task × Result) → Worker → Option (List (Reply Result) × Worker)
unfolding run_each run_task
perform_each server [] w = some ([], w)
perform_each server (x ∷ ts) w =
    let ran = run_each (run_task server) (x ∷ ts) w.cache w.log in
    if w.linked
    then some (ran.0.0, record { linked = true; cache = ran.0.1; log = ran.1 })
    else none

-- The worker connects.
unfoldable pub link_up : Url → Answers → Worker → Worker
link_up u a w = record w { linked = (open_it u a).0.0 }

-- The destructor.
unfoldable pub leave : Worker → List Call
leave w = if w.linked then frees_each (handles w.cache) w.log else w.log
