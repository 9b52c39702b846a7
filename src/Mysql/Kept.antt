-- ===== src/Mysql/Kept.antt =====
-- That running a statement and reading its result, by AMysqlThread of src/adrivermysql.cpp, neither makes
-- nor frees a statement.
use asql.Base.{ℕ, Bool, true, Option, none, some, List, [], ◌∷◌, ◌++◌, String, ◌≡◌}
use asql.Workers.Handles.{
  bind, execute, describe, fetch, count, Call, uses, Library, give, ◌>>=◌, call, Keeps, Keeps-bind,
  Keeps-uses, Keeps-option, Keeps-check,
}
use asql.Mysql.{Argument, Result, Column}
use asql.Mysql.Worker.{Server, with_error, names_of, bind_it, count_it, fetch_it, collect, run_it}
use asql.Mysql.Binding.{bind_params}
use asql.Mysql.Columns.{read_rows}

module _ (server : Server) where
  pub run_it-Keeps : (f : ℕ → Bool) (h : ℕ) (r : Result) → f h ≡ true → Keeps f (run_it server h r)
  unfolding run_it bind_it collect fetch_it count_it
  run_it-Keeps f h r e =
      let stopped : String → Library Result = λ x. give (with_error x r) in
      let executed : Library Result = call (uses execute h) server.executes >>= λ failed.
      elim failed as (λ y. Library Result) [ some x ↦ stopped x | none ↦ collect server h r ] in
      Keeps-check f (bind_it server h r.args) executed stopped (bound r.args)
        (Keeps-check f (call (uses execute h) server.executes) (collect server h r) stopped
          (Keeps-uses f execute h server.executes e) collected (λ x log o. o))
        (λ x log o. o)
    where
      bound : (args : List Argument) → Keeps f (bind_it server h args)
      bound [] log o = o
      bound (a ∷ rest) log o =
          Keeps-uses f bind h (λ l. server.binds l (bind_params (a ∷ rest))) e log o

      counted : (x : Result) → Keeps f (count_it server h x)
      counted x = Keeps-uses f count h (λ log. record x { affected = server.affected log }) e

      fetched : (cs : List Column) (x : Result) → Keeps f (fetch_it server h cs x)
      fetched cs x =
          let rest : List Call → Option String × Result =
            λ log. (server.ends log, record x { rows = read_rows cs (server.rows log) x.rows }) in
          let stopped : String → Library (Option String × Result) = λ y. give (some y, x) in
          Keeps-check f (call (uses describe h) server.binds_result) (call (uses fetch h) rest)
            stopped (Keeps-uses f describe h server.binds_result e) (Keeps-uses f fetch h rest e)
            (λ y log o. o)

      and_counted : Option String × Result → Library Result
      and_counted y = elim y.0 as (λ z. Library Result) [
        | some z ↦ give (with_error z y.1)
        | none ↦ count_it server h y.1
      ]

      with_columns : List Column → Library Result
      with_columns cs =
          fetch_it server h cs (record r { fields = r.fields ++ names_of cs }) >>= and_counted

      collected : Keeps f (collect server h r)
      collected =
          Keeps-check f (call (uses describe h) server.columns) (count_it server h r) with_columns
            (Keeps-uses f describe h server.columns e) (counted r)
            (λ cs.
              let x : Result = record r { fields = r.fields ++ names_of cs } in
              Keeps-bind f (fetch_it server h cs x) and_counted (fetched cs x) (λ y.
                Keeps-option f y.0 (count_it server h y.1) (λ z. give (with_error z y.1))
                  (counted y.1) (λ z log o. o)))
