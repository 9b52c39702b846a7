-- ===== src/Odbc/Kept.antt =====
-- That running a statement and reading its result, by AOdbcThread of src/ADriverOdbc.cpp, neither makes
-- nor frees a statement.
use asql.Base.{
  ℕ, zero, suc, Bool, true, Option, none, some, List, [], ◌∷◌, ◌++◌, String, ◌≡◌, inl, inr, ◌⊎◌,
}
use asql.Workers.Handles.{
  bind, execute, describe, fetch, count, close_cursor, Call, uses, Library, give, ◌>>=◌, call, Owns,
  Keeps, Keeps-bind, Keeps-uses, Keeps-check,
}
use asql.Odbc.{
  Value, SqlType, Failure, executing, executing_prepared, counting, binding, describing, Result,
}
use asql.Odbc.Worker.{
  Server, with_error, with_count, read_rows, bind_all, count_it, fetch_rows, describe_each,
  fetch_results, run_it, run_cached,
}
use asql.Odbc.Binding as Binding

module _ (server : Server) where
  module _ (f : ℕ → Bool) (h : ℕ) (e : f h ≡ true) where
    counted : (r : Result) → Keeps f (count_it server h r)
    unfolding count_it
    counted r = Keeps-uses f count h (λ log. with_count (server.row_count log) r) e

    bound : (i : ℕ) (vs : List Value) → Keeps f (bind_all server h i vs)
    unfolding bind_all
    bound i [] log o = o
    bound i (v ∷ vs) log o =
        Keeps-check f (call (uses bind h) (λ log. server.binds log i (Binding.bind v)))
          (bind_all server h (suc i) vs) (λ x. give (some (binding i x)))
          (Keeps-uses f bind h (λ log. server.binds log i (Binding.bind v)) e) (bound (suc i) vs)
          (λ x log o. o) log o

    fetched : (ks : List SqlType) (r : Result) → Keeps f (fetch_rows server h ks r)
    unfolding fetch_rows
    fetched ks r log o =
        by_end (read_rows ks (server.rows log) r.rows).0 (read_rows ks (server.rows log) r.rows).1
          (uses fetch h ∷ log) (Keeps-uses f fetch h (λ l. tt) e log o)
      where
        by_end :
            (end : Option Failure) (rows : List Value) (later : List Call)
            → Owns f later
            → Owns f
                ((elim end as (λ y. Library Result) [
                  | some x ↦ give (with_error x (record r { rows = rows }))
                  | none ↦ count_it server h (record r { rows = rows })
                ])
                  later).1
        by_end (some x) rows later u = u
        by_end none rows later u = counted (record r { rows = rows }) later u

    described :
        (n i : ℕ) (ks : List SqlType) (r : Result) → Keeps f (describe_each server h i n ks r)
    unfolding describe_each
    described zero i ks r log o = fetched ks r log o
    described (suc n) i ks r log o =
        by_column (server.describes log i) (uses describe h ∷ log)
          (Keeps-uses f describe h (λ l. tt) e log o)
          (λ c.
            described n (suc i) (ks ++ (c.1 ∷ [])) (record r { fields = r.fields ++ (c.0 ∷ []) }))
      where
        by_column :
            (d : String ⊎ (String × SqlType)) (later : List Call)
            → Owns f later
            → ((c : String × SqlType)
                → Keeps f (
                    describe_each server h
                      (suc i)
                      n
                      (ks ++ (c.1 ∷ []))
                      (record r { fields = r.fields ++ (c.0 ∷ []) })))
            → Owns f
                ((elim d as (λ y. Library Result) [
                  | inl x ↦ give (with_error (describing i x) r)
                  | inr c ↦
                      describe_each server h
                        (suc i)
                        n
                        (ks ++ (c.1 ∷ []))
                        (record r { fields = r.fields ++ (c.0 ∷ []) })
                ])
                  later).1
        by_column (inl x) later u k = u
        by_column (inr c) later u k = k c later u

    pub collected : (r : Result) → Keeps f (fetch_results server h r)
    unfolding fetch_results
    collected r log o =
        by_count (server.count_columns log) (uses describe h ∷ log)
          (Keeps-uses f describe h (λ l. tt) e log o)
      where
        by_count :
            (n : String ⊎ ℕ) (later : List Call)
            → Owns f later
            → Owns f
                ((elim n as (λ y. Library Result) [
                  | inl x ↦ give (with_error (counting x) r)
                  | inr k ↦ elim k as (λ y. Library Result) [
                    | zero ↦ count_it server h r
                    | suc m ↦ describe_each server h 1 (suc m) [] r
                  ]
                ])
                  later).1
        by_count (inl x) later u = u
        by_count (inr zero) later u = counted r later u
        by_count (inr (suc m)) later u = described (suc m) 1 [] r later u

    pub run_it-Keeps : (r : Result) → Keeps f (run_it server h r)
    unfolding run_it
    run_it-Keeps r =
        let failed : String → Library Result = λ x. give (with_error (executing x) r) in
        let unbound : Failure → Library Result = λ x. give (with_error x r) in
        let executed : Library Result = call (uses execute h) server.executes >>= λ failure.
        elim failure as (λ y. Library Result) [
          | some x ↦ failed x
          | none ↦ fetch_results server h r
        ] in
        Keeps-check f (bind_all server h 1 r.args) executed unbound (bound 1 r.args)
          (Keeps-check f (call (uses execute h) server.executes) (fetch_results server h r) failed
            (Keeps-uses f execute h server.executes e) (collected r) (λ x log o. o))
          (λ x log o. o)

    pub run_cached-Keeps : (r : Result) → Keeps f (run_cached server h r)
    unfolding run_cached
    run_cached-Keeps r =
        let failed : String → Library Result =
          λ x. call (uses close_cursor h) (λ log. with_error (executing_prepared x) r) in
        let unbound : Failure → Library Result = λ x. give (with_error x r) in
        let closes : Result → Library Result = λ x. call (uses close_cursor h) (λ log. x) in
        let read : Library Result = fetch_results server h r >>= closes in
        let executed : Library Result = call (uses execute h) server.executes >>= λ failure.
        elim failure as (λ y. Library Result) [ some x ↦ failed x | none ↦ read ] in
        Keeps-check f (bind_all server h 1 r.args) executed unbound (bound 1 r.args)
          (Keeps-check f (call (uses execute h) server.executes) read failed
            (Keeps-uses f execute h server.executes e)
            (Keeps-bind f (fetch_results server h r) closes (collected r)
              (λ x. Keeps-uses f close_cursor h (λ log. x) e))
            (λ x. Keeps-uses f close_cursor h (λ log. with_error (executing_prepared x) r) e))
          (λ x log o. o)
