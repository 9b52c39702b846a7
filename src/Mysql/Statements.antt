-- ===== src/Mysql/Statements.antt =====
-- That the worker of ADriverMysql, src/adrivermysql.cpp, uses and frees its statements as it should, and
-- answers each call.
use asql.Base.{
  ℕ, Bool, true, false, Option, none, some, List, [], ◌∷◌, ◌++◌, ℤ, String, ◌≡◌, refl, ◌∙◌,
  if◌then◌else◌,
}
use asql.Workers.{Ticket, Reply}
use asql.Workers.Handles.{
  reset, Call, frees, uses, others, lives, Library, give, ◌>>=◌, call, holds, Owns, Keeps,
  Keeps-uses, with_handle, with_handle_self, Owns-frees, Owns-frees_each, empty_lem,
}
use asql.Workers.Calls.{
  Task, plain, direct, cached, ticket_of, Good, After, AreAnswers, run_each, run_each-Good,
}
use asql.Workers.Making.{Prepared, refused, ready, IsNew, Readied, make_statement-Readied}
use asql.Workers.Cached.{
  Cached, lookup, drop, handles, holds-lookup, drop-IsCached, drop-lookup, lookup_self, holds_more,
}
use asql.Mysql.{Result}
use asql.Mysql.Worker.{
  Server, with_error, final, Worker, start, prepare_it, run_it, query, run_cached, query_prepared,
  store_it, query_exec, run_task, perform_each, link_up, leave,
}
use asql.Mysql.Connecting.{Url, Answers, open_it}
use asql.Mysql.Columns.{fill_rows}
use asql.Mysql.Kept.{run_it-Keeps}

module _ (server : Server) where
  prepare_it-Readied :
      (f : ℕ → Bool) (sql : List ℕ) (log : List Call)
      → IsNew server.makes
      → Owns f log
      → Readied f (prepare_it server sql log).0 (prepare_it server sql log).1
  unfolding prepare_it
  prepare_it-Readied f sql log new o =
      make_statement-Readied server.makes server.message (λ l. server.prepares l sql) f log new o

  run_cached-After :
      (k : ℤ) (t : Ticket) (r : Result) (cache : Cached) (h : ℕ) (log : List Call)
      → lookup k cache ≡ some h
      → Good cache log
      → After t (run_cached server k t r cache h log)
  unfolding run_cached
  run_cached-After k t r cache h log e (keyed, o) =
      let held = holds-lookup k cache h e in
      let ran = run_it-Keeps server (holds (handles cache)) h r held log o in
      let x = run_it server h r log in
      let was = Keeps-uses (holds (handles cache)) reset h server.resets held x.1 ran in
      by_reset (server.resets x.1) x.0 (uses reset h ∷ x.1) was
    where
      by_reset :
          (ok : Bool) (x : Result) (later : List Call)
          → Owns (holds (handles cache)) later
          → After t (
              (elim ok as (λ y. Library (Reply Result × Cached)) [
                | true ↦ give (final t x, cache)
                | false ↦ call (frees h) (λ log. (final t x, drop k cache))
              ])
                later)
      by_reset true x later v = (refl, refl, (keyed, v))
      by_reset false x later v =
          let (gone, alike) = drop-lookup k cache h keyed e in
          (
            refl,
            refl,
            (
              drop-IsCached k cache keyed,
              Owns-frees (holds (handles (drop k cache))) h later gone (v.0, λ g. v.1 g ∙ alike g),
            ),
          )

  query-Keeps :
      (t : Ticket) (r : Result) (f : ℕ → Bool) → IsNew server.makes → Keeps f (query server t r)
  unfolding query
  query-Keeps t r f new log o =
      by_prepared (prepare_it server r.query log).0 (prepare_it server r.query log).1
        (prepare_it-Readied f r.query log new o)
    where
      by_prepared :
          (p : Prepared String) (later : List Call)
          → Readied f p later
          → Owns f
              ((elim p as (λ y. Library (Reply Result)) [
                | refused e ↦ give (final t (with_error e r))
                | ready h ↦ run_it server h r >>= λ x. call (frees h) (λ log. final t x)
              ])
                later).1
      by_prepared (refused e) later v = v
      by_prepared (ready h) later v =
          Owns-frees f h (run_it server h r later).1 v.0
            (run_it-Keeps server (with_handle h f) h r (with_handle_self h f) later v.1)

  query-answer :
      (t : Ticket) (r : Result) (log : List Call)
      → ((query server t r log).0.ticket ≡ t) × ((query server t r log).0.last ≡ true)
  unfolding query
  query-answer t r log =
      by_prepared (prepare_it server r.query log).0 (prepare_it server r.query log).1
    where
      by_prepared :
          (p : Prepared String) (later : List Call)
          → (((elim p as (λ y. Library (Reply Result)) [
            | refused e ↦ give (final t (with_error e r))
            | ready h ↦ run_it server h r >>= λ x. call (frees h) (λ log. final t x)
          ])
                later).0.ticket
              ≡ t)
            × (((elim p as (λ y. Library (Reply Result)) [
              | refused e ↦ give (final t (with_error e r))
              | ready h ↦ run_it server h r >>= λ x. call (frees h) (λ log. final t x)
            ])
                  later).0.last
                ≡ true)
      by_prepared (refused e) later = (refl, refl)
      by_prepared (ready h) later = (refl, refl)

  query_prepared-After :
      (k : ℤ) (t : Ticket) (r : Result) (cache : Cached) (log : List Call)
      → IsNew server.makes
      → Good cache log
      → After t (query_prepared server k t r cache log)
  unfolding query_prepared
  query_prepared-After k t r cache log new v = by_found (lookup k cache) refl
    where
      by_prepared :
          lookup k cache ≡ none
          → (p : Prepared String) (later : List Call) → Readied (holds (handles cache)) p later
          → After t (
              (elim p as (λ y. Library (Reply Result × Cached)) [
                | refused e ↦ give (final t (with_error e r), cache)
                | ready h ↦ run_cached server k t r ((k, h) ∷ cache) h
              ])
                later)
      by_prepared q (refused e) later w = (refl, refl, (v.0, w))
      by_prepared q (ready h) later w =
          run_cached-After k t r ((k, h) ∷ cache) h later (lookup_self k h cache)
            (((q, v.0.0), (w.0, v.0.1)), holds_more h cache later w.1)

      by_found :
          (o : Option ℕ)
          → lookup k cache ≡ o
          → After t (
              (elim o as (λ y. Library (Reply Result × Cached)) [
                | some h ↦ run_cached server k t r cache h
                | none ↦ prepare_it server r.query >>= λ p.
                    elim p as (λ y. Library (Reply Result × Cached)) [
                      | refused e ↦ give (final t (with_error e r), cache)
                      | ready h ↦ run_cached server k t r ((k, h) ∷ cache) h
                    ]
              ])
                log)
      by_found (some h) q = run_cached-After k t r cache h log q v
      by_found none q =
          by_prepared q (prepare_it server r.query log).0 (prepare_it server r.query log).1
            (prepare_it-Readied (holds (handles cache)) r.query log new v.1)

  query_exec-After :
      (t : Ticket) (r : Result) (cache : Cached) (log : List Call)
      → Good cache log
      → After t ((query_exec server t r >>= λ x. give (x, cache)) log)
  unfolding query_exec store_it lives
  query_exec-After t r cache log v = by_failed (server.queries log r.query)
    where
      by_failed :
          (failed : Option String)
          → After t (
              ((λ l.
                    (elim failed as (λ y. Library (Reply Result)) [
                      | some e ↦ give (final t (with_error e r))
                      | none ↦ store_it server r >>= λ x. give (final t x)
                    ])
                      l)
                  >>= λ x. give (x, cache))
                (others ∷ log))
      by_failed (some e) = (refl, refl, v)
      by_failed none = by_stored (server.stores (others ∷ log))
        where
          by_stored :
              (stored : Option (List String × List (List (Option (List ℕ)))))
              → After t (
                  ((λ l.
                        (elim stored as (λ y. Library Result) [
                          | some table ↦ call others (λ log. record r {
                            fields = r.fields ++ table.0;
                            rows = fill_rows table.1 r.rows;
                            affected = server.affected log;
                          })
                          | none ↦ call others (λ log.
                              if server.has_fields log
                              then with_error (server.message log) r
                              else record r { affected = server.affected log })
                        ])
                          l)
                      >>= λ x. give (final t x, cache))
                    (others ∷ others ∷ log))
          by_stored (some table) = (refl, refl, v)
          by_stored none = (refl, refl, v)

  run_task-After :
      (task : Task) (r : Result) (cache : Cached) (log : List Call)
      → IsNew server.makes
      → Good cache log
      → After (ticket_of task) (run_task server task r cache log)
  unfolding run_task
  run_task-After (plain t) r cache log new v =
      let (same, last) = query-answer t r log in
      (same, last, (v.0, query-Keeps t r (holds (handles cache)) new log v.1))
  run_task-After (direct t) r cache log new v = query_exec-After t r cache log v
  run_task-After (cached k t) r cache log new v = query_prepared-After k t r cache log new v

  -- A worker that has connected answers each of its calls, in their order, with one result that is marked as
  -- the last of its call. It uses and frees a statement of the client library only while it lives, and so
  -- frees none twice; between two calls those live that are kept for prepared queries and no other, and
  -- none after the destructor, where the client library makes no statement that still lives.
  pub perform_each_answers :
      (u : Url) (a : Answers) (ts : List (Task × Result))
      → IsNew server.makes
      → (open_it u a).0.0 ≡ true
      → (xs : List (Reply Result)) × (v : Worker) × (perform_each server ts (link_up u a start)
          ≡ some (xs, v))
        × AreAnswers ts xs
        × Owns (holds (handles v.cache)) v.log
        × Owns (λ k. false) (leave v)
  unfolding link_up leave perform_each
  perform_each_answers u a ts new e = by_calls ts
    where
      start-Good : Good [] []
      start-Good = ((tt, tt), (tt, empty_lem))

      by_calls :
          (ts : List (Task × Result))
          → (xs : List (Reply Result)) × (v : Worker) × (perform_each server ts (link_up u a start)
              ≡ some (xs, v))
            × AreAnswers ts xs
            × Owns (holds (handles v.cache)) v.log
            × Owns (λ k. false) (leave v)
      by_calls [] = (
        [],
        link_up u a start,
        refl,
        tt,
        start-Good.1,
        rw e (Owns-frees_each [] [] tt start-Good.1),
      )
      by_calls (x ∷ ts) =
          let ran = run_each (run_task server) (x ∷ ts) [] [] in
          let (as_asked, v) =
            run_each-Good (run_task server) (x ∷ ts) [] []
              (λ task r c l w. run_task-After task r c l new w) start-Good in
          (
            ran.0.0,
            record { linked = true; cache = ran.0.1; log = ran.1 },
            rw e refl,
            as_asked,
            v.1,
            Owns-frees_each (handles ran.0.1) ran.1 v.0.1 v.1,
          )

  -- Where the worker could not connect, the first query that it gets makes it call the client library with a
  -- null pointer in place of a connection; the open call itself answers with an error.
  pub refused_open_undefined :
      (u : Url) (a : Answers) (task : Task) (r : Result) (ts : List (Task × Result))
      → (open_it u a).0.0 ≡ false
      → perform_each server ((task, r) ∷ ts) (link_up u a start) ≡ none
  unfolding link_up perform_each
  refused_open_undefined u a task r ts e = rw e refl
