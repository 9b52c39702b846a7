-- ===== src/Odbc/Statements.antt =====
-- That the worker of ADriverOdbc, src/ADriverOdbc.cpp, uses and frees its statements as it should, and answers
-- each call.
use asql.Base.{ℕ, Bool, true, false, Option, none, some, List, [], ◌∷◌, ℤ, ◌≡◌, refl, ◌∙◌}
use asql.Workers.{Ticket, Reply}
use asql.Workers.Handles.{
  reset, Call, frees, uses, Library, give, ◌>>=◌, call, holds, Owns, Keeps-uses, with_handle,
  with_handle_self, Owns-frees, Owns-frees_each, empty_lem,
}
use asql.Workers.Calls.{
  Task, plain, direct, cached, ticket_of, Good, After, AreAnswers, run_each, run_each-Good,
}
use asql.Workers.Making.{
  Prepared, refused, ready, IsNew, Readied, make_statement, make_statement-Readied,
}
use asql.Workers.Cached.{
  Cached, lookup, drop, handles, holds-lookup, drop-IsCached, drop-lookup, holds_more,
  lookup_dropped,
}
use asql.Odbc.{Failure, allocating, preparing, executing, Result}
use asql.Odbc.Worker.{
  Server, with_error, final, fetch_results, prepare_it, run_it, query, run_cached, prepare_anew,
  query_prepared, query_exec, run_task, leave,
}
use asql.Odbc.Kept.{collected, run_it-Keeps, run_cached-Keeps}

module _ (server : Server) where
  query-After :
      (t : Ticket) (r : Result) (cache : Cached) (log : List Call)
      → IsNew server.makes
      → Good cache log
      → After t ((query server t r >>= λ x. give (x, cache)) log)
  unfolding query prepare_it
  query-After t r cache log new v =
      by_prepared (prepare_it server r.query log).0 (prepare_it server r.query log).1 (
        make_statement-Readied server.makes (λ l. allocating (server.message l))
          (λ l. elim (server.prepares l r.query) [ none ↦ none | some e ↦ some (preparing e) ])
          (holds (handles cache)) log new v.1)
    where
      by_prepared :
          (p : Prepared Failure) (later : List Call)
          → Readied (holds (handles cache)) p later
          → After t (
              ((λ l.
                    (elim p as (λ y. Library (Reply Result)) [
                      | refused e ↦ give (final t (with_error e r))
                      | ready h ↦ run_it server h r >>= λ x. call (frees h) (λ log. final t x)
                    ])
                      l)
                  >>= λ x. give (x, cache))
                later)
      by_prepared (refused e) later w = (refl, refl, (v.0, w))
      by_prepared (ready h) later w =
          let f = with_handle h (holds (handles cache)) in
          (
            refl,
            refl,
            (
              v.0,
              Owns-frees (holds (handles cache)) h (run_it server h r later).1 w.0 (
                  run_it-Keeps server f h (with_handle_self h (holds (handles cache))) r later w.1),
            ),
          )

  query_exec-After :
      (t : Ticket) (r : Result) (cache : Cached) (log : List Call)
      → IsNew server.makes
      → Good cache log
      → After t ((query_exec server t r >>= λ x. give (x, cache)) log)
  unfolding query_exec
  query_exec-After t r cache log new v =
      let m =
        make_statement server.makes (λ l. allocating (server.message l))
          (λ l. elim (server.runs_direct l r.query) [ none ↦ none | some e ↦ some (executing e) ])
          log in
      by_prepared m.0 m.1 (
        make_statement-Readied server.makes (λ l. allocating (server.message l))
          (λ l. elim (server.runs_direct l r.query) [ none ↦ none | some e ↦ some (executing e) ])
          (holds (handles cache)) log new v.1)
    where
      by_prepared :
          (p : Prepared Failure) (later : List Call)
          → Readied (holds (handles cache)) p later
          → After t (
              ((λ l.
                    (elim p as (λ y. Library (Reply Result)) [
                      | refused e ↦ give (final t (with_error e r))
                      | ready h ↦
                          fetch_results server h r >>= λ x. call (frees h) (λ log. final t x)
                    ])
                      l)
                  >>= λ x. give (x, cache))
                later)
      by_prepared (refused e) later w = (refl, refl, (v.0, w))
      by_prepared (ready h) later w =
          let f = with_handle h (holds (handles cache)) in
          (
            refl,
            refl,
            (
              v.0,
              Owns-frees (holds (handles cache)) h (fetch_results server h r later).1 w.0
                  (collected server f h (with_handle_self h (holds (handles cache))) r later w.1),
            ),
          )

  prepare_anew-After :
      (k : ℤ) (t : Ticket) (r : Result) (cache : Cached) (log : List Call)
      → IsNew server.makes
      → lookup k cache ≡ none
      → Good cache log
      → After t (prepare_anew server k t r cache log)
  unfolding prepare_anew prepare_it
  prepare_anew-After k t r cache log new q v =
      by_prepared (prepare_it server r.query log).0 (prepare_it server r.query log).1 (
        make_statement-Readied server.makes (λ l. allocating (server.message l))
          (λ l. elim (server.prepares l r.query) [ none ↦ none | some e ↦ some (preparing e) ])
          (holds (handles cache)) log new v.1)
    where
      by_prepared :
          (p : Prepared Failure) (later : List Call)
          → Readied (holds (handles cache)) p later
          → After t (
              (elim p as (λ y. Library (Reply Result × Cached)) [
                | refused e ↦ give (final t (with_error e r), cache)
                | ready h ↦ run_cached server h r >>= λ x. give (final t x, (k, h) ∷ cache)
              ])
                later)
      by_prepared (refused e) later w = (refl, refl, (v.0, w))
      by_prepared (ready h) later w =
          let f = with_handle h (holds (handles cache)) in
          let ran =
            run_cached-Keeps server f h (with_handle_self h (holds (handles cache))) r later w.1 in
          (
            refl,
            refl,
            (((q, v.0.0), (w.0, v.0.1)), holds_more h cache (run_cached server h r later).1 ran),
          )

  query_prepared-After :
      (k : ℤ) (t : Ticket) (r : Result) (cache : Cached) (log : List Call)
      → IsNew server.makes
      → Good cache log
      → After t (query_prepared server k t r cache log)
  unfolding query_prepared
  query_prepared-After k t r cache log new v = by_found (lookup k cache) refl
    where
      by_reset :
          (h : ℕ) (ok : Bool)
          → lookup k cache ≡ some h
          → After t (
              (elim ok as (λ y. Library (Reply Result × Cached)) [
                | true ↦ run_cached server h r >>= λ x. give (final t x, cache)
                | false ↦ call (frees h) (λ log. true) >>= λ freed.
                    prepare_anew server k t r (drop k cache)
              ])
                (uses reset h ∷ log))
      by_reset h ok q = by_answer ok
        where
          held : holds (handles cache) h ≡ true
          held = holds-lookup k cache h q

          was : Owns (holds (handles cache)) (uses reset h ∷ log)
          was = Keeps-uses (holds (handles cache)) reset h server.resets held log v.1

          by_answer :
              (ok : Bool)
              → After t (
                  (elim ok as (λ y. Library (Reply Result × Cached)) [
                    | true ↦ run_cached server h r >>= λ x. give (final t x, cache)
                    | false ↦ call (frees h) (λ log. true) >>= λ freed.
                        prepare_anew server k t r (drop k cache)
                  ])
                    (uses reset h ∷ log))
          by_answer true =
              (refl, refl, (v.0, run_cached-Keeps server (holds (handles cache)) h held r _ was))
          by_answer false =
              let (gone, alike) = drop-lookup k cache h v.0 q in
              prepare_anew-After k t r (drop k cache) (frees h ∷ uses reset h ∷ log) new
                (lookup_dropped k cache)
                (
                  drop-IsCached k cache v.0,
                  Owns-frees (holds (handles (drop k cache))) h (uses reset h ∷ log) gone
                      (was.0, λ g. was.1 g ∙ alike g),
                )

      by_found :
          (o : Option ℕ)
          → lookup k cache ≡ o
          → After t (
              (elim o as (λ y. Library (Reply Result × Cached)) [
                | none ↦ prepare_anew server k t r cache
                | some h ↦ call (uses reset h) server.resets >>= λ ok.
                    elim ok as (λ y. Library (Reply Result × Cached)) [
                      | true ↦ run_cached server h r >>= λ x. give (final t x, cache)
                      | false ↦ call (frees h) (λ log. true) >>= λ freed.
                          prepare_anew server k t r (drop k cache)
                    ]
              ])
                log)
      by_found none q = prepare_anew-After k t r cache log new q v
      by_found (some h) q = by_reset h (server.resets log) q

  run_task-After :
      (task : Task) (r : Result) (cache : Cached) (log : List Call)
      → IsNew server.makes
      → Good cache log
      → After (ticket_of task) (run_task server task r cache log)
  unfolding run_task
  run_task-After (plain t) r cache log new v = query-After t r cache log new v
  run_task-After (direct t) r cache log new v = query_exec-After t r cache log new v
  run_task-After (cached k t) r cache log new v = query_prepared-After k t r cache log new v

  -- The worker answers each of its calls, in their order, with one result that is marked as the last of its
  -- call. It uses and frees a statement of the ODBC library only while it lives, and so frees none twice,
  -- where a statement that cannot be reset is freed and made anew too; between two calls those live that
  -- are kept for prepared queries and no other, and none after the destructor, where the library makes no
  -- statement that still lives.
  pub run_each_answers :
      (ts : List (Task × Result))
      → IsNew server.makes
      → let ran = run_each (run_task server) ts [] [] in
        AreAnswers ts ran.0.0
        × Owns (holds (handles ran.0.1)) ran.1
        × Owns (λ k. false) (leave ran.0.1 ran.1)
  unfolding leave
  run_each_answers ts new =
      let ran = run_each (run_task server) ts [] [] in
      let (as_asked, v) =
        run_each-Good (run_task server) ts [] [] (λ task r c l w. run_task-After task r c l new w)
          ((tt, tt), (tt, empty_lem)) in
      (as_asked, v.1, Owns-frees_each (handles ran.0.1) ran.1 v.0.1 v.1)
