-- ===== src/Postgres/Serving.antt =====
-- How ADriverPg answers: `done`, `nextQuery`, `finishConnection` and the loop over PQgetResult of
-- src/adriverpg.cpp.
--
-- A result resumes the coroutine that waits for it, which may ask for more and let objects go before the
-- driver goes on. What it does is the function `Client` of the log. What is delivered within such a resumption resumes
-- nothing at once (src/acoroexpected.h puts it off), nor does what `exec` delivers before its caller waits.
use asql.Base.{
  ℕ, zero, suc, Bool, true, false, ◌||◌, not, Option, none, some, List, [], ◌∷◌, ◌++◌,
  if◌then◌else◌, ℤ, pos, eqb_ℤ, ◌-ℤ◌, String,
}
use asql.Postgres.{
  disconnected, Status, tuples_ok, single_tuple, command_ok, pipeline_sync, other, PgResult, Result,
  Query, Effect, finish, delivered, Libpq, Link, Driver, note, set_state, may_receive, has_cb,
  is_wanted, error_result, Run, returns, undefined, runs_on, ◌>>=◌,
}
use asql.Postgres.Sending.{
  is_off, set_last_query_single_row_mode, exit_pipeline_mode, Call, pipeline_status, run_query,
  exec, enter_pipeline_mode, sync_pipeline, destroyed,
}

-- What a coroutine that is resumed does to the driver: it asks for something, or it lets an object go,
-- an awaitable at its end, or a receiver.
pub data Request : Type 0 where
  executes : Call → Request
  single_row : Request
  enters : ℤ → Request
  exits : Request
  syncs : Request
  goes : ℕ → Request

pub record Client : Type 0 where
  pub reacts : List Effect → List Request

-- Takes the query in front off the queue.
abbrev pub pop : Query → List Query → Driver → Driver
pop q rest d = record d { queue = rest; left = d.left ++ ((q.tag, is_wanted d.link.gone q) ∷ []) }

abbrev pub set_front : (Query → Query) → Driver → Driver
set_front f d = elim d.queue [ [] ↦ d | q ∷ rest ↦ record d { queue = f q ∷ rest } ]

-- AResultPg of what PQgetResult gave.
unfoldable pub result_of : PgResult → Result
result_of r =
    let fine : Result = record {
      rows = some r;
      query = [];
      args = [];
      error = false;
      error_string = "";
      last = true;
    } in
    elim r.status [
      | tuples_ok ↦ fine
      | single_tuple ↦ fine
      | command_ok ↦ fine
      | pipeline_sync ↦ record fine { error = true; error_string = r.message }
      | other ↦ record fine { error = true; error_string = r.message }
    ]

abbrev pub is_sync : Status → Bool
is_sync pipeline_sync = true
is_sync tuples_ok = false
is_sync single_tuple = false
is_sync command_ok = false
is_sync other = false

abbrev pub has_failed : Option Result → Bool
has_failed none = false
has_failed (some r) = r.error

abbrev pub is_preparing : Query → Bool
is_preparing q = elim q.prepared [ none ↦ false | some p ↦ q.preparing ]

module _ (pq : Libpq) where
  unfoldable pub request : Request → Driver → Driver
  request (executes c) d = exec pq c d
  request single_row d = set_last_query_single_row_mode d
  request (enters t) d = enter_pipeline_mode pq t d
  request exits d = exit_pipeline_mode d
  request syncs d = sync_pipeline pq d
  request (goes o) d = destroyed o d

  unfoldable pub perform : List Request → Driver → Driver
  perform [] d = d
  perform (r ∷ rs) d = perform rs (request r d)

  module _ (client : Client) where
    unfoldable pub react : Driver → Driver
    react d = perform (client.reacts d.link.log) d

    -- `done`: the result that is there is delivered.
    unfoldable pub done : Query → Driver → Run
    done q d =
        if is_wanted d.link.gone q
        then (elim q.result [
          | none ↦ undefined
          | some r ↦ returns (
              react (record d {
                link =
                    note (delivered q.tag (record r { query = q.query; args = q.params })) d.link;
              }))
        ])
        else returns d

    -- One round of `nextQuery`: a query that nobody waits for is dropped, another is sent. One that is
    -- not accepted gets an error and stays in front.
    unfoldable pub attempt : Query → List Query → Driver → Driver
    attempt q rest d =
        if not (may_receive d.link.gone q.receiver) || not (has_cb d.link.gone q.cb)
        then pop q rest d
        else (let s = run_query pq q d.link in
            let d' = record d { queue = s.query ∷ rest; link = s.link } in
            if s.accepted then d' else react d')

    unfoldable pub next_loop : ℕ → Driver → Run
    next_loop zero d = runs_on
    next_loop (suc n) d = elim d.link.running [
      | true ↦ returns d
      | false ↦ elim d.queue [ [] ↦ returns d | q ∷ rest ↦ next_loop n (attempt q rest d) ]
    ]

    unfoldable pub next_query : ℕ → Driver → Run
    next_query n d = if is_off (pipeline_status pq d.link) then next_loop n d else returns d

    -- The loop of `finishConnection`.
    unfoldable pub fail_all : ℕ → String → Driver → Run
    fail_all zero e d = runs_on
    fail_all (suc n) e d = elim d.queue [
      | [] ↦ returns d
      | q ∷ rest ↦ done (record q { result = some (error_result e q) }) (pop q rest d) >>= λ d'.
          fail_all n e d'
    ]

    unfoldable pub closed : String → Link → Link
    closed e l = set_state disconnected e (record (note finish l) {
      conn = false;
      prepared = [];
      syncs = pos 0;
      auto_sync = none;
      write_on = false;
    })

    unfoldable pub finish_connection : ℕ → String → Driver → Run
    finish_connection n e d = fail_all n e (record d { subscribed = []; link = closed e d.link })

    -- A result for the query in front; one that is already there is delivered, as not the last.
    unfoldable pub take_result : PgResult → Driver → Run
    take_result r d = elim d.queue [
      | [] ↦ undefined
      | q ∷ rest ↦
          (elim q.result [
            | none ↦ returns d
            | some x ↦ done (record q { result = some (record x { last = false }) }) d
          ])
          >>= λ d'. returns (set_front (λ (q : Query). record q { result = some (result_of r) }) d')
    ]

    unfoldable pub complete : ℕ → Query → List Query → Driver → Run
    complete n q rest d = next_query n (pop q rest d) >>= λ d'. done q d'

    -- What is known of the statement once its preparation is over.
    abbrev pub has_prepared : Query → List Query → Driver → Driver
    has_prepared q rest d = record d {
      queue = record q { result = none; preparing = false } ∷ rest;
      link = record d.link {
        prepared = elim q.prepared [
          | none ↦ d.link.prepared
          | some p ↦ p.identification ∷ d.link.prepared
        ];
      };
    }

    -- PQgetResult gave null: the query in front is over, or is prepared.
    unfoldable pub end_of_query : ℕ → Driver → Run
    end_of_query n d = elim d.queue [
      | [] ↦ returns d
      | q ∷ rest ↦
          (let d' = record d { link = record d.link { running = false } } in
            if is_preparing q
            then if has_failed q.result
              then complete n q rest d'
              else next_query n (has_prepared q rest d')
            else complete n q rest d')
    ]

    -- The loop while PQisBusy is 0, over what PQgetResult gives until it is not.
    unfoldable pub read : ℕ → List (Option PgResult) → Driver → Run
    read n [] d = returns d
    read n (some r ∷ rs) d =
        if is_sync r.status
        then read n rs (record d { link = record d.link { syncs = d.link.syncs -ℤ pos 1 } })
        else (take_result r d >>= λ d'. read n rs d')
    read n (none ∷ rs) d = end_of_query n d >>= λ d'.
        if is_off (pipeline_status pq d'.link) || eqb_ℤ d'.link.syncs (pos 0)
        then returns d'
        else read n rs d'
