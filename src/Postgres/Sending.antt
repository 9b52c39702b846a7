-- ===== src/Postgres/Sending.antt =====
-- How ADriverPg sends a query, what it queues, and the pipeline mode: `runQuery`, `doExec`,
-- `doExecParams`, the `exec` functions and those of the pipeline of src/adriverpg.cpp.
use asql.Base.{
  ℕ, Bool, true, false, ◌&&◌, ◌||◌, not, Option, none, some, List, [], ◌∷◌, ◌++◌, if◌then◌else◌, ℤ,
  pos, eqb_ℤ, ltb_ℤ, ◌+ℤ◌, length, ◌==◌,
}
use asql.Postgres.{
  Pipeline, off, on, aborted, Variant, Prepared, Query, Effect, send_query, send_query_params,
  send_prepare, send_query_prepared, set_single_row, flush, sync, enter_pipeline, exit_pipeline,
  cancel, delivered, broken, written, pending, Libpq, Link, Driver, note, is_connected, is_wanted,
  error_result, Attempt,
}

-- Whether a statement is in the cache of prepared statements.
unfoldable pub is_prepared : ℤ → List ℤ → Bool
is_prepared k [] = false
is_prepared k (x ∷ xs) = eqb_ℤ x k || is_prepared k xs

abbrev pub is_off : Pipeline → Bool
is_off off = true
is_off on = false
is_off aborted = false

abbrev pub is_on : Pipeline → Bool
is_on on = true
is_on off = false
is_on aborted = false

-- `m_autoSyncTimer && !m_autoSyncTimer->isActive()`, then `start`.
abbrev pub start_timer : Option Bool → Option Bool
start_timer none = none
start_timer (some active) = some true

abbrev pub is_empty : List Variant → Bool
is_empty [] = true
is_empty (v ∷ vs) = false

abbrev pub is_none : List Query → Bool
is_none [] = true
is_none (q ∷ qs) = false

unfoldable pub mark_last : List Query → List Query
mark_last [] = []
mark_last (q ∷ []) = record q { single_row = true } ∷ []
mark_last (q ∷ r ∷ qs) = q ∷ mark_last (r ∷ qs)

unfoldable pub set_last_query_single_row_mode : Driver → Driver
set_last_query_single_row_mode d = elim d.queue [
  | [] ↦ d
  | q ∷ rest ↦ record d {
    queue = mark_last d.queue;
    link =
        if is_none rest && (not q.preparing && is_connected d.link)
        then note set_single_row d.link
        else d.link;
  }
]

unfoldable pub exit_pipeline_mode : Driver → Driver
exit_pipeline_mode d =
    if is_connected d.link then record d { link = note exit_pipeline d.link } else d

-- The arguments of the `exec` functions: a text in UTF-8 and its parameters, or a prepared query, with
-- the receiver and the coroutine data.
pub data Call : Type 0 where
  of_text : ℕ → List ℕ → Option ℕ → Option ℕ → Call
  with_params : ℕ → List ℕ → List Variant → Option ℕ → Option ℕ → Call
  of_prepared : ℕ → Prepared → List Variant → Option ℕ → Option ℕ → Call

abbrev blank : ℕ → Option ℕ → Option ℕ → Query
blank t receiver cb = record {
  tag = t;
  query = [];
  prepared = none;
  result = none;
  params = [];
  cb = cb;
  receiver = receiver;
  preparing = false;
  single_row = false;
}

-- What they make of their arguments; `setupCheckReceiver` puts the receiver in.
abbrev pub new_query : Call → Query
new_query (of_text t sql receiver cb) = record (blank t receiver cb) { query = sql }
new_query (with_params t sql args receiver cb) = record (blank t receiver cb) {
  query = sql;
  params = args;
}
new_query (of_prepared t p args receiver cb) = record (blank t receiver cb) {
  prepared = some p;
  params = args;
}

module _ (pq : Libpq) where
  unfoldable pub pipeline_status : Link → Pipeline
  pipeline_status l = if is_connected l then pq.pipeline l.log else off

  -- A call of PQsend…, which answers 1 or not.
  abbrev pub send : Effect → Query → Link → Attempt
  send e q l = record { accepted = pq.sends (e ∷ l.log); query = q; link = note e l }

  -- After PQsendPrepare: in pipeline mode the statement counts as prepared, and is executed at once.
  unfoldable pub after_prepare : (Query → Link → Attempt) → Prepared → Attempt → Attempt
  after_prepare execute p s =
      if s.accepted && is_on (pipeline_status s.link)
      then execute (record s.query { preparing = true })
          (record s.link { prepared = p.identification ∷ s.link.prepared })
      else record s { query = record s.query { preparing = true } }

  abbrev pub execute_prepared : Prepared → List Variant → Query → Link → Attempt
  execute_prepared p args q l = send (send_query_prepared q.tag p.identification args) q l

  unfoldable pub do_exec : Query → Link → Attempt
  do_exec q l = elim q.prepared [
    | none ↦ send (send_query q.tag q.query) q l
    | some p ↦
        if is_prepared p.identification l.prepared
        then execute_prepared p [] q l
        else after_prepare (execute_prepared p []) p
            (send (send_prepare q.tag p.identification p.sql) q l)
  ]

  unfoldable pub do_exec_params : Query → Link → Attempt
  do_exec_params q l = elim q.prepared [
    | none ↦ send (send_query_params q.tag q.query q.params) q l
    | some p ↦
        if is_prepared p.identification l.prepared
        then execute_prepared p q.params q l
        else after_prepare (execute_prepared p q.params) p
            (send (send_prepare q.tag p.identification p.sql) q l)
  ]

  unfoldable pub cmd_flush : Link → Link
  cmd_flush l =
      let l' = note flush l in
      elim (pq.flushes l'.log) [
        | broken ↦ l'
        | written ↦ l'
        | pending ↦ record l' { flush = true; write_on = true }
      ]

  -- `doneError`: the query's result is moved into what is delivered.
  unfoldable pub done_error : Query → Link → Attempt
  done_error q l =
      if is_wanted l.gone q
      then record {
        accepted = false;
        query = record q { result = none };
        link = note (delivered q.tag (error_result (pq.message l.log) q)) l;
      }
      else record { accepted = false; query = q; link = l }

  unfoldable pub started_query : Query → Link → Link
  started_query q l =
      let timed =
        if not (is_off (pipeline_status l))
        then record l { auto_sync = start_timer l.auto_sync }
        else l in
      let running = record timed { running = true } in
      cmd_flush (if q.single_row then note set_single_row running else running)

  unfoldable pub run_query : Query → Link → Attempt
  run_query q l =
      let s = if is_empty q.params then do_exec q l else do_exec_params q l in
      if s.accepted
      then record s { link = started_query s.query s.link }
      else done_error s.query s.link

  unfoldable pub query_should_be_queued : Driver → Bool
  query_should_be_queued d =
      not (is_on (pipeline_status d.link))
      && (d.link.running || (not (is_connected d.link) || not (is_none d.queue)))

  unfoldable pub enqueue : Query → Driver → Driver
  enqueue q d = record d { self = true; queue = d.queue ++ (q ∷ []) }

  -- A query that is not accepted is answered at once and is not queued.
  abbrev pub after_run : Attempt → Driver → Driver
  after_run s d = if s.accepted then enqueue s.query (record d { link = s.link }) else record d {
    link = s.link;
    left = d.left ++ ((s.query.tag, is_wanted d.link.gone s.query) ∷ []);
  }

  -- The body that the five `exec` functions share.
  unfoldable pub exec : Call → Driver → Driver
  exec c d =
      let q = new_query c in
      let d' = record d { asked = d.asked ++ (q.tag ∷ []) } in
      if query_should_be_queued d then enqueue q d' else after_run (run_query q d.link) d'

  -- `timeout` in milliseconds; the timer is made once.
  unfoldable pub enter_pipeline_mode : ℤ → Driver → Driver
  enter_pipeline_mode timeout d =
      if is_connected d.link && is_none d.queue
      then (let l = note enter_pipeline d.link in
          record d {
            link =
                if pq.grants l.log && ltb_ℤ (pos 0) timeout
                then record l {
                  auto_sync = elim l.auto_sync [ none ↦ some false | some a ↦ some a ];
                }
                else l;
          })
      else d

  unfoldable pub sync_pipeline : Driver → Driver
  sync_pipeline d =
      if is_connected d.link
      then (let l = note sync d.link in
          record d { link = if pq.grants l.log then record l { syncs = l.syncs +ℤ pos 1 } else l })
      else d

unfoldable pub queue_size : Driver → ℕ
queue_size d = length d.queue

-- `cancelCurrentQueryOnReceiverDestroyed`: only the query in front is running.
abbrev pub is_receiver : ℕ → Option ℕ → Bool
is_receiver o none = false
is_receiver o (some r) = r == o

unfoldable pub cancel_current : ℕ → Driver → Driver
cancel_current o d = elim d.queue [
  | [] ↦ d
  | q ∷ rest ↦
      if d.link.running && (d.link.conn && is_receiver o q.receiver)
      then record d { link = note cancel d.link }
      else d
]

-- An object goes away; a receiver's going is told to the driver.
unfoldable pub destroyed : ℕ → Driver → Driver
unfolding cancel_current
destroyed o d = cancel_current o (record d { link = record d.link { gone = o ∷ d.link.gone } })
