-- ===== src/Postgres/Lost.antt =====
-- How ADriverPg, src/adriverpg.cpp, comes to a stop where its connection is lost while a query runs.
use asql.Base.{
  ℕ, zero, suc, Bool, true, false, ◌&&◌, Option, none, some, List, [], ◌∷◌, if◌then◌else◌, ◌≡◌,
  refl, subst, arith, String,
}
use asql.Postgres.{
  connecting, connected, Result, Query, Effect, send_query, send_query_params, send_prepare,
  send_query_prepared, start, delivered, opened, Started, no_connection, no_socket, a_socket, Libpq,
  Waiter, Driver, note, set_state, is_alive, may_receive, is_wanted, error_result, Run, returns,
  undefined, ◌>>=◌,
}
use asql.Postgres.Sending.{
  set_last_query_single_row_mode, exit_pipeline_mode, Call, query_should_be_queued, enqueue, exec,
  enter_pipeline_mode, sync_pipeline, cancel_current, destroyed,
}
use asql.Postgres.Serving.{
  Request, executes, single_row, enters, exits, syncs, goes, Client, pop, request, perform, react,
  done, next_loop, next_query, fail_all, closed, finish_connection,
}
use asql.Postgres.Opening.{
  ok, emit, emit_each, deliver_open_waiters, add_waiter, start_connecting, connect, poll,
}
use asql.Postgres.Facts.{Always, Always-bind, IsSequential}
use asql.Postgres.Invariant.{status_off}

abbrev is_send : Effect → Bool
is_send (send_query t sql) = true
is_send (send_query_params t sql args) = true
is_send (send_prepare t k sql) = true
is_send (send_query_prepared t k args) = true
is_send _ = false

-- How often a query or a statement was sent.
abbrev pub sent : List Effect → ℕ
sent [] = 0
sent (e ∷ log) = if is_send e then suc (sent log) else sent log

module _ (pq : Libpq) (sequential : IsSequential pq) where
  -- A query counts as running, and no more than `k` have been sent.
  record Idle (k : ℕ) (d : Driver) : Type 0 where
    running : d.link.running ≡ true
    sends : sent d.link.log ≡ k

  module _ {k : ℕ} where
    exec-Idle : (c : Call) (d : Driver) → Idle k d → Idle k (exec pq c d)
    unfolding exec query_should_be_queued enqueue
    exec-Idle c d v = ground (arith, v, status_off pq sequential d.link)

    request-Idle : (r : Request) (d : Driver) → Idle k d → Idle k (request pq r d)
    unfolding request enter_pipeline_mode exit_pipeline_mode sync_pipeline
        set_last_query_single_row_mode destroyed cancel_current
    request-Idle (executes c) d v = exec-Idle c d v
    request-Idle single_row d v = ground (arith, v)
    request-Idle (enters t) d v = ground (arith, v)
    request-Idle exits d v = ground (arith, v)
    request-Idle syncs d v = ground (arith, v)
    request-Idle (goes o) d v = ground (arith, v)

    perform-Idle : (rs : List Request) (d : Driver) → Idle k d → Idle k (perform pq rs d)
    unfolding perform
    perform-Idle [] d v = v
    perform-Idle (r ∷ rs) d v = perform-Idle rs (request pq r d) (request-Idle r d v)

    module _ (client : Client) where
      react-Idle : (d : Driver) → Idle k d → Idle k (react pq client d)
      unfolding react
      react-Idle d v = perform-Idle (client.reacts d.link.log) d v

      done-Idle : (q : Query) (d : Driver) → Idle k d → Always (Idle k) (done pq client q d)
      unfolding done
      done-Idle q d v = by_wanted (is_wanted d.link.gone q) q.result
        where
          by_wanted :
              (b : Bool) (o : Option Result)
              → Always (Idle k) (
                  if b
                  then elim o as (λ x. Run) [
                    | none ↦ undefined
                    | some r ↦ returns (
                        react pq client (record d {
                          link =
                              note
                                (delivered q.tag (record r { query = q.query; args = q.params }))
                                d.link;
                        }))
                  ]
                  else returns d)
          by_wanted true none = tt
          by_wanted true (some r) = react-Idle _ (record { running = v.running; sends = v.sends })
          by_wanted false o = v

      fail_all-Idle :
          (n : ℕ) (e : String) (d : Driver) → Idle k d → Always (Idle k) (fail_all pq client n e d)
      unfolding fail_all
      fail_all-Idle zero e d v = tt
      fail_all-Idle (suc n) e d v = by_queue d.queue (λ d' v'. fail_all-Idle n e d' v')
        where
          by_queue :
              (qs : List Query)
              → ((d' : Driver) → Idle k d' → Always (Idle k) (fail_all pq client n e d'))
              → Always (Idle k) (elim qs as (λ x. Run) [
                | [] ↦ returns d
                | q ∷ rest ↦
                    done pq client (record q { result = some (error_result e q) }) (pop q rest d)
                    >>= λ d'. fail_all pq client n e d'
              ])
          by_queue [] ih = v
          by_queue (q ∷ rest) ih =
              Always-bind (Idle k)
                (done pq client (record q { result = some (error_result e q) }) (pop q rest d))
                (λ d'. fail_all pq client n e d')
                (done-Idle _ (pop q rest d) (record { running = v.running; sends = v.sends })) ih

      emit_each-Idle :
          (b : Bool) (e : String) (ws : List Waiter) (d : Driver)
          → Idle k d
          → Idle k (emit_each pq client b e ws d)
      unfolding emit_each emit
      emit_each-Idle b e [] d v = v
      emit_each-Idle b e (w ∷ ws) d v =
          emit_each-Idle b e ws _
            (elim (is_alive d.link.gone w.cb && may_receive d.link.gone w.receiver)
              as (λ c. Idle k (
                if c
                then react pq client (record d { link = note (opened w.cb b e) d.link })
                else d)) [
                  | true ↦ react-Idle _ (record { running = v.running; sends = v.sends })
                  | false ↦ v
                ])

      deliver-Idle :
          (b : Bool) (e : String) (d : Driver)
          → Idle k d
          → Idle k (deliver_open_waiters pq client b e d)
      unfolding deliver_open_waiters
      deliver-Idle b e d v =
          emit_each-Idle b e d.waiters (record d { waiters = [] })
            (record { running = v.running; sends = v.sends })

      add_waiter-Idle :
          (cb receiver : Option ℕ) (d : Driver)
          → Idle k d
          → Idle k (add_waiter pq client cb receiver d)
      add_waiter-Idle none receiver d v = v
      add_waiter-Idle (some c) receiver d v = ground (arith, v)

      start-Idle : (d : Driver) → Idle k d → Idle k (start_connecting pq client d)
      unfolding start_connecting set_state
      start-Idle d v = by_start (pq.starts (start ∷ d.link.log))
        where
          d' : Driver
          d' = record d { link = record (note start d.link) { conn = true } }

          w : Idle k d'
          w = record { running = v.running; sends = v.sends }

          by_start :
              (s : Started)
              → Idle k (elim s as (λ x. Driver) [
                | no_connection ↦ deliver_open_waiters pq client false "PQconnectStart failed" d'
                | no_socket ↦ d'
                | a_socket ↦ record d' {
                  link =
                      set_state connecting
                        (pq.message (start ∷ d.link.log))
                        (record d'.link { write_on = true });
                }
              ])
          by_start no_connection = deliver-Idle false "PQconnectStart failed" d' w
          by_start no_socket = w
          by_start a_socket = record { running = v.running; sends = v.sends }

      connect-Idle :
          (cb receiver : Option ℕ) (d : Driver)
          → Idle k d
          → Idle k (connect pq client cb receiver d)
      unfolding connect
      connect-Idle cb receiver d v = ground (
        arith,
        v,
        add_waiter-Idle cb receiver d v,
        start-Idle (add_waiter pq client cb receiver d) (add_waiter-Idle cb receiver d v),
      )

      next_query-Idle : (n : ℕ) (d : Driver) → Idle k d → next_query pq client (suc n) d ≡ returns d
      unfolding next_query next_loop
      next_query-Idle n d v = ground (arith, v)

  -- `finishConnection` leaves `m_queryRunning` as it is. Where libpq is not in pipeline mode, a query was
  -- running when the connection ended, `open` is called and the connection it starts is polled as ready,
  -- then nothing is sent any more, neither by that nor by what is asked before, meanwhile and after, and
  -- the driver still takes a query for running, whatever the coroutines do that are resumed on the way.
  pub lost_query_strands :
      (client : Client) (n : ℕ) (e : String) (d d' : Driver) (before meanwhile after : List Request)
      (cb receiver : Option ℕ) (m : ℕ)
      → d.link.running ≡ true
      → finish_connection pq client n e d ≡ returns d'
      → let started = connect pq client cb receiver (perform pq before d') in
        (d'' : Driver) × (poll pq client (suc m) ok "" (perform pq meanwhile started) ≡ returns d'')
        × (sent (perform pq after d'').link.log ≡ sent d.link.log)
        × ((perform pq after d'').link.running ≡ true)
  unfolding finish_connection closed set_state poll
  lost_query_strands client n e d d' before meanwhile after cb receiver m h f =
      let v : Idle (sent d.link.log) d' = subst (Always (Idle (sent d.link.log))) f (
        fail_all-Idle client n e (record d { subscribed = []; link = closed pq client e d.link })
          (record { running = h; sends = refl })) in
      let started = connect pq client cb receiver (perform pq before d') in
      let d1 = perform pq meanwhile started in
      let w : Idle (sent d.link.log) d1 =
        perform-Idle meanwhile started
          (connect-Idle client cb receiver (perform pq before d') (perform-Idle before d' v)) in
      let l = set_state connected "" (record d1.link { write_on = false }) in
      let d2 = deliver_open_waiters pq client true "" (record d1 { link = l }) in
      let u : Idle (sent d.link.log) d2 =
        deliver-Idle client true "" (record d1 { link = l })
          (record { running = w.running; sends = w.sends }) in
      let z = perform-Idle after d2 u in (d2, next_query-Idle client m d2 u, z.sends, z.running)
