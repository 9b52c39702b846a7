-- ===== src/Tests/Postgres.antt =====
-- Runs of the PostgreSQL driver, src/adriverpg.cpp: the theorems at concrete queries and connections.
use asql.Base.{
  false, ℕ, Bool, List, wanted, firsts, true, none, some, [], ◌∷◌, ◌++◌, ◌≡◌, refl, arith, ◌⊎◌, occ,
}
use asql.Postgres.{
  disconnected, connecting, connected, off, tuples_ok, PgResult, Variant, written, a_socket, Libpq,
  Driver, fresh_link, fresh, set_state, is_wanted, Run, returns, undefined, runs_on,
}
use asql.Postgres.Sending.{
  Call, of_text, with_params, new_query, pipeline_status, do_exec, do_exec_params, cmd_flush,
  started_query, run_query, query_should_be_queued, enqueue, exec, cancel_current, destroyed,
}
use asql.Postgres.Serving.{
  executes, goes, Client, result_of, request, perform, react, done, attempt, next_loop, next_query,
  fail_all, closed, finish_connection, take_result, complete, end_of_query, read,
}
use asql.Postgres.Opening.{
  ok, polled, consumed, emit, emit_each, deliver_open_waiters, start_connecting, connect, poll,
  notify_each, wind_timer, on_readable,
}
use asql.Postgres.Steps.{asks, opens, reads, Reach, here, next}
use asql.Postgres.Facts.{answers}
use asql.Postgres.Invariant.{tags}
use asql.Postgres.Order.{Reach-in_order, Reach-answered}
use asql.Postgres.Draining.{drop_unwanted, IsBusy, next_query_returns}
use asql.Postgres.Failing.{failures, Departs, finish_connection_returns}
use asql.Postgres.Lost.{sent, lost_query_strands}

-- A server that takes everything.
abbrev server : Libpq
server = record {
  sends = λ log. true;
  grants = λ log. true;
  flushes = λ log. written;
  starts = λ log. a_socket;
  pipeline = λ log. off;
  message = λ log. "lost";
  identifier = λ name. b'a' ∷ [];
}

abbrev calm : Client
calm = record { reacts = λ log. [] }

abbrev first_call : Call
first_call = of_text 1 (b'S' ∷ []) none (some 8)

abbrev second_call : Call
second_call = with_params 2 (b'T' ∷ []) (Variant.bool true ∷ []) none (some 9)

abbrev row : PgResult
row = record { status = tuples_ok; message = "" }

abbrev state_of : Run → Driver
state_of (returns d) = d
state_of undefined = fresh
state_of runs_on = fresh

abbrev opening : Driver
opening = connect server calm (some 7) none fresh

abbrev ready : Driver
ready = state_of (on_readable server calm 4 (polled ok "") opening)

abbrev asked_once : Driver
asked_once = request server (executes first_call) ready

abbrev asked_twice : Driver
asked_twice = request server (executes second_call) asked_once

abbrev answered : Driver
answered = state_of (on_readable server calm 4 (consumed (some row ∷ none ∷ []) []) asked_twice)

run : Reach server calm fresh answered
unfolding on_readable poll next_query next_loop connect start_connecting deliver_open_waiters
    emit_each emit react perform request exec query_should_be_queued pipeline_status run_query
    do_exec do_exec_params started_query cmd_flush enqueue read take_result end_of_query complete
    done is_wanted result_of set_state notify_each wind_timer attempt occ
run =
    next
      (next
        (next (next (next here (opens (some 7) none)) (reads 4 (polled ok "") refl))
          (asks (executes first_call)))
        (asks (executes second_call)))
      (reads 4 (consumed (some row ∷ none ∷ []) []) refl)

-- The first answer is delivered and the second query runs.
answered_lem :
    (answered.asked ≡ 1 ∷ 2 ∷ [])
    × (answers answered.link.log ≡ 1 ∷ [])
    × (answered.link.running ≡ true)
unfolding on_readable poll next_query next_loop connect start_connecting deliver_open_waiters
    emit_each emit react perform request exec query_should_be_queued pipeline_status run_query
    do_exec do_exec_params started_query cmd_flush enqueue read take_result end_of_query complete
    done is_wanted result_of set_state notify_each wind_timer attempt occ
answered_lem = (refl, refl, refl)

Reach-in_order_example :
    (answered.asked ≡ firsts answered.left ++ tags answered.queue)
    × ((answered.queue ≡ []) ⊎ (answered.self ≡ true))
Reach-in_order_example = Reach-in_order server calm (λ log. refl) run

Reach-answered_example : answers answered.link.log ≡ wanted answered.left
Reach-answered_example = Reach-answered server calm (λ log. refl) (λ log. refl) run

-- A driver with two queries in its queue, and one whose query runs.
abbrev two_wait : Driver
two_wait = record fresh {
  queue = new_query first_call ∷ new_query second_call ∷ [];
  link = record fresh_link { state = connected };
  waiters = record { cb = 5; receiver = none } ∷ [];
}

abbrev one_runs : Driver
one_runs = record two_wait { link = record fresh_link { state = connected; running = true } }

next_query_returns_example :
    (d' : Driver) × (next_query server calm 4 two_wait ≡ returns d')
    × IsBusy d'
    × (tags d'.queue ≡ tags (drop_unwanted [] two_wait.queue))
next_query_returns_example =
    next_query_returns server calm (λ log. refl) 4 two_wait (λ log. refl) (omega arith)

-- The coroutine of the first query ends with that of the second.
abbrev parting : Client
parting = record { reacts = λ log. goes 8 ∷ goes 9 ∷ [] }

finish_connection_returns_example :
    (d' : Driver) × (xs : List (ℕ × Bool)) × (finish_connection server parting 3 "lost" two_wait
      ≡ returns d')
    × (d'.link.state ≡ disconnected)
    × (d'.queue ≡ [])
    × Departs [] d'.link.gone two_wait.queue xs
    × (d'.left ≡ [] ++ xs)
    × (answers d'.link.log ≡ [] ++ wanted xs)
    × (failures d'.link.log ≡ [] ++ wanted xs)
finish_connection_returns_example =
    finish_connection_returns server parting (λ log. (tt, (tt, tt))) 3 "lost" two_wait (omega arith)

-- It gets the one answer.
abbrev parted : Driver
parted = state_of (finish_connection server parting 3 "lost" two_wait)

parted_lem : (failures parted.link.log ≡ 1 ∷ []) × (parted.left ≡ (1, true) ∷ (2, false) ∷ [])
unfolding finish_connection fail_all closed set_state done is_wanted react perform request destroyed
    cancel_current occ
parted_lem = (refl, refl)

abbrev lost : Driver
lost = state_of (finish_connection server calm 3 "lost" one_runs)

lost_lem : finish_connection server calm 3 "lost" one_runs ≡ returns lost
unfolding finish_connection fail_all closed set_state done is_wanted react perform occ
lost_lem = refl

abbrev reopened : Driver
reopened = connect server calm (some 7) none (perform server (executes first_call ∷ []) lost)

-- `open` starts a connection after the loss.
reopened_lem : reopened.link.state ≡ connecting
unfolding connect start_connecting perform request exec enqueue query_should_be_queued
    finish_connection fail_all closed set_state done is_wanted react occ pipeline_status
reopened_lem = refl

lost_query_strands_example :
    (d'' : Driver) × (poll server calm 1 ok "" (perform server (goes 8 ∷ []) reopened)
      ≡ returns d'')
    × (sent (perform server (executes second_call ∷ []) d'').link.log ≡ 0)
    × ((perform server (executes second_call ∷ []) d'').link.running ≡ true)
lost_query_strands_example =
    lost_query_strands server (λ log. refl) calm 3 "lost" one_runs lost (executes first_call ∷ [])
      (goes 8 ∷ []) (executes second_call ∷ []) (some 7) none 0 refl lost_lem
