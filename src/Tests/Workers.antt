-- ===== src/Tests/Workers.antt =====
-- A call of a driver with a worker, src/ADriverSqlite.cpp, from the thread of its caller to the worker and
-- back.
use asql.Base.{
  ℕ, ◌+◌, true, false, none, some, [], ◌∷◌, ◌++◌, ◌≡◌, ◌⊎◌, refl, pos, length, wanted, firsts, ◌+ℤ◌,
  occ,
}
use asql.Workers.{
  Ticket, Reply, query_ready, delivered, Threaded, fresh, Client, is_wanted, exec, exec_each, react,
  deliver, process, process_each, on_ready, handle,
}
use asql.Workers.Turns.{asks, handles, works, puts, signals, Reach, here, next}
use asql.Workers.Account.{lasts, runs_of, opens_of, opened_in, has_ready, answers}
use asql.Workers.Order.{Reach-in_turn, Reach-size}

abbrev calm : Client ℕ
calm = record { reacts = λ log. [] }

abbrev ticket : Ticket
ticket = record { tag = 1; cb = some 7; receiver = none }

abbrev first : Reply ℕ
first = record { ticket = ticket; result = 10; last = false }

abbrev second : Reply ℕ
second = record { ticket = ticket; result = 20; last = true }

abbrev asked_once : Threaded ℕ
asked_once = exec ticket fresh

-- The worker has put its first result and has yet to signal it.
abbrev half_way : Threaded ℕ
half_way = record asked_once { jobs = []; doing = second ∷ []; ready = first ∷ []; owes = true }

abbrev signalled : Threaded ℕ
signalled = record half_way { owes = false; inbox = query_ready ∷ [] }

run : Reach calm fresh (handle calm query_ready (record signalled { inbox = [] }))
unfolding exec
run =
    next
      (next
        (next
          (next (next here (asks ticket))
            (works {rs = first ∷ second ∷ []} refl refl refl (refl, refl, (refl, refl))))
          (puts refl refl))
        (signals refl))
      (handles refl)

abbrev handled : Threaded ℕ
handled = handle calm query_ready (record signalled { inbox = [] })

Reach-in_turn_example :
    (handled.asked
      ≡ firsts handled.over
        ++ (lasts handled.ready ++ (lasts handled.doing ++ runs_of handled.jobs)))
    × (answers handled.log ≡ wanted handled.over)
    × ((handled.ready ≡ []) ⊎ ((handled.owes ≡ true) ⊎ (has_ready handled.inbox ≡ true)))
Reach-in_turn_example = Reach-in_turn calm run

Reach-size_example :
    (handled.size
      ≡ pos (
          length (lasts handled.ready ++ (lasts handled.doing ++ runs_of handled.jobs))
          + opens_of handled.jobs
          + opened_in handled.inbox))
    × ((handled.size ≡ pos 0) ⊎ (handled.self ≡ true))
Reach-size_example = Reach-size calm run

-- One result is not the last, so that the call is not over.
handled_lem : (handled.size ≡ pos 1) × (handled.over ≡ []) × (handled.log ≡ delivered first ∷ [])
unfolding handle on_ready process_each process deliver react exec_each is_wanted exec ◌+ℤ◌ occ
handled_lem = (refl, refl, refl)
