-- ===== src/Workers/Turns.antt =====
-- What can happen to a driver with a worker, src/ADriverSqlite.cpp: the calls of its user, the handlers of
-- its signals on the caller's thread, and the turns of the worker.
use asql.Base.{ℕ, ◌≡◌, Bool, true, false, Option, List, [], ◌∷◌, ◌++◌, String}
use asql.Workers.{
  Ticket, Job, opens, runs, Reply, Message, openned, query_ready, Threaded, Client, exec, connect,
  handle,
}

-- What the worker makes of a call: results of which the last only is marked as the last.
abbrev pub IsAnswer : {R : Type 0} → Ticket → List (Reply R) → Type 0
IsAnswer t [] = ⊥
IsAnswer t (r ∷ []) = (r.ticket ≡ t) × (r.last ≡ true)
IsAnswer t (r ∷ s ∷ rs) = (r.ticket ≡ t) × (r.last ≡ false) × IsAnswer t (s ∷ rs)

module _ {R : Type 0} (client : Client R) where
  pub data Step (d : Threaded R) : Threaded R → Type 0 where
    asks : (t : Ticket) → Step d (exec t d)
    connects : (cb receiver : Option ℕ) → Step d (connect cb receiver d)
    goes : (o : ℕ) → Step d (record d { gone = o ∷ d.gone })
    handles :
        {m : Message} {ms : List Message}
        → d.inbox ≡ m ∷ ms
        → Step d (handle client m (record d { inbox = ms }))
    -- The worker is free and takes the next call.
    works :
        {t : Ticket} {js : List Job} {rs : List (Reply R)}
        → d.jobs ≡ runs t ∷ js
        → d.doing ≡ []
        → d.owes ≡ false
        → IsAnswer t rs
        → Step d (record d { jobs = js; doing = rs })
    opens_it :
        {js : List Job} (b : Bool) (e : String)
        → d.jobs ≡ opens ∷ js
        → d.doing ≡ []
        → d.owes ≡ false
        → Step d (record d { jobs = js; inbox = d.inbox ++ (openned b e ∷ []) })
    -- It puts a result where the caller's thread finds it, and signals that.
    puts :
        {r : Reply R} {rs : List (Reply R)}
        → d.doing ≡ r ∷ rs
        → d.owes ≡ false
        → Step d (record d { doing = rs; ready = d.ready ++ (r ∷ []); owes = true })
    signals :
        d.owes ≡ true → Step d (record d { owes = false; inbox = d.inbox ++ (query_ready ∷ []) })

  pub data Reach (d : Threaded R) : Threaded R → Type 0 where
    here : Reach d d
    next : {t u : Threaded R} → Reach d t → Step t u → Reach d u
