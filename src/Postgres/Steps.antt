-- ===== src/Postgres/Steps.antt =====
-- What can happen to an ADriverPg, src/adriverpg.cpp: a call of its user or the going of an object, its
-- timer, and the notifiers of its socket. `n` is the fuel of a handler's loops.
use asql.Base.{ℕ, ◌≡◌, Bool, true, false, Option, some, String}
use asql.Postgres.{Libpq, Driver, returns}
use asql.Postgres.Sending.{sync_pipeline}
use asql.Postgres.Serving.{Request, Client, request}
use asql.Postgres.Opening.{Polling, Readable, connect, on_writable, on_readable}
use asql.Postgres.Notifications.{forget, listened, subscribe, unsubscribe}

abbrev pub time_out : Libpq → Driver → Driver
time_out pq d = sync_pipeline pq (record d { link = record d.link { auto_sync = some false } })

module _ (pq : Libpq) (client : Client) where
  pub data Step (d : Driver) : Driver → Type 0 where
    asks : (r : Request) → Step d (request pq r d)
    opens : (cb receiver : Option ℕ) → Step d (connect pq client cb receiver d)
    subscribes :
        (name : String) (calls : Bool) (tag cb this : ℕ)
        → Step d (subscribe pq name calls tag cb this d)
    hears : (name : String) (refused : Bool) → Step d (listened pq name refused d)
    unsubscribes : (name : String) (tag cb this : ℕ) → Step d (unsubscribe pq name tag cb this d)
    forgets : (name : String) → Step d (forget name d)
    times_out : d.link.auto_sync ≡ some true → Step d (time_out pq d)
    writes :
        {d' : Driver} (n : ℕ) (p : Polling) (e : String)
        → on_writable pq client n p e d ≡ returns d'
        → Step d d'
    reads :
        {d' : Driver} (n : ℕ) (x : Readable) → on_readable pq client n x d ≡ returns d' → Step d d'

  pub data Reach (d : Driver) : Driver → Type 0 where
    here : Reach d d
    next : {t u : Driver} → Reach d t → Step t u → Reach d u
