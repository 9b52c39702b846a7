-- ===== src/Postgres/Opening.antt =====
-- How ADriverPg connects and what its socket tells it: `open`, `deliverOpenWaiters`, and the functions
-- that `open` connects to the socket notifiers, src/adriverpg.cpp.
use asql.Base.{
  ℕ, Bool, true, false, ◌&&◌, not, Option, none, some, List, [], ◌∷◌, ◌++◌, if◌then◌else◌, pos,
  eqb_ℤ, String,
}
use asql.Postgres.{
  disconnected, connecting, connected, PgResult, start, opened, called_back, notification_received,
  no_connection, no_socket, a_socket, Libpq, Waiter, Driver, note, is_connected, set_state,
  is_alive, may_receive, Run, returns, ◌>>=◌,
}
use asql.Postgres.Sending.{is_off, is_none, pipeline_status, cmd_flush}
use asql.Postgres.Serving.{Client, react, next_query, finish_connection, read}
use text.Mathlib.Text.{◌==◌ as str_eq}

-- PostgresPollingStatusType
pub data Polling : Type 0 where
  reading writing ok failed another : Polling

-- A PGnotify, with whether this connection sent it.
pub record Notify : Type 0 where
  pub name : String
  pub extra : Option String
  pub own : Bool

-- What the socket notifier for reading finds: the state of a connection under way, what PQgetResult and
-- PQnotifies give, or a failure of PQconsumeInput with or without the status CONNECTION_BAD.
pub data Readable : Type 0 where
  polled : Polling → String → Readable
  consumed : List (Option PgResult) → List Notify → Readable
  not_consumed : Bool → String → Readable

-- A name's callback, where the name is subscribed to.
unfoldable pub subscription : String → List (String × Bool) → Option Bool
subscription name [] = none
subscription name ((k, cb) ∷ m) = if str_eq k name then some cb else subscription name m

abbrev pub payload : Option String → String
payload none = ""
payload (some s) = s

module _ (pq : Libpq) (client : Client) where
  -- OpenCaller::emit
  unfoldable pub emit : Bool → String → Waiter → Driver → Driver
  emit is_open e w d =
      if is_alive d.link.gone w.cb && may_receive d.link.gone w.receiver
      then react pq client (record d { link = note (opened w.cb is_open e) d.link })
      else d

  unfoldable pub emit_each : Bool → String → List Waiter → Driver → Driver
  emit_each is_open e [] d = d
  emit_each is_open e (w ∷ ws) d = emit_each is_open e ws (emit is_open e w d)

  unfoldable pub deliver_open_waiters : Bool → String → Driver → Driver
  deliver_open_waiters is_open e d = emit_each is_open e d.waiters (record d { waiters = [] })

  abbrev pub add_waiter : Option ℕ → Option ℕ → Driver → Driver
  add_waiter none receiver d = d
  add_waiter (some c) receiver d =
      if is_alive d.link.gone c
      then record d { waiters = d.waiters ++ (record { cb = c; receiver = receiver } ∷ []) }
      else d

  -- PQconnectStart and what follows; a connection without a socket is left as it is.
  unfoldable pub start_connecting : Driver → Driver
  start_connecting d =
      let l = note start d.link in
      let d' = record d { link = record l { conn = true } } in
      elim (pq.starts l.log) [
        | no_connection ↦ deliver_open_waiters false "PQconnectStart failed" d'
        | no_socket ↦ d'
        | a_socket ↦ record d' {
          link = set_state connecting (pq.message l.log) (record d'.link { write_on = true });
        }
      ]

  unfoldable pub connect : Option ℕ → Option ℕ → Driver → Driver
  connect cb receiver d = elim d.link.state [
    | connected ↦ (elim cb [
      | none ↦ d
      | some c ↦
          if is_alive d.link.gone c then record d { link = note (opened c true "") d.link } else d
    ])
    | connecting ↦ add_waiter cb receiver d
    | disconnected ↦ start_connecting (add_waiter cb receiver d)
  ]

  module _ (n : ℕ) where
    -- `connFn`
    unfoldable pub poll : Polling → String → Driver → Run
    poll reading e d = returns d
    poll writing e d = returns (record d { link = record d.link { write_on = true } })
    poll ok e d =
        let l = set_state connected "" (record d.link { write_on = false }) in
        next_query pq client n (deliver_open_waiters true "" (record d { link = l }))
    poll failed e d = finish_connection pq client n e (deliver_open_waiters false e d)
    poll another e d = returns d

    unfoldable pub on_writable : Polling → String → Driver → Run
    on_writable p e d =
        let d' = record d { link = record d.link { write_on = false } } in
        if not (is_connected d.link)
        then poll p e d'
        else if d.link.flush
        then returns (record d' { link = cmd_flush pq (record d'.link { flush = false }) })
        else returns d'

    unfoldable pub notify : Notify → Driver → Driver
    notify x d = elim (subscription x.name d.subscribed) [
      | none ↦ d
      | some cb ↦
          (let p = payload x.extra in
            let told =
              if cb
              then react pq client (record d { link = note (called_back x.name p x.own) d.link })
              else d in
            record told { link = note (notification_received x.name p x.own) told.link })
    ]

    unfoldable pub notify_each : List Notify → Driver → Driver
    notify_each [] d = d
    notify_each (x ∷ xs) d = notify_each xs (notify x d)

    -- Queries wait and no synchronisation point is under way: the timer is to make one.
    unfoldable pub wind_timer : Driver → Driver
    wind_timer d =
        if not (is_none d.queue)
          && (eqb_ℤ d.link.syncs (pos 0) && not (is_off (pipeline_status pq d.link)))
        then record d {
          link = record d.link {
            auto_sync = elim d.link.auto_sync [ none ↦ none | some a ↦ some true ];
          };
        }
        else d

    abbrev pub release_self : Driver → Driver
    release_self d = if is_none d.queue then record d { self = false } else d

    abbrev pub react_readable : Readable → Driver → Run
    react_readable (polled p e) d = if is_connected d.link then returns d else poll p e d
    react_readable (consumed rs ns) d =
        if is_connected d.link
        then (read pq client n rs d >>= λ d'. returns (notify_each ns (wind_timer d')))
        else returns d
    react_readable (not_consumed bad e) d =
        if is_connected d.link && bad then finish_connection pq client n e d else returns d

    unfoldable pub on_readable : Readable → Driver → Run
    on_readable x d = react_readable x d >>= λ d'. returns (release_self d')
