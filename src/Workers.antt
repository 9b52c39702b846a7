-- ===== src/Workers.antt =====
-- The drivers that run their client library on a thread of their own: ADriverSqlite of
-- src/ADriverSqlite.cpp, and ADriverMysql and ADriverOdbc, whose code on the side of the caller is the same.
--
-- The caller's thread and the worker's take turns in any order. A queued call waits in `jobs`, a queued
-- signal in `inbox`; what the worker has put under the mutex is `ready`. The tags name the calls, and
-- the driver keeps which were asked and which are over; no operation reads them. A coroutine that is
-- resumed may ask more at once, by the function `Client` of what was delivered.
pub mod Turns
pub mod Account
pub mod Order
pub mod Handles
pub mod Cached
pub mod Grid
pub mod Making
pub mod Calls
use asql.Base.{
  ℕ, zero, suc, Bool, true, false, ◌&&◌, Option, none, some, List, [], ◌∷◌, ◌++◌, String,
  if◌then◌else◌, ℤ, pos, eqb_ℤ, ◌+ℤ◌, ◌-ℤ◌,
}
use asql.Postgres.{
  State, disconnected, connecting, connected, on, Waiter, is_alive, may_receive, has_cb,
}

-- QueryPromise, without its result.
pub record Ticket : Type 0 where
  pub tag : ℕ
  pub cb : Option ℕ
  pub receiver : Option ℕ

-- A queued call of the worker: `open`, or one of `query`, `queryPrepared` and `queryExec`.
pub data Job : Type 0 where
  opens : Job
  runs : Ticket → Job

-- QueryPromise with its result.
pub record Reply (R : Type 0) : Type 0 where
  pub ticket : Ticket
  pub result : R
  pub last : Bool

-- The queued signals `openned` and `queryReady`.
pub data Message : Type 0 where
  openned : Bool → String → Message
  query_ready : Message

-- What the callers are told.
pub data Told (R : Type 0) : Type 0 where
  delivered : Reply R → Told R
  opened : ℕ → Bool → String → Told R
  state_changed : State → String → Told R

pub record Threaded (R : Type 0) : Type 0 where
  pub state : State
  pub size : ℤ
  pub self : Bool
  pub waiters : List Waiter
  pub jobs : List Job
  pub doing : List (Reply R)
  pub owes : Bool
  pub ready : List (Reply R)
  pub inbox : List Message
  pub gone : List ℕ
  pub log : List (Told R)
  pub asked : List ℕ
  pub over : List (ℕ × Bool)

abbrev pub fresh : {R : Type 0} → Threaded R
fresh = record {
  state = disconnected;
  size = pos 0;
  self = false;
  waiters = [];
  jobs = [];
  doing = [];
  owes = false;
  ready = [];
  inbox = [];
  gone = [];
  log = [];
  asked = [];
  over = [];
}

pub record Client (R : Type 0) : Type 0 where
  pub reacts : List (Told R) → List Ticket

unfoldable pub is_wanted : List ℕ → Ticket → Bool
is_wanted gone t = may_receive gone t.receiver && has_cb gone t.cb

module _ {R : Type 0} where
  -- The five `exec` functions, whose arguments go into the result.
  unfoldable pub exec : Ticket → Threaded R → Threaded R
  exec t d = record d {
    size = d.size +ℤ pos 1;
    self = true;
    jobs = d.jobs ++ (runs t ∷ []);
    asked = d.asked ++ (t.tag ∷ []);
  }

  unfoldable pub exec_each : List Ticket → Threaded R → Threaded R
  exec_each [] d = d
  exec_each (t ∷ ts) d = exec_each ts (exec t d)

  abbrev pub tell : Told R → Threaded R → Threaded R
  tell x d = record d { log = x ∷ d.log }

  -- `--m_queueSize == 0`, and then the driver lets itself go.
  unfoldable pub release : Threaded R → Threaded R
  release d =
      let n = d.size -ℤ pos 1 in
      record d { size = n; self = if eqb_ℤ n (pos 0) then false else d.self }

  abbrev pub add_waiter : Option ℕ → Option ℕ → Threaded R → Threaded R
  add_waiter none receiver d = d
  add_waiter (some c) receiver d =
      if is_alive d.gone c
      then record d { waiters = d.waiters ++ (record { cb = c; receiver = receiver } ∷ []) }
      else d

  unfoldable pub start_opening : Threaded R → Threaded R
  start_opening d = record (tell (state_changed connecting "") d) {
    state = connecting;
    size = d.size +ℤ pos 1;
    self = true;
    jobs = d.jobs ++ (opens ∷ []);
  }

  unfoldable pub connect : Option ℕ → Option ℕ → Threaded R → Threaded R
  connect cb receiver d = elim d.state [
    | connected ↦ (elim cb [
      | none ↦ d
      | some c ↦ if is_alive d.gone c then tell (opened c true "") d else d
    ])
    | connecting ↦ add_waiter cb receiver d
    | disconnected ↦ start_opening (add_waiter cb receiver d)
  ]

  module _ (client : Client R) where
    unfoldable pub react : Threaded R → Threaded R
    react d = exec_each (client.reacts d.log) d

    unfoldable pub deliver : Reply R → Threaded R → Threaded R
    deliver r d = if is_wanted d.gone r.ticket then react (tell (delivered r) d) else d

    -- One result that was ready; the last of a call ends it.
    unfoldable pub process : Reply R → Threaded R → Threaded R
    process r d =
        let told = deliver r d in
        if r.last
        then release
            (record told { over = told.over ++ ((r.ticket.tag, is_wanted d.gone r.ticket) ∷ []) })
        else told

    unfoldable pub process_each : List (Reply R) → Threaded R → Threaded R
    process_each [] d = d
    process_each (r ∷ rs) d = process_each rs (process r d)

    -- The function that is connected to `queryReady`: it takes all that is ready.
    unfoldable pub on_ready : Threaded R → Threaded R
    on_ready d = process_each d.ready (record d { ready = [] })

    unfoldable pub emit : Bool → String → Waiter → Threaded R → Threaded R
    emit b e w d =
        if may_receive d.gone w.receiver && is_alive d.gone w.cb
        then react (tell (opened w.cb b e) d)
        else d

    unfoldable pub emit_each : Bool → String → List Waiter → Threaded R → Threaded R
    emit_each b e [] d = d
    emit_each b e (w ∷ ws) d = emit_each b e ws (emit b e w d)

    unfoldable pub deliver_open_waiters : Bool → String → Threaded R → Threaded R
    deliver_open_waiters b e d = emit_each b e d.waiters (record d { waiters = [] })

    -- The function that is connected to `openned`.
    unfoldable pub on_opened : Bool → String → Threaded R → Threaded R
    on_opened b e d =
        let s = if b then connected else disconnected in
        let m = if b then "" else e in
        release (deliver_open_waiters b e (record (tell (state_changed s m) d) { state = s }))

    unfoldable pub handle : Message → Threaded R → Threaded R
    handle (openned b e) d = on_opened b e d
    handle query_ready d = on_ready d
