-- ===== src/Postgres.antt =====
-- ADriverPg: src/adriverpg.h and src/adriverpg.cpp, a driver over libpq, which answers when its socket
-- has something to read.
--
-- libpq is the record `Libpq`: what its calls answer is a function of everything that was called before,
-- so nothing is assumed of it. A query carries a tag, and the driver keeps which tags were asked and
-- which have left the queue; the program does not, and no operation reads them.
pub mod Sending
pub mod Serving
pub mod Opening
pub mod Notifications
pub mod Steps
pub mod Binding
pub mod Values
pub mod Facts
pub mod Invariant
mod Kept
mod Completed
mod Connecting
mod Handling
pub mod Order
pub mod Draining
pub mod Failing
pub mod Lost
use asql.Base.{
  ℕ, ◌≡◌, Bool, true, false, ◌&&◌, ◌||◌, not, Option, none, some, List, [], ◌∷◌, ◌++◌, String, ltb,
  if◌then◌else◌, ℤ, pos, eqb_ℤ, occ,
}

-- ADatabase::State
pub data State : Type 0 where
  disconnected connecting connected : State

-- ADatabase::PipelineStatus
pub data Pipeline : Type 0 where
  off on aborted : Pipeline

-- ExecStatusType, by what the driver tells apart.
pub data Status : Type 0 where
  tuples_ok single_tuple command_ok pipeline_sync other : Status

-- A PGresult, by its status and its error message.
pub record PgResult : Type 0 where
  pub status : Status
  pub message : String

-- QVariant, by what the driver reads of it: bytes of a text in UTF-8, of a JSON document in compact
-- form, of an identifier in the order of RFC 4122.
pub data JsonValue : Type 0 where
  boolean : Bool → JsonValue
  double : List ℕ → JsonValue
  literal : Option (List ℕ) → JsonValue
  array object : List ℕ → JsonValue
  nothing : JsonValue

pub data Variant : Type 0 where
  null unknown_type : Variant
  string : Option (List ℕ) → Variant
  bytes uuid : List ℕ → Variant
  int long_long : ℤ → Variant
  bool : Bool → Variant
  json_object json_array json_document : List ℕ → Variant
  json_value : JsonValue → Variant
  other_type : List ℕ → Variant

-- AResultPg
pub record Result : Type 0 where
  pub rows : Option PgResult
  pub query : List ℕ
  pub args : List Variant
  pub error : Bool
  pub error_string : String
  pub last : Bool

-- APreparedQuery
pub record Prepared : Type 0 where
  pub identification : ℤ
  pub sql : List ℕ

-- APGQuery. `cb` and `receiver` name objects that may go away.
pub record Query : Type 0 where
  pub tag : ℕ
  pub query : List ℕ
  pub prepared : Option Prepared
  pub result : Option Result
  pub params : List Variant
  pub cb : Option ℕ
  pub receiver : Option ℕ
  pub preparing : Bool
  pub single_row : Bool

-- What the driver does, with the calls of libpq.
pub data Effect : Type 0 where
  send_query : ℕ → List ℕ → Effect
  send_query_params : ℕ → List ℕ → List Variant → Effect
  send_prepare : ℕ → ℤ → List ℕ → Effect
  send_query_prepared : ℕ → ℤ → List Variant → Effect
  set_single_row flush sync enter_pipeline exit_pipeline cancel start finish : Effect
  state_changed : State → String → Effect
  delivered : ℕ → Result → Effect
  opened : ℕ → Bool → String → Effect
  called_back notification_received : String → String → Bool → Effect

-- The answers of PQflush and of PQconnectStart with PQsocket.
pub data Flushed : Type 0 where
  broken written pending : Flushed

pub data Started : Type 0 where
  no_connection no_socket a_socket : Started

-- Each answer is to the newest entry of the log. `identifier` is PQescapeIdentifier, in UTF-8, and empty
-- where it refuses.
pub record Libpq : Type 0 where
  pub sends : List Effect → Bool
  pub grants : List Effect → Bool
  pub flushes : List Effect → Flushed
  pub starts : List Effect → Started
  pub pipeline : List Effect → Pipeline
  pub message : List Effect → String
  pub identifier : String → List ℕ

-- The fields of the driver that sending a query reads and writes, with the log, the newest first, and the
-- objects that have gone.
pub record Link : Type 0 where
  pub state : State
  pub conn : Bool
  pub running : Bool
  pub syncs : ℤ
  pub auto_sync : Option Bool
  pub flush : Bool
  pub write_on : Bool
  pub prepared : List ℤ
  pub log : List Effect
  pub gone : List ℕ

-- OpenCaller
pub record Waiter : Type 0 where
  pub cb : ℕ
  pub receiver : Option ℕ

pub record Driver : Type 0 where
  pub link : Link
  pub queue : List Query
  pub waiters : List Waiter
  pub subscribed : List (String × Bool)
  pub self : Bool
  pub asked : List ℕ
  pub left : List (ℕ × Bool)

abbrev pub fresh_link : Link
fresh_link = record {
  state = disconnected;
  conn = false;
  running = false;
  syncs = pos 0;
  auto_sync = none;
  flush = false;
  write_on = false;
  prepared = [];
  log = [];
  gone = [];
}

abbrev pub fresh : Driver
fresh = record {
  link = fresh_link;
  queue = [];
  waiters = [];
  subscribed = [];
  self = false;
  asked = [];
  left = [];
}

abbrev pub note : Effect → Link → Link
note e l = record l { log = e ∷ l.log }

abbrev pub is_connected : Link → Bool
is_connected l = elim l.state [ connected ↦ true | disconnected ↦ false | connecting ↦ false ]

unfoldable pub set_state : State → String → Link → Link
set_state s status l = note (state_changed s status) (record l { state = s })

-- An object that is named and has not gone.
abbrev pub is_alive : List ℕ → ℕ → Bool
is_alive gone o = not (ltb 0 (occ o gone))

-- `!receiver || !receiver.isNull()`
abbrev pub may_receive : List ℕ → Option ℕ → Bool
may_receive gone none = true
may_receive gone (some o) = is_alive gone o

abbrev pub has_cb : List ℕ → Option ℕ → Bool
has_cb gone none = false
has_cb gone (some o) = is_alive gone o

-- The test of `done` and `doneError`.
unfoldable pub is_wanted : List ℕ → Query → Bool
is_wanted gone q = has_cb gone q.cb && may_receive gone q.receiver

abbrev pub error_result : String → Query → Result
error_result e q = record {
  rows = none;
  query = q.query;
  args = q.params;
  error = true;
  error_string = e;
  last = true;
}

-- What ADriverPg's functions give: a state, or no state, where the source uses what is not there, or
-- where the fuel runs out.
pub data Run : Type 0 where
  returns : Driver → Run
  undefined : Run
  runs_on : Run

infixl 5 ◌>>=◌
abbrev pub ◌>>=◌ : Run → (Driver → Run) → Run
returns d >>= f = f d
undefined >>= f = undefined
runs_on >>= f = runs_on

-- A query and whether its sending was accepted.
pub record Attempt : Type 0 where
  pub accepted : Bool
  pub query : Query
  pub link : Link
