-- ===== src/Cache.antt =====
-- ACache: src/acache.cpp. The cache is a list of its entries, the newest first: QMultiHash finds the
-- entries of one query from the newest to the oldest, and nothing the code does depends on the order
-- of different queries. Arguments and their equality, which is QVariantList's, are parameters; a
-- coroutine is named by the number of its data, and `now` is what the steady clock shows at a call.
pub mod Keys
pub mod Ledger
pub mod Agree
pub mod Invariant
pub mod Removal
pub mod Asking
pub mod SingleFlight
pub mod Outcomes
pub mod Flaws
use asql.Base.{
  ℕ, Bool, true, false, ◌&&◌, ◌||◌, not, List, [], ◌∷◌, ◌++◌, map, Option, none, some, String,
  if◌then◌else◌, ℤ, pos, negsuc, ltb_ℤ, leb_ℤ, ◌-ℤ◌, length,
}
use text.Mathlib.Text.{◌==◌ as str_eq}

-- AResult, as far as the cache asks: one without a driver, rows, or an error.
pub data Result : Type 0 where
  invalid : Result
  rows : ℕ → Result
  failed : String → Result

abbrev pub has_error : Result → Bool
has_error (rows n) = false
has_error _ = true

abbrev pub error_string : Result → String
error_string invalid = "INVALID DRIVER"
error_string (rows n) = ""
error_string (failed e) = e

-- ACacheReceiverCb; `checkReceiver` is that there is a receiver.
pub record Receiver : Type 0 where
  pub cb : ℕ
  pub receiver : Option ℕ

-- `emitResult` runs when the event loop comes to it: whether the result is handed on then.
abbrev pub emits : (ℕ → Bool) → (ℕ → Bool) → Receiver → Bool
emits awaited alive r = awaited r.cb && elim r.receiver [ none ↦ true | some o ↦ alive o ]

-- DbSource, with the fields that each of them uses.
pub data Source : Type 0 where
  unset : Source
  database : ℕ → Source
  pool : String → Source

module _ (A : Type 0) where
  -- ACacheValue with its key
  pub record Entry : Type 0 where
    pub query : String
    pub args : A
    pub receivers : List Receiver
    pub result : Result
    pub ready : Option ℤ

  -- The arguments of `requestData`, which its coroutine keeps while it waits.
  pub record Request : Type 0 where
    pub query : String
    pub args : A
    pub receiver : Receiver

  pub record Cache : Type 0 where
    pub entries : List Entry
    pub source : Source

  -- The calls that leave the cache, in their order: a result for the event loop to hand on, a request
  -- for a connection of a pool, and a query for a database. The last two are awaited.
  pub data Effect : Type 0 where
    schedules : Receiver → Result → Effect
    asks_pool : String → Request → Effect
    sends : ℕ → Request → Effect

-- What `co_await` gives for a query.
pub data Reply : Type 0 where
  unexpected : String → Reply
  replied : Result → Reply

-- What `co_await` gives for a connection of a pool.
pub data Connection : Type 0 where
  refused : String → Connection
  granted : ℕ → Connection

abbrev pub schedule_all : {A : Type 0} → Result → List Receiver → List (Effect A)
schedule_all r = map λ c. schedules c r

-- A cached result is scheduled without a look at the receiver.
abbrev pub unchecked : Receiver → Receiver
unchecked r = record r { receiver = none }

-- `maxAge >= 0ms` and older than that
abbrev pub is_stale : ℤ → ℤ → ℤ → Bool
is_stale now max_age t = leb_ℤ (pos 0) max_age && ltb_ℤ t (now -ℤ max_age)

-- `hasResultTP.has_value()` and before the cut
abbrev pub is_expired : ℤ → ℤ → Option ℤ → Bool
is_expired now max_age none = false
is_expired now max_age (some t) = ltb_ℤ t (now -ℤ max_age)

abbrev pub with_entries :
    {A : Type 0} → Cache A → List (Entry A) × List (Effect A) → Cache A × List (Effect A)
with_entries c (es, out) = (record c { entries = es }, out)

module _ {A : Type 0} (same_args : A → A → Bool) where
  abbrev pub is_at : String → A → Entry A → Bool
  is_at q a e = str_eq e.query q && same_args e.args a

  -- The entry is there: whether the request is settled, what becomes of the entry, and the calls.
  unfoldable pub hit :
      ℤ → ℤ → Receiver → Entry A → List (Entry A) → Bool × List (Entry A) × List (Effect A)
  hit now max_age r e rest = elim e.ready [
    | none ↦ (true, record e { receivers = e.receivers ++ (r ∷ []) } ∷ rest, [])
    | some t ↦
        if is_stale now max_age t || has_error e.result
        then (false, rest, [])
        else (true, e ∷ rest, schedules (unchecked r) e.result ∷ [])
  ]

  unfoldable pub search_or_queue :
      ℤ → ℤ → String → A → Receiver → List (Entry A) → Bool × List (Entry A) × List (Effect A)
  search_or_queue now max_age q a r [] = (false, [], [])
  search_or_queue now max_age q a r (e ∷ es) =
      let (found, es', out) = search_or_queue now max_age q a r es in
      if is_at q a e then hit now max_age r e es else (found, e ∷ es', out)

  -- The entry that the loop finds is taken out, and its receivers get the error.
  unfoldable pub fail_request :
      String → A → String → Receiver → List (Entry A) → List (Entry A) × List (Effect A)
  fail_request q a error r [] = ([], schedules r (failed error) ∷ [])
  fail_request q a error r (e ∷ es) =
      let (es', out) = fail_request q a error r es in
      if is_at q a e then (es, schedule_all (failed error) e.receivers) else (e ∷ es', out)

  -- `emplace` and the query, once there is a database.
  unfoldable pub send : ℕ → Request A → Cache A → Cache A × List (Effect A)
  send db req c = (
    record c {
      entries =
          record {
            query = req.query;
            args = req.args;
            receivers = req.receiver ∷ [];
            result = invalid;
            ready = none;
          }
          ∷ c.entries;
    },
    sends db req ∷ [],
  )

  -- `requestData` up to its first wait.
  unfoldable pub request_data : Request A → Cache A → Cache A × List (Effect A)
  request_data req c = elim c.source [
    | database db ↦ send db req c
    | pool name ↦ (c, asks_pool name req ∷ [])
    | unset ↦
        with_entries c (
          fail_request req.query req.args "Cache database source was not set" req.receiver
            c.entries)
  ]

  -- On from the wait for the pool: there is an error or a database.
  unfoldable pub got_database : Connection → Request A → Cache A → Cache A × List (Effect A)
  got_database (refused e) req c =
      with_entries c (fail_request req.query req.args e req.receiver c.entries)
  got_database (granted db) req c = send db req c

  -- The loop that stores a result: the receivers of the entry that it finds get the result.
  unfoldable pub store_result :
      ℤ → Result → Request A → List (Entry A) → List (Entry A) × List (Effect A)
  store_result now result req [] =
      ([], schedules req.receiver (failed "Queued cache request not found") ∷ [])
  store_result now result req (e ∷ es) =
      let (es', out) = store_result now result req es in
      if is_at req.query req.args e
      then (
        record e { result = result; ready = some now; receivers = [] } ∷ es,
        schedule_all result e.receivers,
      )
      else (e ∷ es', out)

  -- On from the wait for the query, to the end of `requestData`.
  unfoldable pub got_reply : ℤ → Reply → Request A → Cache A → Cache A × List (Effect A)
  got_reply now (unexpected e) req c =
      with_entries c (fail_request req.query req.args e req.receiver c.entries)
  got_reply now (replied result) req c = with_entries c (
      if has_error result
      then fail_request req.query req.args (error_string result) req.receiver c.entries
      else store_result now result req c.entries)

  abbrev unless_settled :
      Request A → Cache A → Bool × List (Entry A) × List (Effect A) → Cache A × List (Effect A)
  unless_settled req c (true, es, out) = (record c { entries = es }, out)
  unless_settled req c (false, es, out) = request_data req (record c { entries = es })

  -- `execExpiring`; what the search does before it fails makes no call.
  unfoldable pub exec_expiring : ℤ → ℤ → String → A → Receiver → Cache A → Cache A × List (Effect A)
  exec_expiring now max_age q a r c =
      unless_settled (record { query = q; args = a; receiver = r }) c
        (search_or_queue now max_age q a r c.entries)

  -- `exec`: no age is too old.
  abbrev pub exec : ℤ → String → A → Receiver → Cache A → Cache A × List (Effect A)
  exec now = exec_expiring now (negsuc 0)

  -- `clear`, with what it returns.
  unfoldable pub clear : String → A → List (Entry A) → Bool × List (Entry A)
  clear q a [] = (false, [])
  clear q a (e ∷ es) =
      let (cleared, es') = clear q a es in if is_at q a e then (true, es) else (cleared, e ∷ es')

  -- `expire` looks at the first entry alone.
  unfoldable pub expire : ℤ → ℤ → String → A → List (Entry A) → Bool × List (Entry A)
  expire now max_age q a [] = (false, [])
  expire now max_age q a (e ∷ es) =
      let (expired, es') = expire now max_age q a es in
      if is_at q a e
      then (if is_expired now max_age e.ready then (true, es) else (false, e ∷ es))
      else (expired, e ∷ es')

-- `expireAll`, with the number that it returns.
unfoldable pub expire_all : {A : Type 0} → ℤ → ℤ → List (Entry A) → ℕ × List (Entry A)
expire_all now max_age [] = (0, [])
expire_all now max_age (e ∷ es) =
    let (n, es') = expire_all now max_age es in
    if is_expired now max_age e.ready then (ℕ.suc n, es') else (n, e ∷ es')

unfoldable pub size : {A : Type 0} → Cache A → ℕ
size c = length c.entries

-- `setDatabasePool` and `setDatabase`: the source changes, the entries stay.
unfoldable pub set_database_pool : {A : Type 0} → String → Cache A → Cache A
set_database_pool name c = record c { source = pool name }

unfoldable pub set_database : {A : Type 0} → ℕ → Cache A → Cache A
set_database db c = record c { source = database db }

abbrev pub empty_cache : {A : Type 0} → Cache A
empty_cache = record { entries = []; source = unset }
