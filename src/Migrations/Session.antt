-- ===== src/Migrations/Session.antt =====
-- The coroutines of src/amigrations.cpp, `loadCoroutine` and `migrateCoroutine`, over a database that
-- is a parameter. A coroutine passes a world on, and each `co_return` is a stop with what is delivered.
pub mod Rules
pub mod Follows
pub mod Protocol
pub mod Served
pub mod Progress
use asql.Base.{
  ℕ, zero, suc, Bool, true, false, ◌&&◌, not, List, [], ◌∷◌, Option, none, some, String,
  if◌then◌else◌, ℤ, pos, ltb_ℤ,
}
use asql.Migrations.Parser.{MigQuery, Migrations}
use asql.Migrations.Plan.{is_empty, next_query}

-- What `driverName()` answers, as far as the code asks.
pub data Driver : Type 0 where
  sqlite postgres another : Driver

-- `db` and `noTransactionDB`.
pub data Handle : Type 0 where
  main no_transaction : Handle

-- The placeholders of a query: `?` for sqlite, `$1` and `$2` for the others.
pub data Marks : Type 0 where
  question numbered : Marks

pub data Statement : Type 0 where
  set_search_path create_table begin commit rollback : Statement
  -- with whether the row is locked, which is by `FOR UPDATE` where the marks are numbered
  select_version : Marks → Bool → String → Statement
  update_version : Marks → String → ℤ → Statement

-- An error, or the first column of the first row, if there is a row.
pub data Reply : Type 0 where
  failed : String → Reply
  rows : Option ℤ → Reply

-- The results that `execMulti` delivers one by one: the last ends them, and so does an error.
pub data Results : Type 0 where
  last : Results
  more : Results → Results
  broken : String → Results

pub record Database (S : Type 0) : Type 0 where
  pub driver : Driver
  pub no_transaction_valid : Bool
  pub exec : Handle → Statement → S → Reply × S
  pub exec_multi : Handle → List ℕ → S → Results × S

-- What was sent, and whether it succeeded. A reading is kept with the version that it gave.
pub data Event : Type 0 where
  sent : Handle → Statement → Reply → Event
  ran : Handle → List ℕ → Bool → Event

-- The database, and what was sent to it, the newest first.
pub record World (S : Type 0) : Type 0 where
  pub server : S
  pub log : List Event

pub data Failure : Type 0 where
  server_error : String → Failure
  beyond_latest : ℤ → ℤ → Failure
  invalid_target cannot_dry_run : Failure

pub data Delivery : Type 0 where
  success : Delivery
  failure : Failure → Delivery

pub data Flow (A : Type 0) : Type 0 where
  go : A → Flow A
  stop : Delivery → Flow A

abbrev pub M : Type 0 → Type 0 → Type 0
M S A = World S → Flow A × World S

abbrev pub after : {S A B : Type 0} → Flow A × World S → (A → M S B) → Flow B × World S
after (go a, w) f = f a w
after (stop r, w) f = (stop r, w)

infixl 5 ◌>>=◌ ◌>>◌
abbrev pub ◌>>=◌ : {S A B : Type 0} → M S A → (A → M S B) → M S B
◌>>=◌ m f w = after (m w) f

abbrev pub ◌>>◌ : {S B : Type 0} → M S (Unit {0}) → M S B → M S B
m >> k = m >>= λ _. k

abbrev pub pure : {S A : Type 0} → A → M S A
pure a w = (go a, w)

abbrev pub halt : {S A : Type 0} → Delivery → M S A
halt r w = (stop r, w)

abbrev pub marks : Driver → Marks
marks sqlite = question
marks _ = numbered

-- `SELECT version`: no row counts as version 0.
abbrev pub version_or_zero : Option ℤ → ℤ
version_or_zero none = pos 0
version_or_zero (some v) = v

abbrev pub drain : Results → Delivery
drain last = success
drain (more r) = drain r
drain (broken e) = failure (server_error e)

abbrev pub is_success : Delivery → Bool
is_success success = true
is_success (failure f) = false

abbrev pub handle : Bool → Handle
handle true = no_transaction
handle false = main

-- Whether the transaction ends by its own rollback, where no query is left, or by a commit.
pub data Ending : Type 0 where
  nothing_left migrated : Ending

-- An error is delivered and ends the coroutine.
abbrev pub answer : {S : Type 0} → Reply → World S → Flow (Option ℤ) × World S
answer (failed e) w = (stop (failure (server_error e)), w)
answer (rows v) w = (go v, w)

abbrev pub outcome : {S : Type 0} → Delivery → World S → Flow (Unit {0}) × World S
outcome success w = (go tt, w)
outcome (failure f) w = (stop (failure f), w)

abbrev pub is_postgres : Driver → Bool
is_postgres postgres = true
is_postgres _ = false

abbrev pub proceed :
    {S : Type 0}
    → Flow (Unit {0}) × World S
    → (World S → Option (Delivery × World S))
    → Option (Delivery × World S)
proceed (go _, w) next = next w
proceed (stop r, w) next = some (r, w)

-- A negative target version asks for the latest.
abbrev pub resolve : Migrations → ℤ → ℤ
resolve d target_version = if ltb_ℤ target_version (pos 0) then d.latest else target_version

module _ {S : Type 0} (db : Database S) where
  -- `co_await` of a statement: an error is delivered and ends the coroutine.
  unfoldable pub exec : Handle → Statement → M S (Option ℤ)
  exec h q w =
      let (r, s) = db.exec h q w.server in
      answer r (record { server = s; log = sent h q r ∷ w.log })

  -- A statement whose result nobody awaits.
  unfoldable pub post : Handle → Statement → World S → World S
  post h q w = let (r, s) = db.exec h q w.server in record { server = s; log = sent h q r ∷ w.log }

  -- The inner loop: the results of the script are awaited up to the last or to an error.
  unfoldable pub run_script : Handle → List ℕ → M S (Unit {0})
  run_script h q w =
      let (r, s) = db.exec_multi h q w.server in
      outcome (drain r) (record { server = s; log = ran h q (is_success (drain r)) ∷ w.log })

  module _ (d : Migrations) (target : ℤ) (dry_run : Bool) where
    abbrev pub check_version : ℤ → M S ℤ
    check_version active =
        if ltb_ℤ d.latest active
        then halt (failure (beyond_latest active d.latest))
        else pure active

    unfoldable pub read_version : Bool → M S ℤ
    read_version lock = do
      r ← exec main (select_version (marks db.driver) lock d.name)
      check_version (version_or_zero r)

    unfoldable pub run_migration : MigQuery → M S Ending
    run_migration m = if m.no_transaction && dry_run then halt (failure cannot_dry_run) else do
      _ ← exec main (update_version (marks db.driver) d.name m.version)
      run_script (handle m.no_transaction) m.query
      if dry_run && not m.no_transaction then halt success else pure migrated

    -- What happens while the transaction runs.
    unfoldable pub in_transaction : M S Ending
    in_transaction = do
      active ← read_version true
      let m = next_query active target d
      if is_empty m.query then pure nothing_left else run_migration m

    -- The destructor of the transaction rolls back where the coroutine leaves it running.
    abbrev pub leave : Flow Ending × World S → Flow (Unit {0}) × World S
    leave (stop r, w) = (stop r, post main rollback w)
    leave (go nothing_left, w) = after (exec main rollback w) λ _. halt success
    leave (go migrated, w) = after (exec main commit w) λ _. pure tt

    -- One round of the outer loop.
    unfoldable pub round : M S (Unit {0})
    round = do
      active ← read_version false
      if is_empty (next_query active target d).query
          then halt success
          else do _ ← exec main begin; λ w. leave (in_transaction w)

    -- `none` where the fuel runs out.
    unfoldable pub rounds : ℕ → World S → Option (Delivery × World S)
    rounds zero w = none
    rounds (suc f) w = proceed (round w) (rounds f)

  unfoldable pub migrate : ℕ → Migrations → ℤ → Bool → World S → Option (Delivery × World S)
  migrate fuel d target_version dry_run w =
      let target = resolve d target_version in
      let run = rounds d target dry_run fuel w in
      if ltb_ℤ target (pos 0) then some (failure invalid_target, w) else run

  unfoldable pub set_search_paths : M S (Option ℤ)
  set_search_paths = do
    r ← exec main set_search_path
    if db.no_transaction_valid then exec no_transaction set_search_path else pure r

  -- The statements of `loadCoroutine`; they end with the active version.
  unfoldable pub load_version : String → M S ℤ
  load_version name = do
    _ ← (if is_postgres db.driver then set_search_paths else pure none)
    _ ← exec main create_table
    r ← exec main (select_version (marks db.driver) false name)
    pure (version_or_zero r)

  -- `d` keeps the name that was asked for, and the active version where it was read.
  unfoldable pub load : String → Migrations → World S → Delivery × Migrations × World S
  load name d w =
      let (r, w') = load_version name w in
      let d' : Migrations = record d { name = name } in
      elim r [ go v ↦ (success, record d' { active = v }, w') | stop e ↦ (e, d', w') ]
