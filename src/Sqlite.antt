-- ===== src/Sqlite.antt =====
-- The worker of ADriverSqlite, ASqliteThread of src/ADriverSqlite.cpp: what it makes of a call.
--
-- SQLite is a parameter: what sqlite3_prepare gives for a text, and for each statement that is run what
-- sqlite3_bind, sqlite3_step and sqlite3_changes64 give, one after the other. Where an answer of
-- sqlite3_step is asked for, the thread may have been interrupted instead.
pub mod Answers
pub mod Table
use asql.Base.{
  ℕ, zero, suc, Bool, true, false, Option, none, some, List, [], ◌∷◌, ◌++◌, map, String,
  if◌then◌else◌, ℤ, pos, negsuc, eqb_ℤ, ◌||◌, ◌&&◌, ◌==◌, leb,
}
use asql.Workers.{Ticket, Reply}

-- What sqlite3_column_type tells apart, with what is read.
pub data Cell : Type 0 where
  blob letters : List ℕ → Cell
  integer : ℤ → Cell
  float : List ℕ → Cell
  null : Cell

-- QVariant of a parameter, by the function that it is bound with.
pub data Param : Type 0 where
  null : Param
  blob letters : List ℕ → Param
  int int64 : ℤ → Param
  double : List ℕ → Param

-- AResultSqlite
pub record Result : Type 0 where
  pub query : List ℕ
  pub args : List Param
  pub fields : List String
  pub rows : List Cell
  pub error : Option String
  pub affected : ℤ

abbrev pub new_result : List ℕ → List Param → Result
new_result q args = record {
  query = q;
  args = args;
  fields = [];
  rows = [];
  error = none;
  affected = negsuc 0;
}

pub data Stepped : Type 0 where
  interrupted : Stepped
  row : List Cell → Stepped
  finished : Stepped
  failed : String → Stepped

-- A run of a statement.
pub record Running : Type 0 where
  pub columns : List String
  pub bound : List (Option String)
  pub steps : List Stepped
  pub changes : ℤ

-- What sqlite3_prepare_v2 gives for a text: an error, no statement and what follows, or a statement with
-- its text and what follows.
pub data Parsed : Type 0 where
  refused : String → Parsed
  blank : List ℕ → Parsed
  statement : List ℕ → List ℕ → Parsed

-- What `prepare` gives: an error, no statement and no error, for a text of blanks and comments, or a
-- statement.
pub data Preparation : Type 0 where
  unprepared : String → Preparation
  empty : Preparation
  prepared : Running → Preparation

-- What the loop over sqlite3_step comes to.
pub data Fetched : Type 0 where
  rows_of : List Cell → Fetched
  stopped : String → Fetched
  steps_on : Fetched

-- `fillRow` appends the cells of a row to those before.
unfoldable pub fetch : List Stepped → List Cell → Fetched
fetch [] rows = steps_on
fetch (interrupted ∷ xs) rows = stopped "Interrupt requested"
fetch (row cells ∷ xs) rows = fetch xs (rows ++ cells)
fetch (finished ∷ xs) rows = rows_of rows
fetch (failed e ∷ xs) rows = stopped e

-- `bindValues` stops at the first parameter that is not bound.
unfoldable pub bind_values : List (Option String) → List Param → Option String
bind_values bs [] = none
bind_values [] (p ∷ ps) = none
bind_values (some e ∷ bs) (p ∷ ps) = some e
bind_values (none ∷ bs) (p ∷ ps) = bind_values bs ps

abbrev pub with_error : String → Result → Result
with_error e r = record r { error = some e }

-- The part that `query`, `queryPrepared` and `queryExec` share; `none` where it does not come to an end.
unfoldable pub run_statement : Running → Result → Option Result
run_statement s r =
    let r' = record r { fields = s.columns } in
    elim (fetch s.steps []) [
      | steps_on ↦ none
      | stopped e ↦ some (with_error e r')
      | rows_of cells ↦ some (record r' { affected = s.changes; rows = cells })
    ]

unfoldable pub run_bound : Running → Result → Option Result
run_bound s r = elim (bind_values s.bound r.args) [
  | some e ↦ some (with_error e r)
  | none ↦ run_statement s r
]

abbrev pub final : Ticket → Result → Reply Result
final t r = record { ticket = t; result = r; last = true }

-- `query`: the one result is put where the caller's thread finds it, however the function is left.
unfoldable pub query : Ticket → Preparation → Result → Option (List (Reply Result))
query t (unprepared e) r = some (final t (with_error e r) ∷ [])
query t empty r = some (final t r ∷ [])
query t (prepared s) r = elim (run_bound s r) [ none ↦ none | some x ↦ some (final t x ∷ []) ]

unfoldable pub is_cached : ℤ → List ℤ → Bool
is_cached k [] = false
is_cached k (x ∷ xs) = eqb_ℤ x k || is_cached k xs

unfoldable pub uncache : ℤ → List ℤ → List ℤ
uncache k [] = []
uncache k (x ∷ xs) = let rest = uncache k xs in if eqb_ℤ x k then rest else x ∷ rest

-- The statement goes from the cache where it cannot be reset, or its parameters not be cleared.
abbrev pub after_run : ℤ → Bool → List ℤ → List ℤ
after_run k broken cache = if broken then uncache k cache else cache

-- What the cache holds after a statement was asked for that was not there.
abbrev pub cached_anew : ℤ → Preparation → List ℤ → List ℤ
cached_anew k (unprepared e) cache = cache
cached_anew k empty cache = cache
cached_anew k (prepared s) cache = k ∷ cache

-- `queryPrepared`, with the identifications of the statements in the cache, what `prepare` gives where it
-- is called, and the run of a statement that is there; `broken` tells whether sqlite3_reset or
-- sqlite3_clear_bindings fails, which are called without a statement too.
unfoldable pub query_prepared :
    Ticket
    → ℤ
    → Preparation
    → Running
    → Bool
    → Result
    → List ℤ
    → Option (List (Reply Result) × List ℤ)
query_prepared t k p s broken r cache =
    let is_found = is_cached k cache in
    elim (query t (if is_found then prepared s else p) r) [
      | none ↦ none
      | some rs ↦ some (rs, after_run k broken (if is_found then cache else cached_anew k p cache))
    ]

-- `std::isspace`
abbrev pub is_space : ℕ → Bool
is_space c = c == b' ' || (leb 9 c && leb c 13)

unfoldable pub skip_space : List ℕ → List ℕ
skip_space [] = []
skip_space (c ∷ cs) = let rest = skip_space cs in if is_space c then rest else c ∷ cs

-- The loop of `queryExec`: `sent` are the results that are already put out, and `current` the one in
-- hand, of which `emits` tells whether it is of a statement.
module _ (parse : List ℕ → Parsed) (running : ℕ → Running) (t : Ticket) (whole : List ℕ) where
  abbrev pub put_out : Bool → List (Reply Result) → Result → List (Reply Result)
  put_out emits sent r =
      if emits then sent ++ (record { ticket = t; result = r; last = false } ∷ []) else sent

  abbrev pub in_hand : Bool → Result → Result
  in_hand emits r = if emits then new_result whole [] else r

  unfoldable pub exec_loop :
      ℕ → ℕ → List ℕ → Bool → List (Reply Result) → Result → Option (List (Reply Result))
  exec_loop zero n sql emits sent r = none
  exec_loop (suc fuel) n [] emits sent r = some (sent ++ (final t r ∷ []))
  exec_loop (suc fuel) n (c ∷ cs) emits sent r = elim (parse (c ∷ cs)) [
    | refused e ↦ some (sent ++ (final t (with_error e r) ∷ []))
    | blank rest ↦ exec_loop fuel n rest emits sent r
    | statement sql rest ↦
        elim (run_statement (running n) (record (in_hand emits r) { query = sql })) [
          | none ↦ none
          | some x ↦ elim x.error [
            | some e ↦ some (put_out emits sent r ++ (final t x ∷ []))
            | none ↦ exec_loop fuel (suc n) (skip_space rest) true (put_out emits sent r) x
          ]
        ]
  ]

  unfoldable pub query_exec : ℕ → Option (List (Reply Result))
  query_exec fuel = exec_loop fuel 0 whole false [] (new_result whole [])
