-- ===== src/Tool.antt =====
-- The migration tool, src/asql_migration.cpp. What the command line, the files, the database and the user
-- answer is a record; the tool's exit and what it did before are the result.
pub mod Consent
use asql.Base.{
  ℕ, Bool, true, false, ◌&&◌, ◌||◌, not, List, [], ◌∷◌, ◌++◌, Option, none, some, String,
  if◌then◌else◌, ℤ, pos, negsuc, ltb_ℤ, leb_ℤ, eqb_ℤ,
}
use text.Mathlib.Text.{◌==◌ as str_eq}
use asql.Migrations.Header.{Way}
use asql.Migrations.Parser.{Migrations, Parsed, parsed, duplicated, from_string}
use asql.Migrations.Plan.{sql_for}

-- A file is its text, or `none` where it cannot be opened; `target` is the option's value as toInt reads
-- it, if the option is set.
pub record Options : Type 0 where
  pub files : List (Option (List ℕ))
  pub confirm : Bool
  pub show_sql : Bool
  pub dry_run : Bool
  pub target : Option (Option ℤ)
  pub connection_set : Bool
  pub name : String
  pub base_name : String

-- `loads` gives the migrations with their active version, where `load` succeeds.
pub record Outside : Type 0 where
  pub lines_of : List ℕ → List (List ℕ)
  pub blank : Migrations
  pub database_valid : Bool
  pub opens : Bool
  pub no_transaction_valid : Bool
  pub no_transaction_opens : Bool
  pub loads : String → Migrations → Option Migrations
  pub typed : String
  pub migrates : ℤ → Bool → Bool

-- An exit code, or the end of the program by `qFatal`.
pub data Exit : Type 0 where
  code : ℕ → Exit
  fatal : Way → ℤ → Exit

pub data Act : Type 0 where
  shows : List ℕ → Act
  asks_rollback asks_migrate : Act
  calls_migrate : ℤ → Bool → Act

unfoldable pub read_files : List (Option (List ℕ)) → Option (List ℕ)
read_files [] = some []
read_files (none ∷ fs) = none
read_files (some text ∷ fs) = elim (read_files fs) [ none ↦ none | some rest ↦ some (text ++ rest) ]

-- The target version, or `none` where the option is no version.
unfoldable pub pick_target : Option (Option ℤ) → Option ℤ
pick_target none = some (negsuc 0)
pick_target (some none) = none
pick_target (some (some v)) = if ltb_ℤ v (pos 0) then none else some v

abbrev pub new_version : ℤ → ℤ → ℤ
new_version target latest =
    if not (eqb_ℤ target (negsuc 0)) && leb_ℤ target latest then target else latest

abbrev pub is_refused : ℤ → ℤ → String → Bool
is_refused new active typed =
    (ltb_ℤ new active && not (str_eq typed "yes")) || (ltb_ℤ active new && not (str_eq typed "y"))

abbrev pub question : ℤ → ℤ → Act
question new active = if ltb_ℤ new active then asks_rollback else asks_migrate

abbrev pub add : List Act → Exit × List Act → Exit × List Act
add acts (e, more) = (e, acts ++ more)

module _ (o : Options) (w : Outside) where
  unfoldable pub call_migrate : ℤ → Exit × List Act
  call_migrate new =
      (code (if w.migrates new o.dry_run then 0 else 9), calls_migrate new o.dry_run ∷ [])

  unfoldable pub confirmed : ℤ → ℤ → Exit × List Act
  confirmed new active =
      if not o.confirm || ltb_ℤ new active
      then add (question new active ∷ [])
          (if is_refused new active w.typed then (code 8, []) else call_migrate new)
      else call_migrate new

  -- On from a `load` that succeeded.
  unfoldable pub loaded : ℤ → Migrations → Exit × List Act
  loaded target d =
      let new = new_version target d.latest in
      if eqb_ℤ d.active new
      then (code 0, [])
      else add (if o.show_sql then shows (sql_for d.active new d) ∷ [] else [])
          (confirmed new d.active)

  unfoldable pub load_text : ℤ → String → List ℕ → Exit × List Act
  load_text target name sql = elim (from_string w.lines_of sql w.blank) [
    | duplicated way v ↦ (fatal way v, [])
    | parsed d ↦ elim (w.loads name d) [ none ↦ (code 7, []) | some d' ↦ loaded target d' ]
  ]

  unfoldable pub connect : ℤ → String → List ℕ → Exit × List Act
  connect target name sql =
      if not w.database_valid
      then (code 5, [])
      else if not w.opens
      then (code 6, [])
      else if w.no_transaction_valid && not w.no_transaction_opens
      then (code 6, [])
      else load_text target name sql

  abbrev pub first_name : String
  first_name = if str_eq o.name "" then o.base_name else o.name

  unfoldable pub read_text : ℤ → Exit × List Act
  read_text target = if str_eq first_name "" then (code 4, []) else elim (read_files o.files) [
    | none ↦ (code 5, [])
    | some sql ↦ connect target first_name sql
  ]

  unfoldable pub main : Exit × List Act
  main = elim o.files [
    | [] ↦ (code 1, [])
    | f ∷ fs ↦ elim (pick_target o.target) [
      | none ↦ (code 2, [])
      | some target ↦ if not o.connection_set then (code 3, []) else read_text target
    ]
  ]
