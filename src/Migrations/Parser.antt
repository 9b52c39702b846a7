-- ===== src/Migrations/Parser.antt =====
-- AMigrations::fromString of src/amigrations.cpp: a migrations file, line by line, into the two maps
-- of queries. QTextStream's division of the text into lines is a parameter.
pub mod Validity
pub mod Blocks
use asql.Base.{
  ℕ, Bool, true, false, ◌&&◌, not, List, [], ◌∷◌, ◌++◌, Option, none, some, String, if◌then◌else◌,
  ℤ, pos, negsuc, ltb_ℤ, eqb_ℤ,
}
use asql.Base.SortedMap.{find, insert}
use asql.Migrations.Header.{Way, up, down, Captures, is_some, match_header, to_int}

pub record MigQuery : Type 0 where
  pub query : List ℕ
  pub version : ℤ
  pub no_transaction : Bool

abbrev pub no_query : MigQuery
no_query = record { query = []; version = pos 0; no_transaction = false }

-- The variables of the loop; the two maps carry the names of the fields they end up in.
pub record Reading : Type 0 where
  pub ups : List (ℤ × MigQuery)
  pub downs : List (ℤ × MigQuery)
  pub version : ℤ
  pub latest : ℤ
  pub up_way : Bool
  pub no_transaction : Bool

-- `qFatal` ends the program with the version that stands twice.
pub data Parsed {ℓ} (A : Type ℓ) : Type ℓ where
  parsed : A → Parsed A
  duplicated : Way → ℤ → Parsed A

infixl 5 ◌>>=◌
abbrev pub ◌>>=◌ {ℓ κ} : {A : Type ℓ} {B : Type κ} → Parsed A → (A → Parsed B) → Parsed B
parsed a >>= f = f a
duplicated w v >>= f = duplicated w v

abbrev pub start : Reading
start = record {
  ups = [];
  downs = [];
  version = pos 0;
  latest = negsuc 0;
  up_way = true;
  no_transaction = false;
}

abbrev pub max_ℤ : ℤ → ℤ → ℤ
max_ℤ a b = if ltb_ℤ a b then b else a

abbrev pub is_up : Way → Bool
is_up up = true
is_up down = false

-- The assignments under a header that repeats no version.
abbrev pub at_header : Captures → ℤ → Reading → Reading
at_header c v r = record r {
  version = v;
  latest = max_ℤ r.latest v;
  up_way = is_up c.way;
  no_transaction = c.no_transaction;
}

-- A line that the pattern matches. The second group holds no other word than the two, so the branch
-- that sets the version to 0 has no counterpart.
unfoldable pub read_header : Captures → Reading → Parsed Reading
read_header c r =
    let v = to_int c.digits in
    if is_up c.way && is_some (find v r.ups)
    then duplicated up v
    else if not (is_up c.way) && is_some (find v r.downs)
    then duplicated down v
    else parsed (at_header c v r)

abbrev pub or_default : Option MigQuery → MigQuery
or_default none = no_query
or_default (some m) = m

-- `auto &mig = map[version]` and the three writes through it.
unfoldable pub append_line : ℤ → Bool → List ℕ → List (ℤ × MigQuery) → List (ℤ × MigQuery)
append_line v nt line m =
    insert v
      (record {
        query = (or_default (find v m)).query ++ (line ++ (b'\n' ∷ []));
        version = v;
        no_transaction = nt;
      })
      m

unfoldable pub read_body : List ℕ → Reading → Reading
read_body line r =
    if eqb_ℤ r.version (pos 0)
    then r
    else if r.up_way
    then record r { ups = append_line r.version r.no_transaction line r.ups }
    else record r { downs = append_line r.version r.no_transaction line r.downs }

unfoldable pub read_line : List ℕ → Reading → Parsed Reading
read_line line r = elim (match_header line) [
  | some c ↦ read_header c r
  | none ↦ parsed (read_body line r)
]

unfoldable pub read_lines : List (List ℕ) → Reading → Parsed Reading
read_lines [] r = parsed r
read_lines (line ∷ lines) r = do r' ← read_line line r; read_lines lines r'

-- AMigrationsPrivate, without the two database handles.
pub record Migrations : Type 0 where
  pub name : String
  pub text : List ℕ
  pub ups : List (ℤ × MigQuery)
  pub downs : List (ℤ × MigQuery)
  pub active : ℤ
  pub latest : ℤ

unfoldable pub from_string : (List ℕ → List (List ℕ)) → List ℕ → Migrations → Parsed Migrations
from_string lines_of text d = do
  r ← read_lines (lines_of text) start
  parsed (record d { text = text; latest = r.latest; ups = r.ups; downs = r.downs })
