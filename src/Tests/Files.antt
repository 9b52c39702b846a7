-- ===== src/Tests/Files.antt =====
-- A migrations file for src/amigrations.cpp, read, listed and walked.
use asql.Base.{
  ℕ, zero, suc, ◌≡◌, refl, Bool, true, false, List, [], ◌∷◌, some, arith, ℤ, pos, negsuc, ◌≤ℤ◌,
  ◌<ℤ◌,
}
use asql.Migrations.Header.{
  Captures, up, down, match_header, pick, skip_spaces, span_digits, strip, to_int,
}
use asql.Migrations.Header.Grammar.{IsHeader, match_header_iff}
use asql.Migrations.Parser.{
  MigQuery, Migrations, parsed, start, from_string, read_lines, read_line, read_header, read_body,
  append_line,
}
use asql.Migrations.Parser.Validity.{IsValid, from_string-IsValid}
use asql.Migrations.Parser.Blocks.{Block, AllNew, lines, read_block, read_lines-blocks}
use asql.Migrations.Plan.{walk, sql_list_for, next_query}
use asql.Migrations.Plan.Up.{walk-sql_list_for}
use asql.Migrations.Plan.Down.{walk-sql_list_for_down}
use asql.Base.SortedMap.{find}
use asql.Tests.Text.{codes}

abbrev pub file : List (List ℕ)
file =
    codes "-- 1 up"
    ∷ codes "create"
    ∷ codes "-- 1 DOWN"
    ∷ codes "drop"
    ∷ codes "--2up no-transaction"
    ∷ codes "alter"
    ∷ codes "more"
    ∷ codes "-- 2 down"
    ∷ codes "undo"
    ∷ []

abbrev query : List ℕ → ℤ → Bool → ℤ × MigQuery
query q v nt = (v, record { query = q; version = v; no_transaction = nt })

abbrev pub blank : Migrations
blank = record {
  name = "app";
  text = [];
  ups = [];
  downs = [];
  active = negsuc 0;
  latest = negsuc 0;
}

abbrev pub plan : Migrations
plan = record blank {
  ups = query (codes "create\n") (pos 1) false ∷ query (codes "alter\nmore\n") (pos 2) true ∷ [];
  downs = query (codes "drop\n") (pos 1) false ∷ query (codes "undo\n") (pos 2) false ∷ [];
  latest = pos 2;
}

file_read : from_string (λ _. file) [] blank ≡ parsed plan
unfolding from_string read_lines read_line read_header read_body append_line match_header pick
    skip_spaces span_digits strip to_int
file_read = refl

pub plan-IsValid : IsValid plan
plan-IsValid = from_string-IsValid (λ _. file) [] blank file_read

-- Another name for the last theorem, at the same file.
from_string-IsValid_example : IsValid plan
from_string-IsValid_example = from_string-IsValid (λ _. file) [] blank file_read

abbrev header : Captures
header = record { digits = codes "2"; way = up; no_transaction = true }

header_matches : match_header (codes "  --2up no-transaction!") ≡ some header
unfolding match_header pick skip_spaces span_digits strip
header_matches = refl

match_header_iff_example : IsHeader (codes "  --2up no-transaction!") header
match_header_iff_example =
    (match_header_iff (codes "  --2up no-transaction!") header).0 header_matches

abbrev first_block : Block
first_block = record {
  header = codes "-- 1 up";
  captures = record { digits = codes "1"; way = up; no_transaction = false };
  body = codes "create" ∷ codes "more" ∷ [];
}

abbrev second_block : Block
second_block = record {
  header = codes "--1 down";
  captures = record { digits = codes "1"; way = down; no_transaction = false };
  body = codes "drop" ∷ [];
}

blocks-AllNew : AllNew start (first_block ∷ second_block ∷ [])
unfolding match_header pick skip_spaces span_digits strip to_int
blocks-AllNew = (
  record {
    block = record { headed = refl; plain = (refl, (refl, tt)) };
    filled = λ e. cc;
    counts = refl;
    fresh = refl;
  },
  (
    record {
      block = record { headed = refl; plain = (refl, tt) };
      filled = λ e. cc;
      counts = refl;
      fresh = refl;
    },
    tt,
  ),
)

read_lines-blocks_example :
    read_lines (lines (first_block ∷ second_block ∷ [])) start
    ≡ parsed (read_block (read_block start first_block) second_block)
read_lines-blocks_example = read_lines-blocks (first_block ∷ second_block ∷ []) start blocks-AllNew

-- Up from 0 to 2, and down again.
walk-sql_list_for_example :
    ((walk 3 (pos 0) (pos 2) plan).0 ≡ sql_list_for (pos 0) (pos 2) plan)
    × ((next_query (walk 3 (pos 0) (pos 2) plan).1 (pos 2) plan).query ≡ [])
    × ((walk 3 (pos 0) (pos 2) plan).1 ≤ℤ pos 2)
walk-sql_list_for_example =
    walk-sql_list_for 3 (pos 0) (pos 2) plan plan-IsValid (omega arith) (omega arith)

plan-Covers : (v : ℤ) → pos 0 <ℤ v → v ≤ℤ pos 2 → (e : MigQuery) × (find v plan.downs ≡ some e)
plan-Covers (pos zero) a b = absurd (omega arith)
plan-Covers (pos (suc zero)) a b =
    (record { query = codes "drop\n"; version = pos 1; no_transaction = false }, refl)
plan-Covers (pos (suc (suc zero))) a b =
    (record { query = codes "undo\n"; version = pos 2; no_transaction = false }, refl)
plan-Covers (pos (suc (suc (suc n)))) a b = absurd (omega arith)
plan-Covers (negsuc n) a b = absurd (omega arith)

walk-sql_list_for_down_example :
    walk 3 (pos 2) (pos 0) plan ≡ (sql_list_for (pos 2) (pos 0) plan, pos 0)
walk-sql_list_for_down_example =
    walk-sql_list_for_down 3 (pos 2) (pos 0) plan plan-IsValid (omega arith) plan-Covers
      (omega arith)
