-- ===== src/Tests/Tools.antt =====
-- A rollback with the tool of src/asql_migration.cpp.
use asql.Base.{◌≡◌, refl, true, false, [], ◌∷◌, some, pos}
use asql.Migrations.Header.{match_header, pick, skip_spaces, span_digits, strip, to_int}
use asql.Migrations.Parser.{from_string, read_lines, read_line, read_header, read_body, append_line}
use asql.Tool.{
  Options, Outside, code, asks_rollback, calls_migrate, read_files, pick_target, main, read_text,
  connect, load_text, loaded, confirmed, call_migrate,
}
use asql.Tool.Consent.{AgreedRun, main-AgreedRun}
use asql.Tests.Files.{file, blank}

abbrev options : Options
options = record {
  files = some [] ∷ [];
  confirm = true;
  show_sql = false;
  dry_run = false;
  target = some (some (pos 0));
  connection_set = true;
  name = "";
  base_name = "app";
}

abbrev outside : Outside
outside = record {
  lines_of = λ text. file;
  blank = blank;
  database_valid = true;
  opens = true;
  no_transaction_valid = true;
  no_transaction_opens = true;
  loads = λ name m. some (record m { active = pos 2 });
  typed = "yes";
  migrates = λ v dry. true;
}

rolls_back : main options outside ≡ (code 0, asks_rollback ∷ calls_migrate (pos 0) false ∷ [])
unfolding main read_text connect load_text loaded confirmed call_migrate read_files pick_target
    from_string read_lines read_line read_header read_body append_line match_header pick skip_spaces
    span_digits strip to_int
rolls_back = refl

main-AgreedRun_example : AgreedRun options outside (main options outside)
main-AgreedRun_example = main-AgreedRun options outside
