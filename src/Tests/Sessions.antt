-- ===== src/Tests/Sessions.antt =====
-- A database of one table for the migrations of src/amigrations.cpp, with two migrations run on it.
use asql.Base.{
  ◌≡◌, refl, sym, ap, true, false, [], Option, none, some, arith, ℤ, pos, ◌++◌, reverse,
}
use asql.Migrations.Plan.{walk, sql_list_for, next_query, step_down, first_above}
use asql.Migrations.Session.{
  sqlite, Statement, begin, select_version, Reply, rows, failed, last, Database, World, success,
  migrate, set_search_path, create_table, commit, rollback, update_version, version_or_zero,
  resolve,
}
use asql.Migrations.Session.Follows.{Phase, IsOver, Follows}
use asql.Migrations.Session.Protocol.{migrate-Follows}
use asql.Migrations.Session.Served.{View, apply, current, Serves, scripts}
use asql.Migrations.Session.Progress.{migrate-Serves, migrate-sql_list_for}
use asql.Tests.Files.{plan, plan-IsValid}

abbrev answers_with : Statement → View → Reply
answers_with (select_version k lock n) v = rows (some (current v))
answers_with _ v = rows none

abbrev table : Database View
table = record {
  driver = sqlite;
  no_transaction_valid = true;
  exec = λ h q v. (answers_with q v, apply q v);
  exec_multi = λ h q v. (last, v);
}

answered : (q : Statement) (v : View) → (x : Option ℤ) × (answers_with q v ≡ rows x)
answered (select_version k lock n) v = (_, refl)
answered set_search_path v = (_, refl)
answered create_table v = (_, refl)
answered begin v = (_, refl)
answered commit v = (_, refl)
answered rollback v = (_, refl)
answered (update_version k n x) v = (_, refl)

abbrev read_of : Reply → ℤ
read_of (rows x) = version_or_zero x
read_of (failed e) = pos 0

read_back :
    (v : View) (x : Option ℤ) → rows (some (current v)) ≡ rows x → version_or_zero x ≡ current v
read_back v x e = sym (ap read_of e)

table-Serves : Serves table (λ v. v)
table-Serves = record {
  answers = answered;
  views = λ q s. refl;
  reads = λ k lock n s v e. read_back s v e;
  runs = λ h q s. refl;
  keeps = λ h q s. refl;
}

abbrev fresh : World View
fresh = record { server = record { stored = pos 0; pending = none }; log = [] }

migrate-sql_list_for_example :
    (w : World View) × (migrate table 4 plan (pos 2) false fresh ≡ some (success, w))
    × (scripts w.log ≡ reverse (sql_list_for (pos 0) (pos 2) plan) ++ [])
migrate-sql_list_for_example =
    migrate-sql_list_for table (λ v. v) table-Serves plan (pos 2) (pos 0) fresh plan-IsValid refl
      (omega arith) (omega arith) (omega arith)

walk_ends : (next_query (walk 2 (pos 0) (pos 2) plan).1 (pos 2) plan).query ≡ []
unfolding next_query walk first_above step_down
walk_ends = refl

migrate-Serves_example :
    (w : World View) × (migrate table 3 plan (pos 2) false fresh ≡ some (success, w))
    × (w.server ≡ record { stored = (walk 2 (pos 0) (pos 2) plan).1; pending = none })
    × (scripts w.log ≡ reverse (walk 2 (pos 0) (pos 2) plan).0 ++ [])
migrate-Serves_example =
    migrate-Serves table (λ v. v) table-Serves 2 plan (pos 2) (pos 0) fresh plan-IsValid refl
      (omega arith) (omega arith) walk_ends

two_run :
    (w : World View) × (migrate table 3 plan (pos 2) false fresh ≡ some (success, w))
    × (w.server ≡ record { stored = (walk 2 (pos 0) (pos 2) plan).1; pending = none })
    × (scripts w.log ≡ reverse (walk 2 (pos 0) (pos 2) plan).0 ++ [])
two_run =
    migrate-Serves table (λ v. v) table-Serves 2 plan (pos 2) (pos 0) fresh plan-IsValid refl
      (omega arith) (omega arith) walk_ends

migrate-Follows_example :
    (p : Phase) × IsOver p × Follows plan (resolve plan (pos 2)) false [] two_run.0.log p
migrate-Follows_example = migrate-Follows table 3 plan (pos 2) false fresh two_run.1
