-- ===== src/Tests/Documents.antt =====
-- A result of two rows and two columns for src/aresult.cpp.
use asql.Base.{ℕ, zero, suc, ◌+◌, ◌*◌, ◌≡◌, refl, List, some, String, arith, get_elem?}
use asql.Rows.{Table, names, number, cells, look, flattened, to_json_object_array}
use asql.Rows.Access.{Distinct}
use asql.Rows.Flat.{flattened_formula}
use asql.Rows.Documents.{column, object_array_holds}

abbrev table : Table ℕ
table = record {
  size = 2;
  fields = 2;
  field_name = λ i. elim i [ zero ↦ "id" | suc n ↦ "name" ];
  value = λ row col. row * 10 + col;
}

table-Distinct : Distinct table
table-Distinct zero zero a b e = refl
table-Distinct zero (suc j) a b e = absurd (cc)
table-Distinct (suc i) zero a b e = absurd (cc)
table-Distinct (suc i) (suc j) a b e = omega arith

flattened_formula_example :
    (data_list : List ℕ) × (columns : List String) × (look "data" (flattened table suc)
      ≡ some (cells data_list))
    × (look "columns" (flattened table suc) ≡ some (names columns))
    × (look "rows" (flattened table suc) ≡ some (number 2))
    × (get_elem? data_list (1 * 2 + 0) ≡ some 11)
    × (get_elem? columns 0 ≡ some "id")
flattened_formula_example = flattened_formula table suc 1 0 (omega arith) (omega arith)

object_array_holds_example :
    look "id" (to_json_object_array table suc) ≡ some (column table suc 0 2)
object_array_holds_example = object_array_holds table suc 0 (omega arith) table-Distinct
