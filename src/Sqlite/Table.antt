-- ===== src/Sqlite/Table.antt =====
-- The rows of AResultSqlite, src/ADriverSqlite.cpp, which are kept in one list, and how they are read.
use asql.Base.{
  ℕ, suc, ◌<◌, ◌+◌, ◌*◌, ◌/◌, Option, some, List, [], ◌∷◌, ◌++◌, map, String, if◌then◌else◌, ℤ, pos,
  negsuc, ◌≡◌, refl, sym, ap, ◌∙◌, arith, length, append_assoc, append-nil, get_elem?,
}
use native.Mathlib.Nat.{mul-div_left}
use asql.Sqlite.{Cell, Result, row, finished, Running, rows_of, fetch, run_statement}
use asql.Workers.Grid.{concat, IsWide, length-concat, get_elem?-concat}
use text.Mathlib.Text.{◌==◌ as str_eq}

-- `size`: rows of no columns are not counted.
unfoldable pub size : Result → ℕ
size r = elim r.fields [ [] ↦ 0 | f ∷ fs ↦ length r.rows / length r.fields ]

unfoldable pub fields : Result → ℕ
fields r = length r.fields

-- `value`, where `at` asserts that the place is there.
unfoldable pub value : Result → ℕ → ℕ → Option Cell
value r i j = get_elem? r.rows (i * length r.fields + j)

-- `QStringList::indexOf`, from a place on; -1 for none.
unfoldable pub index_of : String → List String → ℕ → ℤ
index_of name [] i = negsuc 0
index_of name (f ∷ fs) i =
    let rest = index_of name fs (suc i) in if str_eq f name then pos i else rest

unfoldable pub index_of_field : String → Result → ℤ
index_of_field name r = index_of name r.fields 0

unfoldable pub field_name : Result → ℕ → Option String
field_name r j = get_elem? r.fields j

fetch-rows :
    (rs : List (List Cell)) (before : List Cell)
    → fetch (map row rs ++ (finished ∷ [])) before ≡ rows_of (before ++ concat rs)
unfolding fetch
fetch-rows [] before = ap rows_of (sym (append-nil before))
fetch-rows (r ∷ rs) before =
    fetch-rows rs (before ++ r) ∙ ap rows_of (append_assoc before r (concat rs))

-- What a statement gives that ends after some rows, each as wide as it has columns, is read back from its
-- result: the cell of a row and of a column that is there is that of the row that was given. The
-- number of rows is theirs, and there is no error that was not there before.
pub run_statement-value :
    (s : Running) (r : Result) (rs : List (List Cell)) (i j : ℕ) (cells : List Cell)
    → s.steps ≡ map row rs ++ (finished ∷ [])
    → IsWide (length s.columns) rs
    → get_elem? rs i ≡ some cells
    → j < length s.columns
    → (x : Result) × (run_statement s r ≡ some x)
      × (x.error ≡ r.error)
      × (value x i j ≡ get_elem? cells j)
      × (size x ≡ length rs)
unfolding run_statement value size
run_statement-value s r rs i j cells e h f l =
    let x : Result = record r { fields = s.columns; affected = s.changes; rows = concat rs } in
    (
      x,
      fetched (ap (λ l. fetch l []) e ∙ fetch-rows rs []),
      refl,
      get_elem?-concat (length s.columns) rs i j cells h f l,
      sized s.columns (concat rs) (length-concat (length s.columns) rs h) (omega arith),
    )
  where
    fetched :
        fetch s.steps [] ≡ rows_of (concat rs)
        → run_statement s r
          ≡ some (record r { fields = s.columns; affected = s.changes; rows = concat rs })
    fetched g = ground (arith, g)

    sized :
        (cs : List String) (cells : List Cell)
        → length cells ≡ length rs * length cs
        → 0 < length cs
        → elim cs as (λ y. ℕ) [ [] ↦ 0 | f ∷ fs ↦ length cells / length cs ] ≡ length rs
    sized [] cells e l = absurd (omega arith)
    sized (c ∷ cs) cells e l = rw e (mul-div_left (length rs) l)
