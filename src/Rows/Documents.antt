-- ===== src/Rows/Documents.antt =====
-- Where the larger documents of src/aresult.cpp hold the value of a row and a column: an array of objects,
-- an object of arrays, and rows beside the names of their columns.
use asql.Base.{
  ℕ, zero, suc, ◌+◌, ◌≤◌, ◌<◌, ◌≡◌, refl, sym, ap, ◌∙◌, ◌≢◌, false, List, [], ◌∷◌, ◌++◌, none, some,
  String, arith, Bool-cases, inl, inr, length, length-append, get_elem?, dec_le, ◌==◌,
}
use text.Mathlib.Text.{◌==◌ as str_eq}
use text.Mathlib.TextEquality.{eq_iff}
use text.Mathlib.TextPositions.{eq_refl}
use asql.Rows.{
  Table, Object, Part, names, grid, put, look, names_to, column_names, list_to, row_list, rows_to,
  indexed, all_objects, row_object, no_columns, append_row, columns_to, insert_columns,
  object_array,
}
use asql.Rows.Access.{Distinct, look-put, look-object_to}
use asql.Rows.Flat.{
  get_elem?-left, get_elem?-last, get_elem?-list_to, get_elem?-names_to, get_elem?-objects_to,
}

module _ {V J : Type 0} (t : Table V) (convert : V → J) where
  -- Each row is in its place in the array of objects, with its values under the names of their columns,
  -- where no two columns share a name.
  pub all_objects_hold :
      (row col : ℕ)
      → row < t.size
      → col < t.fields
      → Distinct t
      → (o : Object J) × (get_elem? (all_objects t convert) row ≡ some o)
        × (look (t.field_name col) o ≡ some (convert (t.value row col)))
  unfolding all_objects row_object
  all_objects_hold row col h c d = elim (Bool-cases (t.size == 0)) [
    | inl e ↦ absurd (ground arith)
    | inr e ↦ (
      row_object t convert row,
      rw e (get_elem?-objects_to t convert t.size row h),
      look-object_to t convert row t.fields col d (omega arith) c,
    )
  ]

  length-rows_to : (n : ℕ) → length (rows_to t convert n) ≡ n
  unfolding rows_to
  length-rows_to zero = refl
  length-rows_to (suc n) =
      length-append (rows_to t convert n) (row_list t convert n ∷ [])
      ∙ omega (arith, length-rows_to n)

  get_elem?-rows_to :
      (n row : ℕ) → row < n → get_elem? (rows_to t convert n) row ≡ some (row_list t convert row)
  unfolding rows_to
  get_elem?-rows_to zero row h = absurd (omega arith)
  get_elem?-rows_to (suc n) row h = elim (dec_le (suc row) n) [
    | yes l ↦
        get_elem?-left (rows_to t convert n) (row_list t convert n ∷ []) row
          (omega (arith, length-rows_to n))
        ∙ get_elem?-rows_to n row l
    | no l ↦
        let same : n ≡ row = omega arith in
        get_elem?-last (rows_to t convert n) (row_list t convert n) row (length-rows_to n ∙ same)
        ∙ ap (λ k. some (row_list t convert k)) same
  ]

  -- The document of columns and rows, under two different keys, holds each value in its row's list at
  -- its column, and each column's name at its place.
  pub indexed_holds :
      (column_key rows_key : String) (row col : ℕ)
      → column_key ≢ rows_key
      → row < t.size
      → col < t.fields
      → (columns : List String) × (lists : List (List J)) × (list : List J) × (look column_key
            (indexed t convert column_key rows_key)
          ≡ some (names columns))
        × (look rows_key (indexed t convert column_key rows_key) ≡ some (grid lists))
        × (get_elem? columns col ≡ some (t.field_name col))
        × (get_elem? lists row ≡ some list)
        × (get_elem? list col ≡ some (convert (t.value row col)))
  unfolding indexed column_names row_list
  indexed_holds column_key rows_key row col n h c = (
    names_to t t.fields,
    rows_to t convert t.size,
    list_to t convert row t.fields,
    at_columns,
    look-put rows_key rows_key (grid (rows_to t convert t.size)) keys ∙ rw (eq_refl rows_key) refl,
    get_elem?-names_to t t.fields col c,
    get_elem?-rows_to t.size row h,
    get_elem?-list_to t convert row t.fields col c,
  )
    where
      columns : Part J
      columns = names (names_to t t.fields)

      keys : Object (Part J)
      keys = put column_key columns []

      other : str_eq rows_key column_key ≡ false
      other = elim (Bool-cases (str_eq rows_key column_key)) [
        | inl e ↦ absurd (n (sym ((eq_iff rows_key column_key).0 e)))
        | inr e ↦ e
      ]

      at_columns :
          look column_key (put rows_key (grid (rows_to t convert t.size)) keys)
          ≡ some (names (names_to t t.fields))
      at_columns =
          look-put rows_key column_key (grid (rows_to t convert t.size)) keys
          ∙ rw other (look-put column_key column_key columns [] ∙ rw (eq_refl column_key) refl)

  -- The values of a column, from the first row down.
  pub column : ℕ → ℕ → List J
  column col zero = []
  column col (suc n) = column col n ++ (convert (t.value n col) ∷ [])

  get_elem?-no_columns : (n i : ℕ) → i < n → get_elem? (no_columns t convert n) i ≡ some []
  unfolding no_columns
  get_elem?-no_columns zero i h = absurd (omega arith)
  get_elem?-no_columns (suc n) zero h = refl
  get_elem?-no_columns (suc n) (suc i) h = get_elem?-no_columns n i (omega arith)

  get_elem?-append_row :
      (row k j i : ℕ) (cs : List (List J)) (c : List J)
      → k + j ≡ i
      → get_elem? cs j ≡ some c
      → get_elem? (append_row t convert row k cs) j ≡ some (c ++ (convert (t.value row i) ∷ []))
  unfolding append_row
  get_elem?-append_row row k j i [] c s e = absurd (cc)
  get_elem?-append_row row k zero i (x ∷ cs) c s e =
      let same : k ≡ i = omega arith in
      ap (λ o. elim o [ none ↦ none | some y ↦ some (y ++ (convert (t.value row k) ∷ [])) ]) e
      ∙ ap (λ m. some (c ++ (convert (t.value row m) ∷ []))) same
  get_elem?-append_row row k (suc j) i (x ∷ cs) c s e =
      get_elem?-append_row row (suc k) j i cs c (omega arith) e

  get_elem?-columns_to :
      (n i : ℕ) → i < t.fields → get_elem? (columns_to t convert n) i ≡ some (column i n)
  unfolding columns_to column
  get_elem?-columns_to zero i h = get_elem?-no_columns t.fields i h
  get_elem?-columns_to (suc n) i h =
      get_elem?-append_row n 0 i i (columns_to t convert n) (column i n) (omega arith)
        (get_elem?-columns_to n i h)

  length-append_row :
      (row k : ℕ) (cs : List (List J)) → length (append_row t convert row k cs) ≡ length cs
  unfolding append_row
  length-append_row row k [] = refl
  length-append_row row k (c ∷ cs) = ap suc (length-append_row row (suc k) cs)

  length-no_columns : (n : ℕ) → length (no_columns t convert n) ≡ n
  unfolding no_columns
  length-no_columns zero = refl
  length-no_columns (suc n) = ap suc (length-no_columns n)

  length-columns_to : (n : ℕ) → length (columns_to t convert n) ≡ t.fields
  unfolding columns_to
  length-columns_to zero = length-no_columns t.fields
  length-columns_to (suc n) = length-append_row n 0 (columns_to t convert n) ∙ length-columns_to n

  differs :
      Distinct t
      → (i j : ℕ) → i < t.fields
      → j < t.fields
      → i ≢ j
      → str_eq (t.field_name i) (t.field_name j) ≡ false
  differs d i j a b n = elim (Bool-cases (str_eq (t.field_name i) (t.field_name j))) [
    | inl e ↦ absurd (n (d i j a b ((eq_iff (t.field_name i) (t.field_name j)).0 e)))
    | inr e ↦ e
  ]

  -- The columns from `k` on leave those before it.
  insert_columns-before :
      (k i : ℕ) (cs : List (List J)) (o : Object (List J))
      → Distinct t
      → i < k
      → k + length cs ≤ t.fields
      → look (t.field_name i) (insert_columns t convert k cs o) ≡ look (t.field_name i) o
  unfolding insert_columns
  insert_columns-before k i [] o d a l = refl
  insert_columns-before k i (c ∷ cs) o d a l =
      let other = differs d k i (omega arith) (omega arith) (λ e. omega (arith, e)) in
      insert_columns-before (suc k) i cs (put (t.field_name k) c o) d (omega arith) (omega arith)
      ∙ look-put (t.field_name k) (t.field_name i) c o
      ∙ rw other refl

  look-insert_columns :
      (k j i : ℕ) (cs : List (List J)) (c : List J) (o : Object (List J))
      → Distinct t
      → k + j ≡ i
      → k + length cs ≤ t.fields
      → get_elem? cs j ≡ some c
      → look (t.field_name i) (insert_columns t convert k cs o) ≡ some c
  unfolding insert_columns
  look-insert_columns k j i [] c o d s l e = absurd (cc)
  look-insert_columns k zero i (x ∷ cs) c o d s l e =
      let same : i ≡ k = omega arith in
      ap
        (λ m.
          look (t.field_name m) (insert_columns t convert (suc k) cs (put (t.field_name k) x o)))
        same
      ∙ insert_columns-before (suc k) k cs (put (t.field_name k) x o) d (omega arith) (omega arith)
      ∙ look-put (t.field_name k) (t.field_name k) x o
      ∙ rw (eq_refl (t.field_name k)) e
  look-insert_columns k (suc j) i (x ∷ cs) c o d s l e =
      look-insert_columns (suc k) j i cs c (put (t.field_name k) x o) d (omega arith) (omega arith)
        e

  -- The object of arrays holds under the name of each column its values from the first row to the last,
  -- where no two columns share a name.
  pub object_array_holds :
      (col : ℕ)
      → col < t.fields
      → Distinct t
      → look (t.field_name col) (object_array t convert) ≡ some (column col t.size)
  unfolding object_array
  object_array_holds col c d =
      look-insert_columns 0 col col (columns_to t convert t.size) (column col t.size) [] d
        (omega arith) (omega (arith, length-columns_to t.size)) (get_elem?-columns_to t.size col c)
