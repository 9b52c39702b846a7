-- ===== src/Rows/Flat.antt =====
-- Where the documents of src/aresult.cpp hold the value of a row and a column.
use asql.Base.{
  ℕ, zero, suc, ◌+◌, ◌*◌, ◌<◌, ◌≡◌, refl, sym, ap, ◌∙◌, List, [], ◌∷◌, ◌++◌, some, String, arith,
  length, length-append, get_elem?, dec_le,
}
use asql.Rows.{
  Table, names, number, cells, put, look, names_to, column_names, list_to, row_list, data_to,
  flattened, objects_to, row_object,
}

module _ {A : Type 0} where
  pub get_elem?-left :
      (xs ys : List A) (i : ℕ) → i < length xs → get_elem? (xs ++ ys) i ≡ get_elem? xs i
  get_elem?-left [] ys i h = absurd (omega arith)
  get_elem?-left (x ∷ xs) ys zero h = refl
  get_elem?-left (x ∷ xs) ys (suc i) h = get_elem?-left xs ys i (omega arith)

  pub get_elem?-right :
      (xs ys : List A) (i : ℕ) → get_elem? (xs ++ ys) (length xs + i) ≡ get_elem? ys i
  get_elem?-right [] ys i = let same : 0 + i ≡ i = omega arith in ap (get_elem? ys) same
  get_elem?-right (x ∷ xs) ys i =
      let same : suc (length xs) + i ≡ suc (length xs + i) = omega arith in
      ap (get_elem? (x ∷ (xs ++ ys))) same ∙ get_elem?-right xs ys i

  -- The entry behind the end of a list, where one is appended.
  pub get_elem?-last :
      (xs : List A) (x : A) (i : ℕ) → length xs ≡ i → get_elem? (xs ++ (x ∷ [])) i ≡ some x
  get_elem?-last xs x i e =
      let same : i ≡ length xs + 0 = omega (arith, e) in
      ap (get_elem? (xs ++ (x ∷ []))) same ∙ get_elem?-right xs (x ∷ []) 0

module _ {V : Type 0} (t : Table V) where
  length-names_to : (n : ℕ) → length (names_to t n) ≡ n
  unfolding names_to
  length-names_to zero = refl
  length-names_to (suc n) =
      length-append (names_to t n) (t.field_name n ∷ []) ∙ omega (arith, length-names_to n)

  pub get_elem?-names_to : (n i : ℕ) → i < n → get_elem? (names_to t n) i ≡ some (t.field_name i)
  unfolding names_to
  get_elem?-names_to zero i h = absurd (omega arith)
  get_elem?-names_to (suc n) i h = elim (dec_le (suc i) n) [
    | yes l ↦
        get_elem?-left (names_to t n) (t.field_name n ∷ []) i (omega (arith, length-names_to n))
        ∙ get_elem?-names_to n i l
    | no l ↦
        let same : n ≡ i = omega arith in
        get_elem?-last (names_to t n) (t.field_name n) i (length-names_to n ∙ same)
        ∙ ap (λ k. some (t.field_name k)) same
  ]

  module _ {J : Type 0} (convert : V → J) where
    pub length-list_to : (row n : ℕ) → length (list_to t convert row n) ≡ n
    unfolding list_to
    length-list_to row zero = refl
    length-list_to row (suc n) =
        length-append (list_to t convert row n) (convert (t.value row n) ∷ [])
        ∙ omega (arith, length-list_to row n)

    pub get_elem?-list_to :
        (row n i : ℕ)
        → i < n
        → get_elem? (list_to t convert row n) i ≡ some (convert (t.value row i))
    unfolding list_to
    get_elem?-list_to row zero i h = absurd (omega arith)
    get_elem?-list_to row (suc n) i h = elim (dec_le (suc i) n) [
      | yes l ↦
          get_elem?-left (list_to t convert row n) (convert (t.value row n) ∷ []) i
            (omega (arith, length-list_to row n))
          ∙ get_elem?-list_to row n i l
      | no l ↦
          let same : n ≡ i = omega arith in
          get_elem?-last (list_to t convert row n) (convert (t.value row n)) i
            (length-list_to row n ∙ same)
          ∙ ap (λ k. some (convert (t.value row k))) same
    ]

    length-data_to : (n : ℕ) → length (data_to t convert n) ≡ n * t.fields
    unfolding data_to row_list
    length-data_to zero = omega arith
    length-data_to (suc n) =
        length-append (data_to t convert n) (list_to t convert n t.fields)
        ∙ omega (arith, length-data_to n, length-list_to n t.fields)

    in_rows : (row n col : ℕ) → row < n → col < t.fields → row * t.fields + col < n * t.fields
    in_rows row n col h c = grind arith

    get_elem?-data_to :
        (n row col : ℕ)
        → row < n
        → col < t.fields
        → get_elem? (data_to t convert n) (row * t.fields + col) ≡ some (convert (t.value row col))
    unfolding data_to row_list
    get_elem?-data_to zero row col h c = absurd (omega arith)
    get_elem?-data_to (suc n) row col h c = elim (dec_le (suc row) n) [
      | yes l ↦
          get_elem?-left (data_to t convert n) (list_to t convert n t.fields) (row * t.fields + col)
            (omega (arith, length-data_to n, in_rows row n col l c))
          ∙ get_elem?-data_to n row col l c
      | no l ↦
          let same : n ≡ row = omega arith in
          ap (get_elem? (data_to t convert n ++ list_to t convert n t.fields))
            (ap (λ k. k * t.fields + col) (sym same) ∙ ap (λ k. k + col) (sym (length-data_to n)))
          ∙ get_elem?-right (data_to t convert n) (list_to t convert n t.fields) col
          ∙ get_elem?-list_to n t.fields col c
          ∙ ap (λ k. some (convert (t.value k col))) same
    ]

    -- The formula that the class documents for the flattened documents: the value of a row and a column
    -- is `data[row * NUM_COLUMNS + column]`, beside the names of the columns and the number of rows.
    pub flattened_formula :
        (row col : ℕ)
        → row < t.size
        → col < t.fields
        → (data_list : List J) × (columns : List String) × (look "data" (flattened t convert)
            ≡ some (cells data_list))
          × (look "columns" (flattened t convert) ≡ some (names columns))
          × (look "rows" (flattened t convert) ≡ some (number t.size))
          × (get_elem? data_list (row * t.fields + col) ≡ some (convert (t.value row col)))
          × (get_elem? columns col ≡ some (t.field_name col))
    unfolding flattened look put column_names
    flattened_formula row col h c = (
      data_to t convert t.size,
      names_to t t.fields,
      refl,
      refl,
      refl,
      get_elem?-data_to t.size row col h c,
      get_elem?-names_to t.fields col c,
    )

    length-objects_to : (n : ℕ) → length (objects_to t convert n) ≡ n
    unfolding objects_to
    length-objects_to zero = refl
    length-objects_to (suc n) =
        length-append (objects_to t convert n) (row_object t convert n ∷ [])
        ∙ omega (arith, length-objects_to n)

    pub get_elem?-objects_to :
        (n row : ℕ)
        → row < n
        → get_elem? (objects_to t convert n) row ≡ some (row_object t convert row)
    unfolding objects_to
    get_elem?-objects_to zero row h = absurd (omega arith)
    get_elem?-objects_to (suc n) row h = elim (dec_le (suc row) n) [
      | yes l ↦
          get_elem?-left (objects_to t convert n) (row_object t convert n ∷ []) row
            (omega (arith, length-objects_to n))
          ∙ get_elem?-objects_to n row l
      | no l ↦
          let same : n ≡ row = omega arith in
          get_elem?-last (objects_to t convert n) (row_object t convert n) row
            (length-objects_to n ∙ same)
          ∙ ap (λ k. some (row_object t convert k)) same
    ]
