-- ===== src/Rows.antt =====
-- The conversions of a result, src/aresult.cpp. A driver's result is a table that is a parameter; a value
-- goes into a document by `convert`, which is the identity for a hash, QJsonValue::fromVariant for JSON
-- and QCborValue::fromVariant for CBOR. Each loop is a function of the number of its rounds so far.
pub mod Access
pub mod Flat
pub mod Documents
use asql.Base.{
  ℕ, zero, suc, Bool, true, false, List, [], ◌∷◌, ◌++◌, Option, none, some, String, if◌then◌else◌,
  ℤ, pos, negsuc, ◌==◌,
}
use text.Mathlib.Text.{◌==◌ as str_eq}

-- AResultPrivate
pub record Table (V : Type 0) : Type 0 where
  pub size : ℕ
  pub fields : ℕ
  pub field_name : ℕ → String
  pub value : ℕ → ℕ → V

-- A hash, a JSON object or a CBOR map; the order says nothing.
abbrev pub Object : Type 0 → Type 0
Object J = List (String × J)

-- `insert` replaces what stands under the key.
unfoldable pub put : {J : Type 0} → String → J → Object J → Object J
put k x [] = (k, x) ∷ []
put k x ((j, y) ∷ m) = if str_eq j k then (j, x) ∷ m else (j, y) ∷ put k x m

unfoldable pub look : {J : Type 0} → String → Object J → Option J
look k [] = none
look k ((j, y) ∷ m) = if str_eq j k then some y else look k m

-- What stands under the keys of the larger documents.
pub data Part (J : Type 0) : Type 0 where
  names : List String → Part J
  number : ℕ → Part J
  cells : List J → Part J
  grid : List (List J) → Part J

module _ {V : Type 0} (t : Table V) where
  unfoldable pub names_to : ℕ → List String
  names_to zero = []
  names_to (suc n) = names_to n ++ (t.field_name n ∷ [])

  unfoldable pub column_names : List String
  column_names = names_to t.fields

  -- From the field `i` on, of which `n` are left.
  unfoldable pub search_field : String → ℕ → ℕ → ℤ
  search_field name i zero = negsuc 0
  search_field name i (suc n) =
      let rest = search_field name (suc i) n in if str_eq name (t.field_name i) then pos i else rest

  unfoldable pub index_of_field : String → ℤ
  index_of_field name = search_field name 0 t.fields

  module _ {J : Type 0} (convert : V → J) where
    unfoldable pub object_to : ℕ → ℕ → Object J
    object_to row zero = []
    object_to row (suc n) = put (t.field_name n) (convert (t.value row n)) (object_to row n)

    -- A row as an object.
    unfoldable pub row_object : ℕ → Object J
    row_object row = object_to row t.fields

    unfoldable pub list_to : ℕ → ℕ → List J
    list_to row zero = []
    list_to row (suc n) = list_to row n ++ (convert (t.value row n) ∷ [])

    unfoldable pub row_list : ℕ → List J
    row_list row = list_to row t.fields

    -- The first row, where there is one.
    unfoldable pub first_object : Object J
    first_object = if t.size == 0 then [] else row_object 0

    unfoldable pub objects_to : ℕ → List (Object J)
    objects_to zero = []
    objects_to (suc n) = objects_to n ++ (row_object n ∷ [])

    unfoldable pub all_objects : List (Object J)
    all_objects = if t.size == 0 then [] else objects_to t.size

    unfoldable pub rows_to : ℕ → List (List J)
    rows_to zero = []
    rows_to (suc n) = rows_to n ++ (row_list n ∷ [])

    unfoldable pub indexed : String → String → Object (Part J)
    indexed column_key rows_key =
        put rows_key (grid (rows_to t.size)) (put column_key (names column_names) [])

    unfoldable pub data_to : ℕ → List J
    data_to zero = []
    data_to (suc n) = data_to n ++ row_list n

    unfoldable pub flattened : Object (Part J)
    flattened =
        put "data" (cells (data_to t.size))
          (put "rows" (number t.size) (put "columns" (names column_names) []))

    -- `columnsData`, first empty, then with each row's values appended.
    unfoldable pub no_columns : ℕ → List (List J)
    no_columns zero = []
    no_columns (suc n) = [] ∷ no_columns n

    unfoldable pub append_row : ℕ → ℕ → List (List J) → List (List J)
    append_row row i [] = []
    append_row row i (c ∷ cs) = (c ++ (convert (t.value row i) ∷ [])) ∷ append_row row (suc i) cs

    unfoldable pub columns_to : ℕ → List (List J)
    columns_to zero = no_columns t.fields
    columns_to (suc n) = append_row n 0 (columns_to n)

    unfoldable pub insert_columns : ℕ → List (List J) → Object (List J) → Object (List J)
    insert_columns i [] o = o
    insert_columns i (c ∷ cs) o = insert_columns (suc i) cs (put (t.field_name i) c o)

    unfoldable pub object_array : Object (List J)
    object_array = insert_columns 0 (columns_to t.size) []

-- The functions of the class, by what they convert to.
module _ {V : Type 0} (t : Table V) where
  abbrev pub to_hash : Object V
  to_hash = first_object t λ v. v

  abbrev pub to_list_hash : List (Object V)
  to_list_hash = all_objects t λ v. v

module _ {V J : Type 0} (t : Table V) (from_variant : V → J) where
  abbrev pub to_json_object : Object J
  to_json_object = first_object t from_variant

  abbrev pub to_cbor_map : Object J
  to_cbor_map = first_object t from_variant

  abbrev pub to_json_array_object : List (Object J)
  to_json_array_object = all_objects t from_variant

  abbrev pub to_cbor_array_map : List (Object J)
  to_cbor_array_map = all_objects t from_variant

  abbrev pub to_json_object_array : Object (List J)
  to_json_object_array = object_array t from_variant

  abbrev pub to_cbor_map_array : Object (List J)
  to_cbor_map_array = object_array t from_variant

  abbrev pub to_json_object_indexed : String → String → Object (Part J)
  to_json_object_indexed = indexed t from_variant

  abbrev pub to_cbor_map_indexed : String → String → Object (Part J)
  to_cbor_map_indexed = indexed t from_variant

  abbrev pub to_json_flattened : Object (Part J)
  to_json_flattened = flattened t from_variant

  abbrev pub to_cbor_flattened : Object (Part J)
  to_cbor_flattened = flattened t from_variant
