-- ===== src/Postgres/Values.antt =====
-- How ADriverPg reads what the server gives: `qDecodePSQLType`, `decodePgByteaText`, `pgColumnBytes` and
-- the functions of AResultPg that give values, src/adriverpg.cpp.
--
-- A conversion by Qt is a constructor applied to the bytes that Qt is given.
use asql.Base.{
  true, ◌⊎◌, inl, inr, ◌≢◌, Bool-cases, subst, sym, ℕ, Bool, false, ◌&&◌, ◌||◌, not, Option, none,
  some, List, [], ◌∷◌, ◌++◌, if◌then◌else◌, ◌≡◌, refl, ap, ◌∙◌, arith, length, ◌==◌, ltb, get_elem?,
  ◌-◌,
}

-- The QMetaType that a type identifier stands for.
pub data Kind : Type 0 where
  truth long_long int double date time date_time byte_array json uuid string : Kind

abbrev is_one_of : ℕ → List ℕ → Bool
is_one_of o [] = false
is_one_of o (x ∷ xs) = o == x || is_one_of o xs

unfoldable pub decode_type : ℕ → Kind
decode_type o =
    if o == 16
    then truth
    else if o == 20
    then long_long
    else if is_one_of o (21 ∷ 23 ∷ 2278 ∷ 24 ∷ 28 ∷ 29 ∷ [])
    then int
    else if is_one_of o (1700 ∷ 700 ∷ 701 ∷ [])
    then double
    else if is_one_of o (702 ∷ 703 ∷ 1082 ∷ [])
    then date
    else if is_one_of o (1083 ∷ 1266 ∷ [])
    then time
    else if is_one_of o (1114 ∷ 1184 ∷ [])
    then date_time
    else if o == 17
    then byte_array
    else if is_one_of o (3802 ∷ 114 ∷ [])
    then json
    else if o == 2950
    then uuid
    else string

-- A field of a PGresult: its type, its format, whether it is NULL, and its bytes.
pub record Field : Type 0 where
  pub oid : ℕ
  pub format : ℕ
  pub null : Bool
  pub text : List ℕ

pub data Document : Type 0 where
  object array neither : Document

-- What Qt and libpq make of bytes: the kind of a JSON document, hexadecimal digits, the escapes of bytes,
-- and equality of texts but for the case.
pub record Conversions : Type 0 where
  pub document : List ℕ → Document
  pub from_hex : List ℕ → List ℕ
  pub unescape : List ℕ → List ℕ
  pub same_word : List ℕ → List ℕ → Bool

-- QVariant, and the results of the typed functions.
pub data Value : Type 0 where
  nothing : Value
  null_of : Kind → Value
  boolean : Bool → Value
  text signed unsigned atoi uuid_of raw : List ℕ → Value
  number : List ℕ → Value
  infinity minus_infinity : Value
  no_date no_time no_date_time : Value
  date_of time_of date_time_of : List ℕ → Value
  json_object json_array : List ℕ → Value
  null_json : Value

abbrev pub starts_with : ℕ → List ℕ → Bool
starts_with c [] = false
starts_with c (x ∷ xs) = x == c

abbrev infinity_word : List ℕ
infinity_word = b'I' ∷ b'n' ∷ b'f' ∷ b'i' ∷ b'n' ∷ b'i' ∷ b't' ∷ b'y' ∷ []

-- A time zone of hours only gets its minutes.
unfoldable pub zoned : List ℕ → List ℕ
zoned bs = elim (get_elem? bs (length bs - 3)) [
  | none ↦ bs
  | some c ↦ if c == b'-' || c == b'+' then bs ++ (b':' ∷ b'0' ∷ b'0' ∷ []) else bs
]

unfoldable pub to_bool : Field → Bool
to_bool f = starts_with b't' f.text

abbrev pub to_int : Field → Value
to_int f = atoi f.text

abbrev pub to_long_long : Field → Value
to_long_long f = signed f.text

abbrev pub to_u_long_long : Field → Value
to_u_long_long f = unsigned f.text

unfoldable pub to_string : Field → Value
to_string f = if f.null then text [] else text f.text

unfoldable pub to_uuid : Field → Value
to_uuid f = if f.null then uuid_of [] else uuid_of f.text

unfoldable pub to_date : Field → Value
to_date f = elim f.text [ [] ↦ no_date | c ∷ cs ↦ date_of (c ∷ cs) ]

unfoldable pub to_time : Field → Value
to_time f = elim f.text [ [] ↦ no_time | c ∷ cs ↦ time_of (c ∷ cs) ]

unfoldable pub to_date_time : Field → Value
unfolding zoned
to_date_time f = if ltb (length f.text) 10 then no_date_time else date_time_of (zoned f.text)

module _ (c : Conversions) where
  -- A `\x` says that digits follow.
  unfoldable pub decode_bytea : List ℕ → List ℕ
  decode_bytea [] = c.unescape []
  decode_bytea (x ∷ []) = c.unescape (x ∷ [])
  decode_bytea (x ∷ y ∷ bs) =
      if x == 0x5c && y == b'x' then c.from_hex bs else c.unescape (x ∷ y ∷ bs)

  unfoldable pub column_bytes : Field → List ℕ
  column_bytes f =
      if f.null
      then []
      else if not (f.oid == 17)
      then f.text
      else if f.format == 1
      then f.text
      else decode_bytea f.text

  abbrev pub to_byte_array : Field → Value
  to_byte_array f = raw (column_bytes f)

  unfoldable pub to_double : Field → Value
  to_double f =
      if c.same_word f.text infinity_word
      then infinity
      else if c.same_word f.text (b'-' ∷ infinity_word)
      then minus_infinity
      else number f.text

  unfoldable pub to_json_value : Field → Value
  to_json_value f = if f.null then null_json else (elim (c.document f.text) [
    | object ↦ json_object f.text
    | array ↦ json_array f.text
    | neither ↦ null_json
  ])

  -- `value`, for a column that is there; the types are those of `decode_type`.
  unfoldable pub value_of : Kind → Field → Value
  value_of truth f = boolean (starts_with b't' f.text)
  value_of string f = text f.text
  value_of long_long f = if starts_with b'-' f.text then signed f.text else unsigned f.text
  value_of int f = atoi f.text
  value_of double f =
      if c.same_word f.text infinity_word
      then infinity
      else if c.same_word f.text (b'-' ∷ infinity_word)
      then minus_infinity
      else number f.text
  value_of date f = elim f.text [ [] ↦ no_date | x ∷ xs ↦ date_of (x ∷ xs) ]
  value_of time f = elim f.text [ [] ↦ no_time | x ∷ xs ↦ time_of (x ∷ xs) ]
  value_of date_time f =
      if ltb (length f.text) 10 then no_date_time else date_time_of (zoned f.text)
  value_of byte_array f = raw (decode_bytea f.text)
  value_of json f = elim (c.document f.text) [
    | object ↦ json_object f.text
    | array ↦ json_array f.text
    | neither ↦ nothing
  ]
  value_of uuid f = uuid_of f.text

  unfoldable pub field_value : Field → Value
  field_value f = if f.null then null_of (decode_type f.oid) else value_of (decode_type f.oid) f

  unfoldable pub cell : Option Field → Value
  cell none = nothing
  cell (some f) = field_value f

  -- The value of a column, which may be out of range.
  unfoldable pub value : List Field → ℕ → Value
  value row column = cell (get_elem? row column)

  -- How the value of a field that is not NULL, in a column of a kind, compares with the typed functions.
  abbrev pub Agrees : Kind → Field → Value → Type 0
  Agrees truth f v = v ≡ boolean (to_bool f)
  Agrees long_long f v =
      ((starts_with b'-' f.text ≡ true) × (v ≡ to_long_long f))
      ⊎ ((starts_with b'-' f.text ≡ false) × (v ≡ to_u_long_long f))
  Agrees int f v = v ≡ to_int f
  Agrees double f v = v ≡ to_double f
  Agrees date f v = v ≡ to_date f
  Agrees time f v = v ≡ to_time f
  Agrees date_time f v = v ≡ to_date_time f
  Agrees byte_array f v = v ≡ to_byte_array f
  Agrees json f v =
      ((c.document f.text ≢ neither) × (v ≡ to_json_value f))
      ⊎ ((c.document f.text ≡ neither) × (v ≡ nothing) × (to_json_value f ≡ null_json))
  Agrees uuid f v = v ≡ to_uuid f
  Agrees string f v = v ≡ to_string f

  byte_array_oid : (o : ℕ) → decode_type o ≡ byte_array → o ≡ 17
  unfolding decode_type
  byte_array_oid o d = ground (arith, d)

  long_long-Agrees : (f : Field) → Agrees long_long f (value_of long_long f)
  unfolding value_of
  long_long-Agrees f = elim (Bool-cases (starts_with b'-' f.text)) [
    | inl e ↦ inl (e, ground (arith, e))
    | inr e ↦ inr (e, ground (arith, e))
  ]

  json-Agrees : (f : Field) → f.null ≡ false → Agrees json f (value_of json f)
  unfolding value_of to_json_value
  json-Agrees f n = rw n (by_document (c.document f.text))
    where
      by_document :
          (d : Document)
          → ((d ≢ neither)
              × ((elim d as (λ x. Value) [
                | object ↦ json_object f.text
                | array ↦ json_array f.text
                | neither ↦ nothing
              ])
                  ≡ (elim d as (λ x. Value) [
                    | object ↦ json_object f.text
                    | array ↦ json_array f.text
                    | neither ↦ null_json
                  ])))
            ⊎ ((d ≡ neither)
                × ((elim d as (λ x. Value) [
                  | object ↦ json_object f.text
                  | array ↦ json_array f.text
                  | neither ↦ nothing
                ])
                    ≡ nothing)
                × ((elim d as (λ x. Value) [
                  | object ↦ json_object f.text
                  | array ↦ json_array f.text
                  | neither ↦ null_json
                ])
                    ≡ null_json))
      by_document object = inl ((λ e. absurd (cc)), refl)
      by_document array = inl ((λ e. absurd (cc)), refl)
      by_document neither = inr (refl, refl, refl)

  value_of-Agrees :
      (k : Kind) (f : Field)
      → decode_type f.oid ≡ k
      → f.null ≡ false
      → f.format ≡ 0
      → Agrees k f (value_of k f)
  unfolding value_of to_bool to_double to_date to_time to_date_time column_bytes to_uuid to_string
  value_of-Agrees truth f d n t = refl
  value_of-Agrees long_long f d n t = long_long-Agrees f
  value_of-Agrees int f d n t = refl
  value_of-Agrees double f d n t = refl
  value_of-Agrees date f d n t = refl
  value_of-Agrees time f d n t = refl
  value_of-Agrees date_time f d n t = refl
  value_of-Agrees byte_array f d n t = ground (arith, n, t, byte_array_oid f.oid d)
  value_of-Agrees json f d n t = json-Agrees f n
  value_of-Agrees uuid f d n t = ground (arith, n)
  value_of-Agrees string f d n t = ground (arith, n)

  -- Of a field of a row that is not NULL and came as text, `value` is what the typed function of its
  -- column's type gives, but for two types: an int8 is what `toLongLong` gives where it begins with a
  -- minus sign and what `toULongLong` gives where it does not; and a JSON text that is neither an object nor
  -- an array is no value, where `toJsonValue` gives the null of JSON.
  pub value-Agrees :
      (row : List Field) (column : ℕ) (f : Field)
      → get_elem? row column ≡ some f
      → f.null ≡ false
      → f.format ≡ 0
      → Agrees (decode_type f.oid) f (value row column)
  unfolding value cell field_value
  value-Agrees row column f e n t =
      subst (Agrees (decode_type f.oid) f)
        (sym (
          ap cell e
          ∙ ap (λ b. if b then null_of (decode_type f.oid) else value_of (decode_type f.oid) f) n))
        (value_of-Agrees (decode_type f.oid) f refl n t)
