-- ===== src/Postgres/Binding.antt =====
-- How ADriverPg hands the parameters of a query to libpq: the arrays of `doExecParams`, src/adriverpg.cpp.
use asql.Base.{
  ℕ, Bool, true, false, ◌&&◌, Option, none, some, List, [], ◌∷◌, if◌then◌else◌, ◌≡◌, refl, ap,
  arith, ◌↔◌, map, ℤ, length, ◌==◌,
}
use asql.Postgres.{
  JsonValue, boolean, double, literal, array, object, nothing, Variant, null, unknown_type, string,
  bytes, uuid, int, long_long, bool, json_object, json_array, json_document, json_value, other_type,
}

-- The type identifiers of the server.
abbrev pub text_oid : ℕ
text_oid = 25

abbrev pub unknown_oid : ℕ
unknown_oid = 705

abbrev pub bytea_oid : ℕ
bytea_oid = 17

abbrev pub int4_oid : ℕ
int4_oid = 23

abbrev pub int8_oid : ℕ
int8_oid = 20

abbrev pub uuid_oid : ℕ
uuid_oid = 2950

abbrev pub bool_oid : ℕ
bool_oid = 16

abbrev pub jsonb_oid : ℕ
jsonb_oid = 3802

-- What Qt makes of a number in the order of the network, in the four and eight bytes that are there for it.
pub record ByteOrder : Type 0 where
  pub four : ℤ → List ℕ
  pub eight : ℤ → List ℕ

-- An entry of `paramTypes`, `paramFormats` and `data`.
pub record Coded : Type 0 where
  pub oid : ℕ
  pub format : ℕ
  pub content : List ℕ

-- An entry of the arrays that libpq gets; `none` is a null pointer.
pub record Param : Type 0 where
  pub oid : ℕ
  pub format : ℕ
  pub value : Option (List ℕ)
  pub size : ℕ

abbrev pub coded : ℕ → ℕ → List ℕ → Coded
coded o f bs = record { oid = o; format = f; content = bs }

abbrev pub text_bytes : Option (List ℕ) → List ℕ
text_bytes none = []
text_bytes (some bs) = bs

abbrev pub text_type : Option (List ℕ) → ℕ
text_type none = unknown_oid
text_type (some bs) = text_oid

abbrev pub flag : Bool → List ℕ
flag b = (if b then 1 else 0) ∷ []

unfoldable pub code_json : JsonValue → Coded
code_json (boolean b) = coded bool_oid 1 (flag b)
code_json (double bs) = coded unknown_oid 0 bs
code_json (literal t) = coded (text_type t) 0 (text_bytes t)
code_json (array bs) = coded jsonb_oid 0 bs
code_json (object bs) = coded jsonb_oid 0 bs
code_json nothing = coded unknown_oid 0 []

abbrev pub is_no_bytes : List ℕ → Bool
is_no_bytes [] = true
is_no_bytes (b ∷ bs) = false

-- The pointer is null where there are no bytes and the type is left to the server.
unfoldable pub pointed : Coded → Param
pointed c =
    let absent = is_no_bytes c.content && (c.oid == unknown_oid) in
    record {
      oid = c.oid;
      format = c.format;
      value = if absent then none else some c.content;
      size = if absent then 0 else length c.content;
    }

module _ (order : ByteOrder) where
  unfoldable pub code : Variant → Coded
  unfolding code_json
  code null = coded unknown_oid 0 []
  code unknown_type = coded unknown_oid 0 []
  code (string t) = coded (text_type t) 0 (text_bytes t)
  code (bytes bs) = coded bytea_oid 1 bs
  code (int n) = coded int4_oid 1 (order.four n)
  code (long_long n) = coded int8_oid 1 (order.eight n)
  code (uuid bs) = coded uuid_oid 1 bs
  code (bool b) = coded bool_oid 1 (flag b)
  code (json_object bs) = coded jsonb_oid 0 bs
  code (json_array bs) = coded jsonb_oid 0 bs
  code (json_document bs) = coded jsonb_oid 0 bs
  code (json_value v) = code_json v
  code (other_type bs) = coded unknown_oid 0 bs

  unfoldable pub bind : Variant → Param
  unfolding code pointed
  bind v = pointed (code v)

  unfoldable pub bind_all : List Variant → List Param
  bind_all vs = map bind vs

  -- The values that reach the server as SQL NULL: a null value, a null text, a JSON value that is neither
  -- and a value of another type whose text is empty.
  abbrev pub IsAbsent : Variant → Type 0
  IsAbsent null = Unit
  IsAbsent unknown_type = Unit
  IsAbsent (string t) = t ≡ none
  IsAbsent (json_value (literal t)) = t ≡ none
  IsAbsent (json_value (double bs)) = bs ≡ []
  IsAbsent (json_value nothing) = Unit
  IsAbsent (other_type bs) = bs ≡ []
  IsAbsent _ = ⊥

  pointed_value :
      (c : Coded) → ((pointed c).value ≡ none) ↔ ((c.content ≡ []) × (c.oid ≡ unknown_oid))
  unfolding pointed
  pointed_value c = (by_bytes c.content, λ h. ground (arith, h.0, h.1))
    where
      by_bytes :
          (bs : List ℕ)
          → (if is_no_bytes bs && (c.oid == unknown_oid) then none else some bs) ≡ none
          → (bs ≡ []) × (c.oid ≡ unknown_oid)
      by_bytes [] h = (refl, ground (arith, h))
      by_bytes (b ∷ bs) h = cc

  code_absent : (v : Variant) → ((code v).content ≡ []) × ((code v).oid ≡ unknown_oid) → IsAbsent v
  unfolding code
  code_absent null h = tt
  code_absent unknown_type h = tt
  code_absent (string none) h = refl
  code_absent (string (some t)) h = absurd (omega (arith, h.1))
  code_absent (bytes bs) h = absurd (omega (arith, h.1))
  code_absent (int n) h = absurd (omega (arith, h.1))
  code_absent (long_long n) h = absurd (omega (arith, h.1))
  code_absent (uuid bs) h = absurd (omega (arith, h.1))
  code_absent (bool b) h = absurd (omega (arith, h.1))
  code_absent (json_object bs) h = absurd (omega (arith, h.1))
  code_absent (json_array bs) h = absurd (omega (arith, h.1))
  code_absent (json_document bs) h = absurd (omega (arith, h.1))
  code_absent (json_value (boolean b)) h = absurd (omega (arith, h.1))
  code_absent (json_value (double bs)) h = h.0
  code_absent (json_value (literal none)) h = refl
  code_absent (json_value (literal (some t))) h = absurd (omega (arith, h.1))
  code_absent (json_value (array bs)) h = absurd (omega (arith, h.1))
  code_absent (json_value (object bs)) h = absurd (omega (arith, h.1))
  code_absent (json_value nothing) h = tt
  code_absent (other_type bs) h = h.0

  absent_code : (v : Variant) → IsAbsent v → ((code v).content ≡ []) × ((code v).oid ≡ unknown_oid)
  unfolding code
  absent_code null h = (refl, refl)
  absent_code unknown_type h = (refl, refl)
  absent_code (string t) h = (ap text_bytes h, ap text_type h)
  absent_code (json_value (double bs)) h = (h, refl)
  absent_code (json_value (literal t)) h = (ap text_bytes h, ap text_type h)
  absent_code (json_value nothing) h = (refl, refl)
  absent_code (json_value (boolean b)) h = elim h [ ]
  absent_code (json_value (array bs)) h = elim h [ ]
  absent_code (json_value (object bs)) h = elim h [ ]
  absent_code (other_type bs) h = (h, refl)
  absent_code (bytes bs) h = elim h [ ]
  absent_code (int n) h = elim h [ ]
  absent_code (long_long n) h = elim h [ ]
  absent_code (uuid bs) h = elim h [ ]
  absent_code (bool b) h = elim h [ ]
  absent_code (json_object bs) h = elim h [ ]
  absent_code (json_array bs) h = elim h [ ]
  absent_code (json_document bs) h = elim h [ ]

  -- A parameter goes to the server as NULL exactly when its value is null, a null text, a JSON value that
  -- is none of the others or a number of no digits, or a value of a type that the driver does not know and
  -- whose text is empty; an empty text, empty bytes and all else do not.
  pub bind-IsAbsent : (v : Variant) → ((bind v).value ≡ none) ↔ IsAbsent v
  unfolding bind
  bind-IsAbsent v = (
    λ h. code_absent v ((pointed_value (code v)).0 h),
    λ h. (pointed_value (code v)).1 (absent_code v h),
  )
