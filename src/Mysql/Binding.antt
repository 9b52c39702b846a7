-- ===== src/Mysql/Binding.antt =====
-- How the arguments of a query are handed to the server: `mysqlBindParams` of src/adrivermysql.cpp.
use asql.Base.{
  ℕ, ◌<◌, ◌+◌, ◌-◌, ◌%◌, ◌^◌, Bool, true, false, List, [], ◌∷◌, ◌≡◌, refl, ap, arith, if◌then◌else◌,
  map, ℤ, pos, negsuc, length, ltb,
}
use asql.Mysql.{
  Argument, null, truth, int, long_long, uint, ulong_long, double, bytes, date, time, date_time,
  json, other, BufferType, tiny_type, long_type, long_long_type, double_type, blob_type,
  string_type, null_type, Bound,
}

-- `static_cast<long long>`, as a word of 64 bits.
unfoldable pub word_of : ℤ → ℕ
word_of (pos n) = n % 2 ^ 64
word_of (negsuc n) = 2 ^ 64 - 1 - n % 2 ^ 64

abbrev pub of_word : BufferType → Bool → ℕ → Bound
of_word t u w = record {
  kind = t;
  word = w;
  content = [];
  length = 0;
  is_unsigned = u;
  is_null = false;
}

abbrev pub of_content : BufferType → List ℕ → Bound
of_content t bs = record {
  kind = t;
  word = 0;
  content = bs;
  length = length bs;
  is_unsigned = false;
  is_null = false;
}

-- `QJsonDocument::fromVariant` makes a document of a QVariantMap, QVariantHash, QVariantList or QStringList, and
-- an invalid one of every other type, a QJsonObject, QJsonArray and QJsonValue among them; `toJson` of an
-- invalid document gives no bytes.
abbrev pub json_of_variant : List ℕ → List ℕ
json_of_variant bs = []

unfoldable pub bind : Argument → Bound
unfolding word_of
bind null = record (of_word null_type false 0) { is_null = true }
bind (truth b) = of_word tiny_type false (if b then 1 else 0)
bind (int n) = of_word long_type false (word_of n)
bind (uint n) = of_word long_type true (word_of (pos n))
bind (long_long n) = of_word long_long_type false (word_of n)
bind (ulong_long n) = of_word long_long_type true (word_of (pos n))
bind (double bs) = record (of_content double_type bs) { length = 0 }
bind (bytes bs) = of_content blob_type bs
bind (date bs) = of_content string_type bs
bind (time bs) = of_content string_type bs
bind (date_time bs) = of_content string_type bs
bind (json bs) = of_content string_type (json_of_variant bs)
bind (other bs) = of_content string_type bs

unfoldable pub bind_params : List Argument → List Bound
bind_params args = map bind args

-- What a server gets.
pub data Sent : Type 0 where
  absent : Sent
  number : ℤ → Sent
  float letters raw : List ℕ → Sent

-- The two's complement of the low bits of a word.
abbrev pub signed : ℕ → ℕ → ℤ
signed half w = if ltb w half then pos w else negsuc (half + half - 1 - w)

abbrev pub take : ℕ → List ℕ → List ℕ
take ℕ.zero bs = []
take (ℕ.suc n) [] = []
take (ℕ.suc n) (b ∷ bs) = b ∷ take n bs

-- What the client library reads of a MYSQL_BIND, on a machine that keeps the low byte first: as many bytes
-- of the word as the type has, with or without a sign, and as many of the content as the length says.
abbrev pub received : Bound → Sent
received b = if b.is_null then absent else elim b.kind [
  | null_type ↦ absent
  | tiny_type ↦
      number (if b.is_unsigned then pos (b.word % 2 ^ 8) else signed (2 ^ 7) (b.word % 2 ^ 8))
  | long_type ↦
      number (if b.is_unsigned then pos (b.word % 2 ^ 32) else signed (2 ^ 31) (b.word % 2 ^ 32))
  | long_long_type ↦
      number (if b.is_unsigned then pos (b.word % 2 ^ 64) else signed (2 ^ 63) (b.word % 2 ^ 64))
  | double_type ↦ float b.content
  | blob_type ↦ raw (take b.length b.content)
  | string_type ↦ letters (take b.length b.content)
]

-- What the server gets for an argument: a JSON value is an empty text.
abbrev pub meant : Argument → Sent
meant null = absent
meant (truth b) = number (if b then pos 1 else pos 0)
meant (int n) = number n
meant (long_long n) = number n
meant (uint n) = number (pos n)
meant (ulong_long n) = number (pos n)
meant (double bs) = float bs
meant (bytes bs) = raw bs
meant (date bs) = letters bs
meant (time bs) = letters bs
meant (date_time bs) = letters bs
meant (json bs) = letters []
meant (other bs) = letters bs

abbrev pub IsWithin : ℕ → ℤ → Type 0
IsWithin half (pos n) = n < half
IsWithin half (negsuc n) = n < half

-- The numbers of the C++ types.
abbrev pub IsInRange : Argument → Type 0
IsInRange (int n) = IsWithin (2 ^ 31) n
IsInRange (long_long n) = IsWithin (2 ^ 63) n
IsInRange (uint n) = n < 2 ^ 32
IsInRange (ulong_long n) = n < 2 ^ 64
IsInRange _ = Unit

take-length : (bs : List ℕ) → take (length bs) bs ≡ bs
take-length [] = refl
take-length (b ∷ bs) = ap (λ r. b ∷ r) (take-length bs)

signed-word_of : (n : ℤ) → IsWithin (2 ^ 31) n → signed (2 ^ 31) (word_of n % 2 ^ 32) ≡ n
unfolding word_of
signed-word_of (pos n) h = ground arith
signed-word_of (negsuc n) h = ground arith

signed-word_of_long : (n : ℤ) → IsWithin (2 ^ 63) n → signed (2 ^ 63) (word_of n % 2 ^ 64) ≡ n
unfolding word_of
signed-word_of_long (pos n) h = ground arith
signed-word_of_long (negsuc n) h = ground arith

-- Every argument but a JSON value reaches the server as it is: a number of a C++ type, negative ones and
-- those of the upper half of an unsigned type included, is read back from the bytes that its entry of
-- MYSQL_BIND points to, a truth value is 1 or 0, texts and bytes keep their length, and only a null value
-- is absent. A JSON value, of which the driver makes no valid document, reaches it as an empty text.
pub received-bind : (a : Argument) → IsInRange a → received (bind a) ≡ meant a
unfolding bind word_of
received-bind null h = refl
received-bind (truth true) h = ground arith
received-bind (truth false) h = ground arith
received-bind (int n) h = ap number (signed-word_of n h)
received-bind (long_long n) h = ap number (signed-word_of_long n h)
received-bind (uint n) h = ap (λ m. number (pos m)) (omega (arith, h))
received-bind (ulong_long n) h = ap (λ m. number (pos m)) (omega (arith, h))
received-bind (double bs) h = refl
received-bind (bytes bs) h = ap raw (take-length bs)
received-bind (date bs) h = ap letters (take-length bs)
received-bind (time bs) h = ap letters (take-length bs)
received-bind (date_time bs) h = ap letters (take-length bs)
received-bind (json bs) h = refl
received-bind (other bs) h = ap letters (take-length bs)
