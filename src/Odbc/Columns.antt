-- ===== src/Odbc/Columns.antt =====
-- How a cell is read: `columnValue` and `readWCharColumn` of AOdbcThread, src/ADriverOdbc.cpp.
use asql.Base.{
  ℕ, zero, suc, ◌≤◌, ◌+◌, ◌*◌, ◌/◌, not, Option, none, some, List, [], ◌∷◌, ◌++◌, ◌≡◌, refl, sym,
  ap, ◌∙◌, arith, if◌then◌else◌, length, ltb, ℤ, pos, negsuc, eqb_ℤ, append_assoc,
}
use asql.Odbc.{
  local_time, Day, Clock, Kind, bool_kind, int_kind, long_long_kind, double_kind, bytes_kind,
  date_kind, time_kind, date_time_kind, string_kind, Value, null, truth, int, long_long, double,
  bytes, letters, date, time, date_time, SqlType, bit, tinyint, smallint, integer, bigint,
  real_type, float_type, double_type, binary, varbinary, longvarbinary, type_date, ss_time2,
  type_time, type_timestamp, wvarchar, other,
}

-- What repeated calls of SQLGetData give: an error, SQL_NULL_DATA, a full buffer with more to come, or the
-- end with its indicator, `none` for SQL_NO_TOTAL, and the buffer.
pub data Chunks : Type 0 where
  failed null_data : Chunks
  more : List ℕ → Chunks → Chunks
  end : Option ℕ → List ℕ → Chunks

-- A cell: the number or the fields of the struct that SQLGetData gives, `none` for an error or NULL; the bytes
-- of a float; and the chunks of what is read piece by piece.
pub record Cell : Type 0 where
  pub fixed : Option (List ℤ)
  pub float : List ℕ
  pub chunks : Chunks

abbrev pub take : ℕ → List ℕ → List ℕ
take zero bs = []
take (suc n) [] = []
take (suc n) (b ∷ bs) = b ∷ take n bs

-- `indicator > 0 ? qMin(indicator, CHUNK) : 0`
abbrev pub got : Option ℕ → ℕ
got none = 0
got (some n) = if ltb n 4096 then n else 4096

unfoldable pub read_binary : Chunks → List ℕ → Value
read_binary failed acc = bytes acc
read_binary null_data acc = null bytes_kind
read_binary (more bs rest) acc = read_binary rest (acc ++ take 4096 bs)
read_binary (end n bs) acc = bytes (acc ++ take (got n) bs)

-- The units before the first zero, of at most so many.
abbrev pub until_zero : ℕ → List ℕ → List ℕ
until_zero zero bs = []
until_zero (suc n) [] = []
until_zero (suc n) (zero ∷ bs) = []
until_zero (suc n) (suc b ∷ bs) = suc b ∷ until_zero n bs

-- `indicator` counts bytes, two for a code unit.
unfoldable pub read_wide : Chunks → List ℕ → Value
read_wide failed acc = null string_kind
read_wide null_data acc = null string_kind
read_wide (more bs rest) acc = read_wide rest (acc ++ take 256 bs)
read_wide (end none bs) acc = letters (acc ++ until_zero 256 bs)
read_wide (end (some n) bs) acc = letters (acc ++ take (n / 2) bs)

-- A field of a struct, which is zero where nothing is written.
abbrev pub field : List ℤ → ℕ → ℤ
field [] i = pos 0
field (x ∷ xs) zero = x
field (x ∷ xs) (suc i) = field xs i

abbrev pub natural : ℤ → ℕ
natural (pos n) = n
natural (negsuc n) = 0

abbrev pub day_of : List ℤ → Day
day_of fs = record { year = field fs 0; month = natural (field fs 1); day = natural (field fs 2) }

-- A clock from the fields that follow the first so many; a fraction counts nanoseconds.
abbrev pub clock_of : ℕ → List ℤ → Clock
clock_of i fs = record {
  hour = natural (field fs i);
  minute = natural (field fs (i + 1));
  second = natural (field fs (i + 2));
  msec = natural (field fs (i + 3)) / 1000000;
}

abbrev pub read_fixed : Kind → (List ℤ → Value) → Option (List ℤ) → Value
read_fixed k f none = null k
read_fixed k f (some fs) = f fs

unfoldable pub column_value : SqlType → Cell → Value
unfolding read_binary read_wide
column_value bit x = read_fixed bool_kind (λ fs. truth (not (eqb_ℤ (field fs 0) (pos 0)))) x.fixed
column_value tinyint x = read_fixed int_kind (λ fs. int (field fs 0)) x.fixed
column_value smallint x = read_fixed int_kind (λ fs. int (field fs 0)) x.fixed
column_value integer x = read_fixed int_kind (λ fs. int (field fs 0)) x.fixed
column_value bigint x = read_fixed long_long_kind (λ fs. long_long (field fs 0)) x.fixed
column_value real_type x = read_fixed double_kind (λ fs. double x.float) x.fixed
column_value float_type x = read_fixed double_kind (λ fs. double x.float) x.fixed
column_value double_type x = read_fixed double_kind (λ fs. double x.float) x.fixed
column_value binary x = read_binary x.chunks []
column_value varbinary x = read_binary x.chunks []
column_value longvarbinary x = read_binary x.chunks []
column_value type_date x = read_fixed date_kind (λ fs. date (day_of fs)) x.fixed
column_value ss_time2 x = read_fixed time_kind (λ fs. time (clock_of 0 fs)) x.fixed
column_value type_time x =
    read_fixed time_kind (λ fs. time (record (clock_of 0 fs) { msec = 0 })) x.fixed
column_value type_timestamp x =
    read_fixed date_time_kind (λ fs. date_time (day_of fs) (clock_of 3 fs) local_time) x.fixed
column_value wvarchar x = read_wide x.chunks []
column_value other x = read_wide x.chunks []

-- What is documented of the pieces of a content, for a buffer of some size and so many bytes for a unit: each
-- but the last fills the buffer, and the last comes with its length.
abbrev pub AreChunksOf : ℕ → ℕ → List ℕ → Chunks → Type 0
AreChunksOf size unit bs failed = ⊥
AreChunksOf size unit bs null_data = ⊥
AreChunksOf size unit bs (end none buffer) = ⊥
AreChunksOf size unit bs (end (some n) buffer) =
    (n ≡ length bs * unit) × (length bs ≤ size) × ((rest : List ℕ) × (buffer ≡ bs ++ rest))
AreChunksOf size unit bs (more buffer c) =
    (first : List ℕ) × (later : List ℕ) × (rest : List ℕ) × (bs ≡ first ++ later)
    × (length first ≡ size)
    × (buffer ≡ first ++ rest)
    × AreChunksOf size unit later c

take-append : (bs rest : List ℕ) → take (length bs) (bs ++ rest) ≡ bs
take-append [] rest = refl
take-append (b ∷ bs) rest = ap (λ r. b ∷ r) (take-append bs rest)

taken : (n : ℕ) (bs rest buffer : List ℕ) → n ≡ length bs → buffer ≡ bs ++ rest → take n buffer ≡ bs
taken n bs rest buffer e f = rw e (rw f (take-append bs rest))

pub read_binary_all :
    (c : Chunks) (acc bs : List ℕ) → AreChunksOf 4096 1 bs c → read_binary c acc ≡ bytes (acc ++ bs)
unfolding read_binary
read_binary_all failed acc bs h = elim h [ ]
read_binary_all null_data acc bs h = elim h [ ]
read_binary_all (end none buffer) acc bs h = elim h [ ]
read_binary_all (end (some n) buffer) acc bs (e, l, (rest, f)) =
    ap (λ r. bytes (acc ++ r)) (taken (got (some n)) bs rest buffer (ground (arith, e, l)) f)
read_binary_all (more buffer c) acc bs (first, later, rest, e, l, f, h) =
    ap (λ r. read_binary c (acc ++ r)) (taken 4096 first rest buffer (sym l) f)
    ∙ read_binary_all c (acc ++ first) later h
    ∙ ap bytes (append_assoc acc first later)
    ∙ ap (λ r. bytes (acc ++ r)) (sym e)

pub read_wide_all :
    (c : Chunks) (acc bs : List ℕ) → AreChunksOf 256 2 bs c → read_wide c acc ≡ letters (acc ++ bs)
unfolding read_wide
read_wide_all failed acc bs h = elim h [ ]
read_wide_all null_data acc bs h = elim h [ ]
read_wide_all (end none buffer) acc bs h = elim h [ ]
read_wide_all (end (some n) buffer) acc bs (e, l, (rest, f)) =
    ap (λ r. letters (acc ++ r)) (taken (n / 2) bs rest buffer (omega (arith, e)) f)
read_wide_all (more buffer c) acc bs (first, later, rest, e, l, f, h) =
    ap (λ r. read_wide c (acc ++ r)) (taken 256 first rest buffer (sym l) f)
    ∙ read_wide_all c (acc ++ first) later h
    ∙ ap letters (append_assoc acc first later)
    ∙ ap (λ r. letters (acc ++ r)) (sym e)

pub null_lem : read_wide null_data [] ≡ null string_kind
unfolding read_wide
null_lem = refl
