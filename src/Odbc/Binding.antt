-- ===== src/Odbc/Binding.antt =====
-- How the arguments of a query are handed to the ODBC library: `bindParameters` of AOdbcThread,
-- src/ADriverOdbc.cpp.
use asql.Base.{
  ℕ, ◌<◌, ◌+◌, ◌-◌, ◌*◌, ◌%◌, ◌^◌, Bool, true, false, none, some, List, [], ◌∷◌, ◌≡◌, refl, ap, ◌∙◌,
  arith, if◌then◌else◌, length, ltb, ℤ, pos, negsuc,
}
use asql.Odbc.{
  local_time, short, ushort, uint, float, another, Day, Clock, string_kind, Value, null, truth, int,
  long_long, ulong_long, double, bytes, letters, date, time, date_time, bit, integer, bigint,
  double_type, varbinary, type_date, type_timestamp, wvarchar, SqlType, Bound,
}
use asql.Odbc.Columns.{
  Chunks, null_data, Cell, AreChunksOf, column_value, read_binary_all, read_wide_all, day_of,
  clock_of, null_lem,
}

-- A number as one of two's complement, of the width that has `half` nonnegative numbers.
abbrev pub signed : ℕ → ℕ → ℤ
signed half w = if ltb w half then pos w else negsuc (half + half - 1 - w)

unfoldable pub wrap : ℕ → ℤ → ℤ
wrap half (pos n) = signed half (n % (half + half))
wrap half (negsuc n) = signed half (half + half - 1 - n % (half + half))

-- A number or a struct.
abbrev pub fixed : SqlType → List ℤ → ℕ → ℕ → Bound
fixed k fs i c = record {
  kind = k;
  numbers = fs;
  content = [];
  is_null = false;
  indicator = i;
  column_size = c;
}

-- Bytes or code units.
abbrev pub varying : SqlType → List ℕ → ℕ → ℕ → Bound
varying k bs i c = record (fixed k [] i c) { content = bs }

abbrev pub clock_fields : Clock → List ℤ
clock_fields c = pos c.hour ∷ pos c.minute ∷ pos c.second ∷ pos (c.msec * 1000000) ∷ []

abbrev pub day_fields : Day → List ℤ → List ℤ
day_fields d rest = wrap (2 ^ 15) d.year ∷ pos d.month ∷ pos d.day ∷ rest

-- Short and UShort are bound as Int is, and UInt as LongLong; the number of an ULongLong is made one of a
-- LongLong. A time is a time of the first of January 1900. Of a date with a time the fields are bound as they
-- are, and the time specification is not.
unfoldable pub bind : Value → Bound
unfolding wrap
bind (null k) = record (fixed wvarchar [] 0 1) { is_null = true }
bind (truth b) = fixed bit ((if b then pos 1 else pos 0) ∷ []) 0 1
bind (short n) = fixed integer (n ∷ []) 0 10
bind (ushort n) = fixed integer (pos n ∷ []) 0 10
bind (uint n) = fixed bigint (pos n ∷ []) 0 19
bind (float bs) = varying double_type bs 0 15
bind (another bs) =
    varying wvarchar bs (length bs * 2) (elim bs [ [] ↦ 1 | b ∷ rest ↦ length (b ∷ rest) ])
bind (int n) = fixed integer (n ∷ []) 0 10
bind (long_long n) = fixed bigint (n ∷ []) 0 19
bind (ulong_long n) = fixed bigint (wrap (2 ^ 63) (pos n) ∷ []) 0 19
bind (double bs) = varying double_type bs 0 15
bind (bytes bs) = varying varbinary bs (length bs) (length bs)
bind (date d) = fixed type_date (day_fields d []) 6 10
bind (time c) = fixed type_timestamp (pos 1900 ∷ pos 1 ∷ pos 1 ∷ clock_fields c) 16 23
bind (date_time d c s) = fixed type_timestamp (day_fields d (clock_fields c)) 16 23
bind (letters bs) =
    varying wvarchar bs (length bs * 2) (elim bs [ [] ↦ 1 | b ∷ rest ↦ length (b ∷ rest) ])

-- The pieces of a content that is read piece by piece.
abbrev IsChunkedFor : Bool → SqlType → List ℕ → Chunks → Type 0
IsChunkedFor true k bs c = c ≡ null_data
IsChunkedFor false varbinary bs c = AreChunksOf 4096 1 bs c
IsChunkedFor false wvarchar bs c = AreChunksOf 256 2 bs c
IsChunkedFor false _ bs c = Unit

-- The cell of a column of the type that an argument is bound with, where the server gives back what it got.
abbrev pub IsCellFor : Bound → Cell → Type 0
IsCellFor b x =
    (x.fixed ≡ (if b.is_null then none else some b.numbers))
    × (x.float ≡ b.content)
    × IsChunkedFor b.is_null b.kind b.content x.chunks

-- The years of a struct.
abbrev pub IsYear : ℤ → Type 0
IsYear (pos n) = n < 2 ^ 15
IsYear (negsuc n) = n < 2 ^ 15

abbrev pub IsInRange : Value → Type 0
IsInRange (date d) = IsYear d.year
IsInRange (date_time d c s) = IsYear d.year
IsInRange (ulong_long n) = n < 2 ^ 64
IsInRange _ = Unit

-- What comes back: a number of a smaller type as one of the type that it is bound as, a float as a double, and
-- a value of another type as its text; a null text for each null value; a time with a date; every date with a
-- time as one of local time; and for an unsigned number of the upper half a negative one.
abbrev pub echoed : Value → Value
echoed (null k) = null string_kind
echoed (short n) = int n
echoed (ushort n) = int (pos n)
echoed (uint n) = long_long (pos n)
echoed (float bs) = double bs
echoed (another bs) = letters bs
echoed (time c) = date_time (record { year = pos 1900; month = 1; day = 1 }) c local_time
echoed (date_time d c s) = date_time d c local_time
echoed (ulong_long n) = long_long (if ltb n (2 ^ 63) then pos n else negsuc (2 ^ 64 - 1 - n))
echoed v = v

wrap_year : (n : ℤ) → IsYear n → wrap (2 ^ 15) n ≡ n
unfolding wrap
wrap_year (pos n) h = ground (arith, h)
wrap_year (negsuc n) h = ground (arith, h)

clock_of-fields : (a b c : ℤ) (k : Clock) → clock_of 3 (a ∷ b ∷ c ∷ clock_fields k) ≡ k
clock_of-fields a b c k =
    ap (λ (m : ℕ). record { hour = k.hour; minute = k.minute; second = k.second; msec = m })
      (omega arith)

day_of-fields : (d : Day) (rest : List ℤ) → IsYear d.year → day_of (day_fields d rest) ≡ d
day_of-fields d rest h =
    ap (λ (y : ℤ). record { year = y; month = d.month; day = d.day }) (wrap_year d.year h)

wrap_unsigned :
    (n : ℕ)
    → n < 2 ^ 64
    → wrap (2 ^ 63) (pos n) ≡ (if ltb n (2 ^ 63) then pos n else negsuc (2 ^ 64 - 1 - n))
unfolding wrap
wrap_unsigned n h = ground (arith, h)

-- An argument that the server gives back as it got it is read as the argument again, at every length of its
-- bytes or its text, but for these: a null value of any type is then a null text; a number of a smaller
-- type has the type that it is bound as, a float is a double, and a value of a type that the driver does not
-- know is its text; a time has a date besides; a date with a time of UTC, of an offset or of a zone is the
-- same date and time of day in local time; and a number of the upper half of an unsigned type of 64 bits is
-- the negative one of the same bits. The years are those of the struct.
pub column_value-bind :
    (v : Value) (x : Cell)
    → IsInRange v
    → IsCellFor (bind v) x
    → column_value (bind v).kind x ≡ echoed v
unfolding column_value bind
column_value-bind (null k) x r (f, g, c) = rw c (null_lem)
column_value-bind (truth true) x r (f, g, c) = rw f (ground arith)
column_value-bind (truth false) x r (f, g, c) = rw f (ground arith)
column_value-bind (short n) x r (f, g, c) = rw f refl
column_value-bind (ushort n) x r (f, g, c) = rw f refl
column_value-bind (uint n) x r (f, g, c) = rw f refl
column_value-bind (float bs) x r (f, g, c) = rw f (ap double g)
column_value-bind (another bs) x r (f, g, c) = read_wide_all x.chunks [] bs c
column_value-bind (int n) x r (f, g, c) = rw f refl
column_value-bind (long_long n) x r (f, g, c) = rw f refl
column_value-bind (ulong_long n) x r (f, g, c) = rw f (ap long_long (wrap_unsigned n r))
column_value-bind (double bs) x r (f, g, c) = rw f (ap double g)
column_value-bind (bytes bs) x r (f, g, c) = read_binary_all x.chunks [] bs c
column_value-bind (date d) x r (f, g, c) = rw f (ap date (day_of-fields d [] r))
column_value-bind (time k) x r (f, g, c) = rw f (
    ap (λ (y : Clock). date_time (record { year = pos 1900; month = 1; day = 1 }) y local_time)
      (clock_of-fields (pos 1900) (pos 1) (pos 1) k))
column_value-bind (date_time d k s) x r (f, g, c) = rw f (
    ap (λ (y : Day). date_time y (clock_of 3 (day_fields d (clock_fields k))) local_time)
      (day_of-fields d (clock_fields k) r)
    ∙ ap (λ (y : Clock). date_time d y local_time)
        (clock_of-fields (wrap (2 ^ 15) d.year) (pos d.month) (pos d.day) k))
column_value-bind (letters bs) x r (f, g, c) = read_wide_all x.chunks [] bs c
