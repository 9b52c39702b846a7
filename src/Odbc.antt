-- ===== src/Odbc.antt =====
-- The worker of ADriverOdbc, AOdbcThread of src/ADriverOdbc.cpp: the data that it passes on between its
-- callers and the ODBC library.
--
-- A text is its code units. A float is its bytes. What Qt writes out of a value of another type is given.
pub mod Binding
pub mod Columns
pub mod Worker
mod Kept
pub mod Statements
use asql.Base.{ℕ, Bool, Option, none, List, [], ℤ, negsuc, String}

-- QDate, QTime and QDateTime: year, month and day; hour, minute, second and millisecond.
pub record Day : Type 0 where
  pub year : ℤ
  pub month : ℕ
  pub day : ℕ

pub record Clock : Type 0 where
  pub hour : ℕ
  pub minute : ℕ
  pub second : ℕ
  pub msec : ℕ

-- The types of a null value.
pub data Kind : Type 0 where
  bool_kind int_kind long_long_kind double_kind bytes_kind date_kind time_kind date_time_kind
        string_kind :
      Kind

-- The time specification of a QDateTime, with the seconds of an offset or the name of a zone.
pub data Spec : Type 0 where
  local_time utc : Spec
  offset : ℤ → Spec
  zone : String → Spec

-- QVariant of an argument and of a cell. `double` is the bytes of the number and `float` those of the double
-- that Qt makes of it; `another` is a value of a type that is bound as the text that Qt makes of it.
pub data Value : Type 0 where
  null : Kind → Value
  truth : Bool → Value
  short int long_long : ℤ → Value
  ushort uint ulong_long : ℕ → Value
  float double bytes letters another : List ℕ → Value
  date : Day → Value
  time : Clock → Value
  date_time : Day → Clock → Spec → Value

-- The types of ODBC that `columnValue` and `bindParameters` tell apart.
pub data SqlType : Type 0 where
  bit tinyint smallint integer bigint real_type float_type double_type : SqlType
  binary varbinary longvarbinary type_date ss_time2 type_time type_timestamp wvarchar other :
      SqlType

-- SQLBindParameter: the type, the number or the fields of the struct, the bytes or code units of the buffer,
-- whether the indicator is SQL_NULL_DATA, its value, and the size of the column.
pub record Bound : Type 0 where
  pub kind : SqlType
  pub numbers : List ℤ
  pub content : List ℕ
  pub is_null : Bool
  pub indicator : ℕ
  pub column_size : ℕ

-- `m_error`, by the text that it starts with.
pub data Failure : Type 0 where
  allocating preparing executing executing_prepared counting fetching : String → Failure
  binding describing : ℕ → String → Failure
  interrupted : Failure

-- AResultOdbc; `m_lastResultSet` is always true.
pub record Result : Type 0 where
  pub query : List ℕ
  pub args : List Value
  pub fields : List String
  pub rows : List Value
  pub error : Option Failure
  pub affected : ℤ

abbrev pub new_result : List ℕ → List Value → Result
new_result q args = record {
  query = q;
  args = args;
  fields = [];
  rows = [];
  error = none;
  affected = negsuc 0;
}
