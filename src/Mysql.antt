-- ===== src/Mysql.antt =====
-- The worker of ADriverMysql, AMysqlThread of src/adrivermysql.cpp: the data that it passes on between its
-- callers and the client library.
--
-- A text is its bytes, in UTF-8. What Qt writes out of a value (a date, a JSON document, another type) is a
-- constructor applied to the bytes that Qt gives. `json` is a QJsonObject, QJsonArray or QJsonValue, by the bytes
-- of its compact document.
pub mod Binding
pub mod Columns
pub mod Connecting
pub mod Worker
mod Kept
pub mod Statements
use asql.Base.{ℕ, Bool, Option, none, List, [], ℤ, negsuc, String}

-- QVariant of an argument, by the case of `mysqlBindParams` that it takes.
pub data Argument : Type 0 where
  null : Argument
  truth : Bool → Argument
  int long_long : ℤ → Argument
  uint ulong_long : ℕ → Argument
  double bytes date time date_time json other : List ℕ → Argument

-- QVariant of a cell; `beyond` where the length of the cell is no `int`.
pub data Value : Type 0 where
  nothing beyond : Value
  letters raw : List ℕ → Value

-- AResultMysql; `m_lastResultSet` is always true.
pub record Result : Type 0 where
  pub query : List ℕ
  pub args : List Argument
  pub fields : List String
  pub rows : List Value
  pub error : Option String
  pub affected : ℤ

abbrev pub new_result : List ℕ → List Argument → Result
new_result q args = record {
  query = q;
  args = args;
  fields = [];
  rows = [];
  error = none;
  affected = negsuc 0;
}

-- `enum_field_types` of MYSQL_BIND.
pub data BufferType : Type 0 where
  tiny_type long_type long_long_type double_type blob_type string_type null_type : BufferType

-- MYSQL_BIND of an argument with what its pointers point to: an entry of `intVals`, as a word of 64 bits, and
-- one of `strVals` or the bytes of one of `doubleVals`.
pub record Bound : Type 0 where
  pub kind : BufferType
  pub word : ℕ
  pub content : List ℕ
  pub length : ℕ
  pub is_unsigned : Bool
  pub is_null : Bool

-- The types of a column that `mysqlFetchStmtRows` tells apart.
pub data FieldType : Type 0 where
  blob tiny_blob medium_blob long_blob string var_string varchar another : FieldType

-- MYSQL_FIELD
pub record Column : Type 0 where
  pub name : String
  pub kind : FieldType
  pub charset : ℕ

-- A cell after mysql_stmt_fetch: `isNull`, `isError`, `lengths` and `bufs`, and what mysql_stmt_fetch_column
-- gives for it if it is asked.
pub record Cell : Type 0 where
  pub is_null : Bool
  pub is_error : Bool
  pub length : ℕ
  pub buffer : List ℕ
  pub whole : Option (List ℕ)
