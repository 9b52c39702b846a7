-- ===== src/Mysql/Connecting.antt =====
-- How the worker connects: `AMysqlThread::open` of src/adrivermysql.cpp.
--
-- The address of the connection is what QUrl and QUrlQuery give of its text; `lower` is the lower case of a
-- text and `number` its `toUInt`.
use asql.Base.{
  ℕ, Bool, true, false, ◌||◌, not, Option, none, some, List, [], ◌∷◌, ◌++◌, if◌then◌else◌, ℤ, pos,
  negsuc, String, ltb,
}
use text.Mathlib.Text.{◌==◌ as str_eq}

pub record Url : Type 0 where
  pub scheme : String
  pub host : String
  pub user : String
  pub password : String
  pub path : String
  pub port : ℤ
  pub item : String → String
  pub lower : String → String
  pub number : String → ℕ
  pub tail : String → String

-- The calls before mysql_real_connect, and it; a null pointer is `none`.
pub data Setting : Type 0 where
  connect_timeout read_timeout : ℕ → Setting
  certificates : Option String → Option String → Option String → Option String → Setting
  connects : Option String → Option String → Option String → Option String → ℕ → Bool → Setting

-- What mysql_init and mysql_real_connect give: a connection or not, and an error or none.
pub record Answers : Type 0 where
  pub makes : Bool
  pub connects : List Setting → Option String

abbrev pub given : String → Option String
given s = if str_eq s "" then none else some s

abbrev pub timeout : (ℕ → Setting) → ℕ → List Setting
timeout f n = if ltb 0 n then f n ∷ [] else []

-- CLIENT_SSL
unfoldable pub is_secure : Url → Bool
is_secure u =
    let scheme = u.lower u.scheme in
    let mode = u.lower (u.item "ssl-mode") in
    (str_eq scheme "mysqls" || str_eq scheme "mariadbs")
    || (str_eq mode "required" || str_eq mode "verify_ca" || str_eq mode "verify_identity")

unfoldable pub has_certificates : Url → Bool
has_certificates u =
    not (str_eq (u.item "ssl-ca") "")
    || not (str_eq (u.item "ssl-cert") "")
    || not (str_eq (u.item "ssl-key") "")
    || not (str_eq (u.item "ssl-cipher") "")

abbrev pub port_of : ℤ → ℕ
port_of (pos n) = if ltb 0 n then n else 3306
port_of (negsuc n) = 3306

unfoldable pub settings : Url → List Setting
unfolding is_secure has_certificates
settings u =
    timeout connect_timeout (u.number (u.item "connect_timeout"))
    ++ timeout read_timeout (u.number (u.item "read_timeout"))
    ++ (if is_secure u || has_certificates u
        then certificates (given (u.item "ssl-key")) (given (u.item "ssl-cert"))
            (given (u.item "ssl-ca")) (given (u.item "ssl-cipher"))
          ∷ []
        else [])
    ++ (connects (given u.host) (given u.user) (given u.password) (given (u.tail u.path))
          (port_of u.port) (is_secure u)
        ∷ [])

-- Whether there is a connection, the error that is told with it, and the calls.
unfoldable pub open_it : Url → Answers → (Bool × String) × List Setting
open_it u a = elim a.makes [
  | false ↦ ((false, "mysql_init() failed: out of memory"), [])
  | true ↦ (elim (a.connects (settings u)) [
    | some e ↦ ((false, e), settings u)
    | none ↦ ((true, ""), settings u)
  ])
]
