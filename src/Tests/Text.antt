-- ===== src/Tests/Text.antt =====
-- Texts of the tests as lists of their code points.
use Prim.Native.Char.{code}
use asql.Base.{ℕ, List, [], ◌∷◌, String}

abbrev pub codes : String → List ℕ
codes String.[] = []
codes (String.◌∷◌ c s) = code c ∷ codes s
