-- ===== src/Workers/Grid.antt =====
-- The one list of values in which the results of the drivers with a worker keep their rows: `m_rows` of
-- AResultSqlite, AResultMysql and AResultOdbc.
use asql.Base.{
  ℕ, zero, suc, ◌<◌, ◌+◌, ◌*◌, some, List, [], ◌∷◌, ◌++◌, ◌≡◌, ap, ◌∙◌, arith, All, length,
  length-append, get_elem?, some_inj,
}
use asql.Rows.Flat.{get_elem?-left, get_elem?-right}

module _ {A : Type 0} where
  abbrev pub concat : List (List A) → List A
  concat [] = []
  concat (r ∷ rs) = r ++ concat rs

  -- Each row has `w` cells.
  abbrev pub IsWide : ℕ → List (List A) → Type 0
  IsWide w rs = All (λ r. length r ≡ w) rs

  pub length-concat :
      (w : ℕ) (rs : List (List A)) → IsWide w rs → length (concat rs) ≡ length rs * w
  length-concat w [] h = omega arith
  length-concat w (r ∷ rs) h =
      length-append r (concat rs) ∙ grind (arith, h.0, length-concat w rs h.1)

  pub get_elem?-concat :
      (w : ℕ) (rs : List (List A)) (i j : ℕ) (r : List A)
      → IsWide w rs
      → get_elem? rs i ≡ some r
      → j < w
      → get_elem? (concat rs) (i * w + j) ≡ get_elem? r j
  get_elem?-concat w [] i j r h e l = cc
  get_elem?-concat w (x ∷ rs) zero j r h e l =
      ap (get_elem? (x ++ concat rs)) (omega arith)
      ∙ get_elem?-left x (concat rs) j (omega (arith, h.0))
      ∙ ap (λ y. get_elem? y j) (some_inj e)
  get_elem?-concat w (x ∷ rs) (suc i) j r h e l =
      ap (get_elem? (x ++ concat rs)) (grind (arith, h.0))
      ∙ get_elem?-right x (concat rs) (i * w + j)
      ∙ get_elem?-concat w rs i j r h.1 e l
