-- ===== src/Rows/Access.antt =====
-- Values by the name of their column, in src/aresult.cpp.
use asql.Base.{
  ℕ, zero, suc, ◌+◌, ◌≤◌, ◌<◌, ◌≡◌, refl, sym, ap, ◌∙◌, ◌≢◌, true, false, [], ◌∷◌, some, String,
  arith, if◌then◌else◌, Bool-cases, inl, inr, ◌⊎◌, ℤ, pos, negsuc, dec_le, subst,
}
use text.Mathlib.Text.{◌==◌ as str_eq}
use text.Mathlib.TextEquality.{eq_iff}
use asql.Rows.{Table, Object, put, look, search_field, index_of_field, object_to, row_object}

pub look-put :
    {J : Type 0} (k j : String) (x : J) (m : Object J)
    → look j (put k x m) ≡ (if str_eq k j then some x else look j m)
unfolding look put
look-put k j x [] = refl
look-put k j x ((i, y) ∷ m) = ground (arith, eq_iff i k, eq_iff k j, eq_iff i j, look-put k j x m)

-- No two columns have the same name.
abbrev pub Distinct : {V : Type 0} → Table V → Type 0
Distinct t = (i j : ℕ) → i < t.fields → j < t.fields → t.field_name i ≡ t.field_name j → i ≡ j

module _ {V : Type 0} (t : Table V) where
  search_field-finds :
      (name : String) (i n : ℕ)
      → ((k : ℕ) × (i ≤ k)
          × (k < i + n)
          × (search_field t name i n ≡ pos k)
          × (t.field_name k ≡ name)
          × ((j : ℕ) → i ≤ j → j < k → t.field_name j ≢ name))
        ⊎ ((search_field t name i n ≡ negsuc 0)
            × ((j : ℕ) → i ≤ j → j < i + n → t.field_name j ≢ name))
  unfolding search_field
  search_field-finds name i zero = inr (refl, λ j a b. absurd (omega arith))
  search_field-finds name i (suc n) = elim (Bool-cases (str_eq name (t.field_name i))) [
    | inl e ↦ inl (
      i,
      omega arith,
      omega arith,
      rw e refl,
      sym ((eq_iff name (t.field_name i)).0 e),
      λ j a b. absurd (omega arith),
    )
    | inr e ↦ elim (search_field-finds name (suc i) n) [
      | inl (k, a, b, f, g, least) ↦
          inl (k, omega arith, omega arith, rw e f, g, λ j c d. by_first j e (λ x. least j x d) c)
      | inr (f, nowhere) ↦ inr (rw e f, λ j c d. by_first j e (λ x. nowhere j x (omega arith)) c)
    ]
  ]
    where
      by_first :
          (j : ℕ)
          → str_eq name (t.field_name i) ≡ false
          → (suc i ≤ j → t.field_name j ≢ name)
          → i ≤ j
          → t.field_name j ≢ name
      by_first j e later c q = elim (dec_le (suc i) j) [
        | yes l ↦ later l q
        | no nl ↦
            let same : i ≡ j = omega arith in
            let found : str_eq name (t.field_name i) ≡ true =
              (eq_iff name (t.field_name i)).1 (sym (ap t.field_name same ∙ q)) in
            absurd (cc)
      ]

  abbrev pub First : String → ℤ → Type 0
  First name (pos k) =
      (k < t.fields) × (t.field_name k ≡ name) × ((j : ℕ) → j < k → t.field_name j ≢ name)
  First name (negsuc k) = (k ≡ 0) × ((j : ℕ) → j < t.fields → t.field_name j ≢ name)

  -- `indexOfField` gives the first column of a name, and -1 where no column has it.
  pub index_of_field-First : (name : String) → First name (index_of_field t name)
  unfolding index_of_field
  index_of_field-First name = elim (search_field-finds name 0 t.fields) [
    | inl (k, a, b, f, g, least) ↦
        subst (First name) (sym f) (omega arith, g, λ j c. least j (omega arith) c)
    | inr (f, nowhere) ↦
        subst (First name) (sym f) (refl, λ j c. nowhere j (omega arith) (omega arith))
  ]

  module _ {J : Type 0} (convert : V → J) where
    pub look-object_to :
        (row n i : ℕ)
        → Distinct t
        → n ≤ t.fields
        → i < n
        → look (t.field_name i) (object_to t convert row n) ≡ some (convert (t.value row i))
    unfolding object_to
    look-object_to row zero i d l b = absurd (omega arith)
    look-object_to row (suc n) i d l b =
        look-put (t.field_name n) (t.field_name i) (convert (t.value row n))
          (object_to t convert row n)
        ∙ elim (Bool-cases (str_eq (t.field_name n) (t.field_name i))) [
          | inl e ↦
              let same : n ≡ i =
                d n i (omega arith) (omega arith)
                  ((eq_iff (t.field_name n) (t.field_name i)).0 e) in
              rw e (ap (λ k. some (convert (t.value row k))) same)
          | inr e ↦ rw e (look-object_to row n i d (omega arith) (elsewhere (dec_le (suc i) n) e))
        ]
      where
        elsewhere : Dec (suc i ≤ n) → str_eq (t.field_name n) (t.field_name i) ≡ false → i < n
        elsewhere (yes h) e = h
        elsewhere (no h) e =
            let same : n ≡ i = omega arith in
            let found : str_eq (t.field_name n) (t.field_name i) ≡ true =
              (eq_iff (t.field_name n) (t.field_name i)).1 (ap t.field_name same) in
            absurd (cc)

    -- Where no two columns share a name, the name of a column leads to it both by `indexOfField` and in
    -- a row made into a hash, a JSON object or a CBOR map.
    pub access_by_name :
        (row i : ℕ)
        → Distinct t
        → i < t.fields
        → (index_of_field t (t.field_name i) ≡ pos i)
          × (look (t.field_name i) (row_object t convert row) ≡ some (convert (t.value row i)))
    unfolding row_object
    access_by_name row i d b = (
      by_first (index_of_field t (t.field_name i)) refl (index_of_field-First (t.field_name i)),
      look-object_to row t.fields i d (omega arith) b,
    )
      where
        by_first :
            (z : ℤ)
            → index_of_field t (t.field_name i) ≡ z
            → First (t.field_name i) z
            → index_of_field t (t.field_name i) ≡ pos i
        by_first (pos k) e (a, f, least) = e ∙ ap pos (d k i a b f)
        by_first (negsuc k) e (z, nowhere) = absurd (nowhere i b refl)
