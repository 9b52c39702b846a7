-- ===== src/Mysql/Columns.antt =====
-- How the cells of a result are read: `mysqlFillRow` for the results of a text and `mysqlFetchStmtRows` for
-- those of a statement, src/adrivermysql.cpp, and the access to them by AResultMysql.
use asql.Base.{
  leb, ◌&&◌, ◌-◌, ◌⊎◌, ◌≢◌, subst, ◌%◌, ℕ, zero, suc, ◌<◌, ◌≤◌, ◌+◌, ◌*◌, ◌/◌, ◌^◌, Bool, true,
  false, Option, none, some, List, [], ◌∷◌, ◌++◌, ◌≡◌, refl, ap, ◌∙◌, sym, arith, ◌+ℤ◌, sub_ℕ, ℤ,
  pos, negsuc, All, append-nil, append_assoc, some_inj, length-map, if◌then◌else◌, map, length, ltb,
  ◌==◌, get_elem?, String, Bool-cases, inl, inr,
}
use asql.Workers.Grid.{concat, IsWide, get_elem?-concat}
use asql.Mysql.{
  Value, nothing, beyond, letters, raw, blob, tiny_blob, medium_blob, long_blob, string, var_string,
  varchar, another, Column, Cell, Result,
}

-- A cell of a text's result: its bytes, or a null pointer.
unfoldable pub fill_cell : Option (List ℕ) → Value
fill_cell none = nothing
fill_cell (some bs) = if ltb (length bs) (2 ^ 31) then letters bs else beyond

unfoldable pub fill_row : List (Option (List ℕ)) → List Value → List Value
fill_row row rows = rows ++ map fill_cell row

unfoldable pub fill_rows : List (List (Option (List ℕ))) → List Value → List Value
fill_rows [] rows = rows
fill_rows (r ∷ rs) rows = fill_rows rs (fill_row r rows)

-- Numbers are flagged as binary too, so that the type tells; 63 is the charset of bytes.
unfoldable pub is_binary : Column → Bool
is_binary c = elim c.kind [
  | blob ↦ true
  | tiny_blob ↦ true
  | medium_blob ↦ true
  | long_blob ↦ true
  | string ↦ c.charset == 63
  | var_string ↦ c.charset == 63
  | varchar ↦ c.charset == 63
  | another ↦ false
]

abbrev pub left : ℕ → List ℕ → List ℕ
left zero bs = []
left (suc n) [] = []
left (suc n) (b ∷ bs) = b ∷ left n bs

abbrev pub as_value : Bool → List ℕ → Value
as_value binary bs = if binary then raw bs else letters bs

-- A value of bytes that are fetched once more, at their length.
abbrev pub refetched : Bool → Option (List ℕ) → Value
refetched binary none = nothing
refetched binary (some bs) = as_value binary bs

-- `actualLen` is an `int`; what was truncated is fetched once more. `QByteArray::left` of a whole buffer gives
-- the buffer itself, not a copy, and the next rows are fetched into it: `final` is what it holds at last.
unfoldable pub read_cell : Column → List ℕ → Cell → Value
read_cell c final x =
    if x.is_null
    then nothing
    else if ltb x.length (2 ^ 31)
    then if x.is_error
      then refetched (is_binary c) x.whole
      else if is_binary c && leb 256 x.length
      then raw (left 256 final)
      else as_value (is_binary c) (left x.length x.buffer)
    else beyond

-- The cells of a row, with what the buffers of their columns hold at last.
unfoldable pub read_row : List Column → List (List ℕ) → List Cell → List Value
read_row [] fs xs = []
read_row (c ∷ cs) fs [] = []
read_row (c ∷ cs) [] (x ∷ xs) = read_cell c x.buffer x ∷ read_row cs [] xs
read_row (c ∷ cs) (f ∷ fs) (x ∷ xs) = read_cell c f x ∷ read_row cs fs xs

-- The buffers after the last row.
unfoldable pub buffers : List (List Cell) → List (List ℕ)
buffers [] = []
buffers (r ∷ []) = map (λ (x : Cell). x.buffer) r
buffers (r ∷ s ∷ rs) = buffers (s ∷ rs)

unfoldable pub read_each : List Column → List (List ℕ) → List (List Cell) → List Value → List Value
read_each cs fs [] rows = rows
read_each cs fs (r ∷ rs) rows = read_each cs fs rs (rows ++ read_row cs fs r)

unfoldable pub read_rows : List Column → List (List Cell) → List Value → List Value
read_rows cs rs rows = read_each cs (buffers rs) rs rows

unfoldable pub size : Result → ℕ
size r = elim r.fields [ [] ↦ 0 | f ∷ fs ↦ length r.rows / length r.fields ]

-- The low 32 bits of a number, as an `int`.
abbrev pub signed_int : ℕ → ℤ
signed_int w = if ltb w (2 ^ 31) then pos w else negsuc (2 ^ 32 - 1 - w)

unfoldable pub narrow : ℤ → ℤ
narrow (pos n) = signed_int (n % 2 ^ 32)
narrow (negsuc n) = signed_int (2 ^ 32 - 1 - n % 2 ^ 32)

-- `row * m_fields.size() + column`, before it is made an `int`.
unfoldable pub place : ℤ → ℕ → ℤ → ℤ
place (pos i) w j = pos (i * w) +ℤ j
place (negsuc i) w j = sub_ℕ 0 (suc i * w) +ℤ j

-- A null value where there is no such place.
abbrev pub at_place : ℤ → List Value → Value
at_place (negsuc n) vs = nothing
at_place (pos n) vs = elim (get_elem? vs n) [ none ↦ nothing | some v ↦ v ]

unfoldable pub value : Result → ℤ → ℤ → Value
unfolding narrow
value r i j = at_place (narrow (place i (length r.fields) j)) r.rows

unfoldable pub field_name : Result → ℤ → Option String
field_name r (negsuc j) = none
field_name r (pos j) = get_elem? r.fields j

-- What is documented of a cell of some content: its length, that the first 256 bytes of it are there, that
-- it is marked as truncated where there are more, and that it is given whole on demand.
abbrev pub IsCellOf : Option (List ℕ) → Cell → Type 0
IsCellOf none x = x.is_null ≡ true
IsCellOf (some bs) x =
    (x.is_null ≡ false)
    × (x.length ≡ length bs)
    × (length bs < 2 ^ 31)
    × (x.is_error ≡ ltb 256 (length bs))
    × ((rest : List ℕ) × (x.buffer ≡ left 256 bs ++ rest))
    × (x.whole ≡ some bs)

abbrev pub AreCellsOf : List (Option (List ℕ)) → List Cell → Type 0
AreCellsOf [] [] = Unit
AreCellsOf (o ∷ os) (x ∷ xs) = IsCellOf o x × AreCellsOf os xs
AreCellsOf _ _ = ⊥

abbrev pub AreRowsOf : List (List (Option (List ℕ))) → List (List Cell) → Type 0
AreRowsOf [] [] = Unit
AreRowsOf (o ∷ os) (x ∷ xs) = AreCellsOf o x × AreRowsOf os xs
AreRowsOf _ _ = ⊥

abbrev pub meant : Column → Option (List ℕ) → Value
meant c none = nothing
meant c (some bs) = as_value (is_binary c) bs

left-append : (n : ℕ) (bs rest : List ℕ) → length bs ≤ n → left (length bs) (left n bs ++ rest) ≡ bs
left-append n [] rest h = refl
left-append zero (b ∷ bs) rest h = absurd (omega (arith, h))
left-append (suc n) (b ∷ bs) rest h = ap (λ r. b ∷ r) (left-append n bs rest (omega (arith, h)))

lt→ltb : (a b : ℕ) → a < b → ltb a b ≡ true
lt→ltb a b h = ground (arith, h)

ltb→le : (a b : ℕ) → ltb a b ≡ false → b ≤ a
ltb→le a b h = ground (arith, h)

-- A content that is not shared with the buffer: a text, or bytes that do not fill the buffer exactly.
abbrev pub IsCopied : Column → Option (List ℕ) → Type 0
IsCopied c none = Unit
IsCopied c (some bs) = (is_binary c ≡ false) ⊎ (length bs ≢ 256)

short_enough : (n : ℕ) → ltb 256 n ≡ false → n ≢ 256 → leb 256 n ≡ false
short_enough n h k = ground (arith, h, k)

not_shared :
    (b : Bool) (n : ℕ) → (b ≡ false) ⊎ (n ≢ 256) → ltb 256 n ≡ false → (b && leb 256 n) ≡ false
not_shared b n (inl e) h = rw e refl
not_shared true n (inr k) h = short_enough n h k
not_shared false n (inr k) h = refl

-- Such a cell is read as its content, whether it fits into the buffer or not.
pub read_cell_lem :
    (c : Column) (final : List ℕ) (o : Option (List ℕ)) (x : Cell)
    → IsCellOf o x
    → IsCopied c o
    → read_cell c final x ≡ meant c o
unfolding read_cell
read_cell_lem c final none x h k = ground (arith, h)
read_cell_lem c final (some bs) x (here, long, fits, cut, (rest, held), whole) k = rw here (
    rw long (
      rw (lt→ltb (length bs) (2 ^ 31) fits) (elim (Bool-cases (ltb 256 (length bs))) [
        | inl q ↦ rw (cut ∙ q) (ap (refetched (is_binary c)) whole)
        | inr q ↦ rw (cut ∙ q) (
            rw (not_shared (is_binary c) (length bs) k q) (
              ap (as_value (is_binary c))
                (ap (left (length bs)) held ∙ left-append 256 bs rest (ltb→le 256 (length bs) q))))
      ])))

-- Bytes that fill the buffer exactly are read as what the last row left there.
pub read_cell_shared :
    (c : Column) (final bs : List ℕ) (x : Cell)
    → IsCellOf (some bs) x
    → is_binary c ≡ true
    → length bs ≡ 256
    → read_cell c final x ≡ raw (left 256 final)
unfolding read_cell
read_cell_shared c final bs x (here, long, fits, cut, held, whole) b e =
    rw here (rw (long ∙ e) (rw (cut ∙ ap (ltb 256) e) (rw b refl)))

get_elem?-read_row :
    (cs : List Column) (fs : List (List ℕ)) (os : List (Option (List ℕ))) (xs : List Cell) (j : ℕ)
    (c : Column) (o : Option (List ℕ))
    → AreCellsOf os xs
    → get_elem? cs j ≡ some c
    → get_elem? os j ≡ some o
    → IsCopied c o
    → get_elem? (read_row cs fs xs) j ≡ some (meant c o)
unfolding read_row
get_elem?-read_row [] fs os xs j c o h e f k = cc
get_elem?-read_row (y ∷ cs) fs [] xs j c o h e f k = cc
get_elem?-read_row (y ∷ cs) fs (p ∷ os) [] j c o h e f k = elim h [ ]
get_elem?-read_row (y ∷ cs) [] (p ∷ os) (x ∷ xs) zero c o h e f k =
    rw (some_inj e)
      (ap some (read_cell_lem c x.buffer o x (subst (λ z. IsCellOf z x) (some_inj f) h.0) k))
get_elem?-read_row (y ∷ cs) [] (p ∷ os) (x ∷ xs) (suc j) c o h e f k =
    get_elem?-read_row cs [] os xs j c o h.1 e f k
get_elem?-read_row (y ∷ cs) (b ∷ fs) (p ∷ os) (x ∷ xs) zero c o h e f k =
    rw (some_inj e) (ap some (read_cell_lem c b o x (subst (λ z. IsCellOf z x) (some_inj f) h.0) k))
get_elem?-read_row (y ∷ cs) (b ∷ fs) (p ∷ os) (x ∷ xs) (suc j) c o h e f k =
    get_elem?-read_row cs fs os xs j c o h.1 e f k

read_each_lem :
    (cs : List Column) (fs : List (List ℕ)) (xs : List (List Cell)) (before : List Value)
    → read_each cs fs xs before ≡ before ++ concat (map (read_row cs fs) xs)
unfolding read_each
read_each_lem cs fs [] before = sym (append-nil before)
read_each_lem cs fs (x ∷ xs) before =
    read_each_lem cs fs xs (before ++ read_row cs fs x)
    ∙ append_assoc before (read_row cs fs x) (concat (map (read_row cs fs) xs))

length-read_row :
    (cs : List Column) (fs : List (List ℕ)) (os : List (Option (List ℕ))) (xs : List Cell)
    → AreCellsOf os xs
    → length os ≡ length cs
    → length (read_row cs fs xs) ≡ length cs
unfolding read_row
length-read_row [] fs os xs h l = refl
length-read_row (c ∷ cs) fs [] xs h l = absurd (omega (arith, l))
length-read_row (c ∷ cs) fs (o ∷ os) [] h l = elim h [ ]
length-read_row (c ∷ cs) [] (o ∷ os) (x ∷ xs) h l =
    ap suc (length-read_row cs [] os xs h.1 (omega (arith, l)))
length-read_row (c ∷ cs) (b ∷ fs) (o ∷ os) (x ∷ xs) h l =
    ap suc (length-read_row cs fs os xs h.1 (omega (arith, l)))

read_row-IsWide :
    (cs : List Column) (fs : List (List ℕ)) (os : List (List (Option (List ℕ))))
    (xs : List (List Cell))
    → AreRowsOf os xs
    → All (λ o. length o ≡ length cs) os
    → IsWide (length cs) (map (read_row cs fs) xs)
read_row-IsWide cs fs [] [] h l = tt
read_row-IsWide cs fs [] (x ∷ xs) h l = elim h [ ]
read_row-IsWide cs fs (o ∷ os) [] h l = elim h [ ]
read_row-IsWide cs fs (o ∷ os) (x ∷ xs) h l =
    (length-read_row cs fs o x h.0 l.0, read_row-IsWide cs fs os xs h.1 l.1)

-- The cells of a row of the table.
row_of :
    (os : List (List (Option (List ℕ)))) (xs : List (List Cell)) (i : ℕ)
    (row : List (Option (List ℕ)))
    → AreRowsOf os xs
    → get_elem? os i ≡ some row
    → (x : List Cell) × (get_elem? xs i ≡ some x) × AreCellsOf row x
row_of [] xs i row h e = cc
row_of (o ∷ os) [] i row h e = elim h [ ]
row_of (o ∷ os) (x ∷ xs) zero row h e = (x, refl, subst (λ y. AreCellsOf y x) (some_inj e) h.0)
row_of (o ∷ os) (x ∷ xs) (suc i) row h e = row_of os xs i row h.1 e

get_elem?-map :
    {A B : Type 0} (f : A → B) (xs : List A) (i : ℕ) (x : A)
    → get_elem? xs i ≡ some x
    → get_elem? (map f xs) i ≡ some (f x)
get_elem?-map f [] i x e = cc
get_elem?-map f (y ∷ xs) zero x e = ap (λ z. some (f z)) (some_inj e)
get_elem?-map f (y ∷ xs) (suc i) x e = get_elem?-map f xs i x e

get_elem?-lt : {A : Type 0} (xs : List A) (i : ℕ) (x : A) → get_elem? xs i ≡ some x → i < length xs
get_elem?-lt [] i x e = cc
get_elem?-lt (y ∷ xs) zero x e = omega arith
get_elem?-lt (y ∷ xs) (suc i) x e = omega (arith, get_elem?-lt xs i x e)

sum_lem : (a b : ℕ) → pos a +ℤ pos b ≡ pos (a + b)
unfolding ◌+ℤ◌
sum_lem a b = ground arith

narrow_lem : (n : ℕ) → n < 2 ^ 31 → narrow (pos n) ≡ pos n
unfolding narrow
narrow_lem n h = ground (arith, h)

-- Where the client library gives the cells of a table as it documents, and the place of a value in the one
-- list of them is an `int`, the value of a row and a column is the content of the table there, shorter or
-- longer than the buffer: bytes for a column of bytes, else a text, and a null value for NULL. The one
-- exception are the bytes whose length is exactly that of the buffer.
pub value-read_rows :
    (r : Result) (cs : List Column) (table : List (List (Option (List ℕ))))
    (cells : List (List Cell)) (i j : ℕ) (row : List (Option (List ℕ))) (c : Column)
    (o : Option (List ℕ))
    → AreRowsOf table cells
    → All (λ line. length line ≡ length cs) table
    → get_elem? table i ≡ some row
    → get_elem? row j ≡ some o
    → get_elem? cs j ≡ some c
    → IsCopied c o
    → i * length cs + j < 2 ^ 31
    → value
        (record r { fields = map (λ (x : Column). x.name) cs; rows = read_rows cs cells [] })
        (pos i)
        (pos j)
      ≡ meant c o
unfolding value place ◌+ℤ◌ read_rows
value-read_rows r cs table cells i j row c o h w e f g k b =
    let (x, at, of_row) = row_of table cells i row h e in
    let fs = buffers cells in
    rw (length-map (λ (x : Column). x.name) cs) (
      rw (read_each_lem cs fs cells []) (
        found fs (
          get_elem?-concat (length cs) (map (read_row cs fs) cells) i j (read_row cs fs x)
            (read_row-IsWide cs fs table cells h w) (get_elem?-map (read_row cs fs) cells i x at)
            (get_elem?-lt cs j c g)
          ∙ get_elem?-read_row cs fs row x j c o of_row g f k)))
  where
    found :
        (fs : List (List ℕ))
        → get_elem? (concat (map (read_row cs fs) cells)) (i * length cs + j) ≡ some (meant c o)
        → at_place (narrow (pos (i * length cs) +ℤ pos j)) (concat (map (read_row cs fs) cells))
          ≡ meant c o
    found fs q =
        ap (λ n. at_place (narrow n) (concat (map (read_row cs fs) cells)))
          (sum_lem (i * length cs) j)
        ∙ ap (λ n. at_place n (concat (map (read_row cs fs) cells)))
            (narrow_lem (i * length cs + j) b)
        ∙ ground (arith, q)
