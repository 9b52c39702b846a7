-- ===== src/Migrations/Parser/Blocks.antt =====
-- Whole files for the parser of src/amigrations.cpp, block by block: a header and the lines under it.
use asql.Base.{
  ℕ, ◌≡◌, refl, sym, ap, ◌∙◌, ◌≢◌, Bool, true, false, List, [], ◌∷◌, ◌++◌, append_assoc, append-nil,
  none, some, arith, All, ℤ, pos, eqb_ℤ, Bool-cases, inl, inr,
}
use mathlib.Core.List.{foldl}
use asql.Base.SortedMap.{find, insert, insert-insert, find-insert_self}
use asql.Migrations.Header.{Captures, match_header, to_int}
use asql.Migrations.Parser.{
  MigQuery, Reading, parsed, duplicated, at_header, is_up, append_line, read_header, read_body,
  read_line, read_lines,
}

pub record Block : Type 0 where
  pub header : List ℕ
  pub captures : Captures
  pub body : List (List ℕ)

-- The header is one, and no line of the body is.
pub record IsBlock (b : Block) : Type 0 where
  pub headed : match_header b.header ≡ some b.captures
  pub plain : All (λ l. match_header l ≡ none) b.body

abbrev pub lines : List Block → List (List ℕ)
lines [] = []
lines (b ∷ bs) = b.header ∷ (b.body ++ lines bs)

-- The text of the lines under a header, each ended.
abbrev pub text : List (List ℕ) → List ℕ
text [] = []
text (l ∷ ls) = (l ++ (b'\n' ∷ [])) ++ text ls

abbrev pub version : Block → ℤ
version b = to_int b.captures.digits

abbrev entry : ℤ → Bool → List ℕ → MigQuery
entry v nt q = record { query = q; version = v; no_transaction = nt }

append_again :
    (v : ℤ) (nt : Bool) (q l : List ℕ) (m : List (ℤ × MigQuery))
    → append_line v nt l (insert v (entry v nt q) m)
      ≡ insert v (entry v nt (q ++ (l ++ (b'\n' ∷ [])))) m
unfolding append_line
append_again v nt q l m =
    rw (find-insert_self v (entry v nt q) m)
      (insert-insert v (entry v nt q) (entry v nt (q ++ (l ++ (b'\n' ∷ [])))) m)

append_first :
    (v : ℤ) (nt : Bool) (l : List ℕ) (m : List (ℤ × MigQuery))
    → find v m ≡ none
    → append_line v nt l m ≡ insert v (entry v nt (l ++ (b'\n' ∷ []))) m
unfolding append_line
append_first v nt l m e = rw e

abbrev with_map : Bool → Reading → List (ℤ × MigQuery) → Reading
with_map true r m = record r { ups = m }
with_map false r m = record r { downs = m }

abbrev map_of : Bool → Reading → List (ℤ × MigQuery)
map_of true r = r.ups
map_of false r = r.downs

read_body_lem :
    (u : Bool) (l : List ℕ) (r : Reading)
    → r.up_way ≡ u
    → eqb_ℤ r.version (pos 0) ≡ false
    → read_body l r ≡ with_map u r (append_line r.version r.no_transaction l (map_of u r))
unfolding read_body
read_body_lem true l r e n = rw (n, e)
read_body_lem false l r e n = rw (n, e)

-- The state with a query of the present version in its map.
abbrev holding : Bool → Reading → List ℕ → List (ℤ × MigQuery) → Reading
holding u r q m = with_map u r (insert r.version (entry r.version r.no_transaction q) m)

line_again :
    (u : Bool) (l q : List ℕ) (m : List (ℤ × MigQuery)) (r : Reading)
    → match_header l ≡ none
    → r.up_way ≡ u
    → eqb_ℤ r.version (pos 0) ≡ false
    → read_line l (holding u r q m) ≡ parsed (holding u r (q ++ (l ++ (b'\n' ∷ []))) m)
unfolding read_line
line_again true l q m r p e n =
    rw (p, read_line)
      (ap parsed (
        read_body_lem true l (holding true r q m) e n
        ∙ ap (with_map true r) (append_again r.version r.no_transaction q l m)))
line_again false l q m r p e n =
    rw (p, read_line)
      (ap parsed (
        read_body_lem false l (holding false r q m) e n
        ∙ ap (with_map false r) (append_again r.version r.no_transaction q l m)))

read_lines_on :
    (l : List ℕ) (ls : List (List ℕ)) (r : Reading) {r' : Reading}
    → read_line l r ≡ parsed r'
    → read_lines (l ∷ ls) r ≡ read_lines ls r'
unfolding read_lines
read_lines_on l ls r e = rw e

lines_again :
    (u : Bool) (ls rest : List (List ℕ)) (q : List ℕ) (m : List (ℤ × MigQuery)) (r : Reading)
    → All (λ l. match_header l ≡ none) ls
    → r.up_way ≡ u
    → eqb_ℤ r.version (pos 0) ≡ false
    → read_lines (ls ++ rest) (holding u r q m) ≡ read_lines rest (holding u r (q ++ text ls) m)
lines_again u [] rest q m r p e n = ap (λ t. read_lines rest (holding u r t m)) (sym (append-nil q))
lines_again u (l ∷ ls) rest q m r p e n =
    read_lines_on l (ls ++ rest) (holding u r q m) (line_again u l q m r p.0 e n)
    ∙ lines_again u ls rest (q ++ (l ++ (b'\n' ∷ []))) m r p.1 e n
    ∙ ap (λ t. read_lines rest (holding u r t m)) (append_assoc q (l ++ (b'\n' ∷ [])) (text ls))

line_first :
    (u : Bool) (l : List ℕ) (r : Reading)
    → match_header l ≡ none
    → r.up_way ≡ u
    → eqb_ℤ r.version (pos 0) ≡ false
    → find r.version (map_of u r) ≡ none
    → read_line l r ≡ parsed (holding u r (l ++ (b'\n' ∷ [])) (map_of u r))
unfolding read_line
line_first u l r p e n f =
    rw (p, read_line)
      (ap parsed (
        read_body_lem u l r e n
        ∙ ap (with_map u r) (append_first r.version r.no_transaction l (map_of u r) f)))

-- What a block adds: its direction's map gets its query, under its version.
abbrev pub read_block : Reading → Block → Reading
read_block r b =
    let r' = at_header b.captures (version b) r in
    let u = is_up b.captures.way in
    with_map u r'
      (insert (version b) (entry (version b) b.captures.no_transaction (text b.body)) (map_of u r))

-- A block that the parser has room for: its version is not 0, has a line, and is new to the map.
pub record IsNew (r : Reading) (b : Block) : Type 0 where
  pub block : IsBlock b
  pub filled : b.body ≢ []
  pub counts : eqb_ℤ (version b) (pos 0) ≡ false
  pub fresh : find (version b) (map_of (is_up b.captures.way) r) ≡ none

abbrev pub AllNew : Reading → List Block → Type 0
AllNew r [] = Unit
AllNew r (b ∷ bs) = IsNew r b × AllNew (read_block r b) bs

-- A header whose direction and version are new is taken.
header_first :
    (c : Captures) (r : Reading)
    → find (to_int c.digits) (map_of (is_up c.way) r) ≡ none
    → read_header c r ≡ parsed (at_header c (to_int c.digits) r)
unfolding read_header
header_first c r f = elim (Bool-cases (is_up c.way)) [
  | inl t ↦ rw (t, rw t at f)
  | inr t ↦ rw (t, rw t at f)
]

header_line :
    (b : Block) (r : Reading)
    → IsNew r b
    → read_line b.header r ≡ parsed (at_header b.captures (version b) r)
unfolding read_line
header_line b r n = rw (n.block.headed, read_line) (header_first b.captures r n.fresh)

map_same : (u : Bool) (c : Captures) (v : ℤ) (r : Reading) → map_of u (at_header c v r) ≡ map_of u r
map_same true c v r = refl
map_same false c v r = refl

body_lines :
    (u : Bool) (ls rest : List (List ℕ)) (r : Reading)
    → ls ≢ []
    → All (λ l. match_header l ≡ none) ls
    → r.up_way ≡ u
    → eqb_ℤ r.version (pos 0) ≡ false
    → find r.version (map_of u r) ≡ none
    → read_lines (ls ++ rest) r ≡ read_lines rest (holding u r (text ls) (map_of u r))
body_lines u [] rest r ne p e n f = absurd (ne refl)
body_lines u (l ∷ ls) rest r ne p e n f =
    read_lines_on l (ls ++ rest) r (line_first u l r p.0 e n f)
    ∙ lines_again u ls rest (l ++ (b'\n' ∷ [])) (map_of u r) r p.1 e n

read_lines-block :
    (b : Block) (rest : List (List ℕ)) (r : Reading)
    → IsNew r b
    → read_lines (b.header ∷ (b.body ++ rest)) r ≡ read_lines rest (read_block r b)
read_lines-block b rest r n =
    let u = is_up b.captures.way in
    let r' = at_header b.captures (version b) r in
    let same = map_same u b.captures (version b) r in
    read_lines_on b.header (b.body ++ rest) r (header_line b r n)
    ∙ body_lines u b.body rest r' n.filled n.block.plain refl n.counts
        (ap (find (version b)) same ∙ n.fresh)
    ∙ ap (λ m. read_lines rest (holding u r' (text b.body) m)) same

-- A file of blocks, each a header and at least one line that is none, whose versions are not 0 and
-- new to their directions, is read whole: each block gives its direction's map one query, under its
-- version, made of its lines with their ends, and marked as its header says.
pub read_lines-blocks :
    (bs : List Block) (r : Reading)
    → AllNew r bs
    → read_lines (lines bs) r ≡ parsed (foldl read_block r bs)
unfolding read_lines
read_lines-blocks [] r n = refl
read_lines-blocks (b ∷ bs) r n =
    read_lines-block b (lines bs) r n.0 ∙ read_lines-blocks bs (read_block r b) n.1

header_repeats :
    (c : Captures) (r : Reading) {m : MigQuery}
    → find (to_int c.digits) (map_of (is_up c.way) r) ≡ some m
    → read_header c r ≡ duplicated c.way (to_int c.digits)
unfolding read_header
header_repeats c r {m} f = ground arith

-- A header that repeats a version of its direction ends the program with that version.
pub read_lines_duplicated :
    (line : List ℕ) (c : Captures) (ls : List (List ℕ)) (r : Reading) {m : MigQuery}
    → match_header line ≡ some c
    → find (to_int c.digits) (map_of (is_up c.way) r) ≡ some m
    → read_lines (line ∷ ls) r ≡ duplicated c.way (to_int c.digits)
unfolding read_lines read_line
read_lines_duplicated line c ls r {m} e f = rw (e, read_line) (rw (header_repeats c r f))
