-- ===== src/Migrations/Parser/Validity.antt =====
-- What the parser of src/amigrations.cpp keeps true of its two maps.
use asql.Base.{
  ℕ, ◌≡◌, refl, ◌≢◌, Bool, List, [], ◌∷◌, ◌++◌, arith, All, All-mono, Option-cases, inl, inr, ◌⊎◌,
  ℤ, pos, ◌≤ℤ◌, ◌<ℤ◌, eqb_ℤ, Bool-cases, subst, sym,
}
use asql.Base.SortedMap.{IsSorted, insert-IsSorted, insert-All}
use asql.Migrations.Header.{Captures, match_header, to_int, int_max}
use asql.Migrations.Parser.{
  MigQuery, Reading, Migrations, Parsed, parsed, start, at_header, max_ℤ, ◌>>=◌, duplicated,
  read_header, append_line, read_body, read_line, read_lines, from_string,
}

-- An entry stands under its own version, between 1 and the latest, and has a query.
pub record IsEntry (latest : ℤ) (e : ℤ × MigQuery) : Type 0 where
  pub positive : pos 0 <ℤ e.0
  pub known : e.0 ≤ℤ latest
  pub keyed : e.1.version ≡ e.0
  pub filled : e.1.query ≢ []

abbrev pub IsPlan : ℤ → List (ℤ × MigQuery) → Type 0
IsPlan latest m = IsSorted m × All (IsEntry latest) m

pub record IsReading (r : Reading) : Type 0 where
  pub ups : IsPlan r.latest r.ups
  pub downs : IsPlan r.latest r.downs
  pub counted : pos 0 ≤ℤ r.version
  pub reached : (r.version ≡ pos 0) ⊎ (r.version ≤ℤ r.latest)
  pub bounded : r.latest ≤ℤ pos int_max

to_int_range : (ds : List ℕ) → (pos 0 ≤ℤ to_int ds) × (to_int ds ≤ℤ pos int_max)
unfolding to_int
to_int_range ds = ground arith

IsEntry-mono : (a b : ℤ) → a ≤ℤ b → (e : ℤ × MigQuery) → IsEntry a e → IsEntry b e
IsEntry-mono a b h e v = record {
  positive = v.positive;
  known = omega arith;
  keyed = v.keyed;
  filled = v.filled;
}

IsPlan-mono : (a b : ℤ) (m : List (ℤ × MigQuery)) → a ≤ℤ b → IsPlan a m → IsPlan b m
IsPlan-mono a b m h p = (p.0, All-mono (IsEntry-mono a b h) m p.1)

parsed_inj {ℓ} : {A : Type ℓ} {a b : A} → parsed a ≡ parsed b → a ≡ b
parsed_inj e = cc

>>=-eq-parsed {ℓ κ} :
    {A : Type ℓ} {B : Type κ} (m : Parsed A) (f : A → Parsed B) {b : B}
    → (m >>= f) ≡ parsed b
    → (a : A) × (m ≡ parsed a) × (f a ≡ parsed b)
>>=-eq-parsed (parsed a) f h = (a, refl, h)
>>=-eq-parsed (duplicated w v) f h = absurd (cc)

start-IsReading : IsReading start
start-IsReading = record {
  ups = (tt, tt);
  downs = (tt, tt);
  counted = omega arith;
  reached = inl refl;
  bounded = omega arith;
}

append_ne_nil : (q line : List ℕ) (c : ℕ) → q ++ (line ++ (c ∷ [])) ≢ []
append_ne_nil [] [] c e = cc
append_ne_nil [] (x ∷ line) c e = cc
append_ne_nil (x ∷ q) line c e = cc

append_line-IsPlan :
    (latest v : ℤ) (nt : Bool) (line : List ℕ) (m : List (ℤ × MigQuery))
    → pos 0 <ℤ v
    → v ≤ℤ latest
    → IsPlan latest m
    → IsPlan latest (append_line v nt line m)
unfolding append_line
append_line-IsPlan latest v nt line m h k p = (
  insert-IsSorted v _ m p.0,
  insert-All (IsEntry latest) v _ m
      (record { positive = h; known = k; keyed = refl; filled = append_ne_nil _ line _ }) p.1,
)

at_header-IsReading :
    (c : Captures) (v : ℤ) (r : Reading)
    → (pos 0 ≤ℤ v) × (v ≤ℤ pos int_max)
    → IsReading r
    → IsReading (at_header c v r)
at_header-IsReading c v r range h = record {
  ups = IsPlan-mono r.latest (max_ℤ r.latest v) r.ups (ground arith) h.ups;
  downs = IsPlan-mono r.latest (max_ℤ r.latest v) r.downs (ground arith) h.downs;
  counted = range.0;
  reached = inr (ground arith);
  bounded = ground (arith, h.bounded);
}

read_header_ok :
    (c : Captures) (r : Reading) {r' : Reading}
    → read_header c r ≡ parsed r'
    → r' ≡ at_header c (to_int c.digits) r
unfolding read_header
read_header_ok c r e = ground arith

read_body-IsReading : (line : List ℕ) (r : Reading) → IsReading r → IsReading (read_body line r)
unfolding read_body
read_body-IsReading line r h = elim (Bool-cases (eqb_ℤ r.version (pos 0))) [
  | inl e ↦ rw e h
  | inr e ↦ elim (Bool-cases r.up_way) [
    | inl u ↦
        rw (e, u)
          (record {
            ups =
                append_line-IsPlan r.latest r.version r.no_transaction line r.ups (ground arith)
                  (ground arith) h.ups;
            downs = h.downs;
            counted = h.counted;
            reached = h.reached;
            bounded = h.bounded;
          })
    | inr u ↦
        rw (e, u)
          (record {
            ups = h.ups;
            downs =
                append_line-IsPlan r.latest r.version r.no_transaction line r.downs (ground arith)
                  (ground arith) h.downs;
            counted = h.counted;
            reached = h.reached;
            bounded = h.bounded;
          })
  ]
]

read_line-IsReading :
    (line : List ℕ) (r : Reading) {r' : Reading}
    → IsReading r
    → read_line line r ≡ parsed r'
    → IsReading r'
unfolding read_line
read_line-IsReading line r {r'} h e = elim (Option-cases (match_header line)) [
  | inl n ↦ subst IsReading (parsed_inj (rw (n, read_line) at e)) (read_body-IsReading line r h)
  | inr (c, p) ↦
      subst IsReading (sym (read_header_ok c r (rw (p, read_line) at e)))
        (at_header-IsReading c (to_int c.digits) r (to_int_range c.digits) h)
]

read_lines-IsReading :
    (lines : List (List ℕ)) (r : Reading) {r' : Reading}
    → IsReading r
    → read_lines lines r ≡ parsed r'
    → IsReading r'
unfolding read_lines
read_lines-IsReading [] r h e = subst IsReading (parsed_inj e) h
read_lines-IsReading (line ∷ lines) r {r'} h e =
    let (r1, p, q) = >>=-eq-parsed (read_line line r) (read_lines lines) e in
    read_lines-IsReading lines r1 (read_line-IsReading line r h p) q

-- What `load`, `migrate` and `sqlListFor` rely on: both maps are plans for the latest version.
pub record IsValid (d : Migrations) : Type 0 where
  pub ups : IsPlan d.latest d.ups
  pub downs : IsPlan d.latest d.downs
  pub bounded : d.latest ≤ℤ pos int_max

-- A file that is read without a repeated version leaves both maps in ascending order of their
-- versions, each from 1 to the latest version and each with its own number and a query that is not
-- empty, and the latest version fits an `int`.
pub from_string-IsValid :
    (lines_of : List ℕ → List (List ℕ)) (text : List ℕ) (d : Migrations) {d' : Migrations}
    → from_string lines_of text d ≡ parsed d'
    → IsValid d'
unfolding from_string
from_string-IsValid lines_of text d {d'} e =
    let (r, p, q) = >>=-eq-parsed (read_lines (lines_of text) start) _ e in
    let v = read_lines-IsReading (lines_of text) start start-IsReading p in
    subst IsValid (parsed_inj q) (record { ups = v.ups; downs = v.downs; bounded = v.bounded })
