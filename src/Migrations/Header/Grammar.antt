-- ===== src/Migrations/Header/Grammar.antt =====
-- The lines that the header pattern matches, described apart from the matcher.
use asql.Base.{
  ℕ, ◌≡◌, refl, sym, Bool, true, false, List, [], ◌∷◌, ◌++◌, map, Option, none, some, arith, ◌↔◌,
  ◌≢◌, Option-cases, inl, inr, ap, ◌≤◌, subst, some_inj,
}
use asql.Migrations.Header.{
  is_space, is_digit, fold_case, skip_spaces, span_digits, strip, Way, up, down, Captures, dashes,
  up_word, down_word, no_transaction_word, match_header, pick, is_some, ◌>>=◌, number,
}
use asql.Migrations.Header.Parts.{
  Spaces, Digits, NoSpaceFirst, NoDigitFirst, skip_spaces_run, skip_spaces_split, span_digits_run,
  span_digits_split, strip_run, strip_split,
}

abbrev pub way_word : Way → List ℕ
way_word up = up_word
way_word down = down_word

-- A text that goes on, after spaces, with the word of the third group.
abbrev pub AsksNoTransaction : List ℕ → Type 0
AsksNoTransaction rest =
    (sp : List ℕ) × (w : List ℕ) × (tail : List ℕ) × Spaces sp
    × (map fold_case w ≡ no_transaction_word)
    × (rest ≡ sp ++ (w ++ tail))

pub record IsHeader (line : List ℕ) (c : Captures) : Type 0 where
  pub before : List ℕ
  pub between : List ℕ
  pub after : List ℕ
  pub word : List ℕ
  pub rest : List ℕ
  pub spaced : Spaces before × Spaces between × Spaces after
  pub numbered : Digits c.digits × (c.digits ≢ [])
  pub directed : map fold_case word ≡ way_word c.way
  pub written : line ≡ before ++ (dashes ++ (between ++ (c.digits ++ (after ++ (word ++ rest)))))
  pub flagged : (c.no_transaction ≡ true) ↔ AsksNoTransaction rest

digit_not_space : (c : ℕ) → is_digit c ≡ true → is_space c ≡ false
unfolding is_digit is_space
digit_not_space c h = ground arith

space_not_digit : (c : ℕ) → is_space c ≡ true → is_digit c ≡ false
unfolding is_digit is_space
space_not_digit c h = ground arith

letter_plain : (c : ℕ) → b'a' ≤ fold_case c → (is_space c ≡ false) × (is_digit c ≡ false)
unfolding is_digit is_space fold_case
letter_plain c h = ground arith

dash_plain : (c : ℕ) → fold_case c ≡ b'-' → c ≡ b'-'
unfolding fold_case
dash_plain c h = ground arith

word_first :
    (w : Way) (word rest : List ℕ)
    → map fold_case word ≡ way_word w
    → NoSpaceFirst (word ++ rest) × NoDigitFirst (word ++ rest)
word_first up (c ∷ s) rest e = letter_plain c (ground arith)
word_first down (c ∷ s) rest e = letter_plain c (ground arith)
word_first up [] rest e = absurd (ground arith)
word_first down [] rest e = absurd (ground arith)

after_digits : (sp s : List ℕ) → Spaces sp → NoDigitFirst s → NoDigitFirst (sp ++ s)
after_digits [] s h n = n
after_digits (c ∷ sp) s h n = space_not_digit c h.0

before-Digits : (ds s : List ℕ) → Digits ds → ds ≢ [] → NoSpaceFirst (ds ++ s)
before-Digits [] s h n = absurd (n refl)
before-Digits (d ∷ ds) s h n = digit_not_space d h.0

no_transaction_first :
    (w s : List ℕ) → map fold_case w ≡ no_transaction_word → NoSpaceFirst (w ++ s)
no_transaction_first [] s e = absurd (ground arith)
no_transaction_first (c ∷ w) s e = (letter_plain c (ground arith)).0

flag_iff :
    (rest : List ℕ)
    → (is_some (strip no_transaction_word (skip_spaces rest)) ≡ true) ↔ AsksNoTransaction rest
flag_iff rest = (forward, backward)
  where
    forward : is_some (strip no_transaction_word (skip_spaces rest)) ≡ true → AsksNoTransaction rest
    forward e = elim (Option-cases (strip no_transaction_word (skip_spaces rest))) [
      | inl n ↦ cc (rw n at e)
      | inr (tail, q) ↦
          let (sp, h, p) = skip_spaces_split rest in
          let (w, f, r) = strip_split no_transaction_word (skip_spaces rest) {r = tail} q in
          (sp, w, tail, h, f, rw (← r) p)
    ]

    backward :
        AsksNoTransaction rest → is_some (strip no_transaction_word (skip_spaces rest)) ≡ true
    backward (sp, w, tail, h, f, p) = rw (
      p,
      skip_spaces_run sp (w ++ tail) h (no_transaction_first w tail f),
      strip_run no_transaction_word w tail f,
    )

bool_ext : {P : Type 0} (a b : Bool) → ((a ≡ true) ↔ P) → ((b ≡ true) ↔ P) → a ≡ b
bool_ext true true f g = refl
bool_ext true false f g = sym (g.1 (f.0 refl))
bool_ext false true f g = f.1 (g.0 refl)
bool_ext false false f g = refl

strip_mismatch :
    (x : ℕ) (ws : List ℕ) (c : ℕ) (s : List ℕ) → fold_case c ≢ x → strip (x ∷ ws) (c ∷ s) ≡ none
unfolding strip
strip_mismatch x ws c s h = ground arith

dashes_fold : map fold_case dashes ≡ dashes
unfolding fold_case
dashes_fold = refl

dashes_first : is_space b'-' ≡ false
unfolding is_space
dashes_first = refl

dashes_only : (w : List ℕ) → map fold_case w ≡ dashes → w ≡ dashes
dashes_only [] e = cc
dashes_only (a ∷ []) e = cc
dashes_only (a ∷ b ∷ []) e = ground (arith, dash_plain a, dash_plain b)
dashes_only (a ∷ b ∷ c ∷ w) e = absurd (ground arith)

>>=-eq-some {ℓ κ} :
    {A : Type ℓ} {B : Type κ} (m : Option A) (f : A → Option B) {b : B}
    → (m >>= f) ≡ some b
    → (a : A) × (m ≡ some a) × (f a ≡ some b)
>>=-eq-some none f h = cc
>>=-eq-some (some a) f h = (a, refl, h)

number-some : (p : List ℕ × List ℕ) {q : List ℕ × List ℕ} → number p ≡ some q → (p ≡ q) × (q.0 ≢ [])
number-some ([], rest) e = absurd (cc)
number-some (d ∷ ds, rest) {q} e =
    (some_inj e, λ n. absurd (ground (arith, ap (λ t. t.0) (some_inj e))))

-- The word of one direction is not that of the other.
pick_way :
    (w : Way) (word rest : List ℕ)
    → map fold_case word ≡ way_word w
    → pick (word ++ rest) ≡ some (w, rest)
unfolding pick
pick_way up word rest e = rw (strip_run up_word word rest e)
pick_way down (c ∷ word) rest e = rw (
  strip_run down_word (c ∷ word) rest e,
  strip_mismatch b'u' (b'p' ∷ []) c (word ++ rest) (ground arith),
)
pick_way down [] rest e = absurd (ground arith)

pick_split :
    (s : List ℕ) {w : Way} {rest : List ℕ}
    → pick s ≡ some (w, rest)
    → (word : List ℕ) × (map fold_case word ≡ way_word w) × (s ≡ word ++ rest)
unfolding pick
pick_split s {w} {rest} e = elim (Option-cases (strip up_word s)) [
  | inr (r, p) ↦ let (word, f, q) = strip_split up_word s p in (word, ground arith, ground arith)
  | inl n ↦ elim (Option-cases (strip down_word s)) [
    | inr (r, p) ↦
        let (word, f, q) = strip_split down_word s p in (word, ground arith, ground arith)
    | inl n' ↦ absurd (ground arith)
  ]
]

complete :
    (line : List ℕ) (d : ℕ) (ds : List ℕ) (w : Way) (b : Bool)
    → IsHeader line (record { digits = d ∷ ds; way = w; no_transaction = b })
    → match_header line ≡ some (record { digits = d ∷ ds; way = w; no_transaction = b })
unfolding match_header
complete line d ds w b h =
    let first = word_first w h.word h.rest h.directed in
    rw (
      h.written,
      skip_spaces_run h.before
          (dashes ++ (h.between ++ (d ∷ ds ++ (h.after ++ (h.word ++ h.rest))))) h.spaced.0
          dashes_first,
      strip_run dashes dashes (h.between ++ (d ∷ ds ++ (h.after ++ (h.word ++ h.rest))))
          dashes_fold,
      skip_spaces_run h.between (d ∷ ds ++ (h.after ++ (h.word ++ h.rest))) h.spaced.1
          (digit_not_space d h.numbered.0.0),
      span_digits_run (d ∷ ds) (h.after ++ (h.word ++ h.rest)) h.numbered.0
          (after_digits h.after (h.word ++ h.rest) h.spaced.2 first.1),
      skip_spaces_run h.after (h.word ++ h.rest) h.spaced.2 first.0,
      pick_way w h.word h.rest h.directed,
      bool_ext _ b (flag_iff h.rest) h.flagged,
    )

sound : (line : List ℕ) (c : Captures) → match_header line ≡ some c → IsHeader line c
unfolding match_header
sound line c e =
    let m1 = >>=-eq-some (strip dashes (skip_spaces line)) _ e in
    let m2 = >>=-eq-some (number (span_digits (skip_spaces m1.0))) _ m1.2 in
    let m3 = >>=-eq-some (pick (skip_spaces m2.0.1)) _ m2.2 in
    let b1 = skip_spaces_split line in
    let lead = strip_split dashes (skip_spaces line) m1.1 in
    let b2 = skip_spaces_split m1.0 in
    let run = span_digits_split (skip_spaces m1.0) in
    let num = number-some (span_digits (skip_spaces m1.0)) m2.1 in
    let b3 = skip_spaces_split m2.0.1 in
    let tail = pick_split (skip_spaces m2.0.1) m3.1 in
    subst (IsHeader line) (some_inj m3.2) (record {
      before = b1.0;
      between = b2.0;
      after = b3.0;
      word = tail.0;
      rest = m3.0.1;
      spaced = (b1.1, b2.1, b3.1);
      numbered = (subst (λ t. Digits t.0) num.0 run.0, num.1);
      directed = tail.1;
      written = cc (dashes_only lead.0 lead.1);
      flagged = flag_iff m3.0.1;
    })

complete_any :
    (line ds : List ℕ) (w : Way) (b : Bool)
    → IsHeader line (record { digits = ds; way = w; no_transaction = b })
    → match_header line ≡ some (record { digits = ds; way = w; no_transaction = b })
complete_any line [] w b h = absurd (h.numbered.1 refl)
complete_any line (d ∷ ds) w b h = complete line d ds w b h

-- The matcher accepts a line exactly when the line is spaces, two dashes, spaces, a run of digits,
-- spaces and a word for a direction, and reports those digits, that direction, and whether spaces
-- and the word for no transaction follow.
pub match_header_iff :
    (line : List ℕ) (c : Captures) → (match_header line ≡ some c) ↔ IsHeader line c
match_header_iff line c = (sound line c, complete_any line c.digits c.way c.no_transaction)
