-- ===== src/Migrations/Header/Parts.antt =====
-- The parts of the header pattern: what the runs of spaces and digits and the words take off a line.
use asql.Base.{
  ℕ, ◌≡◌, refl, ap, true, false, List, [], ◌∷◌, ◌++◌, map, some, arith, All, Bool-cases, ◌==◌, inl,
  inr,
}
use asql.Migrations.Header.{is_space, is_digit, fold_case, skip_spaces, span_digits, strip}

abbrev pub Spaces : List ℕ → Type 0
Spaces s = All (λ c. is_space c ≡ true) s

abbrev pub Digits : List ℕ → Type 0
Digits s = All (λ c. is_digit c ≡ true) s

-- A text that begins with no space, or no digit.
abbrev pub NoSpaceFirst : List ℕ → Type 0
NoSpaceFirst [] = Unit
NoSpaceFirst (c ∷ s) = is_space c ≡ false

abbrev pub NoDigitFirst : List ℕ → Type 0
NoDigitFirst [] = Unit
NoDigitFirst (c ∷ s) = is_digit c ≡ false

pub skip_spaces_run : (sp s : List ℕ) → Spaces sp → NoSpaceFirst s → skip_spaces (sp ++ s) ≡ s
unfolding skip_spaces
skip_spaces_run [] [] h n = refl
skip_spaces_run [] (c ∷ s) h n = rw n
skip_spaces_run (c ∷ sp) s h n = rw (h.0) (skip_spaces_run sp s h.1 n)

pub skip_spaces_split : (s : List ℕ) → (sp : List ℕ) × Spaces sp × (s ≡ sp ++ skip_spaces s)
unfolding skip_spaces
skip_spaces_split [] = ([], tt, refl)
skip_spaces_split (c ∷ s) = elim (Bool-cases (is_space c)) [
  | inl e ↦ let (sp, h, q) = skip_spaces_split s in (c ∷ sp, (e, h), rw e (ap (◌∷◌ c) q))
  | inr e ↦ ([], tt, rw e)
]

pub span_digits_run : (ds s : List ℕ) → Digits ds → NoDigitFirst s → span_digits (ds ++ s) ≡ (ds, s)
unfolding span_digits
span_digits_run [] [] h n = refl
span_digits_run [] (c ∷ s) h n = rw n
span_digits_run (d ∷ ds) s h n = rw (h.0, span_digits_run ds s h.1 n)

pub span_digits_split :
    (s : List ℕ) → Digits (span_digits s).0 × (s ≡ (span_digits s).0 ++ (span_digits s).1)
unfolding span_digits
span_digits_split [] = (tt, refl)
span_digits_split (c ∷ s) = elim (Bool-cases (is_digit c)) [
  | inl e ↦ rw e ((e, (span_digits_split s).0), ap (◌∷◌ c) (span_digits_split s).1)
  | inr e ↦ rw e (tt, refl)
]

pub strip_run : (ws w s : List ℕ) → map fold_case w ≡ ws → strip ws (w ++ s) ≡ some s
unfolding strip
strip_run [] [] s e = refl
strip_run [] (c ∷ w) s e = cc
strip_run (x ∷ ws) [] s e = cc
strip_run (x ∷ ws) (c ∷ w) s e = ground (arith, strip_run ws w s)

pub strip_split :
    (ws s : List ℕ) {r : List ℕ}
    → strip ws s ≡ some r
    → (w : List ℕ) × (map fold_case w ≡ ws) × (s ≡ w ++ r)
unfolding strip
strip_split [] s e = ([], refl, ground arith)
strip_split (x ∷ ws) [] e = cc
strip_split (x ∷ ws) (c ∷ s) {r} e = elim (Bool-cases (fold_case c == x)) [
  | inl t ↦
      let (w, f, q) = strip_split ws s {r = r} (rw t at e) in
      (c ∷ w, ground (arith, f), ap (◌∷◌ c) q)
  | inr t ↦ cc (rw t at e)
]
