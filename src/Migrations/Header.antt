-- ===== src/Migrations/Header.antt =====
-- The header pattern of AMigrations::fromString in src/amigrations.cpp,
-- `^\s*--\s*(\d+)\s*(up|down)\s*(no-transaction)?` without regard to case, over the code units of a
-- line. No part of the pattern can start with what the part before it repeats, so taking each
-- repetition whole finds the match that the engine's backtracking finds.
pub mod Parts
pub mod Grammar
use asql.Base.{
  ℕ, ◌+◌, ◌-◌, ◌*◌, Bool, true, false, ◌&&◌, ◌||◌, List, [], ◌∷◌, Option, none, some, leb, ◌==◌,
  if◌then◌else◌, ℤ, pos,
}

-- `\s` and `\d`, with no Unicode properties asked for.
pub is_space : ℕ → Bool
is_space c = c == 32 || leb 9 c && leb c 13

pub is_digit : ℕ → Bool
is_digit c = leb b'0' c && leb c b'9'

-- The case folding of the letters in the pattern: the Latin small letter long s folds to `s`.
pub fold_case : ℕ → ℕ
fold_case c = if leb b'A' c && leb c b'Z' then c + 32 else if c == 0x17f then b's' else c

unfoldable pub skip_spaces : List ℕ → List ℕ
unfolding is_space
skip_spaces [] = []
skip_spaces (c ∷ s) = if is_space c then skip_spaces s else c ∷ s

-- The longest run of digits and what follows it.
unfoldable pub span_digits : List ℕ → List ℕ × List ℕ
unfolding is_digit
span_digits [] = ([], [])
span_digits (c ∷ s) =
    let (ds, rest) = span_digits s in if is_digit c then (c ∷ ds, rest) else ([], c ∷ s)

-- What follows a word of the pattern, which is in small letters.
unfoldable pub strip : List ℕ → List ℕ → Option (List ℕ)
unfolding fold_case
strip [] s = some s
strip (w ∷ ws) [] = none
strip (w ∷ ws) (c ∷ s) = if fold_case c == w then strip ws s else none

abbrev pub dashes : List ℕ
dashes = b'-' ∷ b'-' ∷ []

abbrev pub up_word : List ℕ
up_word = b'u' ∷ b'p' ∷ []

abbrev pub down_word : List ℕ
down_word = b'd' ∷ b'o' ∷ b'w' ∷ b'n' ∷ []

abbrev pub no_transaction_word : List ℕ
no_transaction_word =
    b'n' ∷ b'o' ∷ b'-' ∷ b't' ∷ b'r' ∷ b'a' ∷ b'n' ∷ b's' ∷ b'a' ∷ b'c' ∷ b't' ∷ b'i' ∷ b'o' ∷ b'n'
    ∷ []

pub data Way : Type 0 where
  up down : Way

-- What the three groups capture: the second as the alternative taken, the third as whether it took
-- part in the match.
pub record Captures : Type 0 where
  pub digits : List ℕ
  pub way : Way
  pub no_transaction : Bool

infixl 5 ◌>>=◌
abbrev pub ◌>>=◌ {ℓ κ} : {A : Type ℓ} {B : Type κ} → Option A → (A → Option B) → Option B
none >>= f = none
some a >>= f = f a

abbrev pub is_some {ℓ} : {A : Type ℓ} → Option A → Bool
is_some none = false
is_some (some _) = true

abbrev pub or_else {ℓ} : {A : Type ℓ} → Option A → Option A → Option A
or_else none b = b
or_else (some a) b = some a

abbrev pub tag : Way → Option (List ℕ) → Option (Way × List ℕ)
tag w none = none
tag w (some rest) = some (w, rest)

-- `\d+` wants one digit at least.
abbrev pub number : List ℕ × List ℕ → Option (List ℕ × List ℕ)
number ([], rest) = none
number (d ∷ ds, rest) = some (d ∷ ds, rest)

-- `(up|down)`, as the alternative and what follows it.
unfoldable pub pick : List ℕ → Option (Way × List ℕ)
pick word = or_else (tag up (strip up_word word)) (tag down (strip down_word word))

unfoldable pub match_header : List ℕ → Option Captures
match_header line = do
  rest ← strip dashes (skip_spaces line)
  (ds, rest) ← number (span_digits (skip_spaces rest))
  (w, rest) ← pick (skip_spaces rest)
  some (record {
    digits = ds;
    way = w;
    no_transaction = is_some (strip no_transaction_word (skip_spaces rest));
  })

-- The number that a run of decimal digits stands for.
unfoldable pub decimal : ℕ → List ℕ → ℕ
decimal acc [] = acc
decimal acc (d ∷ ds) = decimal (acc * 10 + (d - b'0')) ds

abbrev pub int_max : ℕ
int_max = 2147483647

-- QStringView::toInt on digits: 0 where the number is not an `int`.
unfoldable pub to_int : List ℕ → ℤ
unfolding decimal
to_int ds = let n = decimal 0 ds in if leb n int_max then pos n else pos 0
