-- ===== src/Workers/Handles.antt =====
-- The statement handles of the client libraries that AMysqlThread of src/adrivermysql.cpp and AOdbcThread of
-- src/ADriverOdbc.cpp call: a log of calls, the newest first, and when such a log is in order.
use asql.Base.{
  refl, Option, none, some, ℕ, Bool, true, false, ◌||◌, List, [], ◌∷◌, ◌≡◌, ◌∙◌, ap, arith,
  if◌then◌else◌, ◌==◌, ==_iff, Bool-cases, inl, inr,
}

-- What a statement is used for.
pub data Purpose : Type 0 where
  prepare bind execute describe fetch count reset close_cursor : Purpose

pub data Call : Type 0 where
  makes frees : ℕ → Call
  uses : Purpose → ℕ → Call
  others : Call

unfoldable pub lives : List Call → ℕ → Bool
lives [] h = false
lives (makes k ∷ cs) h = let rest = lives cs h in if h == k then true else rest
lives (frees k ∷ cs) h = let rest = lives cs h in if h == k then false else rest
lives (uses p k ∷ cs) h = lives cs h
lives (others ∷ cs) h = lives cs h

-- A handle is used and freed only while it lives, and made only while it does not.
abbrev pub IsSound : List Call → Type 0
IsSound [] = Unit
IsSound (makes k ∷ cs) = (lives cs k ≡ false) × IsSound cs
IsSound (frees k ∷ cs) = (lives cs k ≡ true) × IsSound cs
IsSound (uses p k ∷ cs) = (lives cs k ≡ true) × IsSound cs
IsSound (others ∷ cs) = IsSound cs

-- What a call of the library gives, which may depend on all calls so far.
abbrev pub Library : Type 0 → Type 0
Library A = List Call → A × List Call

abbrev pub give : {A : Type 0} → A → Library A
give a log = (a, log)

infixl 5 ◌>>=◌
abbrev pub ◌>>=◌ : {A B : Type 0} → Library A → (A → Library B) → Library B
m >>= k = λ log. let r = m log in k r.0 r.1

abbrev pub call : {A : Type 0} → Call → (List Call → A) → Library A
call c answer log = (answer log, c ∷ log)

unfoldable pub frees_each : List ℕ → List Call → List Call
frees_each [] log = log
frees_each (h ∷ hs) log = frees_each hs (frees h ∷ log)

unfoldable pub holds : List ℕ → ℕ → Bool
holds [] h = false
holds (k ∷ ks) h = h == k || holds ks h

-- A sound log after which the handles of `f` live.
abbrev pub Owns : (ℕ → Bool) → List Call → Type 0
Owns f log = IsSound log × ((h : ℕ) → lives log h ≡ f h)

-- An action that leaves the handles of `f` as they were.
abbrev pub Keeps : {A : Type 0} → (ℕ → Bool) → Library A → Type 0
Keeps f m = (log : List Call) → Owns f log → Owns f (m log).1

pub Keeps-bind :
    {A B : Type 0} (f : ℕ → Bool) (m : Library A) (k : A → Library B)
    → Keeps f m
    → ((a : A) → Keeps f (k a))
    → Keeps f (m >>= k)
Keeps-bind f m k p q log o = q (m log).0 (m log).1 (p log o)

pub Keeps-uses :
    {A : Type 0} (f : ℕ → Bool) (p : Purpose) (h : ℕ) (answer : List Call → A)
    → f h ≡ true
    → Keeps f (call (uses p h) answer)
unfolding lives
Keeps-uses f p h answer e log o = ((o.1 h ∙ e, o.0), o.1)

pub Keeps-others :
    {A : Type 0} (f : ℕ → Bool) (answer : List Call → A) → Keeps f (call others answer)
unfolding lives
Keeps-others f answer log o = o

pub Keeps-option :
    {X A : Type 0} (f : ℕ → Bool) (o : Option X) (a : Library A) (b : X → Library A)
    → Keeps f a
    → ((x : X) → Keeps f (b x))
    → Keeps f (elim o as (λ y. Library A) [ none ↦ a | some x ↦ b x ])
Keeps-option f none a b p q = p
Keeps-option f (some x) a b p q = q x

-- An action, and what follows where it gives something and where it does not.
pub Keeps-check :
    {X A : Type 0} (f : ℕ → Bool) (m : Library (Option X)) (a : Library A) (b : X → Library A)
    → Keeps f m
    → Keeps f a
    → ((x : X) → Keeps f (b x))
    → Keeps f (m >>= λ o. elim o as (λ y. Library A) [ none ↦ a | some x ↦ b x ])
Keeps-check f m a b h p q log o = Keeps-option f (m log).0 a b p q (m log).1 (h log o)

pub Keeps-give : {A : Type 0} (f : ℕ → Bool) (a : A) → Keeps f (give a)
Keeps-give f a log o = o

-- One handle more, and one less.
abbrev pub with_handle : ℕ → (ℕ → Bool) → ℕ → Bool
with_handle h f k = if k == h then true else f k

pub with_handle_self : (h : ℕ) (f : ℕ → Bool) → with_handle h f h ≡ true
with_handle_self h f = ground arith

pub Owns-makes :
    (f : ℕ → Bool) (h : ℕ) (log : List Call)
    → f h ≡ false
    → Owns f log
    → Owns (with_handle h f) (makes h ∷ log)
unfolding lives
Owns-makes f h log e o = ((o.1 h ∙ e, o.0), λ k. ground (arith, o.1 k))

pub Owns-frees :
    (f : ℕ → Bool) (h : ℕ) (log : List Call)
    → f h ≡ false
    → Owns (with_handle h f) log
    → Owns f (frees h ∷ log)
unfolding lives
Owns-frees f h log e o = (
  (ground (arith, o.1 h), o.0),
  λ k. elim (Bool-cases (k == h)) [
    | inl q ↦ ground (arith, o.1 k, e, (==_iff k h).0 q, ap f ((==_iff k h).0 q))
    | inr q ↦ ground (arith, o.1 k, q)
  ],
)

-- No handle stands twice.
abbrev pub IsDistinct : List ℕ → Type 0
IsDistinct [] = Unit
IsDistinct (h ∷ hs) = (holds hs h ≡ false) × IsDistinct hs

pub Owns-frees_each :
    (hs : List ℕ) (log : List Call)
    → IsDistinct hs
    → Owns (holds hs) log
    → Owns (λ k. false) (frees_each hs log)
unfolding holds frees_each
Owns-frees_each [] log d o = o
Owns-frees_each (h ∷ hs) log d o =
    Owns-frees_each hs (frees h ∷ log) d.1
      (Owns-frees (holds hs) h log d.0 (o.0, λ k. ground (arith, o.1 k)))

pub empty_lem : (h : ℕ) → lives [] h ≡ holds [] h
unfolding lives holds
empty_lem h = refl
