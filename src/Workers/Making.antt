-- ===== src/Workers/Making.antt =====
-- The making of a statement, which AMysqlThread of src/adrivermysql.cpp and AOdbcThread of
-- src/ADriverOdbc.cpp do alike: a statement that cannot be prepared is freed.
use asql.Base.{
  ℕ, suc, ◌+◌, ◌≤◌, arith, some_inj, [], Bool, false, Option, none, some, List, ◌∷◌, ◌≡◌, refl, sym,
  ◌∙◌,
}
use asql.Workers.Handles.{
  prepare, Call, makes, frees, uses, others, lives, Library, Owns, Keeps-uses, Keeps-others,
  with_handle, with_handle_self, Owns-makes, Owns-frees,
}

pub data Prepared (E : Type 0) : Type 0 where
  refused : E → Prepared E
  ready : ℕ → Prepared E

-- A statement that is made is none that lives.
abbrev pub IsNew : (List Call → Option ℕ) → Type 0
IsNew made = (log : List Call) (h : ℕ) → made log ≡ some h → lives log h ≡ false

abbrev pub Readied : {E : Type 0} → (ℕ → Bool) → Prepared E → List Call → Type 0
Readied f (refused e) log = Owns f log
Readied f (ready h) log = (f h ≡ false) × Owns (with_handle h f) log

module _ {E : Type 0} (made : List Call → Option ℕ) (message : List Call → E)
    (prepares : List Call → Option E) where
  unfoldable pub make_statement : Library (Prepared E)
  make_statement log = elim (made log) [
    | none ↦ (refused (message log), others ∷ log)
    | some h ↦ (elim (prepares (makes h ∷ log)) [
      | some e ↦ (refused e, frees h ∷ uses prepare h ∷ makes h ∷ log)
      | none ↦ (ready h, uses prepare h ∷ makes h ∷ log)
    ])
  ]

  pub make_statement-Readied :
      (f : ℕ → Bool) (log : List Call)
      → IsNew made
      → Owns f log
      → Readied f (make_statement log).0 (make_statement log).1
  unfolding make_statement
  make_statement-Readied f log new o = by_made (made log) refl
    where
      prepared : ℕ → Option E → Prepared E × List Call
      prepared h (some e) = (refused e, frees h ∷ uses prepare h ∷ makes h ∷ log)
      prepared h none = (ready h, uses prepare h ∷ makes h ∷ log)

      by_prepared :
          (h : ℕ) (e : Option E)
          → f h ≡ false
          → Owns (with_handle h f) (uses prepare h ∷ makes h ∷ log)
          → Readied f (prepared h e).0 (prepared h e).1
      by_prepared h (some e) free used = Owns-frees f h (uses prepare h ∷ makes h ∷ log) free used
      by_prepared h none free used = (free, used)

      by_made :
          (m : Option ℕ)
          → made log ≡ m
          → Readied f
              (elim m as (λ y. Prepared E × List Call) [
                | none ↦ (refused (message log), others ∷ log)
                | some h ↦ prepared h (prepares (makes h ∷ log))
              ]).0
              (elim m as (λ y. Prepared E × List Call) [
                | none ↦ (refused (message log), others ∷ log)
                | some h ↦ prepared h (prepares (makes h ∷ log))
              ]).1
      by_made none q = Keeps-others f (λ l. tt) log o
      by_made (some h) q =
          let free : f h ≡ false = sym (o.1 h) ∙ new log h q in
          by_prepared h (prepares (makes h ∷ log)) free (
            Keeps-uses (with_handle h f) prepare h (λ l. tt) (with_handle_self h f) (makes h ∷ log)
              (Owns-makes f h log free o))

-- A choice of handles: one that is greater than each that was made.
abbrev pub next_handle : List Call → ℕ
next_handle [] = 0
next_handle (makes k ∷ cs) = suc k + next_handle cs
next_handle (frees k ∷ cs) = next_handle cs
next_handle (uses p k ∷ cs) = next_handle cs
next_handle (others ∷ cs) = next_handle cs

lives_below : (log : List Call) (h : ℕ) → next_handle log ≤ h → lives log h ≡ false
unfolding lives
lives_below [] h l = refl
lives_below (makes k ∷ cs) h l = ground (arith, lives_below cs h (omega (arith, l)), l)
lives_below (frees k ∷ cs) h l = ground (arith, lives_below cs h l)
lives_below (uses p k ∷ cs) h l = lives_below cs h l
lives_below (others ∷ cs) h l = lives_below cs h l

pub next_handle-IsNew : IsNew (λ log. some (next_handle log))
next_handle-IsNew log h e = lives_below log h (omega (arith, some_inj e))
