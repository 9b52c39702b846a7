-- ===== src/Tool/Consent.antt =====
-- The calls of `migrate` that the tool of src/asql_migration.cpp makes, and what was answered before.
use asql.Base.{
  ℕ, ◌≡◌, refl, sym, ◌≢◌, Bool, true, false, ◌&&◌, ◌||◌, not, List, [], ◌∷◌, Option, none, some,
  String, arith, if◌then◌else◌, ℤ, ltb_ℤ, eqb_ℤ, ◌≤ℤ◌, ◌<ℤ◌, Bool-cases, eq_of_parts, inl, inr, ◌⊎◌,
  All, All-append,
}
use text.Mathlib.Text.{◌==◌ as str_eq}
use text.Mathlib.TextEquality.{eq_iff}
use asql.Migrations.Parser.{Migrations, Parsed, parsed, duplicated, from_string}
use asql.Migrations.Plan.{sql_for}
use asql.Tool.{
  Options, Outside, Exit, code, fatal, Act, shows, asks_rollback, asks_migrate, calls_migrate,
  read_files, pick_target, new_version, is_refused, question, add, call_migrate, confirmed, loaded,
  load_text, connect, first_name, read_text, main,
}

module _ (o : Options) (w : Outside) where
  -- Of a call of `migrate`: the version is not the active one nor above the latest, the dry run is the
  -- option's; down goes the way only after the answer `yes`, up only with the option or after `y`.
  abbrev pub IsAgreed : Migrations → Act → Type 0
  IsAgreed d (calls_migrate v dry) =
      (dry ≡ o.dry_run)
      × (v ≢ d.active)
      × (v ≤ℤ d.latest)
      × ((d.active <ℤ v) ⊎ (w.typed ≡ "yes"))
      × ((v <ℤ d.active) ⊎ (o.confirm ≡ true) ⊎ (w.typed ≡ "y"))
  IsAgreed d (shows sql) = Unit
  IsAgreed d asks_rollback = Unit
  IsAgreed d asks_migrate = Unit

  add-IsAgreed :
      (d : Migrations) (acts : List Act) (x : Exit × List Act)
      → All (IsAgreed d) acts
      → All (IsAgreed d) x.1
      → All (IsAgreed d) (add acts x).1
  add-IsAgreed d acts x h k = All-append (IsAgreed d) acts x.1 h k

  question-IsAgreed :
      (d : Migrations) (new active : ℤ) → All (IsAgreed d) (question new active ∷ [])
  question-IsAgreed d new active = elim (Bool-cases (ltb_ℤ new active)) [
    | inl e ↦ rw e (tt, tt)
    | inr e ↦ rw e (tt, tt)
  ]

  upwards : (new active : ℤ) → new ≢ active → (ltb_ℤ new active ≡ false) → active <ℤ new
  upwards new active n h = ground (arith, n, eq_of_parts new active)

  answered : (typed : String) (s : String) → not (str_eq typed s) ≡ false → typed ≡ s
  answered typed s h = ground (arith, eq_iff typed s)

  confirmed-IsAgreed :
      (d : Migrations) (new : ℤ)
      → new ≢ d.active
      → new ≤ℤ d.latest
      → All (IsAgreed d) (confirmed o w new d.active).1
  unfolding confirmed call_migrate
  confirmed-IsAgreed d new n l = by_need (Bool-cases (not o.confirm || ltb_ℤ new d.active))
    where
      by_answer :
          (b : Bool)
          → is_refused new d.active w.typed ≡ b
          → All (IsAgreed d) (if b then (code 8, []) else call_migrate o w new).1
      by_answer true x = tt
      by_answer false x = (
        (
          refl,
          n,
          l,
          ground (arith, x, n, upwards new d.active, answered w.typed "yes"),
          ground (arith, x, n, upwards new d.active, answered w.typed "y"),
        ),
        tt,
      )

      by_need :
          ((not o.confirm || ltb_ℤ new d.active) ≡ true)
            ⊎ ((not o.confirm || ltb_ℤ new d.active) ≡ false)
          → All (IsAgreed d) (confirmed o w new d.active).1
      by_need (inl e) = rw e (
          add-IsAgreed d (question new d.active ∷ [])
            (if is_refused new d.active w.typed then (code 8, []) else call_migrate o w new)
            (question-IsAgreed d new d.active) (by_answer (is_refused new d.active w.typed) refl))
      by_need (inr e) = rw e (
        (
          refl,
          n,
          l,
          inl (upwards new d.active n (ground (arith, e))),
          inr (inl (ground (arith, e))),
        ),
        tt,
      )

  new_version-le : (target latest : ℤ) → new_version target latest ≤ℤ latest
  new_version-le target latest = ground arith

  loaded-IsAgreed : (target : ℤ) (d : Migrations) → All (IsAgreed d) (loaded o w target d).1
  unfolding loaded
  loaded-IsAgreed target d = by_target (Bool-cases (eqb_ℤ d.active (new_version target d.latest)))
    where
      by_show :
          (b : Bool)
          → d.active ≢ new_version target d.latest
          → All
              (IsAgreed d)
              (add
                (if b then shows (sql_for d.active (new_version target d.latest) d) ∷ [] else [])
                (confirmed o w (new_version target d.latest) d.active)).1
      by_show true n = (
        tt,
        confirmed-IsAgreed d (new_version target d.latest) (λ e. n (sym e))
            (new_version-le target d.latest),
      )
      by_show false n =
          confirmed-IsAgreed d (new_version target d.latest) (λ e. n (sym e))
            (new_version-le target d.latest)

      by_target :
          (eqb_ℤ d.active (new_version target d.latest) ≡ true)
            ⊎ (eqb_ℤ d.active (new_version target d.latest) ≡ false)
          → All (IsAgreed d) (loaded o w target d).1
      by_target (inl e) = rw e tt
      by_target (inr e) = rw e (by_show o.show_sql (λ q. absurd (ground (arith, e, q))))

  -- That the calls of a run are agreed to, by the migrations that it loaded, if it loaded any.
  abbrev pub AgreedRun : Exit × List Act → Type 0
  AgreedRun x =
      (x.1 ≡ [])
      ⊎ ((d : Migrations) × (m : Migrations) × (sql : List ℕ) × (name : String) × (from_string
              w.lines_of sql w.blank
            ≡ parsed m)
          × (w.loads name m ≡ some d)
          × (read_files o.files ≡ some sql)
          × All (IsAgreed d) x.1)

  load_text-agreed :
      (target : ℤ) (name : String) (sql : List ℕ)
      → read_files o.files ≡ some sql
      → AgreedRun (load_text o w target name sql)
  unfolding load_text
  load_text-agreed target name sql r = by_text (from_string w.lines_of sql w.blank) refl
    where
      by_load :
          (m : Migrations)
          → from_string w.lines_of sql w.blank ≡ parsed m
          → (l : Option Migrations) → w.loads name m ≡ l
          → AgreedRun (elim l [ none ↦ (code 7, []) | some d' ↦ loaded o w target d' ])
      by_load m p none q = inl refl
      by_load m p (some d) q = inr (d, m, sql, name, p, q, r, loaded-IsAgreed target d)

      by_text :
          (x : Parsed Migrations)
          → from_string w.lines_of sql w.blank ≡ x
          → AgreedRun (elim x [
            | duplicated way v ↦ (fatal way v, [])
            | parsed d ↦ elim (w.loads name d) [
              | none ↦ (code 7, [])
              | some d' ↦ loaded o w target d'
            ]
          ])
      by_text (duplicated way v) p = inl refl
      by_text (parsed m) p = by_load m p (w.loads name m) refl

  -- Whatever the options, the files, the database and the user: a run of the tool that does anything before
  -- it exits has read every file and loaded the migrations, and where it calls `migrate`, the dry run is
  -- the option's, the version is neither the active one nor above the latest, a lower version was answered
  -- with `yes`, and a higher one was confirmed by the option or answered with `y`.
  pub main-AgreedRun : AgreedRun (main o w)
  unfolding main read_text connect
  main-AgreedRun = by_files o.files refl
    where
      by_flags :
          (target : ℤ) (name : String) (sql : List ℕ) (valid opens no_tx : Bool)
          → read_files o.files ≡ some sql
          → AgreedRun (
              if not valid
              then (code 5, [])
              else if not opens
              then (code 6, [])
              else if no_tx
              then (code 6, [])
              else load_text o w target name sql)
      by_flags target name sql false opens no_tx r = inl refl
      by_flags target name sql true false no_tx r = inl refl
      by_flags target name sql true true true r = inl refl
      by_flags target name sql true true false r = load_text-agreed target name sql r

      by_name :
          (target : ℤ) (b : Bool) (t : Option (List ℕ))
          → read_files o.files ≡ t
          → AgreedRun (
              if b then (code 4, []) else elim t [
                | none ↦ (code 5, [])
                | some sql ↦ connect o w target (first_name o w) sql
              ])
      by_name target true t r = inl refl
      by_name target false none r = inl refl
      by_name target false (some sql) r =
          by_flags target (first_name o w) sql w.database_valid w.opens
            (w.no_transaction_valid && not w.no_transaction_opens) r

      by_target :
          (t : Option ℤ) (set : Bool)
          → AgreedRun (elim t [
            | none ↦ (code 2, [])
            | some target ↦ if not set then (code 3, []) else read_text o w target
          ])
      by_target none set = inl refl
      by_target (some target) false = inl refl
      by_target (some target) true =
          by_name target (str_eq (first_name o w) "") (read_files o.files) refl

      by_files :
          (fs : List (Option (List ℕ)))
          → o.files ≡ fs
          → AgreedRun (elim fs [
            | [] ↦ (code 1, [])
            | f ∷ gs ↦ elim (pick_target o.target) [
              | none ↦ (code 2, [])
              | some target ↦ if not o.connection_set then (code 3, []) else read_text o w target
            ]
          ])
      by_files [] e = inl refl
      by_files (f ∷ fs) e = by_target (pick_target o.target) o.connection_set
