-- ===== src/Migrations/Session/Served.antt =====
-- A database that does what it is asked, as the coroutines of src/amigrations.cpp meet it.
use asql.Base.{
  ℕ, ◌≡◌, refl, ◌∙◌, Bool, true, false, List, [], ◌∷◌, Option, none, some, String, arith, ℤ, ltb_ℤ,
  ◌≤ℤ◌,
}
use asql.Migrations.Parser.{Migrations}
use asql.Migrations.Session.{
  Handle, main, Marks, Statement, begin, commit, rollback, select_version, update_version, Reply,
  failed, rows, Database, Event, sent, ran, World, success, Flow, M, after, marks, version_or_zero,
  drain, answer, exec, run_script, read_version,
}
use asql.Migrations.Session.Rules.{if-rule}

-- The stored version of a migration, and the one that an open transaction sees.
pub record View : Type 0 where
  pub stored : ℤ
  pub pending : Option ℤ

abbrev pub current : View → ℤ
current v = elim v.pending [ none ↦ v.stored | some p ↦ p ]

-- What each statement asks for.
abbrev pub apply : Statement → View → View
apply begin v = record v { pending = some v.stored }
apply commit v = record { stored = current v; pending = none }
apply rollback v = record v { pending = none }
apply (update_version k n x) v = record v { pending = some x }
apply _ v = v

-- A database that carries every statement out, and whose scripts run to their end and leave the
-- table of the versions alone.
pub record Serves {S : Type 0} (db : Database S) (view : S → View) : Type 0 where
  pub answers : (q : Statement) (s : S) → (v : Option ℤ) × ((db.exec main q s).0 ≡ rows v)
  pub views : (q : Statement) (s : S) → view (db.exec main q s).1 ≡ apply q (view s)
  pub reads :
      (k : Marks) (lock : Bool) (n : String) (s : S) (v : Option ℤ)
      → (db.exec main (select_version k lock n) s).0 ≡ rows v
      → version_or_zero v ≡ current (view s)
  pub runs : (h : Handle) (q : List ℕ) (s : S) → drain (db.exec_multi h q s).0 ≡ success
  pub keeps : (h : Handle) (q : List ℕ) (s : S) → view (db.exec_multi h q s).1 ≡ view s

-- The scripts that ran to their end, the newest first.
abbrev pub scripts : List Event → List (List ℕ)
scripts [] = []
scripts (ran h q true ∷ l) = q ∷ scripts l
scripts (ran h q false ∷ l) = scripts l
scripts (sent h q r ∷ l) = scripts l

module _ {S : Type 0} (db : Database S) (view : S → View) (serves : Serves db view) where
  pub exec-served :
      {B : Type 0} (P : Flow B × World S → Type 0) (q : Statement) (w : World S)
      (f : Option ℤ → M S B)
      → ((v : Option ℤ) (s : S)
          → (db.exec main q w.server).0 ≡ rows v
          → view s ≡ apply q (view w.server)
          → P (f v (record { server = s; log = sent main q (rows v) ∷ w.log })))
      → P (after (exec db main q w) f)
  unfolding exec
  exec-served P q w f good = by_reply (db.exec main q w.server).0 refl (serves.answers q w.server)
    where
      by_reply :
          (r : Reply)
          → (db.exec main q w.server).0 ≡ r
          → (v : Option ℤ) × ((db.exec main q w.server).0 ≡ rows v)
          → P (
              after
                (answer r
                  (record { server = (db.exec main q w.server).1; log = sent main q r ∷ w.log }))
                f)
      by_reply (failed e) p a = absurd (cc a.1)
      by_reply (rows v) p a = good v _ p (serves.views q w.server)

  pub script-served :
      {B : Type 0} (P : Flow B × World S → Type 0) (h : Handle) (q : List ℕ) (w : World S)
      (f : Unit {0} → M S B)
      → ((s : S)
          → view s ≡ view w.server
          → P (f tt (record { server = s; log = ran h q true ∷ w.log })))
      → P (after (run_script db h q w) f)
  unfolding run_script
  script-served P h q w f good = rw (serves.runs h q w.server) (good _ (serves.keeps h q w.server))

  module _ (d : Migrations) (target : ℤ) where
    pub read-served :
        {B : Type 0} (P : Flow B × World S → Type 0) (lock : Bool) (a : ℤ) (w : World S)
        (f : ℤ → M S B)
        → current (view w.server) ≡ a
        → a ≤ℤ d.latest
        → ((w' : World S)
            → view w'.server ≡ view w.server
            → scripts w'.log ≡ scripts w.log
            → P (f a w'))
        → P (after (read_version db d target false lock w) f)
    unfolding read_version
    read-served P lock a w f c k good =
        exec-served (λ x. P (after x f)) (select_version (marks db.driver) lock d.name) w _
          (λ v s p q. rw (serves.reads _ lock d.name w.server v p ∙ c) (
            if-rule (λ x. P (after x f)) (ltb_ℤ d.latest a) _ _ _ (λ t. absurd (ground arith))
              (λ t. good _ q refl)))
