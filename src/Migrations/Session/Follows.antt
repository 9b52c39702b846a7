-- ===== src/Migrations/Session/Follows.antt =====
-- What the migrations of src/amigrations.cpp may send to the database, and where a run then stands.
use asql.Base.{◌≡◌, ◌≢◌, Bool, true, false, List, [], ◌∷◌, Option, String, ◌⊎◌, ℤ, ◌≤ℤ◌}
use asql.Migrations.Parser.{MigQuery, Migrations}
use asql.Migrations.Plan.{next_query}
use asql.Migrations.Session.{
  main, Marks, begin, commit, rollback, select_version, update_version, Reply, failed, rows, Event,
  sent, ran, version_or_zero, handle,
}

-- Where a run stands: outside a transaction, in one, in one with the version row locked, with the new
-- version written, and with the query of that version run; `unended` where the database refused the COMMIT or
-- the ROLLBACK, after which it may have the transaction still.
pub data Phase : Type 0 where
  idle opened unended : Phase
  locked : ℤ → Phase
  stamped done : MigQuery → Phase

-- In a transaction that nobody has tried to end.
abbrev pub IsOpen : Phase → Type 0
IsOpen idle = ⊥
IsOpen unended = ⊥
IsOpen opened = Unit
IsOpen (locked a) = Unit
IsOpen (stamped m) = Unit
IsOpen (done m) = Unit

-- Where a run may end.
abbrev pub IsOver : Phase → Type 0
IsOver idle = Unit
IsOver unended = Unit
IsOver _ = ⊥

module _ (d : Migrations) (target : ℤ) (dry_run : Bool) where
  -- The query that the version in the row calls for, which a dry run must be able to undo.
  pub record IsDue (active : ℤ) (m : MigQuery) : Type 0 where
    pub next : m ≡ next_query active target d
    pub exists : m.query ≢ []
    pub known : active ≤ℤ d.latest
    pub undoable : (dry_run ≡ false) ⊎ (m.no_transaction ≡ false)

  -- What may be sent, after the events of `base`. A version is written only under the lock, and only
  -- for the query that is due; that query alone is run, on the handle that it asks for; a commit
  -- follows a query that was run to its end, and never in a dry run; a transaction is ended by a commit
  -- or by a rollback that succeeds before another begins. After one that fails nothing is sent.
  pub data Follows (base : List Event) : List Event → Phase → Type 0 where
    here : Follows base base idle
    read :
        {l : List Event} (k : Marks) (n : String) (r : Reply)
        → Follows base l idle
        → Follows base (sent main (select_version k false n) r ∷ l) idle
    opens :
        {l : List Event} (v : Option ℤ)
        → Follows base l idle
        → Follows base (sent main begin (rows v) ∷ l) opened
    begin_fails :
        {l : List Event} (e : String)
        → Follows base l idle
        → Follows base (sent main begin (failed e) ∷ l) idle
    locks :
        {l : List Event} (k : Marks) (n : String) (v : Option ℤ)
        → Follows base l opened
        → Follows base
            (sent main (select_version k true n) (rows v) ∷ l)
            (locked (version_or_zero v))
    lock_fails :
        {l : List Event} (k : Marks) (n e : String)
        → Follows base l opened
        → Follows base (sent main (select_version k true n) (failed e) ∷ l) opened
    stamps :
        {l : List Event} {a : ℤ} (k : Marks) (n : String) (v : Option ℤ) (m : MigQuery)
        → IsDue a m
        → Follows base l (locked a)
        → Follows base (sent main (update_version k n m.version) (rows v) ∷ l) (stamped m)
    stamp_fails :
        {l : List Event} {a : ℤ} (k : Marks) (n e : String) (m : MigQuery)
        → IsDue a m
        → Follows base l (locked a)
        → Follows base (sent main (update_version k n m.version) (failed e) ∷ l) (locked a)
    runs :
        {l : List Event} (m : MigQuery)
        → Follows base l (stamped m)
        → Follows base (ran (handle m.no_transaction) m.query true ∷ l) (done m)
    run_fails :
        {l : List Event} (m : MigQuery)
        → Follows base l (stamped m)
        → Follows base (ran (handle m.no_transaction) m.query false ∷ l) (stamped m)
    commits :
        {l : List Event} (v : Option ℤ) (m : MigQuery)
        → dry_run ≡ false
        → Follows base l (done m)
        → Follows base (sent main commit (rows v) ∷ l) idle
    commit_fails :
        {l : List Event} (e : String) (m : MigQuery)
        → dry_run ≡ false
        → Follows base l (done m)
        → Follows base (sent main commit (failed e) ∷ l) unended
    rolls_back :
        {l : List Event} {p : Phase} (v : Option ℤ)
        → IsOpen p
        → Follows base l p
        → Follows base (sent main rollback (rows v) ∷ l) idle
    rollback_fails :
        {l : List Event} {p : Phase} (e : String)
        → IsOpen p
        → Follows base l p
        → Follows base (sent main rollback (failed e) ∷ l) unended
