-- ===== src/Migrations/Session/Protocol.antt =====
-- Runs of the migrations of src/amigrations.cpp against the protocol of what they may send.
use asql.Base.{
  ℕ, zero, suc, ◌≡◌, refl, ◌≢◌, subst, Bool, true, false, ◌&&◌, not, List, [], ◌∷◌, Option, some,
  some_inj, String, arith, if◌then◌else◌, Bool-cases, inl, inr, ◌⊎◌, ℤ, pos, ltb_ℤ, ◌≤ℤ◌,
}
use asql.Migrations.Parser.{MigQuery, Migrations}
use asql.Migrations.Plan.{is_empty, next_query}
use asql.Migrations.Session.{
  Handle, main, Statement, begin, commit, rollback, select_version, update_version, Reply, failed,
  rows, Database, Event, sent, ran, World, Failure, server_error, halt, pure, check_version,
  Delivery, success, failure, Flow, go, stop, M, after, ◌>>=◌, marks, version_or_zero, drain,
  answer, outcome, is_success, handle, Ending, nothing_left, migrated, exec, post, run_script,
  read_version, run_migration, in_transaction, leave, round, rounds, migrate, resolve, proceed,
}
use asql.Migrations.Session.Rules.{if-rule}
use asql.Migrations.Session.Follows.{
  Phase, idle, opened, unended, locked, stamped, done, IsOpen, IsOver, commit_fails, rollback_fails,
  IsDue, Follows, here, read, opens, begin_fails, locks, lock_fails, stamps, stamp_fails, runs,
  run_fails, commits, rolls_back,
}

module _ {S : Type 0} (db : Database S) where
  exec-rule :
      {B : Type 0} (P : Flow B × World S → Type 0) (h : Handle) (q : Statement) (w : World S)
      (f : Option ℤ → M S B)
      → ((e : String) (s : S)
          → P (
            stop (failure (server_error e)),
            record { server = s; log = sent h q (failed e) ∷ w.log },
          ))
      → ((v : Option ℤ) (s : S) → P (f v (record { server = s; log = sent h q (rows v) ∷ w.log })))
      → P (after (exec db h q w) f)
  unfolding exec
  exec-rule P h q w f bad good = by_reply (db.exec h q w.server).0 (db.exec h q w.server).1
    where
      by_reply :
          (r : Reply) (s : S)
          → P (after (answer r (record { server = s; log = sent h q r ∷ w.log })) f)
      by_reply (failed e) s = bad e s
      by_reply (rows v) s = good v s

  run_script-rule :
      {B : Type 0} (P : Flow B × World S → Type 0) (h : Handle) (q : List ℕ) (w : World S)
      (f : Unit {0} → M S B)
      → ((x : Failure) (s : S)
          → P (stop (failure x), record { server = s; log = ran h q false ∷ w.log }))
      → ((s : S) → P (f tt (record { server = s; log = ran h q true ∷ w.log })))
      → P (after (run_script db h q w) f)
  unfolding run_script
  run_script-rule P h q w f bad good =
      by_delivery (drain (db.exec_multi h q w.server).0) (db.exec_multi h q w.server).1
    where
      by_delivery :
          (r : Delivery) (s : S)
          → P (after (outcome r (record { server = s; log = ran h q (is_success r) ∷ w.log })) f)
      by_delivery success s = good s
      by_delivery (failure x) s = bad x s

  module _ (d : Migrations) (target : ℤ) (dry_run : Bool) (base : List Event) where
    abbrev At : List Event → Phase → Type 0
    At = Follows d target dry_run base

    -- Left in some transaction, by an error or by a dry run.
    abbrev Halted : World S → Type 0
    Halted w = (p : Phase) × IsOpen p × At w.log p

    abbrev Locked : Flow ℤ × World S → Type 0
    Locked (go a, w) = At w.log (locked a) × (a ≤ℤ d.latest)
    Locked (stop r, w) = Halted w

    check_version-Locked :
        (a : ℤ) (w : World S) → At w.log (locked a) → Locked (check_version db d target dry_run a w)
    check_version-Locked a w h =
        if-rule Locked (ltb_ℤ d.latest a) _ _ w (λ t. (locked a, tt, h)) (λ t. (h, ground arith))

    read_version-Locked :
        (w : World S) → At w.log opened → Locked (read_version db d target dry_run true w)
    unfolding read_version
    read_version-Locked w h =
        exec-rule Locked main (select_version (marks db.driver) true d.name) w _
          (λ e s. (opened, tt, lock_fails _ _ e h))
          (λ v s. check_version-Locked (version_or_zero v) _ (locks _ _ v h))

    abbrev Ends : Flow Ending × World S → Type 0
    Ends (go nothing_left, w) = Halted w
    Ends (go migrated, w) = (m : MigQuery) × (dry_run ≡ false) × At w.log (done m)
    Ends (stop r, w) = Halted w

    finish-Ends :
        (m : MigQuery) (w : World S)
        → (dry_run ≡ false) ⊎ (m.no_transaction ≡ false)
        → At w.log (done m)
        → Ends ((if dry_run && not m.no_transaction then halt success else pure migrated) w)
    finish-Ends m w u h =
        if-rule Ends (dry_run && not m.no_transaction) _ _ w (λ t. (done m, tt, h))
          (λ t. (m, ground (arith, u), h))

    run_migration-Ends :
        (a : ℤ) (m : MigQuery) (w : World S)
        → m ≡ next_query a target d
        → m.query ≢ []
        → a ≤ℤ d.latest
        → At w.log (locked a)
        → Ends (run_migration db d target dry_run m w)
    unfolding run_migration
    run_migration-Ends a m w e n k h =
        if-rule Ends (m.no_transaction && dry_run) _ _ w (λ t. (locked a, tt, h))
          (λ t.
            let undoable : (dry_run ≡ false) ⊎ (m.no_transaction ≡ false) = ground arith in
            let due : IsDue d target dry_run a m = record {
              next = e;
              exists = n;
              known = k;
              undoable = undoable;
            } in
            exec-rule Ends main (update_version (marks db.driver) d.name m.version) w _
              (λ x s. (locked a, tt, stamp_fails _ _ x m due h))
              (λ v s.
                run_script-rule Ends (handle m.no_transaction) m.query _ _
                  (λ x s'. (stamped m, tt, run_fails m (stamps _ _ v m due h)))
                  (λ s'. finish-Ends m _ undoable (runs m (stamps _ _ v m due h)))))

    in_transaction-Ends :
        (w : World S) → At w.log opened → Ends (in_transaction db d target dry_run w)
    unfolding in_transaction
    in_transaction-Ends w h =
        go_on (read_version db d target dry_run true w) (read_version-Locked w h)
      where
        go_on :
            (x : Flow ℤ × World S)
            → Locked x
            → Ends (
                after x λ active.
                  let m = next_query active target d in
                  if is_empty m.query
                  then pure nothing_left
                  else run_migration db d target dry_run m)
        go_on (stop r, w') l = l
        go_on (go a, w') l =
            if-rule Ends (is_empty (next_query a target d).query) _ _ w' (λ t. (locked a, tt, l.0))
              (λ t. run_migration-Ends a (next_query a target d) w' refl (λ z. cc) l.1 l.0)

    -- A run that goes on is outside a transaction, and one that stops may have been refused the end of its own.
    abbrev Idle : {A : Type 0} → Flow A × World S → Type 0
    Idle (go a, w) = At w.log idle
    Idle (stop r, w) = (p : Phase) × IsOver p × At w.log p

    rollback-Idle :
        (r : Delivery) (w : World S)
        → Halted w
        → Idle {A = Unit {0}} (stop r, post db main rollback w)
    unfolding post
    rollback-Idle r w (p, n, h) = by_reply (db.exec main rollback w.server).0
      where
        by_reply : (x : Reply) → (q : Phase) × IsOver q × At (sent main rollback x ∷ w.log) q
        by_reply (failed e) = (unended, tt, rollback_fails e n h)
        by_reply (rows v) = (idle, tt, rolls_back v n h)

    leave-Idle : (x : Flow Ending × World S) → Ends x → Idle (leave db d target dry_run x)
    leave-Idle (stop r, w) v = rollback-Idle r w v
    leave-Idle (go nothing_left, w) (p, n, h) =
        exec-rule Idle main rollback w _ (λ e s. (unended, tt, rollback_fails e n h))
          (λ v s. (idle, tt, rolls_back v n h))
    leave-Idle (go migrated, w) (m, t, h) =
        exec-rule Idle main commit w _ (λ e s. (unended, tt, commit_fails e m t h))
          (λ v s. commits v m t h)

    round-Idle : (w : World S) → At w.log idle → Idle (round db d target dry_run w)
    unfolding round
    round-Idle w h = go_on (read_version db d target dry_run false w) (reads w h)
      where
        checked :
            (a : ℤ) (w : World S) → At w.log idle → Idle (check_version db d target dry_run a w)
        checked a w h = if-rule Idle (ltb_ℤ d.latest a) _ _ w (λ t. (idle, tt, h)) (λ t. h)

        reads : (w : World S) → At w.log idle → Idle (read_version db d target dry_run false w)
        reads w h =
            unfold read_version in
            (exec-rule Idle main (select_version (marks db.driver) false d.name) w _
              (λ e s. (idle, tt, read _ _ _ h))
              (λ v s. checked (version_or_zero v) _ (read _ _ _ h)))

        go_on :
            (x : Flow ℤ × World S)
            → Idle x
            → Idle (
                after x λ active.
                  if is_empty (next_query active target d).query then halt success else do
                    _ ← exec db main begin
                    λ w. leave db d target dry_run (in_transaction db d target dry_run w))
        go_on (stop r, w') l = l
        go_on (go a, w') l =
            if-rule Idle (is_empty (next_query a target d).query) _ _ w' (λ t. (idle, tt, l))
              (λ t.
                exec-rule Idle main begin w' _ (λ e s. (idle, tt, begin_fails e l))
                  (λ v s. leave-Idle _ (in_transaction-Ends _ (opens v l))))

    rounds-Idle :
        (fuel : ℕ) (w : World S) {r : Delivery} {w' : World S}
        → At w.log idle
        → rounds db d target dry_run fuel w ≡ some (r, w')
        → (p : Phase) × IsOver p × At w'.log p
    unfolding rounds
    rounds-Idle zero w h e = absurd (cc)
    rounds-Idle (suc fuel) w {r} {w'} h e =
        by_round (round db d target dry_run w) (round-Idle w h) (λ w1 k p. rounds-Idle fuel w1 k p)
          e
      where
        by_round :
            (x : Flow (Unit {0}) × World S)
            → Idle x
            → ((w1 : World S)
                → At w1.log idle
                → rounds db d target dry_run fuel w1 ≡ some (r, w')
                → (p : Phase) × IsOver p × At w'.log p)
            → proceed x (rounds db d target dry_run fuel) ≡ some (r, w')
            → (p : Phase) × IsOver p × At w'.log p
        by_round (go _, w1) k rec p = rec w1 k p
        by_round (stop r', w1) k rec p =
            subst (λ y. (p : Phase) × IsOver p × At y.1.log p) (some_inj p) k

  -- Whatever the database answers, what a run of `migrate` sends follows the protocol, and when the run is over,
  -- also by an error or as a dry run, each transaction that it began was ended by a COMMIT or a ROLLBACK that
  -- succeeded, but where the last that it sent is one that the database refused.
  pub migrate-Follows :
      (fuel : ℕ) (d : Migrations) (target_version : ℤ) (dry_run : Bool) (w : World S) {r : Delivery}
      {w' : World S}
      → migrate db fuel d target_version dry_run w ≡ some (r, w')
      → (p : Phase) × IsOver p × Follows d (resolve d target_version) dry_run w.log w'.log p
  unfolding migrate
  migrate-Follows fuel d v dry_run w {r} {w'} e = elim (Bool-cases (ltb_ℤ (resolve d v) (pos 0))) [
    | inl t ↦
        subst (λ y. (p : Phase) × IsOver p × Follows d (resolve d v) dry_run w.log y.1.log p)
          (some_inj (rw t at e)) (idle, tt, here)
    | inr t ↦ rounds-Idle d (resolve d v) dry_run w.log fuel w here (rw t at e)
  ]
