-- ===== src/Workers/Calls.antt =====
-- The calls of a worker that keeps statements by the identification of their query: what AMysqlThread of
-- src/adrivermysql.cpp and AOdbcThread of src/ADriverOdbc.cpp are called for, one after the other.
use asql.Base.{true, List, [], ◌∷◌, ℤ, ◌≡◌}
use asql.Workers.{Ticket, Reply}
use asql.Workers.Handles.{Call, Library, holds, Owns}
use asql.Workers.Cached.{Cached, handles, IsCached}

-- `query`, `queryExec`, and `queryPrepared` with the identification of its query.
pub data Task : Type 0 where
  plain direct : Ticket → Task
  cached : ℤ → Ticket → Task

abbrev pub ticket_of : Task → Ticket
ticket_of (plain t) = t
ticket_of (direct t) = t
ticket_of (cached k t) = t

-- The statements in the hash, and no other, live.
abbrev pub Good : Cached → List Call → Type 0
Good cache log = IsCached cache × Owns (holds (handles cache)) log

module _ {R : Type 0} where
  -- An answer to a call, and what it leaves.
  abbrev pub After : Ticket → (Reply R × Cached) × List Call → Type 0
  After t x = (x.0.0.ticket ≡ t) × (x.0.0.last ≡ true) × Good x.0.1 x.1

  -- One result for each call, marked as its last.
  abbrev pub AreAnswers : List (Task × R) → List (Reply R) → Type 0
  AreAnswers [] [] = Unit
  AreAnswers ((task, r) ∷ ts) (x ∷ xs) =
      (x.ticket ≡ ticket_of task) × (x.last ≡ true) × AreAnswers ts xs
  AreAnswers _ _ = ⊥

  module _ (run_task : Task → R → Cached → Library (Reply R × Cached)) where
    unfoldable pub run_each : List (Task × R) → Cached → Library (List (Reply R) × Cached)
    run_each [] cache log = (([], cache), log)
    run_each ((task, r) ∷ ts) cache log =
        let x = run_task task r cache log in
        let xs = run_each ts x.0.1 x.1 in ((x.0.0 ∷ xs.0.0, xs.0.1), xs.1)

    pub run_each-Good :
        (ts : List (Task × R)) (cache : Cached) (log : List Call)
        → ((task : Task) (r : R) (c : Cached) (l : List Call)
            → Good c l
            → After (ticket_of task) (run_task task r c l))
        → Good cache log
        → AreAnswers ts (run_each ts cache log).0.0
          × Good (run_each ts cache log).0.1 (run_each ts cache log).1
    unfolding run_each
    run_each-Good [] cache log h v = (tt, v)
    run_each-Good ((task, r) ∷ ts) cache log h v =
        let x = run_task task r cache log in
        let (same, last, w) = h task r cache log v in
        let (as_asked, u) = run_each-Good ts x.0.1 x.1 h w in ((same, last, as_asked), u)
