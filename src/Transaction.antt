-- ===== src/Transaction.antt =====
-- ATransaction: src/atransaction.cpp. The handles of a transaction share one ATransactionPrivate; what is
-- sent to the database is the log, the newest first.
pub mod Ends
use asql.Base.{
  ℕ, zero, suc, ◌+◌, ◌≤◌, ◌<◌, ◌≡◌, refl, Bool, true, false, ◌&&◌, List, [], ◌∷◌, arith, length,
  if◌then◌else◌, ◌⊎◌, inl, inr, ltb, Bool-cases, ◌≢◌,
}

pub data Sql : Type 0 where
  commit rollback : Sql

-- What the caller awaits: an error at once, a success at once, or the reply of the database.
pub data Answer : Type 0 where
  not_started nothing_to_do from_database : Answer

-- The shared state, with the number of its handles and whether its database is valid.
pub record Transaction : Type 0 where
  pub running : Bool
  pub valid : Bool
  pub uses : ℕ
  pub log : List Sql

-- What `begin` makes of a database that has begun.
abbrev pub started : Transaction
started = record { running = true; valid = true; uses = 1; log = [] }

abbrev pub end : Sql → Transaction → Transaction × Answer
end q t = (record t { running = false; log = q ∷ t.log }, from_database)

unfoldable pub commit_with : Transaction → Transaction × Answer
commit_with t =
    if t.running
    then if ltb 1 t.uses then (t, nothing_to_do) else end commit t
    else (t, not_started)

unfoldable pub roll_back : Transaction → Transaction × Answer
roll_back t = if t.running then end rollback t else (t, not_started)

-- A copy of a handle.
abbrev pub share : Transaction → Transaction
share t = record t { uses = suc t.uses }

-- The destructor of the shared state.
unfoldable pub destroy : Transaction → Transaction
destroy t = if t.running && t.valid then record t { log = rollback ∷ t.log } else t

-- A handle goes, and with the last one the shared state; `n` handles are left.
unfoldable pub drop : ℕ → Transaction → Transaction
drop zero t = destroy (record t { uses = 0 })
drop (suc n) t = record t { uses = suc n }

unfoldable pub is_active : Transaction → Bool
is_active t = t.running
