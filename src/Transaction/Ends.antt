-- ===== src/Transaction/Ends.antt =====
-- How the handles of a transaction of src/atransaction.cpp end it.
use asql.Base.{
  ℕ, zero, suc, ◌≡◌, refl, ap, ◌∙◌, true, false, [], ◌∷◌, arith, length, ◌⊎◌, inl, inr, ◌≢◌,
}
use asql.Transaction.{commit, Transaction, started, commit_with, roll_back, share, destroy, drop}

-- A handle that is there commits, rolls back, is copied or goes.
pub data Step (t : Transaction) : Transaction → Type 0 where
  commits : t.uses ≢ 0 → Step t (commit_with t).0
  rolls_back : t.uses ≢ 0 → Step t (roll_back t).0
  shares : t.uses ≢ 0 → Step t (share t)
  drops : (n : ℕ) → t.uses ≡ suc n → Step t (drop n t)

pub data Reach (s : Transaction) : Transaction → Type 0 where
  here : Reach s s
  next : {t u : Transaction} → Reach s t → Step t u → Reach s u

-- The transaction is running and nothing was sent, or it has one end.
abbrev pub Ended : Transaction → Type 0
Ended t =
    (t.valid ≡ true)
    × (((t.running ≡ true) × (t.log ≡ []) × (t.uses ≢ 0))
        ⊎ ((length t.log ≡ 1) × ((t.running ≡ false) ⊎ (t.uses ≡ 0))))

Step-Ended : {s t : Transaction} → Step s t → Ended s → Ended t
unfolding commit_with roll_back drop destroy
Step-Ended (commits n) (v, h) = ground (arith, v, h, n)
Step-Ended (rolls_back n) (v, h) = ground (arith, v, h, n)
Step-Ended (shares n) (v, h) = ground (arith, v, h, n)
Step-Ended {s} (drops zero e) (v, h) = ground (arith, v, h, e)
Step-Ended {s} (drops (suc n) e) (v, h) = ground (arith, v, h, e)

-- In any history of commits, rollbacks, copies and ends of handles, from a transaction that has begun:
-- it runs, nothing was sent and a handle is left, or exactly one COMMIT or ROLLBACK was sent and it is
-- over or has no handle left.
pub Reach-started : {t : Transaction} → Reach started t → Ended t
Reach-started here = (refl, inl (refl, refl, λ e. cc))
Reach-started (next r st) = Step-Ended st (Reach-started r)

-- With the last handle a transaction is over: exactly one COMMIT or ROLLBACK was sent.
pub last_handle_ends : {t : Transaction} → Reach started t → t.uses ≡ 0 → length t.log ≡ 1
last_handle_ends r u = elim (Reach-started r).1 [
  | inl (_, _, n) ↦ absurd (n u)
  | inr (one, _) ↦ one
]

-- Each of `n` handles commits and goes.
pub commit_each : ℕ → Transaction → Transaction
commit_each zero t = t
commit_each (suc n) t = commit_each n (drop n (commit_with t).0)

commit_shared : (n : ℕ) (t : Transaction) → t.uses ≡ suc (suc n) → (commit_with t).0 ≡ t
unfolding commit_with
commit_shared n t u = ground (arith, u)

-- As the class promises for a loop of inserts, each of which holds a handle, commits and lets go: one
-- COMMIT is sent, by the last.
pub commit_each-sends :
    (n : ℕ) (t : Transaction)
    → t.uses ≡ suc n
    → t.running ≡ true
    → (commit_each (suc n) t).log ≡ commit ∷ t.log
unfolding commit_each commit_with drop destroy
commit_each-sends zero t u r = ground (arith, u, r)
commit_each-sends (suc n) t u r =
    ap (λ x. (commit_each (suc n) (drop (suc n) x)).log) (commit_shared n t u)
    ∙ commit_each-sends n (record t { uses = suc n }) refl r
