-- ===== src/Tests/Pools.antt =====
-- Short histories of a pool of src/apool.cpp.
use asql.Base.{ℕ, ◌≡◌, refl, inl, inr, true, [], ◌∷◌, Option, none, some, arith, pos, ◌==◌, ◌+ℤ◌}
use asql.Pool.{connected, Env, Client, Pool, new_pool, delivers, give_back, request}
use asql.Pool.Inventory.{
  Floor, ask, asks, tunes, Reach, here, next, Inv, empty_floor, Reach-empty_floor,
}
use asql.Pool.Fairness.{IsFair, IsLimited, never_idle_and_waited, Step-IsLimited, give_back_serves}

-- Every driver is open, every coroutine waits, and no receiver but the eighth is there.
abbrev open_all : Env
open_all = record { state = λ d. connected; alive = λ r. r == 8; awaited = λ c. true }

-- A pool for one connection; a coroutine takes it and another waits.
abbrev small : Floor
small = record empty_floor { pool = record new_pool { max_connections = pos 1 } }

abbrev lent : Floor
lent = ask open_all 1 none small

abbrev waited : Floor
waited = ask open_all 2 (some 8) lent

waiting : Reach empty_floor waited
waiting =
    next
      (next (next here (tunes (record new_pool { max_connections = pos 1 }) refl refl refl))
        (asks open_all 1 none))
      (asks open_all 2 (some 8))

Reach-empty_floor_example : Inv waited
Reach-empty_floor_example = Reach-empty_floor waiting

never_idle_and_waited_example : IsFair waited.pool
never_idle_and_waited_example = never_idle_and_waited waiting

lent-IsLimited : IsLimited lent.pool
unfolding request ◌+ℤ◌
lent-IsLimited = record { capped = inr (omega arith); spare = inl refl }

Step-IsLimited_example : IsLimited waited.pool
unfolding request ◌+ℤ◌
Step-IsLimited_example =
    Step-IsLimited {s = lent} {t = waited} (asks open_all 2 (some 8)) refl refl lent-IsLimited

abbrev client : ℕ → Option ℕ → Client
client cb r = record { cb = cb; receiver = r }

abbrev queued : Pool
queued = record new_pool {
  queue = client 2 (some 7) ∷ client 3 (some 8) ∷ client 4 none ∷ [];
  count = pos 1;
}

-- The first client is gone, so the second is served.
give_back_serves_example :
    give_back open_all 0 queued ≡ (record queued { queue = client 4 none ∷ [] }, delivers 3 0 ∷ [])
give_back_serves_example =
    give_back_serves open_all 0 queued (client 2 (some 7) ∷ []) (client 3 (some 8))
      (client 4 none ∷ []) refl refl (refl, tt) refl
