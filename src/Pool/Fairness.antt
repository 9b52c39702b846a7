-- ===== src/Pool/Fairness.antt =====
-- Who waits for a connection of a pool of src/apool.cpp, and for how long.
use asql.Base.{
  ℕ, ◌≡◌, refl, ap, ◌∙◌, true, false, List, [], ◌∷◌, ◌++◌, Option, some, arith, All, inl, inr, ◌⊎◌,
  length, pos, ◌≤ℤ◌, int_laws, ◌-ℤ◌, +ℤ_parts, -ℤ_parts,
}
use asql.Pool.{
  disconnected, connected, Env, Client, Pool, delivers, reuses, hook, is_gone, next_client,
  give_back, request,
}
use asql.Pool.Cases.{request-rule, give_back-rule, give_back_client, give_back_closed}
use asql.Pool.Inventory.{
  Floor, return, Step, asks, returns, tunes, Reach, here, next, Inv, empty_floor,
}

-- Nobody waits while a connection is idle.
abbrev pub IsFair : Pool → Type 0
IsFair p = (p.idle ≡ []) ⊎ (p.queue ≡ [])

request-IsFair :
    (env : Env) (fresh cb : ℕ) (receiver : Option ℕ) (p : Pool)
    → IsFair p
    → IsFair (request env fresh cb receiver p).0
request-IsFair env fresh cb receiver p f =
    request-rule env fresh cb receiver p (λ x. IsFair x.0) (λ d rest e. inr (ground (arith, e)))
      (λ e g. inl e) (λ e g. inl e)

no_client : (env : Env) {c : Client} {rest : List Client} → next_client env [] ≡ some (c, rest) → ⊥
unfolding next_client
no_client env n = cc

give_back-IsFair : (env : Env) (d : ℕ) (p : Pool) → IsFair p → IsFair (give_back env d p).0
give_back-IsFair env d p f =
    give_back-rule env d p (λ x. IsFair x.0) (λ e. f) (λ e. f)
      (λ e c rest n. inl (idle_first c rest n)) (λ e n m. inr refl) (λ e n m. inr refl)
  where
    idle_first :
        (c : Client) (rest : List Client) → next_client env p.queue ≡ some (c, rest) → p.idle ≡ []
    idle_first c rest n = elim f [ inl e ↦ e | inr e ↦ absurd (no_client env (rw e at n)) ]

-- No step lets a client wait beside an idle connection.
Step-IsFair : {s t : Floor} → Step s t → IsFair s.pool → IsFair t.pool
Step-IsFair {s} (asks env cb receiver) f = request-IsFair env s.next cb receiver s.pool f
Step-IsFair {s} (returns env d before after held) f = give_back-IsFair env d s.pool f
Step-IsFair (tunes p i q c) f = elim f [ inl e ↦ inl (i ∙ e) | inr e ↦ inr (q ∙ e) ]

Reach-IsFair : {s t : Floor} → IsFair s.pool → Reach s t → IsFair t.pool
Reach-IsFair f here = f
Reach-IsFair f (next r st) = Step-IsFair st (Reach-IsFair f r)

-- After any history no client waits while a connection is idle.
pub never_idle_and_waited : {t : Floor} → Reach empty_floor t → IsFair t.pool
never_idle_and_waited r = Reach-IsFair (inl refl) r

-- The count keeps to a positive maximum, and the idle connections to theirs.
pub record IsLimited (p : Pool) : Type 0 where
  pub capped : (p.max_connections ≤ℤ pos 0) ⊎ (p.count ≤ℤ p.max_connections)
  pub spare : (p.idle ≡ []) ⊎ (pos (length p.idle) ≤ℤ p.max_idle)

request-IsLimited :
    (env : Env) (fresh cb : ℕ) (receiver : Option ℕ) (p : Pool)
    → IsLimited p
    → IsLimited (request env fresh cb receiver p).0
request-IsLimited env fresh cb receiver p v =
    request-rule env fresh cb receiver p (λ x. IsLimited x.0)
      (λ d rest e. record { capped = v.capped; spare = ground (arith, e, v.spare) })
      (λ e g. record { capped = v.capped; spare = v.spare })
      (λ e g. record {
        capped = ground (arith, v.capped, +ℤ_parts p.count (pos 1));
        spare = v.spare;
      })

give_back-IsLimited : (env : Env) (d : ℕ) (p : Pool) → IsLimited p → IsLimited (give_back env d p).0
give_back-IsLimited env d p v =
    give_back-rule env d p (λ x. IsLimited x.0) (λ e. record { capped = fewer; spare = v.spare })
      (λ e. v) (λ e c rest n. record { capped = v.capped; spare = v.spare })
      (λ e n m. record { capped = fewer; spare = v.spare })
      (λ e n m. record { capped = v.capped; spare = inr (ground arith) })
  where
    fewer : (p.max_connections ≤ℤ pos 0) ⊎ (p.count -ℤ pos 1 ≤ℤ p.max_connections)
    fewer = elim v.capped [ inl e ↦ inl e | inr e ↦ inr (omega int_laws) ]

-- A step that changes neither limit keeps the pool within both: the count within a positive maximum,
-- the idle connections within theirs.
pub Step-IsLimited :
    {s t : Floor}
    → Step s t
    → t.pool.max_connections ≡ s.pool.max_connections
    → t.pool.max_idle ≡ s.pool.max_idle
    → IsLimited s.pool
    → IsLimited t.pool
Step-IsLimited {s} (asks env cb receiver) x y v = request-IsLimited env s.next cb receiver s.pool v
Step-IsLimited {s} (returns env d before after held) x y v = give_back-IsLimited env d s.pool v
Step-IsLimited {s} (tunes p i q c) x y v = record {
  capped = ground (arith, v.capped, x, c);
  spare = ground (arith, v.spare, y, i);
}

next_client-skips :
    (env : Env) (before : List Client) (c : Client) (rest : List Client)
    → All (λ x. is_gone env x ≡ true) before
    → is_gone env c ≡ false
    → next_client env (before ++ (c ∷ rest)) ≡ some (c, rest)
unfolding next_client
next_client-skips env [] c rest a g = rw g
next_client-skips env (b ∷ before) c rest a g = rw (a.0) (next_client-skips env before c rest a.1 g)

-- A connection that comes back open goes to the client that has waited longest of those still there;
-- the clients before it, which are gone, leave the queue, and those behind it keep their places.
pub give_back_serves :
    (env : Env) (d : ℕ) (p : Pool) (before : List Client) (c : Client) (rest : List Client)
    → env.state d ≡ connected
    → p.queue ≡ before ++ (c ∷ rest)
    → All (λ x. is_gone env x ≡ true) before
    → is_gone env c ≡ false
    → give_back env d p
      ≡ (record p { queue = rest }, hook p.reuse_hook (reuses d) ++ (delivers c.cb d ∷ []))
give_back_serves env d p before c rest e q a g =
    give_back_client env d p e (ap (next_client env) q ∙ next_client-skips env before c rest a g)

-- The flaw: where the only connection of a pool comes back closed, the clients in the queue stay there,
-- though the pool now counts no connection and holds none that could come back to serve them.
pub last_closed_strands :
    (env : Env) (d : ℕ) (s : Floor) (c : Client) (rest : List Client)
    → Inv s
    → IsFair s.pool
    → s.lent ≡ d ∷ []
    → s.stray ≡ []
    → s.pool.queue ≡ c ∷ rest
    → env.state d ≡ disconnected
    → let t = return env d [] s in
      (t.pool.queue ≡ c ∷ rest)
      × (t.pool.count ≡ pos 0)
      × (t.pool.idle ≡ [])
      × (t.lent ≡ [])
      × (t.stray ≡ [])
last_closed_strands env d s c rest v f l z q e =
    rw (give_back_closed env d s.pool e, e)
      (q, ground (arith, v.counted, f, -ℤ_parts s.pool.count (pos 1)), ground (arith, f), refl, z)
