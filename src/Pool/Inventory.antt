-- ===== src/Pool/Inventory.antt =====
-- Where the connections of a pool of src/apool.cpp are: idle, lent to a client, or given back while
-- still opening, in which case the pool keeps counting them.
use asql.Base.{
  ℕ, suc, ◌+◌, ◌≤◌, ◌≡◌, refl, ap, sym, ◌∙◌, Bool, true, false, List, [], ◌∷◌, ◌++◌, Option, arith,
  Bool-cases, inl, inr, length, length-append, occ, occ-append, pos, int_laws, ◌+ℤ◌, ◌-ℤ◌,
}
use asql.Pool.{
  State, connecting, Env, Pool, new_pool, Effect, deletes, reuses, sets_up, delivers, opens,
  fails_invalid, fails_open, hook, is_open, give_back, request, hand_out,
}
use asql.Pool.Cases.{request-rule, give_back-rule}

-- The connections that a call hands to clients.
abbrev pub taken : List Effect → List ℕ
taken [] = []
taken (delivers cb d ∷ e) = d ∷ taken e
taken (opens cb d h ∷ e) = d ∷ taken e
taken (deletes d ∷ e) = taken e
taken (reuses d ∷ e) = taken e
taken (sets_up d ∷ e) = taken e
taken (fails_invalid cb ∷ e) = taken e
taken (fails_open cb ∷ e) = taken e

-- A pool, the connections that clients hold, those that came back while still opening, and the number
-- of the next driver.
pub record Floor : Type 0 where
  pub pool : Pool
  pub lent : List ℕ
  pub stray : List ℕ
  pub next : ℕ

abbrev pub strays : State → ℕ → List ℕ
strays connecting d = d ∷ []
strays _ d = []

abbrev pub ask : Env → ℕ → Option ℕ → Floor → Floor
ask env cb receiver s =
    let (p, e) = request env s.next cb receiver s.pool in
    record s { pool = p; lent = taken e ++ s.lent; next = suc s.next }

-- A client lets go of a connection; `lent` is what the others hold.
abbrev pub return : Env → ℕ → List ℕ → Floor → Floor
return env d lent s =
    let (p, e) = give_back env d s.pool in
    record s { pool = p; lent = taken e ++ lent; stray = strays (env.state d) d ++ s.stray }

pub data Step (s : Floor) : Floor → Type 0 where
  asks : (env : Env) (cb : ℕ) (receiver : Option ℕ) → Step s (ask env cb receiver s)
  returns :
      (env : Env) (d : ℕ) (before after : List ℕ)
      → s.lent ≡ before ++ (d ∷ after)
      → Step s (return env d (before ++ after) s)
  tunes :
      (p : Pool)
      → p.idle ≡ s.pool.idle
      → p.queue ≡ s.pool.queue
      → p.count ≡ s.pool.count
      → Step s (record s { pool = p })

pub data Reach (s : Floor) : Floor → Type 0 where
  here : Reach s s
  next : {t u : Floor} → Reach s t → Step t u → Reach s u

-- The pool counts every connection, each is in one place, and none has a number to come.
pub record Inv (s : Floor) : Type 0 where
  pub counted : s.pool.count ≡ pos (length s.pool.idle + length s.lent + length s.stray)
  pub distinct : (d : ℕ) → occ d s.pool.idle + occ d s.lent + occ d s.stray ≤ 1
  pub made : (d : ℕ) → s.next ≤ d → occ d s.pool.idle + occ d s.lent + occ d s.stray ≡ 0

taken-hook : (b : Bool) (cb d : ℕ) → taken (hook b (reuses d) ++ (delivers cb d ∷ [])) ≡ d ∷ []
taken-hook true cb d = refl
taken-hook false cb d = refl

taken-hand_out : (env : Env) (cb d : ℕ) (p : Pool) → taken (hand_out env cb d p) ≡ d ∷ []
unfolding hand_out
taken-hand_out env cb d p = elim (Bool-cases (is_open env d)) [
  | inl t ↦ rw t (taken-hook p.reuse_hook cb d)
  | inr t ↦ rw t refl
]

suc_count : (n : ℕ) → pos n +ℤ pos 1 ≡ pos (suc n)
suc_count n = omega int_laws

pred_count : (n : ℕ) → pos (suc n) -ℤ pos 1 ≡ pos n
pred_count n = omega int_laws

ask-Inv :
    (env : Env) (cb : ℕ) (receiver : Option ℕ) (s : Floor) → Inv s → Inv (ask env cb receiver s)
unfolding occ
ask-Inv env cb receiver s v =
    request-rule env s.next cb receiver s.pool
      (λ x. Inv (record s { pool = x.0; lent = taken x.1 ++ s.lent; next = suc s.next }))
      (λ d rest e. rw (taken-hand_out env cb d s.pool) (record {
        counted = ground (arith, v.counted, e);
        distinct = λ j. ground (arith, v.distinct j, e);
        made = λ j h. ground (arith, v.made j, e);
      }))
      (λ e f. record {
        counted = v.counted;
        distinct = v.distinct;
        made = λ j h. v.made j (omega arith);
      })
      (λ e f. rw (taken-hand_out env cb s.next s.pool) (record {
        counted =
            ground
              (arith, v.counted, suc_count (length s.pool.idle + length s.lent + length s.stray));
        distinct = λ j. ground (arith, v.distinct j, v.made j);
        made = λ j h. ground (arith, v.made j);
      }))

return-Inv :
    (env : Env) (d : ℕ) (before after : List ℕ) (s : Floor)
    → s.lent ≡ before ++ (d ∷ after)
    → Inv s
    → Inv (return env d (before ++ after) s)
unfolding occ
return-Inv env d before after s held v =
    give_back-rule env d s.pool
      (λ x. Inv (record s {
        pool = x.0;
        lent = taken x.1 ++ (before ++ after);
        stray = strays (env.state d) d ++ s.stray;
      }))
      (λ e. rw e (gone (record s.pool { count = s.pool.count -ℤ pos 1 }) refl refl))
      (λ e. rw e (record {
        counted = ground (arith, v.counted, long, short);
        distinct = λ j. ground (arith, v.distinct j, many j, few j);
        made = λ j h. ground (arith, v.made j, many j, few j);
      }))
      (λ e c rest n.
        rw (e, taken-hook s.pool.reuse_hook c.cb d)
          (record {
            counted = ground (arith, v.counted, long, short);
            distinct = λ j. ground (arith, v.distinct j, many j, few j);
            made = λ j h. ground (arith, v.made j, many j, few j);
          }))
      (λ e n m. rw e (gone (record s.pool { queue = []; count = s.pool.count -ℤ pos 1 }) refl refl))
      (λ e n m. rw e (record {
        counted = ground (arith, v.counted, long, short);
        distinct = λ j. ground (arith, v.distinct j, many j, few j);
        made = λ j h. ground (arith, v.made j, many j, few j);
      }))
  where
    long : length s.lent ≡ length before + suc (length after)
    long = ap length held ∙ length-append before (d ∷ after)

    short : length (before ++ after) ≡ length before + length after
    short = length-append before after

    many : (j : ℕ) → occ j s.lent ≡ occ j before + occ j (d ∷ after)
    many j = ap (occ j) held ∙ occ-append j before (d ∷ after)

    few : (j : ℕ) → occ j (before ++ after) ≡ occ j before + occ j after
    few j = occ-append j before after

    gone :
        (p : Pool)
        → p.idle ≡ s.pool.idle
        → p.count ≡ s.pool.count -ℤ pos 1
        → Inv (record s { pool = p; lent = before ++ after })
    gone p i c = record {
      counted = ground (
        arith,
        v.counted,
        long,
        short,
        pred_count (length s.pool.idle + length (before ++ after) + length s.stray),
      );
      distinct = λ j. ground (arith, v.distinct j, many j, few j);
      made = λ j h. ground (arith, v.made j, many j, few j);
    }

-- Whatever clients do, and whatever the drivers answer, a step keeps the books.
pub Step-Inv : {s t : Floor} → Step s t → Inv s → Inv t
Step-Inv {s} (asks env cb receiver) v = ask-Inv env cb receiver s v
Step-Inv {s} (returns env d before after held) v = return-Inv env d before after s held v
Step-Inv {s} (tunes p i q c) v = record {
  counted = c ∙ v.counted ∙ ap (λ l. pos (length l + length s.lent + length s.stray)) (sym i);
  distinct = λ j. ground (arith, v.distinct j);
  made = λ j h. ground (arith, v.made j);
}

abbrev pub empty_floor : Floor
empty_floor = record { pool = new_pool; lent = []; stray = []; next = 0 }

Reach-Inv : {s t : Floor} → Inv s → Reach s t → Inv t
Reach-Inv v here = v
Reach-Inv v (next r st) = Step-Inv st (Reach-Inv v r)

empty_floor-Inv : Inv empty_floor
unfolding occ
empty_floor-Inv = record { counted = refl; distinct = λ j. omega arith; made = λ j h. refl }

-- After any history of requests, returns and changes of the limits and hooks, the count of a pool is
-- the number of connections that are idle, lent, or were returned while still opening; no connection
-- is in two of these places or twice in one.
pub Reach-empty_floor : {t : Floor} → Reach empty_floor t → Inv t
Reach-empty_floor r = Reach-Inv empty_floor-Inv r
