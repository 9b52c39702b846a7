-- ===== src/Pool/Cases.antt =====
-- The cases of a request and of a return in src/apool.cpp, with what each leaves and calls.
use asql.Base.{
  ℕ, ◌≡◌, refl, sym, subst, true, false, List, [], ◌∷◌, ◌++◌, Option, none, some, arith, Bool-cases,
  ◌⊎◌, inl, inr, length, pos, leb_ℤ, ◌+ℤ◌, ◌-ℤ◌,
}
use asql.Pool.{
  State, disconnected, connecting, connected, Env, Client, Pool, Effect, deletes, reuses, delivers,
  hook, is_full, next_client, give_back, reuse, park, request, hand_out,
}

module _ (env : Env) (fresh cb : ℕ) (receiver : Option ℕ) (p : Pool) where
  pub request_idle :
      {d : ℕ} {rest : List ℕ}
      → p.idle ≡ d ∷ rest
      → request env fresh cb receiver p ≡ (record p { idle = rest }, hand_out env cb d p)
  unfolding request
  request_idle e = ground arith

  pub request_full :
      p.idle ≡ []
      → is_full p ≡ true
      → request env fresh cb receiver p
        ≡ (record p { queue = p.queue ++ (record { cb = cb; receiver = receiver } ∷ []) }, [])
  unfolding request
  request_full e f = ground arith

  pub request_new :
      p.idle ≡ []
      → is_full p ≡ false
      → request env fresh cb receiver p
        ≡ (record p { count = p.count +ℤ pos 1 }, hand_out env cb fresh p)
  unfolding request
  request_new e f = ground arith

module _ (env : Env) (d : ℕ) (p : Pool) where
  pub give_back_closed :
      env.state d ≡ disconnected
      → give_back env d p ≡ (record p { count = p.count -ℤ pos 1 }, deletes d ∷ [])
  unfolding give_back
  give_back_closed e = ground arith

  pub give_back_opening : env.state d ≡ connecting → give_back env d p ≡ (p, [])
  unfolding give_back
  give_back_opening e = ground arith

  pub give_back_client :
      {c : Client} {rest : List Client}
      → env.state d ≡ connected
      → next_client env p.queue ≡ some (c, rest)
      → give_back env d p
        ≡ (record p { queue = rest }, hook p.reuse_hook (reuses d) ++ (delivers c.cb d ∷ []))
  unfolding give_back reuse
  give_back_client e n = ground arith

  pub give_back_surplus :
      env.state d ≡ connected
      → next_client env p.queue ≡ none
      → leb_ℤ p.max_idle (pos (length p.idle)) ≡ true
      → give_back env d p ≡ (record p { queue = []; count = p.count -ℤ pos 1 }, deletes d ∷ [])
  unfolding give_back reuse park
  give_back_surplus e n m = ground arith

  pub give_back_parked :
      env.state d ≡ connected
      → next_client env p.queue ≡ none
      → leb_ℤ p.max_idle (pos (length p.idle)) ≡ false
      → give_back env d p ≡ (record p { queue = []; idle = d ∷ p.idle }, [])
  unfolding give_back reuse park
  give_back_parked e n m = ground arith

  -- To prove something of a return, prove it in each of the five cases.
  pub give_back-rule :
      (P : Pool × List Effect → Type 0)
      → (env.state d ≡ disconnected → P (record p { count = p.count -ℤ pos 1 }, deletes d ∷ []))
      → (env.state d ≡ connecting → P (p, []))
      → (env.state d ≡ connected
          → (c : Client) (rest : List Client) → next_client env p.queue ≡ some (c, rest)
          → P (record p { queue = rest }, hook p.reuse_hook (reuses d) ++ (delivers c.cb d ∷ [])))
      → (env.state d ≡ connected
          → next_client env p.queue ≡ none
          → leb_ℤ p.max_idle (pos (length p.idle)) ≡ true
          → P (record p { queue = []; count = p.count -ℤ pos 1 }, deletes d ∷ []))
      → (env.state d ≡ connected
          → next_client env p.queue ≡ none
          → leb_ℤ p.max_idle (pos (length p.idle)) ≡ false
          → P (record p { queue = []; idle = d ∷ p.idle }, []))
      → P (give_back env d p)
  give_back-rule P closed opening client surplus parked = by_state (env.state d) refl
    where
      by_limit :
          env.state d ≡ connected
          → next_client env p.queue ≡ none
          → (leb_ℤ p.max_idle (pos (length p.idle)) ≡ true)
            ⊎ (leb_ℤ p.max_idle (pos (length p.idle)) ≡ false)
          → P (give_back env d p)
      by_limit e n (inl m) = subst P (sym (give_back_surplus e n m)) (surplus e n m)
      by_limit e n (inr m) = subst P (sym (give_back_parked e n m)) (parked e n m)

      by_client :
          env.state d ≡ connected
          → (r : Option (Client × List Client)) → next_client env p.queue ≡ r
          → P (give_back env d p)
      by_client e none n = by_limit e n (Bool-cases (leb_ℤ p.max_idle (pos (length p.idle))))
      by_client e (some (c, rest)) n = subst P (sym (give_back_client e n)) (client e c rest n)

      by_state : (x : State) → env.state d ≡ x → P (give_back env d p)
      by_state disconnected e = subst P (sym (give_back_closed e)) (closed e)
      by_state connecting e = subst P (sym (give_back_opening e)) (opening e)
      by_state connected e = by_client e (next_client env p.queue) refl

module _ (env : Env) (fresh cb : ℕ) (receiver : Option ℕ) (p : Pool) where
  pub request-rule :
      (P : Pool × List Effect → Type 0)
      → ((d : ℕ) (rest : List ℕ)
          → p.idle ≡ d ∷ rest
          → P (record p { idle = rest }, hand_out env cb d p))
      → (p.idle ≡ []
          → is_full p ≡ true
          → P (record p { queue = p.queue ++ (record { cb = cb; receiver = receiver } ∷ []) }, []))
      → (p.idle ≡ []
          → is_full p ≡ false
          → P (record p { count = p.count +ℤ pos 1 }, hand_out env cb fresh p))
      → P (request env fresh cb receiver p)
  request-rule P reused queued created = by_idle p.idle refl
    where
      by_room :
          p.idle ≡ []
          → (is_full p ≡ true) ⊎ (is_full p ≡ false)
          → P (request env fresh cb receiver p)
      by_room e (inl f) = subst P (sym (request_full env fresh cb receiver p e f)) (queued e f)
      by_room e (inr f) = subst P (sym (request_new env fresh cb receiver p e f)) (created e f)

      by_idle : (l : List ℕ) → p.idle ≡ l → P (request env fresh cb receiver p)
      by_idle [] e = by_room e (Bool-cases (is_full p))
      by_idle (d ∷ rest) e =
          subst P (sym (request_idle env fresh cb receiver p e)) (reused d rest e)
