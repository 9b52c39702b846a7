-- ===== src/Delivery/Once.antt =====
-- A coroutine that awaits an ACoroExpected of src/acoroexpected.h.
use asql.Base.{
  ℕ, suc, ◌≤◌, ◌≡◌, refl, ap, Bool, true, false, List, [], ◌∷◌, ◌++◌, none, some, arith, ◌⊎◌, inl,
  inr, ◌≢◌,
}
use asql.Delivery.{
  Expected, waiting, suspended, done, finished, resumption, Data, deliver_direct, await_suspend,
  release,
}

-- Where the coroutine is: it has not awaited yet, it is suspended, or it went on with a result.
pub data Place (T : Type 0) : Type 0 where
  before asleep : Place T
  after : Expected T → Place T

-- The data and its coroutine, the resumptions that were asked for and have not run, the number of those
-- that have, and what was delivered, the newest first.
pub record System (T : Type 0) : Type 0 where
  pub shared : Data T
  pub place : Place T
  pub posted : List ℕ
  pub resumed : ℕ
  pub delivered : List (Expected T)

abbrev pub new : {T : Type 0} → Expected T → System T
new x = record {
  shared = record { handle = none; result = x; status = waiting };
  place = before;
  posted = [];
  resumed = 0;
  delivered = [];
}

abbrev pub is_asleep : Bool → {T : Type 0} → Expected T → Place T
is_asleep true x = asleep
is_asleep false x = after x

abbrev pub on_delivery : {T : Type 0} → Expected T → System T → Data T × List ℕ → System T
on_delivery x s (d, out) = record s {
  shared = d;
  posted = s.posted ++ out;
  delivered = x ∷ s.delivered;
}

abbrev pub on_await : {T : Type 0} → System T → Bool × Data T → System T
on_await s (suspends, d) = record s { shared = d; place = is_asleep suspends d.result }

module _ {T : Type 0} (h : ℕ) where
  -- Something is delivered; the coroutine `h` comes to its `co_await`; a resumption runs; the coroutine
  -- lets go of what it awaited.
  pub data Step (s : System T) : System T → Type 0 where
    delivers : (x : Expected T) → Step s (on_delivery x s (deliver_direct x s.shared))
    awaits : s.place ≡ before → Step s (on_await s (await_suspend h s.shared))
    resumes :
        {rest : List ℕ}
        → s.posted ≡ h ∷ rest
        → Step s
            (record s { place = after s.shared.result; posted = rest; resumed = suc s.resumed })
    lets_go :
        (is_shared : Bool) (x : Expected T)
        → s.place ≡ after x
        → Step s (record s { shared = release is_shared s.shared })

  pub data Reach (s : System T) : System T → Type 0 where
    here : Reach s s
    next : {t u : System T} → Reach s t → Step t u → Reach s u

  abbrev pub Among : Expected T → List (Expected T) → Type 0
  Among x l = (l1 : List (Expected T)) × (l2 : List (Expected T)) × (l ≡ l1 ++ (x ∷ l2))

  -- The stations of the coroutine.
  pub data Good (s : System T) : Type 0 where
    fresh :
        s.shared.status ≡ waiting
        → s.place ≡ before
        → s.posted ≡ []
        → s.resumed ≡ 0
        → s.delivered ≡ []
        → Good s
    ready :
        (l : List (Expected T))
        → s.shared.status ≡ done
        → s.place ≡ before
        → s.posted ≡ []
        → s.resumed ≡ 0
        → s.delivered ≡ s.shared.result ∷ l
        → Good s
    sleeping :
        s.shared.status ≡ suspended
        → s.shared.handle ≡ some h
        → s.place ≡ asleep
        → s.posted ≡ []
        → s.resumed ≡ 0
        → s.delivered ≡ []
        → Good s
    woken :
        (l : List (Expected T))
        → s.shared.status ≡ done
        → s.place ≡ asleep
        → s.posted ≡ h ∷ []
        → s.resumed ≡ 0
        → s.delivered ≡ s.shared.result ∷ l
        → Good s
    gone_on :
        (x : Expected T)
        → (s.shared.status ≡ done) ⊎ (s.shared.status ≡ finished)
        → s.place ≡ after x
        → s.posted ≡ []
        → s.resumed ≤ 1
        → Among x s.delivered
        → Good s

  deliver_open :
      (x : Expected T) (d : Data T)
      → d.status ≢ finished
      → deliver_direct x d ≡ (record d { result = x; status = done }, resumption d.status d.handle)
  unfolding deliver_direct
  deliver_open x d n = ground (arith, n)

  deliver_finished :
      (x : Expected T) (d : Data T) → d.status ≡ finished → deliver_direct x d ≡ (d, [])
  unfolding deliver_direct
  deliver_finished x d n = ground (arith, n)

  delivers-Good :
      (x : Expected T) (s : System T) → Good s → Good (on_delivery x s (deliver_direct x s.shared))
  delivers-Good x s (fresh a b c n l) =
      rw (deliver_open x s.shared (λ e. cc)) (ready [] refl b (rw (a, c) refl) n (ap (◌∷◌ x) l))
  delivers-Good x s (ready l a b c n e) =
      rw (deliver_open x s.shared (λ z. cc)) (ready s.delivered refl b (rw (a, c) refl) n refl)
  delivers-Good x s (sleeping a k b c n l) =
      rw (deliver_open x s.shared (λ z. cc)) (woken s.delivered refl b (rw (a, k, c) refl) n refl)
  delivers-Good x s (woken l a b c n e) =
      rw (deliver_open x s.shared (λ z. cc)) (woken s.delivered refl b (rw (a, c) refl) n refl)
  delivers-Good x s (gone_on y (inl a) b c n (l1, l2, e)) =
      rw (deliver_open x s.shared (λ z. cc))
        (gone_on y (inl refl) b (rw (a, c) refl) n (x ∷ l1, l2, ap (◌∷◌ x) e))
  delivers-Good x s (gone_on y (inr a) b c n (l1, l2, e)) =
      rw (deliver_finished x s.shared a)
        (gone_on y (inr a) b (rw c refl) n (x ∷ l1, l2, ap (◌∷◌ x) e))

  suspend_ready : (d : Data T) → d.status ≡ done → await_suspend h d ≡ (false, d)
  unfolding await_suspend
  suspend_ready d n = ground (arith, n)

  suspend_waits :
      (d : Data T)
      → d.status ≡ waiting
      → await_suspend h d ≡ (true, record d { handle = some h; status = suspended })
  unfolding await_suspend
  suspend_waits d n = ground (arith, n)

  awaits-Good :
      (s : System T) → s.place ≡ before → Good s → Good (on_await s (await_suspend h s.shared))
  awaits-Good s p (fresh a b c n l) = rw (suspend_waits s.shared a) (sleeping refl refl refl c n l)
  awaits-Good s p (ready l a b c n e) =
      rw (suspend_ready s.shared a)
        (gone_on s.shared.result (inl a) refl c (omega (arith, n)) ([], l, e))
  awaits-Good s p (sleeping a k b c n l) = absurd (cc)
  awaits-Good s p (woken l a b c n e) = absurd (cc)
  awaits-Good s p (gone_on y a b c n e) = absurd (cc)

  Step-Good : {s t : System T} → Step s t → Good s → Good t
  Step-Good {s} (delivers x) v = delivers-Good x s v
  Step-Good {s} (awaits p) v = awaits-Good s p v
  Step-Good (resumes p) (fresh a b c n l) = absurd (cc)
  Step-Good (resumes p) (ready l a b c n e) = absurd (cc)
  Step-Good (resumes p) (sleeping a k b c n l) = absurd (cc)
  Step-Good {s} (resumes p) (woken l a b c n e) =
      gone_on s.shared.result (inl a) refl (ground (arith, p, c)) (omega (arith, n)) ([], l, e)
  Step-Good (resumes p) (gone_on y a b c n e) = absurd (cc)
  Step-Good (lets_go k x p) (fresh a b c n l) = absurd (cc)
  Step-Good (lets_go k x p) (ready l a b c n e) = absurd (cc)
  Step-Good (lets_go k x p) (sleeping a' k' b c n l) = absurd (cc)
  Step-Good (lets_go k x p) (woken l a b c n e) = absurd (cc)
  Step-Good {s} (lets_go k x p) (gone_on y a b c n e) = gone_on y (released k s.shared a) b c n e
    where
      released :
          (k : Bool) (d : Data T)
          → (d.status ≡ done) ⊎ (d.status ≡ finished)
          → ((release k d).status ≡ done) ⊎ ((release k d).status ≡ finished)
      released true d a = unfold release in a
      released false d a = inr (unfold release in refl)

  -- In any history of deliveries, one `co_await` and resumptions: a coroutine that sleeps has a
  -- resumption under way exactly when something was delivered; it is resumed at most once; and where it
  -- goes on it has a result that was delivered.
  pub Reach-new : (x : Expected T) {t : System T} → Reach (new x) t → Good t
  Reach-new x here = fresh refl refl refl refl refl
  Reach-new x (next r st) = Step-Good st (Reach-new x r)
