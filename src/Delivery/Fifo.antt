-- ===== src/Delivery/Fifo.antt =====
-- A coroutine that awaits an ACoroMultiExpected of src/acoroexpected.h, and the results it takes.
use asql.Base.{
  ℕ, suc, ◌≡◌, refl, sym, ap, ◌∙◌, Bool, true, false, ◌||◌, List, [], ◌∷◌, ◌++◌, none, some, arith,
  ◌⊎◌, inl, inr, ◌≢◌, append_assoc, append-nil,
}
use asql.Delivery.{
  Expected, waiting, suspended, done, finished, resumption, Many, deliver_many, is_last,
  many_suspend, many_resume,
}

-- The results and their coroutine, which is asleep or not, the resumptions that were asked for and have
-- not run, what was delivered and what was taken, the oldest first, whether a last result was
-- delivered, and how often the coroutine was told that there are no results.
pub record Stream (T : Type 0) : Type 0 where
  pub shared : Many T
  pub asleep : Bool
  pub posted : List ℕ
  pub delivered : List (Expected T)
  pub taken : List (Expected T)
  pub ended : Bool
  pub refused : ℕ

abbrev pub new : {T : Type 0} → Stream T
new = record {
  shared = record { handle = none; results = []; status = waiting };
  asleep = false;
  posted = [];
  delivered = [];
  taken = [];
  ended = false;
  refused = 0;
}

abbrev pub on_delivery : {T : Type 0} → Bool → Expected T → Stream T → Many T × List ℕ → Stream T
on_delivery last x s (d, out) = record s {
  shared = d;
  posted = s.posted ++ out;
  delivered = s.delivered ++ (x ∷ []);
  ended = last || s.ended;
}

-- The coroutine goes on with what `await_resume` gives, where `was` is what there was.
abbrev pub on_take : {T : Type 0} → List (Expected T) → Stream T → Expected T × Many T → Stream T
on_take [] s (x, d) = record s { shared = d; asleep = false; refused = suc s.refused }
on_take (y ∷ was) s (x, d) = record s { shared = d; asleep = false; taken = s.taken ++ (x ∷ []) }

abbrev pub on_await : {T : Type 0} → Stream T → Bool × Many T → Stream T
on_await s (true, d) = record s { shared = d; asleep = true }
on_await s (false, d) = on_take d.results s (many_resume d)

abbrev pub on_resume : {T : Type 0} → List ℕ → Stream T → Stream T
on_resume rest s = on_take s.shared.results (record s { posted = rest }) (many_resume s.shared)

opened : (last b : Bool) → (is_last last ≡ waiting) ⊎ ((is_last last ≡ done) × ((last || b) ≡ true))
opened true b = inr (refl, refl)
opened false b = inl refl

still : (last b : Bool) (n : ℕ) → (n ≡ 0) ⊎ (b ≡ true) → (n ≡ 0) ⊎ ((last || b) ≡ true)
still true b n h = inr refl
still false b n h = h

module _ {T : Type 0} (h : ℕ) where
  pub data Step (s : Stream T) : Stream T → Type 0 where
    delivers :
        (last : Bool) (x : Expected T)
        → Step s (on_delivery last x s (deliver_many last x s.shared))
    awaits : s.asleep ≡ false → Step s (on_await s (many_suspend h s.shared))
    resumes : {rest : List ℕ} → s.posted ≡ h ∷ rest → Step s (on_resume rest s)

  pub data Reach (s : Stream T) : Stream T → Type 0 where
    here : Reach s s
    next : {t u : Stream T} → Reach s t → Step t u → Reach s u

  abbrev pub IsOpen : Stream T → Type 0
  IsOpen s = (s.shared.status ≡ waiting) ⊎ ((s.shared.status ≡ done) × (s.ended ≡ true))

  -- The coroutine runs, sleeps without a result, or sleeps with a resumption under way and a result.
  pub data Good (s : Stream T) : Type 0 where
    running :
        s.asleep ≡ false
        → IsOpen s
        → s.posted ≡ []
        → s.delivered ≡ s.taken ++ s.shared.results
        → (s.refused ≡ 0) ⊎ (s.ended ≡ true)
        → Good s
    sleeping :
        s.asleep ≡ true
        → s.shared.status ≡ suspended
        → s.shared.handle ≡ some h
        → s.shared.results ≡ []
        → s.posted ≡ []
        → s.delivered ≡ s.taken
        → (s.refused ≡ 0) ⊎ (s.ended ≡ true)
        → Good s
    woken :
        (x : Expected T) (xs : List (Expected T))
        → s.asleep ≡ true
        → IsOpen s
        → s.shared.results ≡ x ∷ xs
        → s.posted ≡ h ∷ []
        → s.delivered ≡ s.taken ++ s.shared.results
        → (s.refused ≡ 0) ⊎ (s.ended ≡ true)
        → Good s

  deliver_accepted :
      (last : Bool) (x : Expected T) (d : Many T)
      → d.status ≢ finished
      → deliver_many last x d ≡ (
        record d { results = d.results ++ (x ∷ []); status = is_last last },
        resumption d.status d.handle,
      )
  unfolding deliver_many
  deliver_accepted last x d n = ground (arith, n)

  IsOpen-not_finished : (s : Stream T) → IsOpen s → s.shared.status ≢ finished
  IsOpen-not_finished s (inl e) = λ z. cc
  IsOpen-not_finished s (inr (e, f)) = λ z. cc

  no_resumption : (s : Stream T) → IsOpen s → resumption s.shared.status s.shared.handle ≡ []
  no_resumption s (inl e) = rw e refl
  no_resumption s (inr (e, f)) = rw e refl

  one_more :
      (taken results delivered : List (Expected T)) (x : Expected T)
      → delivered ≡ taken ++ results
      → delivered ++ (x ∷ []) ≡ taken ++ (results ++ (x ∷ []))
  one_more taken results delivered x e =
      ap (λ l. l ++ (x ∷ [])) e ∙ append_assoc taken results (x ∷ [])

  delivers-Good :
      (last : Bool) (x : Expected T) (s : Stream T)
      → Good s
      → Good (on_delivery last x s (deliver_many last x s.shared))
  delivers-Good last x s (running a o p e r) =
      rw (deliver_accepted last x s.shared (IsOpen-not_finished s o)) (
        running a (opened last s.ended) (rw (no_resumption s o, p) refl)
          (one_more s.taken s.shared.results s.delivered x e) (still last s.ended s.refused r))
  delivers-Good last x s (sleeping a t k n p e r) =
      rw (deliver_accepted last x s.shared (λ z. cc)) (
        woken x [] a (opened last s.ended) (rw n refl) (rw (t, k, p) refl)
          (rw n (ap (λ l. l ++ (x ∷ [])) e)) (still last s.ended s.refused r))
  delivers-Good last x s (woken y ys a o q p e r) =
      rw (deliver_accepted last x s.shared (IsOpen-not_finished s o)) (
        woken y (ys ++ (x ∷ [])) a (opened last s.ended) (rw q refl)
          (rw (no_resumption s o, p) refl) (one_more s.taken s.shared.results s.delivered x e)
          (still last s.ended s.refused r))

  take_full :
      {x : Expected T} {xs : List (Expected T)} (s : Stream T) (d : Many T)
      → d.results ≡ x ∷ xs
      → on_take d.results s (many_resume d) ≡ record s {
        shared = record d { results = xs };
        asleep = false;
        taken = s.taken ++ (x ∷ []);
      }
  unfolding many_resume
  take_full s d r = ground (arith, r)

  take_none :
      (s : Stream T) (d : Many T)
      → d.results ≡ []
      → on_take d.results s (many_resume d)
        ≡ record s { shared = d; asleep = false; refused = suc s.refused }
  unfolding many_resume
  take_none s d r = ground (arith, r)

  suspend_full :
      {x : Expected T} {xs : List (Expected T)} (d : Many T)
      → d.results ≡ x ∷ xs
      → many_suspend h d ≡ (false, d)
  unfolding many_suspend
  suspend_full d r = ground (arith, r)

  suspend_done : (d : Many T) → d.results ≡ [] → d.status ≡ done → many_suspend h d ≡ (false, d)
  unfolding many_suspend
  suspend_done d r t = ground (arith, r, t)

  suspend_waits :
      (d : Many T)
      → d.results ≡ []
      → d.status ≡ waiting
      → many_suspend h d ≡ (true, record d { handle = some h; status = suspended })
  unfolding many_suspend
  suspend_waits d r t = ground (arith, r, t)

  regroup :
      (taken xs : List (Expected T)) (x : Expected T) {results delivered : List (Expected T)}
      → delivered ≡ taken ++ results
      → results ≡ x ∷ xs
      → delivered ≡ (taken ++ (x ∷ [])) ++ xs
  regroup taken xs x e r = e ∙ ap (λ l. taken ++ l) r ∙ sym (append_assoc taken (x ∷ []) xs)

  awaits-Good :
      (s : Stream T) → s.asleep ≡ false → Good s → Good (on_await s (many_suspend h s.shared))
  awaits-Good s p (sleeping a t k n q e r) = absurd (cc)
  awaits-Good s p (woken x xs a o n q e r) = absurd (cc)
  awaits-Good s p (running a o q e r) = by_results s.shared.results refl o
    where
      by_results :
          (l : List (Expected T))
          → s.shared.results ≡ l
          → IsOpen s
          → Good (on_await s (many_suspend h s.shared))
      by_results (x ∷ xs) n o =
          rw (suspend_full s.shared n, take_full s s.shared n)
            (running refl o q (regroup s.taken xs x e n) r)
      by_results [] n (inl t) =
          rw (suspend_waits s.shared n t)
            (sleeping refl refl refl n q (e ∙ ap (λ l. s.taken ++ l) n ∙ append-nil s.taken) r)
      by_results [] n (inr (t, f)) =
          rw (suspend_done s.shared n t, take_none s s.shared n)
            (running refl (inr (t, f)) q e (inr f))

  resumes-Good :
      (s : Stream T) {rest : List ℕ} → s.posted ≡ h ∷ rest → Good s → Good (on_resume rest s)
  resumes-Good s p (running a o q e r) = absurd (cc)
  resumes-Good s p (sleeping a t k n q e r) = absurd (cc)
  resumes-Good s {rest} p (woken x xs a o n q e r) =
      rw (take_full (record s { posted = rest }) s.shared n)
        (running refl o (ground (arith, p, q)) (regroup s.taken xs x e n) r)

  Step-Good : {s t : Stream T} → Step s t → Good s → Good t
  Step-Good {s} (delivers last x) v = delivers-Good last x s v
  Step-Good {s} (awaits p) v = awaits-Good s p v
  Step-Good {s} (resumes p) v = resumes-Good s p v

  Reach-Good : {t : Stream T} → Reach new t → Good t
  Reach-Good here = running refl (inl refl) refl refl (inl refl)
  Reach-Good (next r st) = Step-Good st (Reach-Good r)

  abbrev pub Delivered : Stream T → Type 0
  Delivered s =
      (s.delivered ≡ s.taken ++ s.shared.results)
      × ((s.refused ≡ 0) ⊎ (s.ended ≡ true))
      × ((s.posted ≡ []) ⊎ ((s.posted ≡ h ∷ []) × (s.shared.results ≢ [])))
      × ((s.asleep ≡ false) ⊎ (s.shared.results ≡ []) ⊎ (s.posted ≡ h ∷ []))

  -- In any history of deliveries, awaits and resumptions: the results are taken in the order of their
  -- delivery and none is lost; the coroutine is told that there are none only after a last one; at most
  -- one resumption is under way, and it finds a result; and where the coroutine sleeps while there is a
  -- result, one is under way.
  pub Reach-new_many : {t : Stream T} → Reach new t → Delivered t
  Reach-new_many r = by_station (Reach-Good r)
    where
      by_station : {t : Stream T} → Good t → Delivered t
      by_station (running a o q e n) = (e, n, inl q, inl a)
      by_station {t = s} (sleeping a t k n q e m) =
          (e ∙ sym (append-nil s.taken) ∙ ap (λ l. s.taken ++ l) (sym n), m, inl q, inr (inl n))
      by_station (woken x xs a o n q e m) = (e, m, inr (q, λ z. cc), inr (inr q))
