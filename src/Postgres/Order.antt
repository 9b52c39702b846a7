-- ===== src/Postgres/Order.antt =====
-- The order in which ADriverPg, src/adriverpg.cpp, answers what it is asked, over all that can happen.
use asql.Base.{
  wanted, firsts, ℕ, Bool, true, false, ◌||◌, not, some, [], ◌∷◌, ◌++◌, if◌then◌else◌, ◌≡◌, refl,
  subst, sym, ◌∙◌, Bool-cases, inl, inr, ◌⊎◌, String, append-nil,
}
use asql.Postgres.{Libpq, Driver, fresh, is_connected, Run, returns}
use asql.Postgres.Sending.{exec}
use asql.Postgres.Serving.{Client}
use asql.Postgres.Opening.{subscription, on_writable, on_readable}
use asql.Postgres.Notifications.{
  forget, is_blank, is_some, listen, unlisten, command, listen_for, listened, unlisten_for,
  is_refused, subscribe, unsubscribe,
}
use asql.Postgres.Steps.{
  Step, asks, opens, subscribes, hears, unsubscribes, forgets, times_out, writes, reads, Reach,
  here, next,
}
use asql.Postgres.Facts.{answers, Always, IsAccepting, IsSequential}
use asql.Postgres.Invariant.{tags, IsGood, as_it_is, relink-Good, exec-Good}
use asql.Postgres.Kept.{sync-Good, request-Good}
use asql.Postgres.Connecting.{same-Good, connect-Good}
use asql.Postgres.Handling.{on_writable-Good, on_readable-Good}

module _ (pq : Libpq) (client : Client) (sequential : IsSequential pq) where
  module _ where
    forget-Good : (name : String) (d : Driver) → IsGood pq [] d → IsGood pq [] (forget name d)
    forget-Good name d v = same-Good pq client sequential d d.waiters _ v

    subscribe-Good :
        (name : String) (calls : Bool) (tag cb this : ℕ) (d : Driver)
        → IsGood pq [] d
        → IsGood pq [] (subscribe pq name calls tag cb this d)
    unfolding subscribe listen_for
    subscribe-Good name calls tag cb this d v = elim (Bool-cases (is_refused pq name d)) [
      | inl e ↦ rw e v
      | inr e ↦
          rw e (
            by_tests (not (is_connected d.link) || not d.link.conn) (is_blank (pq.identifier name)))
    ]
      where
        d' : Driver
        d' = record d { subscribed = d.subscribed ++ ((name, calls) ∷ []) }

        w : IsGood pq [] d'
        w = same-Good pq client sequential d d.waiters d'.subscribed v

        by_tests :
            (b c : Bool)
            → IsGood pq [] (
                if b
                then forget name d'
                else if c
                then forget name d'
                else exec pq (command (listen ++ pq.identifier name) tag cb this) d')
        by_tests true c = forget-Good name d' w
        by_tests false true = forget-Good name d' w
        by_tests false false =
            as_it_is pq _
              (exec-Good pq sequential (command (listen ++ pq.identifier name) tag cb this) d' w)

    unsubscribe-Good :
        (name : String) (tag cb this : ℕ) (d : Driver)
        → IsGood pq [] d
        → IsGood pq [] (unsubscribe pq name tag cb this d)
    unfolding unsubscribe unlisten_for
    unsubscribe-Good name tag cb this d v =
        by_tests (is_some (subscription name d.subscribed))
          (not (is_connected d.link) || not d.link.conn) (is_blank (pq.identifier name))
      where
        w : IsGood pq [] (forget name d)
        w = forget-Good name d v

        by_tests :
            (a b c : Bool)
            → IsGood pq [] (
                if a
                then if b
                  then forget name d
                  else if c
                  then forget name d
                  else exec pq
                      (command (unlisten ++ pq.identifier name) tag cb this)
                      (forget name d)
                else d)
        by_tests false b c = v
        by_tests true true c = w
        by_tests true false true = w
        by_tests true false false = as_it_is pq _ (
            exec-Good pq sequential (command (unlisten ++ pq.identifier name) tag cb this)
              (forget name d) w)

  returned-Good : (m : Run) (d : Driver) → m ≡ returns d → Always (IsGood pq []) m → IsGood pq [] d
  returned-Good m d e v = subst (Always (IsGood pq [])) e v

  Step-IsGood : {d t : Driver} → Step pq client d t → IsGood pq [] d → IsGood pq [] t
  unfolding listened
  Step-IsGood {d} (asks r) v = request-Good pq client sequential r d v
  Step-IsGood {d} (opens cb receiver) v = connect-Good pq client sequential cb receiver d v
  Step-IsGood {d} (subscribes name calls tag cb this) v =
      as_it_is pq _ (subscribe-Good name calls tag cb this d v)
  Step-IsGood {d} (hears name true) v = forget-Good name d v
  Step-IsGood {d} (hears name false) v = v
  Step-IsGood {d} (unsubscribes name tag cb this) v =
      as_it_is pq _ (unsubscribe-Good name tag cb this d v)
  Step-IsGood {d} (forgets name) v = forget-Good name d v
  Step-IsGood {d} (times_out e) v = as_it_is pq _ (
      sync-Good pq client sequential _
        (relink-Good pq sequential d (record d.link { auto_sync = some false }) refl refl v))
  Step-IsGood {d} {t} (writes n p e f) v =
      returned-Good (on_writable pq client n p e d) t f
        (on_writable-Good pq client sequential n p e d v)
  Step-IsGood {d} {t} (reads n x f) v =
      returned-Good (on_readable pq client n x d) t f
        (on_readable-Good pq client sequential n x d v)

  Reach-IsGood : {d : Driver} → Reach pq client fresh d → IsGood pq [] d
  Reach-IsGood here = record {
    gone_is = λ h. refl;
    ordered = refl;
    held = inl refl;
    lasts = tt;
    answered = λ h. refl;
  }
  Reach-IsGood (next r st) = Step-IsGood st (Reach-IsGood r)

  -- Where libpq is not in pipeline mode, the queries of the driver leave its queue in the order in which
  -- they were asked and each once, and those that have not left are in the queue, whatever the user
  -- calls, whatever libpq answers, and whatever the coroutines ask and let go that are resumed
  -- meanwhile, over connections that fail and end too. While the queue is not empty the driver keeps
  -- itself alive.
  pub Reach-in_order :
      {d : Driver}
      → Reach pq client fresh d
      → (d.asked ≡ firsts d.left ++ tags d.queue) × ((d.queue ≡ []) ⊎ (d.self ≡ true))
  Reach-in_order r = let v = Reach-IsGood r in (v.ordered, v.held)

  -- Where moreover every call of libpq that sends a query is accepted, the last results that are
  -- delivered go to the queries that have left, in the order in which they left: one to each that was
  -- wanted then, its coroutine and its receiver still there, and none to the others.
  pub Reach-answered :
      {d : Driver} → IsAccepting pq → Reach pq client fresh d → answers d.link.log ≡ wanted d.left
  Reach-answered {d} h r = sym (append-nil (answers d.link.log)) ∙ (Reach-IsGood r).answered h
