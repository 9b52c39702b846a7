-- ===== src/Postgres/Handling.antt =====
-- What the socket notifiers of ADriverPg, src/adriverpg.cpp, keep of the invariant of its queue.
use asql.Base.{
  ℕ, Bool, true, false, ◌&&◌, not, Option, none, some, List, [], ◌∷◌, if◌then◌else◌, refl, arith,
  Bool-cases, inl, inr, String, pos, eqb_ℤ,
}
use asql.Postgres.{
  called_back, notification_received, Libpq, Driver, note, is_connected, returns, ◌>>=◌,
}
use asql.Postgres.Sending.{is_off, is_none, pipeline_status, cmd_flush}
use asql.Postgres.Serving.{Client, react, finish_connection, read}
use asql.Postgres.Opening.{
  Polling, Notify, Readable, polled, consumed, not_consumed, subscription, payload, poll,
  on_writable, notify, notify_each, wind_timer, release_self, react_readable, on_readable,
}
use asql.Postgres.Facts.{Always, Always-bind, IsSequential}
use asql.Postgres.Invariant.{is_none-eq, IsGood, as_it_is, relink-Good}
use asql.Postgres.Kept.{react-Good}
use asql.Postgres.Completed.{finish_connection-Good, read-Good}
use asql.Postgres.Connecting.{told-Good, poll-Good}

module _ (pq : Libpq) (client : Client) (sequential : IsSequential pq) where
  module _ where
    pub on_writable-Good :
        (n : ℕ) (p : Polling) (e : String) (d : Driver)
        → IsGood pq [] d
        → Always (IsGood pq []) (on_writable pq client n p e d)
    unfolding on_writable cmd_flush
    on_writable-Good n p e d v = by_tests (not (is_connected d.link)) d.link.flush
      where
        d' : Driver
        d' = record d { link = record d.link { write_on = false } }

        w : IsGood pq [] d'
        w = relink-Good pq sequential d d'.link refl refl v

        by_tests :
            (b c : Bool)
            → Always (IsGood pq []) (
                if b
                then poll pq client n p e d'
                else if c
                then returns (record d' { link = cmd_flush pq (record d'.link { flush = false }) })
                else returns d')
        by_tests true c = poll-Good pq client sequential n p e d' w
        by_tests false true =
            as_it_is pq _ (relink-Good pq sequential d' _ (ground arith) (ground arith) w)
        by_tests false false = w

    notify-Good :
        (n : ℕ) (x : Notify) (d : Driver) → IsGood pq [] d → IsGood pq [] (notify pq client n x d)
    unfolding notify
    notify-Good n x d v = by_name (subscription x.name d.subscribed)
      where
        p : String
        p = payload x.extra

        called : Bool → Driver
        called cb =
            if cb
            then react pq client (record d { link = note (called_back x.name p x.own) d.link })
            else d

        called-Good : (cb : Bool) → IsGood pq [] (called cb)
        called-Good true =
            react-Good pq client sequential _
              (told-Good pq client sequential d (called_back x.name p x.own) refl v)
        called-Good false = v

        by_name :
            (o : Option Bool)
            → IsGood pq [] (elim o as (λ y. Driver) [
              | none ↦ d
              | some cb ↦ record (called cb) {
                link = note (notification_received x.name p x.own) (called cb).link;
              }
            ])
        by_name none = v
        by_name (some cb) =
            told-Good pq client sequential (called cb) (notification_received x.name p x.own) refl
              (called-Good cb)

    notify_each-Good :
        (n : ℕ) (xs : List Notify) (d : Driver)
        → IsGood pq [] d
        → IsGood pq [] (notify_each pq client n xs d)
    unfolding notify_each
    notify_each-Good n [] d v = v
    notify_each-Good n (x ∷ xs) d v = notify_each-Good n xs _ (notify-Good n x d v)

    wind-Good : (n : ℕ) (d : Driver) → IsGood pq [] d → IsGood pq [] (wind_timer pq client n d)
    unfolding wind_timer
    wind-Good n d v =
        elim (Bool-cases (
          not (is_none d.queue)
          && (eqb_ℤ d.link.syncs (pos 0) && not (is_off (pipeline_status pq d.link))))) [
            | inl e ↦ rw e (relink-Good pq sequential d _ refl refl v)
            | inr e ↦ rw e v
          ]

    readable-Good :
        (n : ℕ) (x : Readable) (d : Driver)
        → IsGood pq [] d
        → Always (IsGood pq []) (react_readable pq client n x d)
    readable-Good n (polled p e) d v = by_state (is_connected d.link)
      where
        by_state :
            (b : Bool) → Always (IsGood pq []) (if b then returns d else poll pq client n p e d)
        by_state true = v
        by_state false = poll-Good pq client sequential n p e d v
    readable-Good n (consumed rs ns) d v = by_state (is_connected d.link)
      where
        by_state :
            (b : Bool)
            → Always (IsGood pq []) (
                if b
                then (read pq client n rs d >>= λ d'.
                    returns (notify_each pq client n ns (wind_timer pq client n d')))
                else returns d)
        by_state true =
            Always-bind (IsGood pq []) (read pq client n rs d)
              (λ d'. returns (notify_each pq client n ns (wind_timer pq client n d')))
              (read-Good pq client sequential n rs d v)
              (λ d' v'. notify_each-Good n ns _ (wind-Good n d' v'))
        by_state false = v
    readable-Good n (not_consumed bad e) d v = by_state (is_connected d.link && bad)
      where
        by_state :
            (b : Bool)
            → Always (IsGood pq []) (if b then finish_connection pq client n e d else returns d)
        by_state true = finish_connection-Good pq client sequential n e d v
        by_state false = v

    release-Good : (n : ℕ) (d : Driver) → IsGood pq [] d → IsGood pq [] (release_self pq client n d)
    release-Good n d v = elim (Bool-cases (is_none d.queue)) [
      | inl e ↦ rw e record {
        gone_is = λ h. refl;
        ordered = v.ordered;
        held = inl (is_none-eq d.queue e);
        lasts = v.lasts;
        answered = v.answered;
      }
      | inr e ↦ rw e v
    ]

    pub on_readable-Good :
        (n : ℕ) (x : Readable) (d : Driver)
        → IsGood pq [] d
        → Always (IsGood pq []) (on_readable pq client n x d)
    unfolding on_readable
    on_readable-Good n x d v =
        Always-bind (IsGood pq []) (react_readable pq client n x d)
          (λ d'. returns (release_self pq client n d')) (readable-Good n x d v)
          (λ d' v'. release-Good n d' v')
