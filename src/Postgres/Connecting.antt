-- ===== src/Postgres/Connecting.antt =====
-- What ADriverPg, src/adriverpg.cpp, keeps of the invariant of its queue while it connects.
use asql.Base.{
  ℕ, Bool, true, false, ◌&&◌, Option, none, some, List, [], ◌∷◌, if◌then◌else◌, ◌≡◌, refl,
  Bool-cases, inl, inr, String,
}
use asql.Postgres.{
  State, disconnected, connecting, connected, Effect, start, opened, Started, no_connection,
  no_socket, a_socket, Libpq, Waiter, Driver, note, set_state, is_alive, may_receive,
}
use asql.Postgres.Serving.{Client, react}
use asql.Postgres.Opening.{
  Polling, reading, writing, ok, another, emit, emit_each, deliver_open_waiters, add_waiter,
  start_connecting, connect, poll,
}
use asql.Postgres.Facts.{add_answer, answers, Always, IsSequential}
use asql.Postgres.Invariant.{IsGood, relink-Good}
use asql.Postgres.Kept.{react-Good, next_query-IsGood}
use asql.Postgres.Completed.{finish_connection-Good}

module _ (pq : Libpq) (client : Client) (sequential : IsSequential pq) where
  module _ where
    -- What touches neither the link, nor the queue and its owner, nor what is kept of the tags.
    pub same-Good :
        (d : Driver) (ws : List Waiter) (ss : List (String × Bool))
        → IsGood pq [] d
        → IsGood pq [] (record d { waiters = ws; subscribed = ss })
    same-Good d ws ss v = record {
      gone_is = λ h. refl;
      ordered = v.ordered;
      held = v.held;
      lasts = v.lasts;
      answered = v.answered;
    }

    pub told-Good :
        (d : Driver) (e : Effect)
        → add_answer e (answers d.link.log) ≡ answers d.link.log
        → IsGood pq [] d
        → IsGood pq [] (record d { link = note e d.link })
    told-Good d e h v = relink-Good pq sequential d _ refl h v

    emit_each-Good :
        (b : Bool) (e : String) (ws : List Waiter) (d : Driver)
        → IsGood pq [] d
        → IsGood pq [] (emit_each pq client b e ws d)
    unfolding emit_each emit
    emit_each-Good b e [] d v = v
    emit_each-Good b e (w ∷ ws) d v =
        emit_each-Good b e ws _
          (elim (is_alive d.link.gone w.cb && may_receive d.link.gone w.receiver)
            as (λ c. IsGood pq [] (
              if c
              then react pq client (record d { link = note (opened w.cb b e) d.link })
              else d)) [
                | true ↦ react-Good pq client sequential _ (told-Good d (opened w.cb b e) refl v)
                | false ↦ v
              ])

    open_waiters-Good :
        (b : Bool) (e : String) (d : Driver)
        → IsGood pq [] d
        → IsGood pq [] (deliver_open_waiters pq client b e d)
    unfolding deliver_open_waiters
    open_waiters-Good b e d v =
        emit_each-Good b e d.waiters (record d { waiters = [] }) (same-Good d [] d.subscribed v)

    add_waiter-Good :
        (cb receiver : Option ℕ) (d : Driver)
        → IsGood pq [] d
        → IsGood pq [] (add_waiter pq client cb receiver d)
    add_waiter-Good none receiver d v = v
    add_waiter-Good (some c) receiver d v = elim (Bool-cases (is_alive d.link.gone c)) [
      | inl e ↦ rw e (same-Good d _ d.subscribed v)
      | inr e ↦ rw e v
    ]

    start-Good : (d : Driver) → IsGood pq [] d → IsGood pq [] (start_connecting pq client d)
    unfolding start_connecting set_state
    start-Good d v = by_start (pq.starts (start ∷ d.link.log))
      where
        d' : Driver
        d' = record d { link = record (note start d.link) { conn = true } }

        w : IsGood pq [] d'
        w = relink-Good pq sequential d d'.link refl refl v

        by_start :
            (s : Started)
            → IsGood pq [] (elim s as (λ x. Driver) [
              | no_connection ↦ deliver_open_waiters pq client false "PQconnectStart failed" d'
              | no_socket ↦ d'
              | a_socket ↦ record d' {
                link =
                    set_state connecting
                      (pq.message (start ∷ d.link.log))
                      (record d'.link { write_on = true });
              }
            ])
        by_start no_connection = open_waiters-Good false "PQconnectStart failed" d' w
        by_start no_socket = w
        by_start a_socket = relink-Good pq sequential d' _ refl refl w

    pub connect-Good :
        (cb receiver : Option ℕ) (d : Driver)
        → IsGood pq [] d
        → IsGood pq [] (connect pq client cb receiver d)
    unfolding connect
    connect-Good cb receiver d v = by_state d.link.state
      where
        by_cb :
            (o : Option ℕ)
            → IsGood pq [] (elim o as (λ x. Driver) [
              | none ↦ d
              | some c ↦
                  if is_alive d.link.gone c
                  then record d { link = note (opened c true "") d.link }
                  else d
            ])
        by_cb none = v
        by_cb (some c) = elim (Bool-cases (is_alive d.link.gone c)) [
          | inl e ↦ rw e (told-Good d (opened c true "") refl v)
          | inr e ↦ rw e v
        ]

        by_state :
            (s : State)
            → IsGood pq [] (elim s as (λ x. Driver) [
              | connected ↦ elim cb as (λ x. Driver) [
                | none ↦ d
                | some c ↦
                    if is_alive d.link.gone c
                    then record d { link = note (opened c true "") d.link }
                    else d
              ]
              | connecting ↦ add_waiter pq client cb receiver d
              | disconnected ↦ start_connecting pq client (add_waiter pq client cb receiver d)
            ])
        by_state connected = by_cb cb
        by_state connecting = add_waiter-Good cb receiver d v
        by_state disconnected = start-Good _ (add_waiter-Good cb receiver d v)

    pub poll-Good :
        (n : ℕ) (p : Polling) (e : String) (d : Driver)
        → IsGood pq [] d
        → Always (IsGood pq []) (poll pq client n p e d)
    unfolding poll set_state
    poll-Good n reading e d v = v
    poll-Good n writing e d v = relink-Good pq sequential d _ refl refl v
    poll-Good n ok e d v = next_query-IsGood pq client sequential n _ (
        open_waiters-Good true "" _ (
          relink-Good pq sequential d (set_state connected "" (record d.link { write_on = false }))
            refl refl v))
    poll-Good n Polling.failed e d v =
        finish_connection-Good pq client sequential n e _ (open_waiters-Good false e d v)
    poll-Good n another e d v = v
