-- ===== src/Workers/Order.antt =====
-- The order in which a driver with a worker answers, src/ADriverSqlite.cpp, over all that can happen.
use asql.Base.{
  wanted, firsts, ℕ, ◌+◌, Bool, true, false, ◌&&◌, ◌||◌, Option, none, some, List, [], ◌∷◌, ◌++◌,
  String, if◌then◌else◌, pos, length, ◌≡◌, ◌⊎◌, inl, inr, refl, sym, ap, ◌∙◌, arith, append_assoc,
  append-nil, Bool-cases,
}
use asql.Workers.{
  Ticket, Job, opens, runs, Reply, Message, openned, query_ready, Told, opened, state_changed,
  Threaded, fresh, Client, exec_each, tell, release, add_waiter, start_opening, connect, react,
  process, process_each, on_ready, emit, emit_each, deliver_open_waiters, on_opened, handle,
}
use asql.Workers.Turns.{
  IsAnswer, Step, asks, connects, goes, handles, works, opens_it, puts, signals, Reach, here, next,
}
use asql.Workers.Account.{
  lasts, runs_of, opens_of, opened_in, has_ready, add_answer, answers, lasts-append, runs_of-append,
  opens_of-append, opened_in-append, has_ready-append, add-one, due, Good, exec-Good,
  exec_each-Good, released, process-Good,
}
use asql.Postgres.{State, disconnected, connecting, connected, Waiter, is_alive, may_receive}

-- Nothing was asked of the driver, or opened, that is not over.
abbrev pub IsIdle : {R : Type 0} → Threaded R → Type 0
IsIdle d = (due [] d ≡ []) × (d.jobs ≡ []) × (opened_in d.inbox ≡ 0)

module _ {R : Type 0} (client : Client R) where
  process_each-Good :
      (batch : List (Reply R)) (k : ℕ) (d : Threaded R)
      → Good batch k [] d
      → Good [] k [] (process_each client batch d)
  unfolding process_each
  process_each-Good [] k d v = v
  process_each-Good (r ∷ rs) k d v =
      process_each-Good rs k (process client r d) (process-Good client r rs k d v)

  -- What is told beside the last results, with another state.
  told-Good :
      (k : ℕ) (x : Told R) (s : State) (ws : List Waiter) (d : Threaded R)
      → add_answer x (answers d.log) ≡ answers d.log
      → Good [] k [] d
      → Good [] k [] (record (tell x d) { state = s; waiters = ws })
  told-Good k x s ws d e v = record {
    ordered = v.ordered;
    counted = v.counted;
    held = v.held;
    woken = v.woken;
    answered = e ∙ v.answered;
  }

  waiting-Good :
      (k : ℕ) (ws : List Waiter) (d : Threaded R)
      → Good [] k [] d
      → Good [] k [] (record d { waiters = ws })
  waiting-Good k ws d v = record {
    ordered = v.ordered;
    counted = v.counted;
    held = v.held;
    woken = v.woken;
    answered = v.answered;
  }

  emit_each-Good :
      (k : ℕ) (b : Bool) (e : String) (ws : List Waiter) (d : Threaded R)
      → Good [] k [] d
      → Good [] k [] (emit_each client b e ws d)
  unfolding emit_each emit react
  emit_each-Good k b e [] d v = v
  emit_each-Good k b e (w ∷ ws) d v =
      emit_each-Good k b e ws _
        (elim (may_receive d.gone w.receiver && is_alive d.gone w.cb)
          as (λ t. Good [] k [] (
            if t
            then exec_each (client.reacts (opened w.cb b e ∷ d.log)) (tell (opened w.cb b e) d)
            else d)) [
              | true ↦ exec_each-Good _ _ (told-Good k (opened w.cb b e) d.state d.waiters d refl v)
              | false ↦ v
            ])

  on_opened-Good :
      (b : Bool) (e : String) (d : Threaded R)
      → Good [] 1 [] d
      → Good [] 0 [] (on_opened client b e d)
  unfolding on_opened deliver_open_waiters release
  on_opened-Good b e d v = record {
    ordered = u.ordered;
    counted = sizes.0;
    held = sizes.1;
    woken = u.woken;
    answered = u.answered;
  }
    where
      s : State
      s = if b then connected else disconnected

      m : String
      m = if b then "" else e

      told : Threaded R
      told = record (tell (state_changed s m) d) { state = s }

      d' : Threaded R
      d' = emit_each client b e told.waiters (record told { waiters = [] })

      u : Good [] 1 [] d'
      u = emit_each-Good 1 b e told.waiters _ (told-Good 1 (state_changed s m) s [] d refl v)

      sizes :
          ((release d').size ≡ pos (length (due [] d') + opens_of d'.jobs + opened_in d'.inbox + 0))
          × (((release d').size ≡ pos 0) ⊎ ((release d').self ≡ true))
      sizes = released d' _ (u.counted ∙ ap pos (omega arith)) u.held

  handle-Good :
      (m : Message) (ms : List Message) (d : Threaded R)
      → d.inbox ≡ m ∷ ms
      → Good [] 0 [] d
      → Good [] 0 [] (handle client m (record d { inbox = ms }))
  unfolding handle on_ready
  handle-Good (openned b e) ms d f v =
      on_opened-Good b e (record d { inbox = ms })
        record {
          ordered = v.ordered;
          counted = v.counted ∙ ap pos (omega (arith, ap opened_in f));
          held = v.held;
          woken = elim v.woken [
            | inl r ↦ inl r
            | inr (inl o) ↦ inr (inl o)
            | inr (inr h) ↦ inr (inr (sym (ap has_ready f) ∙ h))
          ];
          answered = v.answered;
        }
  handle-Good query_ready ms d f v =
      process_each-Good d.ready 0 (record d { inbox = ms; ready = [] })
        record {
          ordered = v.ordered;
          counted = v.counted ∙ ap pos (omega (arith, ap opened_in f));
          held = v.held;
          woken = inl refl;
          answered = v.answered;
        }

  start-Good : (d : Threaded R) → Good [] 0 [] d → Good [] 0 [] (start_opening d)
  unfolding start_opening
  start-Good d v = record {
    ordered =
        v.ordered ∙ ap (λ x. firsts d.over ++ (lasts d.ready ++ (lasts d.doing ++ x))) (sym same);
    counted = add-one d.size _ _ v.counted (
        omega (
          arith,
          ap (λ x. length (lasts d.ready ++ (lasts d.doing ++ x))) same,
          opens_of-append d.jobs (opens ∷ []),
        ));
    held = inr refl;
    woken = v.woken;
    answered = v.answered;
  }
    where
      same : runs_of (d.jobs ++ (opens ∷ [])) ≡ runs_of d.jobs
      same = runs_of-append d.jobs (opens ∷ []) ∙ append-nil (runs_of d.jobs)

  add_waiter-Good :
      (cb receiver : Option ℕ) (d : Threaded R)
      → Good [] 0 [] d
      → Good [] 0 [] (add_waiter cb receiver d)
  add_waiter-Good none receiver d v = v
  add_waiter-Good (some c) receiver d v = elim (Bool-cases (is_alive d.gone c)) [
    | inl e ↦ rw e (waiting-Good 0 _ d v)
    | inr e ↦ rw e v
  ]

  connect-Good :
      (cb receiver : Option ℕ) (d : Threaded R)
      → Good [] 0 [] d
      → Good [] 0 [] (connect cb receiver d)
  unfolding connect
  connect-Good cb receiver d v = by_state d.state
    where
      by_cb :
          (o : Option ℕ)
          → Good [] 0 [] (elim o as (λ x. Threaded R) [
            | none ↦ d
            | some c ↦ if is_alive d.gone c then tell (opened c true "") d else d
          ])
      by_cb none = v
      by_cb (some c) = elim (Bool-cases (is_alive d.gone c)) [
        | inl e ↦ rw e (told-Good 0 (opened c true "") d.state d.waiters d refl v)
        | inr e ↦ rw e v
      ]

      by_state :
          (s : State)
          → Good [] 0 [] (elim s as (λ x. Threaded R) [
            | connected ↦ elim cb as (λ x. Threaded R) [
              | none ↦ d
              | some c ↦ if is_alive d.gone c then tell (opened c true "") d else d
            ]
            | connecting ↦ add_waiter cb receiver d
            | disconnected ↦ start_opening (add_waiter cb receiver d)
          ])
      by_state connected = by_cb cb
      by_state connecting = add_waiter-Good cb receiver d v
      by_state disconnected = start-Good _ (add_waiter-Good cb receiver d v)

  IsAnswer-lasts : (t : Ticket) (rs : List (Reply R)) → IsAnswer t rs → lasts rs ≡ t.tag ∷ []
  IsAnswer-lasts t [] h = elim h [ ]
  IsAnswer-lasts t (r ∷ []) h = rw (h.1) (ap (λ (x : Ticket). x.tag ∷ []) h.0)
  IsAnswer-lasts t (r ∷ s ∷ rs) h = rw (h.1) (IsAnswer-lasts t (s ∷ rs) h.2)

  abbrev IsGood : Threaded R → Type 0
  IsGood d = Good [] 0 [] d

  works-Good :
      (d : Threaded R) (t : Ticket) (js : List Job) (rs : List (Reply R))
      → d.jobs ≡ runs t ∷ js
      → d.doing ≡ []
      → IsAnswer t rs
      → IsGood d
      → IsGood (record d { jobs = js; doing = rs })
  works-Good d t js rs e f a v =
      let same : due [] d ≡ lasts d.ready ++ (lasts rs ++ runs_of js) =
        rw (e, f, IsAnswer-lasts t rs a) refl in
      record {
        ordered = v.ordered ∙ ap (λ x. firsts d.over ++ x) same;
        counted = v.counted ∙ ap pos (omega (arith, ap length same, ap opens_of e));
        held = v.held;
        woken = v.woken;
        answered = v.answered;
      }

  opens_it-Good :
      (d : Threaded R) (b : Bool) (x : String) (js : List Job)
      → d.jobs ≡ opens ∷ js
      → IsGood d
      → IsGood (record d { jobs = js; inbox = d.inbox ++ (openned b x ∷ []) })
  opens_it-Good d b x js e v = record {
    ordered =
        v.ordered ∙ ap (λ y. firsts d.over ++ (lasts d.ready ++ (lasts d.doing ++ runs_of y))) e;
    counted =
        v.counted
        ∙ ap pos (
            omega (
              arith,
              ap (λ y. length (lasts d.ready ++ (lasts d.doing ++ runs_of y))) e,
              ap opens_of e,
              opened_in-append d.inbox (openned b x ∷ []),
            ));
    held = v.held;
    woken = elim v.woken [
      | inl r ↦ inl r
      | inr (inl o) ↦ inr (inl o)
      | inr (inr h) ↦ inr (inr (has_ready-append d.inbox (openned b x ∷ []) ∙ rw h refl))
    ];
    answered = v.answered;
  }

  puts-Good :
      (d : Threaded R) (r : Reply R) (rs : List (Reply R))
      → d.doing ≡ r ∷ rs
      → IsGood d
      → IsGood (record d { doing = rs; ready = d.ready ++ (r ∷ []); owes = true })
  puts-Good d r rs e v =
      let same : due [] d ≡ lasts (d.ready ++ (r ∷ [])) ++ (lasts rs ++ runs_of d.jobs) =
        ap (λ y. lasts d.ready ++ (lasts y ++ runs_of d.jobs)) e
        ∙ ap (λ y. lasts d.ready ++ (y ++ runs_of d.jobs)) (lasts-append (r ∷ []) rs)
        ∙ ap (λ y. lasts d.ready ++ y) (append_assoc (lasts (r ∷ [])) (lasts rs) (runs_of d.jobs))
        ∙ sym (append_assoc (lasts d.ready) (lasts (r ∷ [])) (lasts rs ++ runs_of d.jobs))
        ∙ ap (λ y. y ++ (lasts rs ++ runs_of d.jobs)) (sym (lasts-append d.ready (r ∷ []))) in
      record {
        ordered = v.ordered ∙ ap (λ x. firsts d.over ++ x) same;
        counted = v.counted ∙ ap pos (omega (arith, ap length same));
        held = v.held;
        woken = inr (inl refl);
        answered = v.answered;
      }

  signals-Good :
      (d : Threaded R)
      → IsGood d
      → IsGood (record d { owes = false; inbox = d.inbox ++ (query_ready ∷ []) })
  signals-Good d v = record {
    ordered = v.ordered;
    counted = v.counted ∙ ap pos (omega (arith, opened_in-append d.inbox (query_ready ∷ [])));
    held = v.held;
    woken = inr (inr (has_ready-append d.inbox (query_ready ∷ []) ∙ or_true (has_ready d.inbox)));
    answered = v.answered;
  }
    where
      or_true : (b : Bool) → (b || true) ≡ true
      or_true true = refl
      or_true false = refl

  gone-Good : (d : Threaded R) (o : ℕ) → IsGood d → IsGood (record d { gone = o ∷ d.gone })
  gone-Good d o v = record {
    ordered = v.ordered;
    counted = v.counted;
    held = v.held;
    woken = v.woken;
    answered = v.answered;
  }

  Step-IsGood : {d t : Threaded R} → Step client d t → IsGood d → IsGood t
  Step-IsGood {d} (asks t) v = exec-Good t d v
  Step-IsGood {d} (connects cb receiver) v = connect-Good cb receiver d v
  Step-IsGood {d} (goes o) v = gone-Good d o v
  Step-IsGood {d} (handles {m} {ms} e) v = handle-Good m ms d e v
  Step-IsGood {d} (works {t} {js} {rs} e f o a) v = works-Good d t js rs e f a v
  Step-IsGood {d} (opens_it {js} b x e f o) v = opens_it-Good d b x js e v
  Step-IsGood {d} (puts {r} {rs} e o) v = puts-Good d r rs e v
  Step-IsGood {d} (signals o) v = signals-Good d v

  Reach-IsGood : {d : Threaded R} → Reach client fresh d → IsGood d
  Reach-IsGood here = record {
    ordered = refl;
    counted = refl;
    held = inl refl;
    woken = inl refl;
    answered = refl;
  }
  Reach-IsGood (next r st) = Step-IsGood st (Reach-IsGood r)

  -- In whatever order the caller's thread and the worker take their turns, and whatever the coroutines ask
  -- that are resumed: the calls that are over and those that are not, the ready ones before those the
  -- worker has in hand and these before the queued ones, are those that were asked, in their order. The
  -- last results that were delivered are one for each call that is over and that someone waited for
  -- then. And what is ready does not stay unseen: its signal is queued, or the worker is about to queue it.
  pub Reach-in_turn :
      {d : Threaded R}
      → Reach client fresh d
      → (d.asked ≡ firsts d.over ++ (lasts d.ready ++ (lasts d.doing ++ runs_of d.jobs)))
        × (answers d.log ≡ wanted d.over)
        × ((d.ready ≡ []) ⊎ ((d.owes ≡ true) ⊎ (has_ready d.inbox ≡ true)))
  Reach-in_turn {d} r =
      let v = Reach-IsGood r in (v.ordered, v.answered ∙ append-nil (wanted d.over), v.woken)

  -- The count that `queueSize` gives is the number of the calls that are not over and of the openings
  -- that are under way, and the driver keeps itself alive while there is one.
  pub Reach-size :
      {d : Threaded R}
      → Reach client fresh d
      → (d.size
          ≡ pos (
              length (lasts d.ready ++ (lasts d.doing ++ runs_of d.jobs))
              + opens_of d.jobs
              + opened_in d.inbox))
        × ((d.size ≡ pos 0) ⊎ (d.self ≡ true))
  Reach-size r = let v = Reach-IsGood r in (v.counted ∙ ap pos (omega arith), v.held)
