-- ===== src/Postgres/Failing.antt =====
-- That `finishConnection` of ADriverPg, src/adriverpg.cpp, comes to an end, and what it leaves behind.
use asql.Base.{
  ℕ, zero, suc, ◌<◌, ◌&&◌, Bool, true, false, some, List, [], ◌∷◌, ◌++◌, if◌then◌else◌, ◌≡◌, refl,
  sym, ap, ◌∙◌, arith, String, append-nil, append_assoc, length, All, wanted,
}
use asql.Postgres.{
  disconnected, Query, Effect, delivered, Libpq, Driver, note, set_state, is_wanted, error_result,
  returns,
}
use asql.Postgres.Sending.{cancel_current, destroyed}
use asql.Postgres.Serving.{
  Request, executes, single_row, enters, exits, syncs, goes, Client, pop, request, perform, react,
  done, fail_all, closed, finish_connection,
}
use asql.Postgres.Facts.{answers}

-- A client whose coroutines ask nothing where they are resumed: they let objects go at most.
abbrev IsGoing : Request → Type 0
IsGoing (goes o) = Unit
IsGoing _ = ⊥

abbrev pub IsMild : Client → Type 0
IsMild client = (log : List Effect) → All IsGoing (client.reacts log)

-- The tags of the last results that the log delivers with an error, the oldest first.
abbrev pub add_failure : Effect → List ℕ → List ℕ
add_failure (delivered t r) ts = if r.last && r.error then ts ++ (t ∷ []) else ts
add_failure _ ts = ts

abbrev pub failures : List Effect → List ℕ
failures [] = []
failures (e ∷ log) = add_failure e (failures log)

-- More objects may have gone.
abbrev pub Grows : List ℕ → List ℕ → Type 0
Grows g h = (more : List ℕ) × (h ≡ more ++ g)

-- The queries leave one after the other, each with whether someone waits for it at that time, while more
-- and more objects go.
abbrev pub Departs : List ℕ → List ℕ → List Query → List (ℕ × Bool) → Type 0
Departs g h [] [] = Grows g h
Departs g h (q ∷ qs) (x ∷ xs) =
    (x ≡ (q.tag, is_wanted g q)) × ((g' : List ℕ) × Grows g g' × Departs g' h qs xs)
Departs _ _ _ _ = ⊥

Grows-trans : (g h k : List ℕ) → Grows g h → Grows h k → Grows g k
Grows-trans g h k (a, p) (b, q) = (b ++ a, q ∙ ap (λ x. b ++ x) p ∙ sym (append_assoc b a g))

wanted-cons :
    (t : ℕ) (w : Bool) (xs : List (ℕ × Bool))
    → (if w then t ∷ [] else []) ++ wanted xs ≡ wanted ((t, w) ∷ xs)
wanted-cons t true xs = refl
wanted-cons t false xs = refl

-- What the going of objects leaves as it was.
record Same (d d' : Driver) : Type 0 where
  queue : d'.queue ≡ d.queue
  left : d'.left ≡ d.left
  answered : answers d'.link.log ≡ answers d.link.log
  failed : failures d'.link.log ≡ failures d.link.log
  state : d'.link.state ≡ d.link.state
  gone : Grows d.link.gone d'.link.gone

Same-trans : (a b c : Driver) → Same a b → Same b c → Same a c
Same-trans a b c v w = record {
  queue = w.queue ∙ v.queue;
  left = w.left ∙ v.left;
  answered = w.answered ∙ v.answered;
  failed = w.failed ∙ v.failed;
  state = w.state ∙ v.state;
  gone = Grows-trans a.link.gone b.link.gone c.link.gone v.gone w.gone;
}

destroyed-Same : (o : ℕ) (d : Driver) → Same d (destroyed o d)
unfolding destroyed cancel_current
destroyed-Same o d = record {
  queue = ground arith;
  left = ground arith;
  answered = ground arith;
  failed = ground arith;
  state = ground arith;
  gone = (o ∷ [], ground arith);
}

module _ (pq : Libpq) (client : Client) (mild : IsMild client) where
  perform-Same : (rs : List Request) (d : Driver) → All IsGoing rs → Same d (perform pq rs d)
  unfolding perform request
  perform-Same [] d h = record {
    queue = refl;
    left = refl;
    answered = refl;
    failed = refl;
    state = refl;
    gone = ([], refl);
  }
  perform-Same (goes o ∷ rs) d h =
      Same-trans d (destroyed o d) _ (destroyed-Same o d) (perform-Same rs (destroyed o d) h.1)
  perform-Same (executes c ∷ rs) d h = absurd (h.0)
  perform-Same (single_row ∷ rs) d h = absurd (h.0)
  perform-Same (enters t ∷ rs) d h = absurd (h.0)
  perform-Same (exits ∷ rs) d h = absurd (h.0)
  perform-Same (syncs ∷ rs) d h = absurd (h.0)

  react-Same : (d : Driver) → Same d (react pq client d)
  unfolding react
  react-Same d = perform-Same (client.reacts d.link.log) d (mild d.link.log)

  told : Query → String → Driver → Driver
  told q e d =
      if is_wanted d.link.gone q
      then react pq client (record d { link = note (delivered q.tag (error_result e q)) d.link })
      else d

  done_failed :
      (q : Query) (e : String) (d : Driver)
      → done pq client (record q { result = some (error_result e q) }) d ≡ returns (told q e d)
  unfolding done is_wanted told
  done_failed q e d = ground arith

  -- What one round makes of a state, where `w` tells whether the query is waited for.
  record Told (q : Query) (rest : List Query) (w : Bool) (d d' : Driver) : Type 0 where
    queue : d'.queue ≡ rest
    left : d'.left ≡ d.left ++ ((q.tag, is_wanted d.link.gone q) ∷ [])
    answered : answers d'.link.log ≡ answers d.link.log ++ (if w then q.tag ∷ [] else [])
    failed : failures d'.link.log ≡ failures d.link.log ++ (if w then q.tag ∷ [] else [])
    state : d'.link.state ≡ d.link.state
    gone : Grows d.link.gone d'.link.gone

  told-Told :
      (q : Query) (rest : List Query) (e : String) (d : Driver)
      → Told q rest (is_wanted d.link.gone q) d (told q e (pop q rest d))
  unfolding told
  told-Told q rest e d = by_wanted (is_wanted d.link.gone q)
    where
      noted : Driver
      noted = record (pop q rest d) { link = note (delivered q.tag (error_result e q)) d.link }

      by_wanted : (b : Bool) → Told q rest b d (if b then react pq client noted else pop q rest d)
      by_wanted true =
          let v = react-Same noted in
          record {
            queue = v.queue;
            left = v.left;
            answered = v.answered;
            failed = v.failed;
            state = v.state;
            gone = v.gone;
          }
      by_wanted false = record {
        queue = refl;
        left = refl;
        answered = sym (append-nil (answers d.link.log));
        failed = sym (append-nil (failures d.link.log));
        state = refl;
        gone = ([], refl);
      }

  -- What `fail_all` makes of a state, where `xs` are the queries that leave.
  record Failed (qs : List Query) (xs : List (ℕ × Bool)) (d d' : Driver) : Type 0 where
    queue : d'.queue ≡ []
    left : d'.left ≡ d.left ++ xs
    departs : Departs d.link.gone d'.link.gone qs xs
    answered : answers d'.link.log ≡ answers d.link.log ++ wanted xs
    failed : failures d'.link.log ≡ failures d.link.log ++ wanted xs
    state : d'.link.state ≡ d.link.state

  cons-Failed :
      (q : Query) (rest : List Query) (xs : List (ℕ × Bool)) (d d1 d' : Driver)
      → Told q rest (is_wanted d.link.gone q) d d1
      → Failed rest xs d1 d'
      → Failed (q ∷ rest) ((q.tag, is_wanted d.link.gone q) ∷ xs) d d'
  cons-Failed q rest xs d d1 d' t u =
      let w = is_wanted d.link.gone q in
      let due : List ℕ = if w then q.tag ∷ [] else [] in
      record {
        queue = u.queue;
        left = u.left ∙ ap (λ l. l ++ xs) t.left ∙ append_assoc d.left ((q.tag, w) ∷ []) xs;
        departs = (refl, (d1.link.gone, t.gone, u.departs));
        answered =
            u.answered
            ∙ ap (λ l. l ++ wanted xs) t.answered
            ∙ append_assoc (answers d.link.log) due (wanted xs)
            ∙ ap (λ l. answers d.link.log ++ l) (wanted-cons q.tag w xs);
        failed =
            u.failed
            ∙ ap (λ l. l ++ wanted xs) t.failed
            ∙ append_assoc (failures d.link.log) due (wanted xs)
            ∙ ap (λ l. failures d.link.log ++ l) (wanted-cons q.tag w xs);
        state = u.state ∙ t.state;
      }

  fail_empty :
      (n : ℕ) (e : String) (d : Driver) → d.queue ≡ [] → fail_all pq client (suc n) e d ≡ returns d
  unfolding fail_all
  fail_empty n e d h = ground (arith, h)

  fail_round :
      (n : ℕ) (q : Query) (rest : List Query) (e : String) (d : Driver)
      → d.queue ≡ q ∷ rest
      → fail_all pq client (suc n) e d ≡ fail_all pq client n e (told q e (pop q rest d))
  unfolding fail_all
  fail_round n q rest e d h = ground (arith, h, done_failed q e (pop q rest d))

  fail_all_returns :
      (qs : List Query) (n : ℕ) (e : String) (d : Driver)
      → d.queue ≡ qs
      → length qs < n
      → (d' : Driver) × (xs : List (ℕ × Bool)) × (fail_all pq client n e d ≡ returns d')
        × Failed qs xs d d'
  fail_all_returns qs zero e d f h = absurd (omega arith)
  fail_all_returns [] (suc n) e d f h = (
    d,
    [],
    fail_empty n e d f,
    record {
      queue = f;
      left = sym (append-nil d.left);
      departs = ([], refl);
      answered = sym (append-nil (answers d.link.log));
      failed = sym (append-nil (failures d.link.log));
      state = refl;
    },
  )
  fail_all_returns (q ∷ rest) (suc n) e d f h =
      let d1 = told q e (pop q rest d) in
      let t = told-Told q rest e d in
      let (d', xs, g, v) = fail_all_returns rest n e d1 t.queue (omega arith) in
      (
        d',
        (q.tag, is_wanted d.link.gone q) ∷ xs,
        fail_round n q rest e d f ∙ g,
        cons-Failed q rest xs d d1 d' t v,
      )

  -- Where the coroutines that it resumes ask nothing at once and only let objects go, `finishConnection`
  -- returns with one round more than there are queries in the queue: the driver is disconnected, the
  -- queue is empty, every query has left it, in its order and with whether it was waited for when its
  -- turn came, and each that was, in that order and no other, got one last result, which is an error.
  pub finish_connection_returns :
      (n : ℕ) (e : String) (d : Driver)
      → length d.queue < n
      → (d' : Driver) × (xs : List (ℕ × Bool)) × (finish_connection pq client n e d ≡ returns d')
        × (d'.link.state ≡ disconnected)
        × (d'.queue ≡ [])
        × Departs d.link.gone d'.link.gone d.queue xs
        × (d'.left ≡ d.left ++ xs)
        × (answers d'.link.log ≡ answers d.link.log ++ wanted xs)
        × (failures d'.link.log ≡ failures d.link.log ++ wanted xs)
  unfolding finish_connection closed set_state
  finish_connection_returns n e d h =
      let (d', xs, f, v) =
        fail_all_returns d.queue n e
          (record d { subscribed = []; link = closed pq client e d.link }) refl h in
      (d', xs, f, v.state, v.queue, v.departs, v.left, v.answered, v.failed)
