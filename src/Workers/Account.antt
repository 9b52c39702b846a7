-- ===== src/Workers/Account.antt =====
-- The account that a driver with a worker keeps of what it was asked, src/ADriverSqlite.cpp: an invariant of
-- all turns.
use asql.Base.{
  wanted, firsts, wanted-snoc, firsts-snoc, ℕ, zero, suc, ◌+◌, Bool, true, false, ◌||◌, List, [],
  ◌∷◌, ◌++◌, if◌then◌else◌, ℤ, pos, ◌+ℤ◌, ◌-ℤ◌, length, ◌≡◌, ◌⊎◌, inl, inr, refl, sym, subst, ap,
  ◌∙◌, arith, append_assoc, append-nil, length-append,
}
use asql.Workers.{
  Ticket, Job, opens, runs, Reply, Message, openned, query_ready, Told, delivered, opened,
  state_changed, Threaded, Client, is_wanted, exec, exec_each, tell, release, react, deliver,
  process,
}

abbrev pub lasts : {R : Type 0} → List (Reply R) → List ℕ
lasts [] = []
lasts (r ∷ rs) = if r.last then r.ticket.tag ∷ lasts rs else lasts rs

abbrev pub runs_of : List Job → List ℕ
runs_of [] = []
runs_of (opens ∷ js) = runs_of js
runs_of (runs t ∷ js) = t.tag ∷ runs_of js

abbrev pub opens_of : List Job → ℕ
opens_of [] = 0
opens_of (opens ∷ js) = suc (opens_of js)
opens_of (runs t ∷ js) = opens_of js

abbrev pub opened_in : List Message → ℕ
opened_in [] = 0
opened_in (openned b e ∷ ms) = suc (opened_in ms)
opened_in (query_ready ∷ ms) = opened_in ms

abbrev pub has_ready : List Message → Bool
has_ready [] = false
has_ready (openned b e ∷ ms) = has_ready ms
has_ready (query_ready ∷ ms) = true

abbrev pub add_answer : {R : Type 0} → Told R → List ℕ → List ℕ
add_answer (delivered r) ts = if r.last then ts ++ (r.ticket.tag ∷ []) else ts
add_answer (opened c b e) ts = ts
add_answer (state_changed s e) ts = ts

-- The tags of the last results that were delivered, the oldest first.
abbrev pub answers : {R : Type 0} → List (Told R) → List ℕ
answers [] = []
answers (x ∷ log) = add_answer x (answers log)

pub lasts-append : {R : Type 0} (xs ys : List (Reply R)) → lasts (xs ++ ys) ≡ lasts xs ++ lasts ys
lasts-append [] ys = refl
lasts-append (r ∷ rs) ys = ground (arith, lasts-append rs ys)

pub runs_of-append : (xs ys : List Job) → runs_of (xs ++ ys) ≡ runs_of xs ++ runs_of ys
runs_of-append [] ys = refl
runs_of-append (opens ∷ js) ys = runs_of-append js ys
runs_of-append (runs t ∷ js) ys = ap (λ l. t.tag ∷ l) (runs_of-append js ys)

pub opens_of-append : (xs ys : List Job) → opens_of (xs ++ ys) ≡ opens_of xs + opens_of ys
opens_of-append [] ys = omega arith
opens_of-append (opens ∷ js) ys = omega (arith, opens_of-append js ys)
opens_of-append (runs t ∷ js) ys = opens_of-append js ys

pub opened_in-append : (xs ys : List Message) → opened_in (xs ++ ys) ≡ opened_in xs + opened_in ys
opened_in-append [] ys = omega arith
opened_in-append (openned b e ∷ ms) ys = omega (arith, opened_in-append ms ys)
opened_in-append (query_ready ∷ ms) ys = opened_in-append ms ys

pub has_ready-append :
    (xs ys : List Message) → has_ready (xs ++ ys) ≡ (has_ready xs || has_ready ys)
has_ready-append [] ys = refl
has_ready-append (openned b e ∷ ms) ys = has_ready-append ms ys
has_ready-append (query_ready ∷ ms) ys = refl

pub add-one : (s : ℤ) (n m : ℕ) → s ≡ pos n → m ≡ suc n → s +ℤ pos 1 ≡ pos m
unfolding ◌+ℤ◌
add-one s n m e f = ground (arith, e, f)

module _ {R : Type 0} where
  -- The calls that are not over: those of results in hand, of those that are ready and that the worker
  -- has yet to put there, and of those that wait.
  abbrev pub due : List (Reply R) → Threaded R → List ℕ
  due batch d = lasts batch ++ (lasts d.ready ++ (lasts d.doing ++ runs_of d.jobs))

  -- `batch` are the results in hand, `k` the openings in hand and `owed` what is delivered and not over.
  pub record Good (batch : List (Reply R)) (k : ℕ) (owed : List ℕ) (d : Threaded R) : Type 0 where
    pub ordered : d.asked ≡ firsts d.over ++ due batch d
    pub counted : d.size ≡ pos (length (due batch d) + opens_of d.jobs + opened_in d.inbox + k)
    pub held : (d.size ≡ pos 0) ⊎ (d.self ≡ true)
    pub woken : (d.ready ≡ []) ⊎ ((d.owes ≡ true) ⊎ (has_ready d.inbox ≡ true))
    pub answered : answers d.log ≡ wanted d.over ++ owed

  due-exec :
      (batch : List (Reply R)) (t : Ticket) (d : Threaded R)
      → due batch (exec t d) ≡ due batch d ++ (t.tag ∷ [])
  unfolding exec
  due-exec batch t d =
      rw
        (
          runs_of-append d.jobs (runs t ∷ []),
          ← append_assoc (lasts d.doing) (runs_of d.jobs) (t.tag ∷ []),
          ← append_assoc (lasts d.ready) (lasts d.doing ++ runs_of d.jobs) (t.tag ∷ []),
        )
        (sym (
          append_assoc (lasts batch) (lasts d.ready ++ (lasts d.doing ++ runs_of d.jobs))
            (t.tag ∷ [])))

  module _ {batch : List (Reply R)} {k : ℕ} {owed : List ℕ} where
    pub exec-Good :
        (t : Ticket) (d : Threaded R) → Good batch k owed d → Good batch k owed (exec t d)
    unfolding exec
    exec-Good t d v = record {
      ordered =
          ap (λ x. x ++ (t.tag ∷ [])) v.ordered
          ∙ append_assoc (firsts d.over) (due batch d) (t.tag ∷ [])
          ∙ ap (λ x. firsts d.over ++ x) (sym (due-exec batch t d));
      counted = add-one d.size _ _ v.counted (
          omega (
            arith,
            ap length (due-exec batch t d),
            length-append (due batch d) (t.tag ∷ []),
            opens_of-append d.jobs (runs t ∷ []),
          ));
      held = inr refl;
      woken = v.woken;
      answered = v.answered;
    }

    pub exec_each-Good :
        (ts : List Ticket) (d : Threaded R)
        → Good batch k owed d
        → Good batch k owed (exec_each ts d)
    unfolding exec_each
    exec_each-Good [] d v = v
    exec_each-Good (t ∷ ts) d v = exec_each-Good ts (exec t d) (exec-Good t d v)

  -- The count falls by one, and with the last the driver lets itself go.
  pub released :
      (d : Threaded R) (n : ℕ)
      → d.size ≡ pos (suc n)
      → (d.size ≡ pos 0) ⊎ (d.self ≡ true)
      → ((release d).size ≡ pos n) × (((release d).size ≡ pos 0) ⊎ ((release d).self ≡ true))
  unfolding release ◌-ℤ◌
  released d n e (inl z) = absurd (cc)
  released d n e (inr s) = (ground (arith, e), kept n e)
    where
      kept : (n : ℕ) → d.size ≡ pos (suc n) → ((release d).size ≡ pos 0) ⊎ ((release d).self ≡ true)
      kept zero e = inl (ground (arith, e))
      kept (suc m) e = inr (ground (arith, e, s))

  module _ (client : Client R) where
    -- What a result owes the log once it is delivered.
    abbrev owed_by : Reply R → Bool → List ℕ
    owed_by r w = if r.last then (if w then r.ticket.tag ∷ [] else []) else []

    deliver-Good :
        (r : Reply R) (batch : List (Reply R)) (k : ℕ) (d : Threaded R)
        → Good batch k [] d
        → Good batch k (owed_by r (is_wanted d.gone r.ticket)) (deliver client r d)
    unfolding deliver react
    deliver-Good r batch k d v = by_wanted (is_wanted d.gone r.ticket) r.last refl
      where
        plain : answers d.log ≡ wanted d.over
        plain = v.answered ∙ append-nil (wanted d.over)

        with_log :
            (owed : List ℕ)
            → answers (delivered r ∷ d.log) ≡ wanted d.over ++ owed
            → Good batch k owed (tell (delivered r) d)
        with_log owed e = record {
          ordered = v.ordered;
          counted = v.counted;
          held = v.held;
          woken = v.woken;
          answered = e;
        }

        by_wanted :
            (w l : Bool)
            → r.last ≡ l
            → Good batch k (if l then (if w then r.ticket.tag ∷ [] else []) else []) (
                if w
                then exec_each (client.reacts (delivered r ∷ d.log)) (tell (delivered r) d)
                else d)
        by_wanted true true e =
            exec_each-Good _ _
              (with_log (r.ticket.tag ∷ []) (rw e (ap (λ x. x ++ (r.ticket.tag ∷ [])) plain)))
        by_wanted true false e = exec_each-Good _ _ (with_log [] (rw e v.answered))
        by_wanted false true e = v
        by_wanted false false e = v

    pub process-Good :
        (r : Reply R) (batch : List (Reply R)) (k : ℕ) (d : Threaded R)
        → Good (r ∷ batch) k [] d
        → Good batch k [] (process client r d)
    unfolding process release
    process-Good r batch k d v = by_last r.last refl (deliver-Good r (r ∷ batch) k d v)
      where
        told : Threaded R
        told = deliver client r d

        w : Bool
        w = is_wanted d.gone r.ticket

        ended : Threaded R
        ended = record told { over = told.over ++ ((r.ticket.tag, w) ∷ []) }

        by_last :
            (l : Bool)
            → r.last ≡ l
            → Good (r ∷ batch) k (owed_by r w) told
            → Good batch k [] (if l then release ended else told)
        by_last false e u = record {
          ordered =
              subst
                (λ b.
                  told.asked
                  ≡ firsts told.over
                    ++ ((if b then r.ticket.tag ∷ lasts batch else lasts batch)
                        ++ (lasts told.ready ++ (lasts told.doing ++ runs_of told.jobs))))
                e u.ordered;
          counted =
              subst
                (λ b.
                  told.size
                  ≡ pos (
                      length (
                        (if b then r.ticket.tag ∷ lasts batch else lasts batch)
                        ++ (lasts told.ready ++ (lasts told.doing ++ runs_of told.jobs)))
                      + opens_of told.jobs
                      + opened_in told.inbox
                      + k))
                e u.counted;
          held = u.held;
          woken = u.woken;
          answered =
              subst
                (λ b.
                  answers told.log
                  ≡ wanted told.over ++ (if b then (if w then r.ticket.tag ∷ [] else []) else []))
                e u.answered;
        }
        by_last true e u =
            let count =
              subst
                (λ b.
                  told.size
                  ≡ pos (
                      length (
                        (if b then r.ticket.tag ∷ lasts batch else lasts batch)
                        ++ (lasts told.ready ++ (lasts told.doing ++ runs_of told.jobs)))
                      + opens_of told.jobs
                      + opened_in told.inbox
                      + k))
                e u.counted in
            let (sized, kept) =
              released ended
                (length (due batch told) + opens_of told.jobs + opened_in told.inbox + k)
                (count ∙ ap pos (omega arith)) u.held in
            record {
              ordered =
                  subst
                    (λ b.
                      told.asked
                      ≡ firsts told.over
                        ++ ((if b then r.ticket.tag ∷ lasts batch else lasts batch)
                            ++ (lasts told.ready ++ (lasts told.doing ++ runs_of told.jobs))))
                    e u.ordered
                  ∙ sym (
                      ap (λ x. x ++ due batch told) (firsts-snoc told.over r.ticket.tag w)
                      ∙ append_assoc (firsts told.over) (r.ticket.tag ∷ []) (due batch told));
              counted = sized;
              held = kept;
              woken = u.woken;
              answered =
                  subst
                    (λ b.
                      answers told.log
                      ≡ wanted told.over
                        ++ (if b then (if w then r.ticket.tag ∷ [] else []) else []))
                    e u.answered
                  ∙ sym (append-nil _ ∙ wanted-snoc told.over r.ticket.tag w);
            }
