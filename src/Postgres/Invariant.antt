-- ===== src/Postgres/Invariant.antt =====
-- What holds of the queue of ADriverPg, src/adriverpg.cpp, and what its user's calls keep.
use asql.Base.{
  wanted, firsts, firsts-snoc, ℕ, Bool, true, false, Option, none, some, List, [], ◌∷◌, ◌++◌, ◌≡◌,
  refl, subst, sym, ap, ◌∙◌, arith, Bool-cases, inl, inr, ◌⊎◌, map, All, All-append, append_assoc,
  append-nil,
}
use mathlib.Core.List.{map-append}
use asql.Postgres.{off, Result, Query, Libpq, Link, Driver, is_wanted, Attempt}
use asql.Postgres.Sending.{
  is_none, mark_last, Call, of_text, with_params, of_prepared, new_query, pipeline_status,
  run_query, query_should_be_queued, enqueue, after_run, exec,
}
use asql.Postgres.Facts.{
  answers, IsAccepting, IsSequential, run_query-Keeps, run_query-Near, run_query-accepted,
}

-- A result that is there is the last so far.
abbrev pub IsLast : Option Result → Type 0
IsLast none = Unit
IsLast (some r) = r.last ≡ true

abbrev pub HasLast : Query → Type 0
HasLast q = IsLast q.result

abbrev pub tags : List Query → List ℕ
tags qs = map (λ q. q.tag) qs

new_query-HasLast : (c : Call) → HasLast (new_query c)
new_query-HasLast (of_text t sql r cb) = tt
new_query-HasLast (with_params t sql args r cb) = tt
new_query-HasLast (of_prepared t p args r cb) = tt

pub is_none-eq : (qs : List Query) → is_none qs ≡ true → qs ≡ []
is_none-eq [] h = refl
is_none-eq (q ∷ qs) h = cc

-- The mark on the last query leaves the tags and the results.
pub mark_last-tags : (qs : List Query) → tags (mark_last qs) ≡ tags qs
unfolding mark_last
mark_last-tags [] = refl
mark_last-tags (q ∷ []) = refl
mark_last-tags (q ∷ r ∷ qs) = ap (λ l. q.tag ∷ l) (mark_last-tags (r ∷ qs))

pub mark_last-lasts : (qs : List Query) → All HasLast qs → All HasLast (mark_last qs)
unfolding mark_last
mark_last-lasts [] h = tt
mark_last-lasts (q ∷ []) h = h
mark_last-lasts (q ∷ r ∷ qs) h = (h.0, mark_last-lasts (r ∷ qs) h.1)

module _ (pq : Libpq) where
  -- `gone` are the objects that have gone, where what is sent is accepted, `owed` the tags that have left and are about to be answered.
  pub record Good (gone owed : List ℕ) (d : Driver) : Type 0 where
    pub gone_is : IsAccepting pq → d.link.gone ≡ gone
    pub ordered : d.asked ≡ firsts d.left ++ tags d.queue
    pub held : (d.queue ≡ []) ⊎ (d.self ≡ true)
    pub lasts : All HasLast d.queue
    pub answered : IsAccepting pq → answers d.link.log ++ owed ≡ wanted d.left

  -- The objects that have gone are those of the state itself.
  abbrev pub IsGood : List ℕ → Driver → Type 0
  IsGood owed d = Good d.link.gone owed d

  pub as_it_is : {gone owed : List ℕ} (d : Driver) → Good gone owed d → IsGood owed d
  as_it_is d v = record {
    gone_is = λ h. refl;
    ordered = v.ordered;
    held = v.held;
    lasts = v.lasts;
    answered = v.answered;
  }

  -- What matters only where what is sent is accepted.
  pub regard-Good :
      {gone owed gone' owed' : List ℕ} (d : Driver)
      → (IsAccepting pq → (gone ≡ gone') × (owed ≡ owed'))
      → Good gone owed d
      → Good gone' owed' d
  regard-Good d e v = record {
    gone_is = λ h. v.gone_is h ∙ (e h).0;
    ordered = v.ordered;
    held = v.held;
    lasts = v.lasts;
    answered = λ h. ap (λ x. answers d.link.log ++ x) (sym (e h).1) ∙ v.answered h;
  }

  module _ (sequential : IsSequential pq) where
    pub status_off : (l : Link) → pipeline_status pq l ≡ off
    unfolding pipeline_status
    status_off l = ground (arith, sequential l.log)

    queued_or_empty : (d : Driver) → query_should_be_queued pq d ≡ false → is_none d.queue ≡ true
    unfolding query_should_be_queued
    queued_or_empty d h = ground (arith, status_off d.link)

    module _ {gone owed : List ℕ} where
      -- What does not touch the queue, nor the answers.
      pub relink-Good :
          (d : Driver) (l : Link)
          → l.gone ≡ d.link.gone
          → answers l.log ≡ answers d.link.log
          → Good gone owed d
          → Good gone owed (record d { link = l })
      relink-Good d l g a v = record {
        gone_is = λ h. g ∙ v.gone_is h;
        ordered = v.ordered;
        held = v.held;
        lasts = v.lasts;
        answered = λ h. ap (λ x. x ++ owed) a ∙ v.answered h;
      }

      asked-Good :
          (q : Query) (d : Driver) (l : Link)
          → HasLast q
          → Good gone owed (record d { link = l })
          → (t : ℕ) → q.tag ≡ t
          → Good gone owed (enqueue pq q (record d { link = l; asked = d.asked ++ (t ∷ []) }))
      unfolding enqueue
      asked-Good q d l h v t e = rw (← e) record {
        gone_is = v.gone_is;
        ordered =
            ap (λ x. x ++ (q.tag ∷ [])) v.ordered
            ∙ append_assoc (firsts d.left) (tags d.queue) (q.tag ∷ [])
            ∙ ap (λ x. firsts d.left ++ x)
                (sym (map-append (λ (x : Query). x.tag) d.queue (q ∷ [])));
        held = inr refl;
        lasts = All-append HasLast d.queue (q ∷ []) v.lasts (h, tt);
        answered = v.answered;
      }

      -- A query that is refused at once leaves an empty queue.
      refused-Good :
          (q : Query) (d : Driver) (l : Link) (w : Bool) (t : ℕ)
          → q.tag ≡ t
          → d.queue ≡ []
          → ¬ IsAccepting pq
          → Good gone owed d
          → Good gone owed (record d {
            link = l;
            asked = d.asked ++ (t ∷ []);
            left = d.left ++ ((q.tag, w) ∷ []);
          })
      refused-Good q d l w t e n refused v = record {
        gone_is = λ h. absurd (refused h);
        ordered =
            ap (λ x. x ++ (t ∷ [])) (v.ordered ∙ ap (λ x. firsts d.left ++ tags x) n)
            ∙ simp (firsts-snoc, n, append-nil, e);
        held = inl n;
        lasts = v.lasts;
        answered = λ h. absurd (refused h);
      }

      pub exec-Good : (c : Call) (d : Driver) → Good gone owed d → Good gone owed (exec pq c d)
      unfolding exec
      exec-Good c d v = elim (Bool-cases (query_should_be_queued pq d)) [
        | inl e ↦
            rw e (asked-Good (new_query c) d d.link (new_query-HasLast c) v (new_query c).tag refl)
        | inr e ↦
            rw e (by_outcome (Bool-cases s.accepted) (is_none-eq d.queue (queued_or_empty d e)))
      ]
        where
          s : Attempt
          s = run_query pq (new_query c) d.link

          by_outcome :
              (s.accepted ≡ true) ⊎ (s.accepted ≡ false)
              → d.queue ≡ []
              → Good gone owed
                  (after_run pq s (record d { asked = d.asked ++ ((new_query c).tag ∷ []) }))
          by_outcome (inl e) n =
              let k = run_query-Keeps pq (new_query c) d.link e in
              rw e (
                asked-Good s.query d s.link (subst IsLast (sym k.result) (new_query-HasLast c))
                  (relink-Good d s.link k.gone k.answers v) (new_query c).tag k.tag)
          by_outcome (inr e) n =
              let k = run_query-Near pq (new_query c) d.link in
              rw e (
                refused-Good s.query d s.link (is_wanted d.link.gone s.query) (new_query c).tag
                  k.tag n (λ h. let a = (run_query-accepted pq h (new_query c) d.link).0 in cc) v)

      -- A queue of the same tags, of which none is empty where the other is not.
      pub requeue-Good :
          (d : Driver) (qs : List Query) (l : Link)
          → tags qs ≡ tags d.queue
          → All HasLast qs
          → (d.queue ≡ [] → qs ≡ [])
          → l.gone ≡ d.link.gone
          → (IsAccepting pq → answers l.log ≡ answers d.link.log)
          → Good gone owed d
          → Good gone owed (record d { queue = qs; link = l })
      requeue-Good d qs l t h n g a v = record {
        gone_is = λ h. g ∙ v.gone_is h;
        ordered = v.ordered ∙ ap (λ x. firsts d.left ++ x) (sym t);
        held = elim v.held [ inl e ↦ inl (n e) | inr e ↦ inr e ];
        lasts = h;
        answered = λ k. ap (λ x. x ++ owed) (a k) ∙ v.answered k;
      }
