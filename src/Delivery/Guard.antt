-- ===== src/Delivery/Guard.antt =====
-- resumeCoroHandle of src/acoroexpected.h: what happens to a coroutine that is resumed from within
-- another. Two other ways lead into a coroutine, which the flag of that function does not see: a call, since a
-- coroutine runs at once up to its first wait, and the end of an ATask, which goes on with the coroutine that
-- awaits it.
use asql.Base.{
  suc, ℕ, ◌+◌, ◌≡◌, refl, Bool, true, false, List, [], ◌∷◌, ◌++◌, arith, if◌then◌else◌, occ,
  occ-append,
}

-- The coroutines that run, the innermost first, each with whether its resumption raised the flag; the
-- flag `g_resumingCoro`; the handles that timers hold, the oldest first.
pub record Thread : Type 0 where
  pub stack : List (ℕ × Bool)
  pub resuming : Bool
  pub timers : List ℕ

-- `has_app` is that there is a QCoreApplication.
unfoldable pub resume : Bool → ℕ → Thread → Thread
resume has_app h t =
    if t.resuming
    then if has_app
      then record t { timers = t.timers ++ (h ∷ []) }
      else record t { stack = (h, false) ∷ t.stack }
    else record t { stack = (h, true) ∷ t.stack; resuming = true }

-- A coroutine that is called, or that an ATask goes on with at its end.
unfoldable pub enter : ℕ → Thread → Thread
enter h t = record t { stack = (h, false) ∷ t.stack }

-- The innermost coroutine suspends or ends, and what resumed or called it goes on.
unfoldable pub give_way : Thread → Thread
give_way t = elim t.stack [
  | [] ↦ t
  | (h, raised) ∷ rest ↦ record t { stack = rest; resuming = if raised then false else t.resuming }
]

abbrev pub idle : Thread
idle = record { stack = []; resuming = false; timers = [] }

-- A thread, the handles that were passed to `resumeCoroHandle`, and those that were resumed, the oldest
-- first in both.
pub record Run : Type 0 where
  pub thread : Thread
  pub passed : List ℕ
  pub resumed : List ℕ

-- Whether a call resumes the handle at once.
abbrev pub at_once : ℕ → Thread → List ℕ
at_once h t = if t.resuming then [] else h ∷ []

-- With an application: a handle is passed, a coroutine is entered otherwise, one gives way, the oldest timer
-- fires, from the event loop or from one that a coroutine runs.
pub data Step (s : Run) : Run → Type 0 where
  passes :
      (h : ℕ)
      → Step s (record {
        thread = resume true h s.thread;
        passed = s.passed ++ (h ∷ []);
        resumed = s.resumed ++ at_once h s.thread;
      })
  enters : (h : ℕ) → Step s (record s { thread = enter h s.thread })
  gives_way : Step s (record s { thread = give_way s.thread })
  fires :
      (h : ℕ) (rest : List ℕ)
      → s.thread.timers ≡ h ∷ rest
      → Step s (record s {
        thread = resume true h (record s.thread { timers = rest });
        resumed = s.resumed ++ at_once h s.thread;
      })

pub data Reach (s : Run) : Run → Type 0 where
  here : Reach s s
  next : {t u : Run} → Reach s t → Step t u → Reach s u

-- How many of the coroutines that run raised the flag.
abbrev pub raised : List (ℕ × Bool) → ℕ
raised [] = 0
raised ((h, b) ∷ rest) = if b then suc (raised rest) else raised rest

-- One of the coroutines that run raised the flag, which is up, or none did and it is down.
abbrev pub IsSingle : Thread → Type 0
IsSingle t = raised t.stack ≡ (if t.resuming then 1 else 0)

resume-IsSingle : (h : ℕ) (t : Thread) → IsSingle t → IsSingle (resume true h t)
unfolding resume
resume-IsSingle h t v = ground (arith, v)

give_way-IsSingle : (t : Thread) → IsSingle t → IsSingle (give_way t)
unfolding give_way
give_way-IsSingle t v = by_stack t.stack v
  where
    by_stack :
        (s : List (ℕ × Bool))
        → raised s ≡ (if t.resuming then 1 else 0)
        → IsSingle (elim s as (λ x. Thread) [
          | [] ↦ t
          | (h, b) ∷ rest ↦ record t { stack = rest; resuming = if b then false else t.resuming }
        ])
    by_stack [] e = v
    by_stack ((h, true) ∷ rest) e = ground (arith, e)
    by_stack ((h, false) ∷ rest) e = e

Step-IsSingle : {s t : Run} → Step s t → IsSingle s.thread → IsSingle t.thread
unfolding enter
Step-IsSingle {s} (passes h) v = resume-IsSingle h s.thread v
Step-IsSingle {s} (enters h) v = v
Step-IsSingle {s} gives_way v = give_way-IsSingle s.thread v
Step-IsSingle {s} (fires h rest q) v = resume-IsSingle h (record s.thread { timers = rest }) v

-- Each handle that was passed was resumed as often, or waits in a timer.
abbrev pub Kept : Run → Type 0
Kept s = (h : ℕ) → occ h s.passed ≡ occ h s.resumed + occ h s.thread.timers

give_way-timers : (t : Thread) → (give_way t).timers ≡ t.timers
unfolding give_way
give_way-timers t = ground arith

Step-Kept : {s t : Run} → Step s t → Kept s → Kept t
unfolding resume enter occ
Step-Kept {s} (passes h) k j = ground (
  arith,
  k j,
  occ-append j s.passed (h ∷ []),
  occ-append j s.resumed (at_once h s.thread),
  occ-append j s.thread.timers (h ∷ []),
)
Step-Kept {s} (enters h) k j = k j
Step-Kept {s} gives_way k j = rw (give_way-timers s.thread) (k j)
Step-Kept {s} (fires h rest q) k j =
    ground (arith, k j, q, occ-append j s.resumed (at_once h s.thread), occ-append j rest (h ∷ []))

abbrev pub begun : Run
begun = record { thread = idle; passed = []; resumed = [] }

-- With an application, whatever handles are passed to `resumeCoroHandle`, whatever coroutines are called or
-- resumed by an ATask, and whenever coroutines give way: of the coroutines that run, one inside the
-- other, at most one was resumed by that function, the flag is up exactly while one is, and each handle
-- that was passed was resumed as often, or waits in a timer.
pub Reach-begun : {t : Run} → Reach begun t → IsSingle t.thread × Kept t
unfolding occ
Reach-begun here = (refl, λ h. refl)
Reach-begun (next r st) = let (f, k) = Reach-begun r in (Step-IsSingle st f, Step-Kept st k)
