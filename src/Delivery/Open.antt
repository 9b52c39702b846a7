-- ===== src/Delivery/Open.antt =====
-- AExpectedOpen of src/acoroexpected.h: the coroutine that awaits the opening of a connection.
use asql.Base.{
  ℕ, ◌≡◌, refl, Bool, true, false, not, List, [], ◌∷◌, ◌++◌, Option, none, some, String, arith,
  if◌then◌else◌,
}
use text.Mathlib.Text.{◌==◌ as str_eq}
use asql.Delivery.{Expected, value, unexpected}

-- AExpectedOpen::Data
pub record OpenData : Type 0 where
  pub handle : Option ℕ
  pub result : Expected Bool
  pub delivered : Bool
  pub finished : Bool

abbrev pub opening : Bool → String → Expected Bool
opening true error = value true
opening false error = unexpected (if str_eq error "" then "Connection failed" else error)

abbrev pub wakes : Option ℕ → List ℕ
wakes none = []
wakes (some h) = h ∷ []

unfoldable pub deliver_open : Bool → String → OpenData → OpenData × List ℕ
deliver_open is_open error d =
    if d.finished
    then (d, [])
    else (record d { delivered = true; result = opening is_open error }, wakes d.handle)

-- The handle is kept also where the coroutine does not suspend.
unfoldable pub open_suspend : ℕ → OpenData → Bool × OpenData
open_suspend h d = (not d.delivered, record d { handle = some h })

unfoldable pub open_resume : OpenData → Expected Bool × OpenData
open_resume d = (d.result, record d { handle = none; finished = true })

-- Where the coroutine is: it has not awaited yet, it is suspended, or it went on with a result.
pub data Place : Type 0 where
  before asleep : Place
  after : Expected Bool → Place

-- `answer` is what the driver delivered, if it did.
pub record Opening : Type 0 where
  pub shared : OpenData
  pub place : Place
  pub posted : List ℕ
  pub answer : Option (Expected Bool)

abbrev pub new : Opening
new = record {
  shared = record { handle = none; result = value false; delivered = false; finished = false };
  place = before;
  posted = [];
  answer = none;
}

abbrev pub on_delivery : Bool → String → Opening → OpenData × List ℕ → Opening
on_delivery is_open error s (d, out) = record s {
  shared = d;
  posted = s.posted ++ out;
  answer = some (opening is_open error);
}

abbrev pub go_on : Opening → Expected Bool × OpenData → Opening
go_on s (x, d) = record s { shared = d; place = after x }

abbrev pub on_await : Opening → Bool × OpenData → Opening
on_await s (true, d) = record s { shared = d; place = asleep }
on_await s (false, d) = go_on s (open_resume d)

module _ (h : ℕ) where
  -- The driver calls back, once; the coroutine comes to its `co_await`; a resumption runs.
  pub data Step (s : Opening) : Opening → Type 0 where
    delivers :
        (is_open : Bool) (error : String)
        → s.answer ≡ none
        → Step s (on_delivery is_open error s (deliver_open is_open error s.shared))
    awaits : s.place ≡ before → Step s (on_await s (open_suspend h s.shared))
    resumes :
        {rest : List ℕ}
        → s.posted ≡ h ∷ rest
        → Step s (go_on (record s { posted = rest }) (open_resume s.shared))

  pub data Reach (s : Opening) : Opening → Type 0 where
    here : Reach s s
    next : {t u : Opening} → Reach s t → Step t u → Reach s u

  -- The stations: nothing was delivered and the coroutine has not come or sleeps; something was and it
  -- has not come, or its resumption is under way; or it has gone on.
  pub data Station (s : Opening) : Type 0 where
    fresh :
        s.place ≡ before
        → s.answer ≡ none
        → s.posted ≡ []
        → s.shared.handle ≡ none
        → s.shared.delivered ≡ false
        → s.shared.finished ≡ false
        → Station s
    sleeping :
        s.place ≡ asleep
        → s.answer ≡ none
        → s.posted ≡ []
        → s.shared.handle ≡ some h
        → s.shared.delivered ≡ false
        → s.shared.finished ≡ false
        → Station s
    ready :
        s.place ≡ before
        → s.answer ≡ some s.shared.result
        → s.posted ≡ []
        → s.shared.delivered ≡ true
        → Station s
    woken : s.place ≡ asleep → s.answer ≡ some s.shared.result → s.posted ≡ h ∷ [] → Station s
    gone_on :
        (x : Expected Bool) → s.place ≡ after x → s.answer ≡ some x → s.posted ≡ [] → Station s

  Step-Station : {s t : Opening} → Step s t → Station s → Station t
  unfolding deliver_open open_suspend open_resume
  Step-Station (delivers o e n) (fresh a b c k d f) = rw f (ready a refl (rw (c, k) refl) refl)
  Step-Station (delivers o e n) (sleeping a b c k d f) = rw f (woken a refl (rw (c, k) refl))
  Step-Station (delivers o e n) (ready a b c d) = absurd (cc)
  Step-Station (delivers o e n) (woken a b c) = absurd (cc)
  Step-Station (delivers o e n) (gone_on x a b c) = absurd (cc)
  Step-Station (awaits p) (fresh a b c k d f) = rw d (sleeping refl b c refl refl f)
  Step-Station (awaits p) (sleeping a b c k d f) = absurd (cc)
  Step-Station {s} (awaits p) (ready a b c d) = rw d (gone_on s.shared.result refl b c)
  Step-Station (awaits p) (woken a b c) = absurd (cc)
  Step-Station (awaits p) (gone_on x a b c) = absurd (cc)
  Step-Station (resumes p) (fresh a b c k d f) = absurd (cc)
  Step-Station (resumes p) (sleeping a b c k d f) = absurd (cc)
  Step-Station (resumes p) (ready a b c d) = absurd (cc)
  Step-Station {s} (resumes p) (woken a b c) = gone_on s.shared.result refl b (ground (arith, p, c))
  Step-Station (resumes p) (gone_on x a b c) = absurd (cc)

  -- Where the driver calls back at most once: the coroutine sleeps with a resumption under way exactly
  -- when the driver has called, no resumption comes before it sleeps or after it has gone on, and it goes
  -- on with what the driver delivered.
  pub Reach-new_open : {t : Opening} → Reach new t → Station t
  Reach-new_open here = fresh refl refl refl refl refl refl
  Reach-new_open (next r st) = Step-Station st (Reach-new_open r)
