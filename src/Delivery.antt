-- ===== src/Delivery.antt =====
-- What a coroutine awaits: ACoroData and ACoroExpected, ACoroMultiExpected and AExpectedOpen of
-- src/acoroexpected.h. A coroutine is named by a number; a resumption is a call that leaves the object,
-- made at once or, from within another, by a timer.
pub mod Once
pub mod Fifo
pub mod Open
pub mod Guard
use asql.Base.{
  ℕ, Bool, true, false, ◌&&◌, ◌||◌, not, List, [], ◌∷◌, ◌++◌, Option, none, some, String,
  if◌then◌else◌,
}

-- std::expected<T, QString>
pub data Expected {ℓ} (T : Type ℓ) : Type ℓ where
  value : T → Expected T
  unexpected : String → Expected T

pub data Status : Type 0 where
  waiting suspended done finished : Status

-- A connection as `deliver` looks at it, and the result that awaits the coroutine.
unfoldable pub of_database : {T : Type 0} → Bool → Bool → T → Expected T
of_database is_valid is_open db =
    if is_valid && is_open
    then value db
    else if not is_valid
    then unexpected "Could not get a valid database connection"
    else unexpected "Could not open database connection"

-- The same of a query's result, which is an error or converts to what is awaited, or does not.
unfoldable pub of_result : {T : Type 0} → Option String → Option T → Expected T
of_result (some error) t = unexpected error
of_result none (some t) = value t
of_result none none = unexpected "deliver called on incompatible type; use deliverDirect() instead"

abbrev pub resumption : Status → Option ℕ → List ℕ
resumption suspended (some h) = h ∷ []
resumption _ _ = []

abbrev pub is_last : Bool → Status
is_last true = done
is_last false = waiting

module _ (T : Type 0) where
  pub record Data : Type 0 where
    pub handle : Option ℕ
    pub result : Expected T
    pub status : Status

  -- ACoroMultiExpected::Data
  pub record Many : Type 0 where
    pub handle : Option ℕ
    pub results : List (Expected T)
    pub status : Status

module _ {T : Type 0} where
  -- `deliverDirect`, and `deliver` of what was converted: the coroutines that it resumes come along.
  unfoldable pub deliver_direct : Expected T → Data T → Data T × List ℕ
  deliver_direct x d = elim d.status [
    | finished ↦ (d, [])
    | s ↦ (record d { result = x; status = done }, resumption d.status d.handle)
  ]

  abbrev pub await_ready : Data T → Bool
  await_ready d = elim d.status [ done ↦ true | _ ↦ false ]

  -- Whether the coroutine suspends.
  unfoldable pub await_suspend : ℕ → Data T → Bool × Data T
  await_suspend h d =
      if await_ready d then (false, d) else (true, record d { handle = some h; status = suspended })

  -- The receiver is destroyed: the coroutine that waits is destroyed with it.
  unfoldable pub receiver_destroyed : Data T → Data T × Option ℕ
  receiver_destroyed d = elim d.status [
    | finished ↦ (d, none)
    | _ ↦ (record d { result = unexpected "QObject receiver* destroyed" }, d.handle)
  ]

  -- The destructor of ACoroExpected, which keeps quiet where the data is shared.
  unfoldable pub release : Bool → Data T → Data T
  release is_shared d = if is_shared then d else record d { status = finished }

  -- Of a result that may be the last of its query.
  unfoldable pub deliver_many : Bool → Expected T → Many T → Many T × List ℕ
  deliver_many last_result_set x d = elim d.status [
    | finished ↦ (d, [])
    | s ↦ (
      record d { results = d.results ++ (x ∷ []); status = is_last last_result_set },
      resumption d.status d.handle,
    )
  ]

  abbrev pub many_ready : Many T → Bool
  many_ready d =
      elim d.results [ [] ↦ false | x ∷ xs ↦ true ] || elim d.status [ done ↦ true | _ ↦ false ]

  unfoldable pub many_suspend : ℕ → Many T → Bool × Many T
  many_suspend h d =
      if many_ready d then (false, d) else (true, record d { handle = some h; status = suspended })

  unfoldable pub many_resume : Many T → Expected T × Many T
  many_resume d = elim d.results [
    | [] ↦ (unexpected "no results available", d)
    | x ∷ xs ↦ (x, record d { results = xs })
  ]
