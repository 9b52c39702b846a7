-- ===== src/Postgres/Notifications.antt =====
-- The notifications of ADriverPg: `subscribeToNotification`, `unsubscribeFromNotification` and their
-- coroutines, src/adriverpg.cpp.
use asql.Base.{
  ℕ, Bool, true, false, ◌&&◌, ◌||◌, not, Option, none, some, List, [], ◌∷◌, ◌++◌, map,
  if◌then◌else◌, String,
}
use asql.Postgres.{Libpq, Driver, is_connected}
use asql.Postgres.Sending.{Call, of_text, exec}
use asql.Postgres.Opening.{subscription}
use text.Mathlib.Text.{◌==◌ as str_eq}

unfoldable pub remove : String → List (String × Bool) → List (String × Bool)
remove name [] = []
remove name ((k, cb) ∷ m) =
    let rest = remove name m in if str_eq k name then rest else (k, cb) ∷ rest

abbrev pub forget : String → Driver → Driver
forget name d = record d { subscribed = remove name d.subscribed }

abbrev pub is_blank : List ℕ → Bool
is_blank [] = true
is_blank (c ∷ cs) = false

abbrev pub is_some : Option Bool → Bool
is_some none = false
is_some (some cb) = true

-- The bytes of `LISTEN ` and `UNLISTEN `.
abbrev pub listen : List ℕ
listen = b'L' ∷ b'I' ∷ b'S' ∷ b'T' ∷ b'E' ∷ b'N' ∷ b' ' ∷ []

abbrev pub unlisten : List ℕ
unlisten = b'U' ∷ b'N' ∷ listen

-- The call of a coroutine of the driver; `tag` and `cb` name it and what it awaits, and `this` is the
-- driver, its receiver.
abbrev pub command : List ℕ → ℕ → ℕ → ℕ → Call
command sql tag cb this = of_text tag sql (some this) (some cb)

module _ (pq : Libpq) where
  -- `listenCoro`, up to the reply.
  unfoldable pub listen_for : String → ℕ → ℕ → ℕ → Driver → Driver
  listen_for name tag cb this d =
      if not (is_connected d.link) || not d.link.conn
      then forget name d
      else if is_blank (pq.identifier name)
      then forget name d
      else exec pq (command (listen ++ pq.identifier name) tag cb this) d

  -- What it does with the reply.
  unfoldable pub listened : String → Bool → Driver → Driver
  listened name refused d = if refused then forget name d else d

  unfoldable pub unlisten_for : String → ℕ → ℕ → ℕ → Driver → Driver
  unlisten_for name tag cb this d =
      if not (is_connected d.link) || not d.link.conn
      then d
      else if is_blank (pq.identifier name)
      then d
      else exec pq (command (unlisten ++ pq.identifier name) tag cb this) d

  abbrev pub is_refused : String → Driver → Bool
  is_refused name d =
      str_eq name ""
      || ((is_connected d.link && (d.link.conn && is_blank (pq.identifier name)))
          || is_some (subscription name d.subscribed))

  unfoldable pub subscribe : String → Bool → ℕ → ℕ → ℕ → Driver → Driver
  subscribe name calls tag cb this d =
      if is_refused name d
      then d
      else listen_for name tag cb this
          (record d { subscribed = d.subscribed ++ ((name, calls) ∷ []) })

  unfoldable pub unsubscribe : String → ℕ → ℕ → ℕ → Driver → Driver
  unsubscribe name tag cb this d =
      if is_some (subscription name d.subscribed)
      then unlisten_for name tag cb this (forget name d)
      else d

unfoldable pub subscribed_to : Driver → List String
subscribed_to d = map (λ x. x.0) d.subscribed
