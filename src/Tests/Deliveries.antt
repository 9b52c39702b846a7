-- ===== src/Tests/Deliveries.antt =====
-- Deliveries to a coroutine of src/acoroexpected.h, and handles of a transaction of
-- src/atransaction.cpp.
use asql.Base.{ℕ, refl, true, false, [], ◌∷◌}
use asql.Delivery.{Expected, value, unexpected, deliver_direct, await_suspend, deliver_many}
use asql.Delivery.Once
use asql.Delivery.Fifo
use asql.Delivery.Open
use asql.Delivery.Guard
use asql.Transaction.{Transaction, started, commit_with, share, destroy, drop}
use asql.Transaction.Ends.{commits, shares, drops, Reach, here, next, Ended, Reach-started}

abbrev nothing : Expected ℕ
nothing = unexpected ""

-- The coroutine 5 sleeps, is woken by one delivery, and a second one comes before it runs.
abbrev asleep : Once.System ℕ
asleep = Once.on_await (Once.new nothing) (await_suspend 5 (Once.new nothing).shared)

abbrev woken : Once.System ℕ
woken = Once.on_delivery (value 1) asleep (deliver_direct (value 1) asleep.shared)

abbrev again : Once.System ℕ
again = Once.on_delivery (value 2) woken (deliver_direct (value 2) woken.shared)

Reach-new_example : Once.Good 5 again
Reach-new_example = Once.Reach-new 5 nothing (
    Once.next (Once.next (Once.next Once.here (Once.awaits refl)) (Once.delivers (value 1)))
      (Once.delivers (value 2)))

abbrev first : Fifo.Stream ℕ
first = Fifo.on_delivery false (value 1) Fifo.new (deliver_many false (value 1) Fifo.new.shared)

abbrev second : Fifo.Stream ℕ
second = Fifo.on_delivery true (value 2) first (deliver_many true (value 2) first.shared)

Reach-new_many_example : Fifo.Delivered 5 second
Reach-new_many_example =
    Fifo.Reach-new_many 5 (
      Fifo.next (Fifo.next Fifo.here (Fifo.delivers false (value 1)))
        (Fifo.delivers true (value 2)))

-- Two handles; the first commits and goes, the second commits and goes.
abbrev ended : Transaction
ended = drop 0 (commit_with (drop 1 (commit_with (share started)).0)).0

history : Reach started ended
unfolding commit_with drop destroy
history =
    next
      (next (next (next (next here (shares λ e. cc)) (commits λ e. cc)) (drops 1 refl))
        (commits λ e. cc))
      (drops 0 refl)

Reach-started_example : Ended ended
Reach-started_example = Reach-started history

-- A coroutine awaits an opening, the driver calls back, and the resumption runs.
abbrev opened : Open.Opening
opened = Open.on_delivery true "" (Open.on_await Open.new (Open.open_suspend 5 Open.new.shared)) (
    Open.deliver_open true "" (Open.on_await Open.new (Open.open_suspend 5 Open.new.shared)).shared)

opening_history : Open.Reach 5 Open.new opened
unfolding Open.open_suspend
opening_history = Open.next (Open.next Open.here (Open.awaits refl)) (Open.delivers true "" refl)

Reach-new_open_example : Open.Station 5 opened
Reach-new_open_example = Open.Reach-new_open 5 opening_history

-- The coroutine 1 runs and calls the coroutine 3, which resumes the coroutine 2, which waits for a timer.
abbrev nested : Guard.Run
nested = record {
  thread = Guard.resume true 2 (Guard.enter 3 (Guard.resume true 1 Guard.idle));
  passed = 1 ∷ 2 ∷ [];
  resumed = 1 ∷ [];
}

nested_history : Guard.Reach Guard.begun nested
unfolding Guard.resume Guard.enter
nested_history =
    Guard.next (Guard.next (Guard.next Guard.here (Guard.passes 1)) (Guard.enters 3))
      (Guard.passes 2)

Reach-begun_example : Guard.IsSingle nested.thread × Guard.Kept nested
Reach-begun_example = Guard.Reach-begun nested_history
