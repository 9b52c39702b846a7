-- ===== src/Pool.antt =====
-- APool: src/apool.cpp and src/apool.h. A connection is named by the
-- number under which its driver was created, a waiting coroutine by the number of its data. What the
-- drivers, the coroutines and the receivers answer at the time of a call is an argument.
pub mod Cases
pub mod Registry
pub mod Inventory
pub mod Fairness
pub mod Queries
use asql.Base.{
  ℕ, suc, Bool, true, false, ◌&&◌, ◌||◌, not, List, [], ◌∷◌, ◌++◌, Option, none, some,
  if◌then◌else◌, length, ℤ, pos, ◌+ℤ◌, ◌-ℤ◌, leb_ℤ, eqb_ℤ,
}

-- ADatabase::State
pub data State : Type 0 where
  disconnected connecting connected : State

-- What is read of the objects that a pool does not own.
pub record Env : Type 0 where
  pub state : ℕ → State
  -- the QPointer to a receiver is not null
  pub alive : ℕ → Bool
  -- the data of a coroutine can still be locked
  pub awaited : ℕ → Bool

-- `isOpen`, which every driver answers by its state.
abbrev pub is_open : Env → ℕ → Bool
is_open env d = elim (env.state d) [ connected ↦ true | _ ↦ false ]

-- APoolQueuedClient; `checkReceiver` is that there is a receiver.
pub record Client : Type 0 where
  pub cb : ℕ
  pub receiver : Option ℕ

-- APoolInternal. The last idle connection comes first in `idle`, the front of the queue in `queue`.
pub record Pool : Type 0 where
  pub idle : List ℕ
  pub queue : List Client
  pub setup_hook : Bool
  pub reuse_hook : Bool
  pub max_idle : ℤ
  pub max_connections : ℤ
  pub count : ℤ

abbrev pub new_pool : Pool
new_pool = record {
  idle = [];
  queue = [];
  setup_hook = false;
  reuse_hook = false;
  max_idle = pos 1;
  max_connections = pos 10;
  count = pos 0;
}

-- The calls that leave the pool, in their order.
pub data Effect : Type 0 where
  deletes reuses sets_up : ℕ → Effect
  -- a coroutine and the connection that it is given
  delivers : ℕ → ℕ → Effect
  -- a coroutine and the connection that is opened for it, and whether the setup hook is called then
  opens : ℕ → ℕ → Bool → Effect
  -- a coroutine is given no valid connection, one that cannot be opened, or one of a pool that is gone
  fails_invalid fails_open : ℕ → Effect

abbrev pub hook : Bool → Effect → List Effect
hook true e = e ∷ []
hook false e = []

-- `(checkReceiver && receiver.isNull()) || !cb`
abbrev pub is_gone : Env → Client → Bool
is_gone env c =
    elim c.receiver [ none ↦ false | some r ↦ not (env.alive r) ] || not (env.awaited c.cb)

-- The `while` over the queue: the first client that is still there, and those behind it.
unfoldable pub next_client : Env → List Client → Option (Client × List Client)
next_client env [] = none
next_client env (c ∷ cs) = if is_gone env c then next_client env cs else some (c, cs)

abbrev pub close : ℕ → Pool → Pool × List Effect
close d p = (record p { count = p.count -ℤ pos 1 }, deletes d ∷ [])

-- The end of `pushDatabaseBack`, where no client is left.
unfoldable pub park : ℕ → Pool → Pool × List Effect
park d p =
    if leb_ℤ p.max_idle (pos (length p.idle))
    then close d p
    else (record p { idle = d ∷ p.idle }, [])

-- A connection that is open goes to the first client, or it is parked.
unfoldable pub reuse : Env → ℕ → Pool → Pool × List Effect
reuse env d p = elim (next_client env p.queue) [
  | some (c, rest) ↦
      (record p { queue = rest }, hook p.reuse_hook (reuses d) ++ (delivers c.cb d ∷ []))
  | none ↦ park d (record p { queue = [] })
]

-- `pushDatabaseBack` in a pool that is there.
unfoldable pub give_back : Env → ℕ → Pool → Pool × List Effect
give_back env d p = elim (env.state d) [
  | disconnected ↦ close d p
  | connecting ↦ (p, [])
  | connected ↦ reuse env d p
]

-- A connection that is open is delivered, another is opened first.
unfoldable pub hand_out : Env → ℕ → ℕ → Pool → List Effect
hand_out env cb d p =
    if is_open env d
    then hook p.reuse_hook (reuses d) ++ (delivers cb d ∷ [])
    else opens cb d p.setup_hook ∷ []

abbrev pub is_full : Pool → Bool
is_full p = not (eqb_ℤ p.max_connections (pos 0)) && leb_ℤ p.max_connections p.count

-- `deliverDatabase` in a pool that is there; `fresh` is the driver that the factory would make.
unfoldable pub request : Env → ℕ → ℕ → Option ℕ → Pool → Pool × List Effect
request env fresh cb receiver p = elim p.idle [
  | [] ↦
      if is_full p
      then (record p { queue = p.queue ++ (record { cb = cb; receiver = receiver } ∷ []) }, [])
      else (record p { count = p.count +ℤ pos 1 }, hand_out env cb fresh p)
  | d ∷ rest ↦ (record p { idle = rest }, hand_out env cb d p)
]

-- ACoroData<ADatabase>::deliver, of a connection that is valid.
abbrev pub deliver : Env → ℕ → ℕ → Effect
deliver env cb d = if is_open env d then delivers cb d else fails_open cb

-- PoolOpenDelivery::deliverOpen; `found` is whether the pool is still there.
unfoldable pub deliver_open : Env → Bool → Bool → ℕ → ℕ → Bool → List Effect
deliver_open env found setup_hook cb d opened =
    if opened
    then if found
      then hook setup_hook (sets_up d) ++ (deliver env cb d ∷ [])
      else fails_invalid cb ∷ []
    else fails_open cb ∷ []
