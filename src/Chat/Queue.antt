-- ===== src/Chat/Queue.antt =====
-- AIApps/ChatServer/src/AIUtil/MQManager.cpp: MQManager and the worker of RabbitMQThreadPool. A channel is
-- what was published on it; a poll is what `BasicConsumeMessage` gives within its 500 ms.
pub mod Turns
pub mod Worker
use miniaibrowse_cpp.Common.{
  ℕ, zero, suc, ◌+◌, ◌%◌, ◌^◌, List, [], ◌∷◌, ◌++◌, Option, none, some, Bytes, get_elem?, set,
}
use miniaibrowse_cpp.Chat.Accounts.{Outcome, returned, threw}

-- A queue and a text.
abbrev pub Published : Type 0
Published = Bytes × Bytes

pub record MqManager : Type 0 where
  pub pool : List (List Published)
  pub pool_size : ℕ
  pub counter : ℕ

-- The constructor; the program's instance has five channels.
abbrev pub channels : ℕ → List (List Published)
channels zero = []
channels (suc n) = [] ∷ channels n

abbrev pub new_manager : ℕ → MqManager
new_manager pool_size = record { pool = channels pool_size; pool_size = pool_size; counter = 0 }

abbrev pub publish_at : ℕ → Published → List (List Published) → List (List Published)
publish_at index msg pool = elim (get_elem? pool index) [
  | none ↦ pool
  | some channel ↦ set pool index (channel ++ msg ∷ [])
]

-- `publish`; the counter is a `size_t`.
unfoldable pub publish : Published → MqManager → MqManager
publish msg m = record m {
  pool = publish_at (m.counter % m.pool_size) msg m.pool;
  counter = (m.counter + 1) % 2 ^ 64;
}

unfoldable pub publish_all : List Published → MqManager → MqManager
publish_all [] m = m
publish_all (msg ∷ msgs) m = publish_all msgs (publish msg m)

-- A poll that brings nothing, or a message.
abbrev pub Poll : Type 0
Poll = Option Bytes

-- What a worker did: the state that its handler changes, the messages it acknowledged, and the exception that
-- ended it.
pub record Worked (Db : Type 0) : Type 0 where
  pub db : Db
  pub acked : List Bytes
  pub ended_by : Option Bytes

module _ {Db : Type 0} (handler : Bytes → Db → Outcome Db) where
  -- The loop of `worker`, until `stop_` is set behind the last of the polls.
  unfoldable pub work : List Poll → Db → List Bytes → Worked Db
  work [] db acked = record { db = db; acked = acked; ended_by = none }
  work (none ∷ polls) db acked = work polls db acked
  work (some msg ∷ polls) db acked = elim (handler msg db) [
    | threw what ↦ record { db = db; acked = acked; ended_by = some what }
    | returned db' ↦ work polls db' (acked ++ msg ∷ [])
  ]

  -- `worker`, when the calls that open the channel and the queue return or throw.
  unfoldable pub worker : Option Bytes → List Poll → Db → Worked Db
  worker (some what) polls db = record { db = db; acked = []; ended_by = some what }
  worker none polls db = work polls db []
