-- ===== src/Core/Events.antt =====
-- crates/core/src/events.rs: EventSender, the sending half of the bounded channel to the bridge. The channel is
-- the tokio crate's: what its calls do is a parameter. EngineEvent is in Bridge.Flat.
use beam_socket.Prelude.{◌==◌, if◌then◌else◌, some, none, Option, ℕ}
use beam_socket.Prelude.Words.{add64}

-- `bridge_dropped` is the engine's counter.
pub record EventSender (T : Type 0) : Type 0 where
  pub tx : T
  pub bridge_dropped : ℕ

-- What `try_send` answers.
pub data TrySend : Type 0 where
  sent full closed : TrySend

module _ {T E : Type 0} (channel : ℕ → T) (try_send : E → T → T × TrySend) (send : E → T → T) where
  -- A capacity of 0 panics.
  unfoldable pub bounded : ℕ → Option (EventSender T)
  bounded capacity =
      if capacity == 0 then none else some (record { tx = channel capacity; bridge_dropped = 0 })

  abbrev pub counted : TrySend → ℕ → ℕ
  counted sent dropped = dropped
  counted full dropped = add64 dropped 1
  counted closed dropped = dropped

  unfoldable pub try_message : E → EventSender T → EventSender T
  try_message e s =
      let (tx, res) = try_send e s.tx in
      record { tx = tx; bridge_dropped = counted res s.bridge_dropped }

  -- The wait for room is inside `send`.
  unfoldable pub control : E → EventSender T → EventSender T
  control e s = record s { tx = send e s.tx }
