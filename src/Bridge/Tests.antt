-- ===== src/Bridge/Tests.antt =====
-- Concrete batches.
use beam_socket.Prelude.{◌<◌, ◌≡◌, refl, true, some, List, [], ◌∷◌, ◌++◌, All, arith, length, map}
use beam_socket.Bridge.Flat.{
  EngineEvent, authorize, connection_opened, message, connection_closed, headers_len,
  authorize_payload_len, event_payload_len,
}
use beam_socket.Bridge.Flat.RoundTrip.{IsEvent, view}
use beam_socket.Bridge.Drain.{
  Tick, arrives, quiet, hangs_up, ended, drain_loop, start, events, concat, IsBatch, bridge_batch,
}
use beam_socket.Bridge.Drain.Order.{drain_loop-events}
use beam_socket.Bridge.Delivery.{buffers, read_all, read_all-drain_loop}

abbrev ticks : List (Tick EngineEvent)
ticks =
    arrives (authorize 9 (49 ∷ []) (47 ∷ []) ((104 ∷ [], 118 ∷ []) ∷ []))
    ∷ arrives (connection_opened 5 (some 9))
    ∷ quiet
    ∷ arrives (message 5 (1 ∷ 2 ∷ []) true)
    ∷ arrives (connection_closed 5 1000 (98 ∷ []))
    ∷ hangs_up
    ∷ []

drain_loop-events_example :
    (concat (drain_loop ticks start).delivered ++ (drain_loop ticks start).batch ≡ events ticks)
    × (length (drain_loop ticks start).batch < bridge_batch)
    × All IsBatch (drain_loop ticks start).delivered
    × ((drain_loop ticks start).phase ≡ ended → (drain_loop ticks start).batch ≡ [])
drain_loop-events_example = drain_loop-events ticks

ticks_fit : All IsEvent (events ticks)
unfolding event_payload_len authorize_payload_len headers_len
ticks_fit = (
  (omega arith, omega arith, tt),
  (
    (omega arith, omega arith, omega arith),
    ((omega arith, omega arith, tt), ((omega arith, omega arith, omega arith), tt)),
  ),
)

ticks_end : (drain_loop ticks start).phase ≡ ended
unfolding drain_loop
ticks_end = refl

read_all-drain_loop_example :
    read_all (buffers (drain_loop ticks start).delivered) ≡ some (map view (events ticks))
read_all-drain_loop_example = read_all-drain_loop ticks ticks_fit ticks_end
