-- ===== src/Core/Relay.antt =====
-- crates/core/src/cluster.rs: the bodies of the relay frames and what a node does with one that it receives.
-- The message's bytes follow the metadata.
pub mod RoundTrip
pub mod Delivery
mod Tests
use beam_socket.Prelude.{
  ℕ, ◌+◌, ◌%◌, ◌^◌, Bool, Option, none, some, List, [], ◌∷◌, ◌++◌, ◌==◌, if◌then◌else◌, length,
}
use beam_socket.Prelude.Bytes.{
  Bytes, Reader, ◌>>=◌, pure, fail, get_bytes, get_le, get_many, put_many, le_bytes,
}
use beam_socket.Prelude.Keys.{nat_key, write}
use beam_socket.Prelude.Utf8.{is_utf8}
use beam_socket.Mesh.Relay.{RelayKind, relay_room, relay_user, relay_all, relay_socket}
use beam_socket.Core.Mailbox.{OutboundFrame, BackpressurePolicy}
use beam_socket.Core.Registry.{Registry, get}
use beam_socket.Core.Rooms.{RoomMap}
use beam_socket.Core.Identity.{UserMap}
use beam_socket.Core.Broadcast.{Handles, FanoutTarget, to_room, to_user, to_all, broadcast, push}

pub record NodeConnId : Type 0 where
  pub node : ℕ
  pub conn : ℕ

unfoldable pub put_str : Bytes → Bytes
put_str s = le_bytes 2 (length s % 2 ^ 16) ++ s

unfoldable pub get_str : Reader Bytes
get_str = do len ← get_le 2; s ← get_bytes len; if is_utf8 s then pure s else fail

unfoldable pub put_except : NodeConnId → Bytes
put_except e = le_bytes 2 e.node ++ le_bytes 8 e.conn

unfoldable pub get_except : Reader NodeConnId
get_except = do node ← get_le 2; conn ← get_le 8; pure (record { node = node; conn = conn })

unfoldable pub put_excepts : List NodeConnId → Bytes
unfolding put_except
put_excepts excepts = le_bytes 2 (length excepts % 2 ^ 16) ++ put_many put_except excepts

unfoldable pub get_excepts : Reader (List NodeConnId)
unfolding get_except
get_excepts = do n ← get_le 2; get_many n get_except

unfoldable pub excepts_for : ℕ → List NodeConnId → List ℕ
excepts_for self_node [] = []
excepts_for self_node (e ∷ excepts) =
    let rest = excepts_for self_node excepts in if e.node == self_node then e.conn ∷ rest else rest

-- `node_excepts` of the engine.
unfoldable pub node_excepts : ℕ → List ℕ → List NodeConnId
node_excepts node [] = []
node_excepts node (id ∷ except) = record { node = node; conn = id } ∷ node_excepts node except

abbrev pub relay_kind : FanoutTarget → RelayKind
relay_kind (to_room room) = relay_room
relay_kind (to_user user) = relay_user
relay_kind to_all = relay_all

-- The metadata that `relay_room`, `relay_user` and `relay_all` send.
unfoldable pub relay_meta : FanoutTarget → List NodeConnId → Bytes
unfolding put_str put_excepts
relay_meta (to_room room) except = put_str room ++ put_excepts except
relay_meta (to_user user) except = put_str user ++ put_excepts except
relay_meta to_all except = put_excepts except

abbrev pub get_addressed : Reader (Bytes × List NodeConnId)
get_addressed = do name ← get_str; excepts ← get_excepts; pure (name, excepts)

module _ (policy : BackpressurePolicy) (hwm self_node : ℕ) (conns : Registry) (rooms : RoomMap)
    (users : UserMap) (hs : Handles) where
  -- What `broadcast` leaves, with the exceptions that name this node.
  abbrev pub fan_local : FanoutTarget → List NodeConnId → Bool → Bytes → Handles × RoomMap
  fan_local target excepts is_binary payload =
      let out =
        broadcast policy hwm (record { body = payload; is_binary = is_binary }) conns rooms users
          target (excepts_for self_node excepts) hs in
      (out.0, out.1)

  -- The `match` on the kind.
  unfoldable pub fan_in : RelayKind → Bool → Bytes → Handles × RoomMap
  unfolding get_str get_excepts excepts_for broadcast push
  fan_in relay_room is_binary body = elim (get_addressed body) [
    | none ↦ (hs, rooms)
    | some ((room, excepts), payload) ↦ fan_local (to_room room) excepts is_binary payload
  ]
  fan_in relay_user is_binary body = elim (get_addressed body) [
    | none ↦ (hs, rooms)
    | some ((user, excepts), payload) ↦ fan_local (to_user user) excepts is_binary payload
  ]
  fan_in relay_all is_binary body = elim (get_excepts body) [
    | none ↦ (hs, rooms)
    | some (excepts, payload) ↦ fan_local to_all excepts is_binary payload
  ]
  fan_in relay_socket is_binary body = elim (get_le 8 body) [
    | none ↦ (hs, rooms)
    | some (id, payload) ↦ elim (get conns id) [
      | none ↦ (hs, rooms)
      | some handle ↦
          (let pushed =
              push policy hwm (record { body = payload; is_binary = is_binary }) (hs handle) in
            (write handle pushed.0 hs, rooms))
    ]
  ]

  -- With the counter of relays in.
  unfoldable pub deliver_local : ℕ → RelayKind → Bool → Bytes → ℕ × (Handles × RoomMap)
  unfolding fan_in
  deliver_local relay_in kind is_binary body = ((relay_in + 1) % 2 ^ 64, fan_in kind is_binary body)
