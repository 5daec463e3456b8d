-- ===== src/Core/Verbs.antt =====
-- crates/core/src/engine.rs: the calls that send, broadcast and close; crates/core/src/cluster.rs: `Cluster`
-- and what it relays; `peer_pressures` of crates/mesh/src/node.rs, as far as the peers. Reasons of closes
-- are left out. Each call is one step.
pub mod Disconnect
mod Tests
use beam_socket.Prelude.{
  ℕ, ◌+◌, Bool, true, false, Option, none, some, List, [], ◌∷◌, ◌++◌, ◌==◌, if◌then◌else◌,
}
use beam_socket.Prelude.Bytes.{Bytes, le_bytes}
use beam_socket.Prelude.Keys.{nat_key, write}
use beam_socket.Prelude.Maps.{Map}
use beam_socket.Prelude.Words.{add64}
use beam_socket.Mesh.Interest.{Target, room, user}
use beam_socket.Mesh.Node.{MeshNode, interested_peers, relay, RelaySendReport}
use beam_socket.Mesh.Relay.{RelayKind, relay_socket}
use beam_socket.Core.Mailbox.{
  OutboundFrame, BackpressurePolicy, PushOutcome, queued, dropped_newest, dropped_oldest,
  disconnected, refused_closed,
}
use beam_socket.Core.Registry.{Registry, get, handles}
use beam_socket.Core.Rooms.{RoomMap}
use beam_socket.Core.Identity.{UserMap, connections}
use beam_socket.Core.Broadcast.{
  Handles, FanoutTarget, to_room, to_user, to_all, FanoutReport, broadcast, push, initiate_close,
  sort_ids,
}
use beam_socket.Core.Relay.{NodeConnId, node_excepts, relay_kind, relay_meta}

abbrev pub close_going_away : ℕ
close_going_away = 1001

-- `Cluster`, with its `RelayCounters`.
pub record Cluster : Type 0 where
  pub self_node_id : ℕ
  pub mesh : MeshNode
  pub relay_in : ℕ
  pub relay_out : ℕ
  pub relay_drops : ℕ

pub record Engine : Type 0 where
  pub conns : Registry
  pub rooms : RoomMap
  pub users : UserMap
  pub shared : Handles
  pub admin_disconnects : ℕ
  pub cluster : Option Cluster

pub data SendStatus : Type 0 where
  accepted backpressure not_found : SendStatus

abbrev pub status_of : PushOutcome → SendStatus
status_of queued = accepted
status_of dropped_newest = backpressure
status_of dropped_oldest = backpressure
status_of disconnected = backpressure
status_of refused_closed = not_found

unfoldable pub link_ids : Map ℕ → List ℕ
link_ids [] = []
link_ids ((peer, handle) ∷ links) = peer ∷ link_ids links

abbrev pub linked_peers : MeshNode → List ℕ
unfolding link_ids sort_ids
linked_peers n = sort_ids (link_ids n.links)

-- The peers that a relay goes to.
abbrev pub peers_for : FanoutTarget → MeshNode → List ℕ
peers_for (to_room r) n = interested_peers (room r) n
peers_for (to_user u) n = interested_peers (user u) n
peers_for to_all n = linked_peers n

unfoldable pub do_relay : List ℕ → RelayKind → Bool → Bytes → Bytes → Cluster → Cluster
unfolding relay
do_relay peers kind is_binary meta payload c =
    let (mesh, report) = relay peers kind is_binary meta payload c.mesh in
    record c {
      mesh = mesh;
      relay_out = add64 c.relay_out report.sent;
      relay_drops = add64 c.relay_drops (report.drops + report.no_link);
    }

-- `relay_room`, `relay_user` and `relay_all`.
unfoldable pub relay_target : FanoutTarget → Bytes → Bool → List NodeConnId → Cluster → Cluster
unfolding do_relay
relay_target target payload is_binary except c = elim (peers_for target c.mesh) [
  | [] ↦ c
  | peer ∷ peers ↦
      do_relay (peer ∷ peers) (relay_kind target) is_binary (relay_meta target except) payload c
]

unfoldable pub relay_to_socket : NodeConnId → Bytes → Bool → Cluster → Cluster
unfolding do_relay
relay_to_socket target payload is_binary c =
    if target.node == c.self_node_id
    then c
    else do_relay (target.node ∷ []) relay_socket is_binary (le_bytes 8 target.conn) payload c

abbrev pub close_handle : ℕ → ℕ → Bool → Engine → Engine
close_handle handle code graceful e = record e {
  shared = write handle (initiate_close code graceful (e.shared handle)) e.shared;
}

unfoldable pub close_connection : ℕ → ℕ → Engine → Engine × Bool
close_connection id code e = elim (get e.conns id) [
  | none ↦ (e, false)
  | some handle ↦ (close_handle handle code true e, true)
]

unfoldable pub admin_disconnect_socket : ℕ → ℕ → Engine → Engine × ℕ
admin_disconnect_socket id code e = elim (get e.conns id) [
  | none ↦ (e, 0)
  | some handle ↦ (
    record (close_handle handle code true e) { admin_disconnects = add64 e.admin_disconnects 1 },
    1,
  )
]

-- The loop of `admin_disconnect_user`.
unfoldable pub close_devices : List ℕ → ℕ → Engine → ℕ → Engine × ℕ
close_devices [] code e closed = (e, closed)
close_devices (id ∷ devices) code e closed = elim (get e.conns id) [
  | none ↦ close_devices devices code e closed
  | some handle ↦ close_devices devices code (close_handle handle code true e) (closed + 1)
]

abbrev pub or_none : Option (List ℕ) → List ℕ
or_none none = []
or_none (some ids) = ids

unfoldable pub admin_disconnect_user : Bytes → ℕ → Engine → Engine × ℕ
unfolding close_devices
admin_disconnect_user user_id code e =
    let devices = or_none (connections user_id e.users) in
    let (after, closed) = close_devices devices code e 0 in
    (record after { admin_disconnects = add64 after.admin_disconnects closed }, closed)

-- The sweeps of `close` and `shutdown`.
unfoldable pub sweep_close : Bool → List (ℕ × ℕ) → Engine → Engine
sweep_close graceful [] e = e
sweep_close graceful ((id, handle) ∷ live) e =
    sweep_close graceful live (close_handle handle close_going_away graceful e)

unfoldable pub sweep : Bool → Engine → Engine
unfolding sweep_close
sweep graceful e = sweep_close graceful (handles e.conns) e

module _ (policy : BackpressurePolicy) (hwm : ℕ) where
  unfoldable pub send : ℕ → Bytes → Bool → Engine → Engine × SendStatus
  unfolding push
  send id payload is_binary e = elim (get e.conns id) [
    | none ↦ (e, not_found)
    | some handle ↦
        (let (after, outcome) =
            push policy hwm (record { body = payload; is_binary = is_binary }) (e.shared handle) in
          (record e { shared = write handle after e.shared }, status_of outcome))
  ]

  -- `broadcast_room`, `broadcast_user` and `broadcast_all`.
  unfoldable pub broadcast_to :
      FanoutTarget → Bytes → Bool → List ℕ → List NodeConnId → Engine → Engine × FanoutReport
  unfolding relay_target
  broadcast_to target payload is_binary except remote_except e =
      let (hs, rooms, report) =
        broadcast policy hwm (record { body = payload; is_binary = is_binary }) e.conns e.rooms
          e.users target except e.shared in
      let after : Engine = record e { shared = hs; rooms = rooms } in
      elim e.cluster [
        | none ↦ (after, report)
        | some c ↦
            (let relay_except = node_excepts c.self_node_id except ++ remote_except in
              (
                record after {
                  cluster = some (relay_target target payload is_binary relay_except c);
                },
                report,
              ))
      ]

  unfoldable pub send_node : NodeConnId → Bytes → Bool → Engine → Engine × SendStatus
  unfolding send relay_to_socket
  send_node target payload is_binary e =
      let here = send target.conn payload is_binary e in
      elim e.cluster [
        | none ↦ here
        | some c ↦ if target.node == c.self_node_id then here else (
          record e { cluster = some (relay_to_socket target payload is_binary c) },
          accepted,
        )
      ]
