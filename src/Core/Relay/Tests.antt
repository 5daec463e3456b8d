-- ===== src/Core/Relay/Tests.antt =====
-- A concrete relay, from node 7 to node 3.
use beam_socket.Prelude.{
  ◌+◌, ◌%◌, ◌^◌, ◌<◌, ◌≤◌, ◌≡◌, refl, true, false, none, List, [], ◌∷◌, ◌++◌, length, arith,
}
use beam_socket.Prelude.Bytes.{Bytes, put_many}
use beam_socket.Prelude.Keys.{nat_key, contains}
use beam_socket.Prelude.Utf8.{is_utf8}
use beam_socket.Mesh.Addr.{SocketAddr, v4}
use beam_socket.Mesh.Handshake.{responder, Negotiated, may_emit}
use beam_socket.Mesh.Interest
use beam_socket.Mesh.Interest.{interest}
use beam_socket.Mesh.Link.{LinkHandle, establish, no_counts}
use beam_socket.Mesh.Node.{MeshNode}
use beam_socket.Mesh.Relay.{frame_kind, relay_bytes}
use beam_socket.Mesh.Swim.Types
use beam_socket.Core.Mailbox
use beam_socket.Core.Mailbox.{drop_newest}
use beam_socket.Core.Registry
use beam_socket.Core.Registry.{Registry, register}
use beam_socket.Core.Rooms.{RoomMap, insert_member}
use beam_socket.Core.Identity
use beam_socket.Core.Broadcast.{Handles, to_room}
use beam_socket.Core.Relay.{
  NodeConnId, node_excepts, relay_kind, relay_meta, put_except, put_excepts, put_str, fan_local,
}
use beam_socket.Core.Relay.Delivery.{deliver_bytes, deliver_bytes-relay_bytes}

abbrev lobby : Bytes
lobby = 108 ∷ 111 ∷ []

abbrev two : Registry
two = (register 0 8 none (register 0 7 none Registry.new).0).0

-- Both are in the lobby.
abbrev hosted : RoomMap
hosted = insert_member lobby (2 ^ 56) (insert_member lobby 0 (λ room. none))

abbrev idle : Handles
idle handle = record { mailbox = Mailbox.new; close = none; control = [] }

abbrev remote_excepts : List NodeConnId
remote_excepts = record { node = 3; conn = 0 } ∷ record { node = 4; conn = 2 ^ 56 } ∷ []

lobby_utf8 : is_utf8 lobby ≡ true
unfolding is_utf8
lobby_utf8 = refl

abbrev agreed : Negotiated
agreed = record {
  protocol_version = 1;
  features = 3;
  max_frame = 1048576;
  role = responder;
  peer_node_id = 7;
  peer_incarnation = 1;
}

abbrev link : LinkHandle
link = establish agreed 1024 no_counts

abbrev addr : SocketAddr
addr = record { ip = v4 (10 ∷ 0 ∷ 0 ∷ 1 ∷ []); port = 7003 }

abbrev mesh : MeshNode
mesh = record {
  self_id = 3;
  addr = addr;
  retransmit = 6;
  gossip_max = 6;
  seeds = [];
  membership = Types.new 3 addr 42;
  interest = Interest.new 3 interest;
  links = [];
  handles = λ handle. link;
  deny = [];
  dial_backoff = [];
  down = false;
}

-- The metadata of the relay: the room, the connection of node 7 that is excepted, and two others.
abbrev metadata : Bytes
metadata = relay_meta (to_room lobby) (node_excepts 7 (5 ∷ []) ++ remote_excepts)

fits : 2 + length metadata + 2 ≤ link.negotiated.max_frame
unfolding relay_meta put_str put_excepts put_except put_many node_excepts establish
fits = omega arith

few : length (node_excepts 7 (5 ∷ []) ++ remote_excepts) < 2 ^ 16
unfolding node_excepts
few = omega arith

emits : may_emit link.negotiated (frame_kind (relay_kind (to_room lobby))) ≡ true
unfolding may_emit frame_kind establish
emits = refl

deliver_bytes-relay_bytes_example :
    deliver_bytes drop_newest 64 3 two hosted Identity.new idle 100 link mesh 9
      (relay_bytes (relay_kind (to_room lobby)) true metadata (1 ∷ 2 ∷ []) ++ (0 ∷ []))
    ≡ (
      (9 + 1) % 2 ^ 64,
      fan_local drop_newest 64 3 two hosted Identity.new idle
          (to_room lobby)
          remote_excepts
          true
          (1 ∷ 2 ∷ []),
    )
unfolding node_excepts establish contains
deliver_bytes-relay_bytes_example =
    deliver_bytes-relay_bytes drop_newest 64 3 two hosted Identity.new idle 100 9 link mesh
      (to_room lobby) 7 (5 ∷ []) remote_excepts true (1 ∷ 2 ∷ []) (0 ∷ []) (omega arith)
      (omega arith, lobby_utf8) few
      ((omega arith, omega arith), ((omega arith, omega arith), ((omega arith, omega arith), tt)))
      fits (omega arith) emits refl
