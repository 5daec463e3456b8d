-- ===== src/Mesh/Node/Tests.antt =====
-- A node that knows two others, with a link to one of them.
use beam_socket.Prelude.{◌⊎◌, ℕ, ◌≡◌, refl, true, false, none, some, List, [], ◌∷◌, arith}
use beam_socket.Mesh.Node.{
  send_interest, send_to, join_over, MeshNode, register, on_link_closed, send_frame, set_partition,
}
use beam_socket.Mesh.Node.Wiring.{
  partitioned, happen, gossips, Event, inbound, link_closed, registered, hosted, relays, healed,
  interests, happen_all,
}
use beam_socket.Prelude.Keys.{nat_key, contains}
use beam_socket.Prelude.Maps.{lookup, insert, remove}
use beam_socket.Mesh.Addr.{SocketAddr, v4}
use beam_socket.Mesh.Frame.{Frame, FrameKind}
use beam_socket.Mesh.Handshake.{responder, plain, Negotiated}
use beam_socket.Mesh.Interest
use beam_socket.Mesh.Interest.{room, interest, OriginInterest}
use beam_socket.Mesh.Relay.{relay_room}
use beam_socket.Mesh.Link.{LinkHandle, establish, no_counts, close}
use beam_socket.Mesh.Swim.Types
use beam_socket.Mesh.Swim.Types.{alive, dead, Update, Membership, table}
use beam_socket.Mesh.Swim.{mark_suspect, merge_all}
use beam_socket.Mesh.Node.Loops.{addr_key, dial_targets, gossip_round}
use beam_socket.Mesh.Node.Race.{register-on_link_closed}
use beam_socket.Mesh.Node.Dialing.Rule.{IsSeed, IsLower, dial_targets_lem}
use beam_socket.Mesh.Node.Wiring.Kept.{happen_all-one_link, all_open, stays_open}

abbrev addr : ℕ → SocketAddr
addr port = record { ip = v4 (10 ∷ 0 ∷ 0 ∷ 1 ∷ []); port = port }

abbrev with_peer : ℕ → Negotiated
with_peer id = record {
  protocol_version = 1;
  features = 3;
  max_frame = 64;
  role = responder;
  peer_node_id = id;
  peer_incarnation = 1;
}

-- The handles 7 and 8 are links to node 2.
abbrev links_of_two : ℕ → LinkHandle
links_of_two handle = establish (with_peer 2) 1024 no_counts

abbrev known : Membership
known =
    merge_all (Types.new 1 (addr 7001) 42)
      (record { id = 2; addr = addr 7002; state = alive; inc = 1 }
        ∷ record { id = 3; addr = addr 7003; state = dead; inc = 1 }
        ∷ [])
      6 100

abbrev lobby_host : OriginInterest
lobby_host = record { seq = 4; rooms = (108 ∷ []) ∷ []; users = [] }

abbrev alone : MeshNode
alone = record {
  self_id = 1;
  addr = addr 7001;
  retransmit = 6;
  gossip_max = 6;
  seeds = addr 7002 ∷ addr 7004 ∷ [];
  membership = known;
  interest = record (Interest.new 1 interest) { remote = (2, lobby_host) ∷ (3, lobby_host) ∷ [] };
  links = [];
  handles = links_of_two;
  deny = [];
  dial_backoff = [];
  down = false;
}

abbrev linked : MeshNode
linked = record alone { links = (2, 7) ∷ [] }

abbrev story : List Event
story =
    registered 7
    ∷ inbound 100 2 (plain FrameKind.membership (1 ∷ []))
    ∷ hosted (room (108 ∷ [])) true
    ∷ registered 8
    ∷ link_closed 110 2
    ∷ relays (2 ∷ []) relay_room true [] (9 ∷ [])
    ∷ interests
    ∷ healed
    ∷ []

abbrev later : List Event
later = link_closed 120 3 ∷ gossips ∷ partitioned (3 ∷ []) ∷ registered 9 ∷ []

first_up : lookup 2 (happen_all (registered 7 ∷ []) alone).links ≡ some 7
unfolding happen_all happen register join_over send_to send_interest lookup contains insert
    establish
first_up = refl

second_too :
    ((happen_all later (happen_all (registered 7 ∷ []) alone)).handles 8).negotiated.peer_node_id
    ≡ 2
unfolding happen_all set_partition gossip_round contains lookup insert establish remove
second_too = refl

happen_all-one_link_example :
    let last = happen_all later (happen_all (registered 7 ∷ []) alone) in
    let after = register 8 last in
    ((last.handles 7).negotiated.peer_node_id ≡ 2)
    × (lookup 2 last.links ≡ some 7)
    × (after.links ≡ last.links)
    × (after.handles 7 ≡ last.handles 7)
    × (after.handles 8 ≡ close (last.handles 8))
unfolding all_open stays_open
happen_all-one_link_example =
    happen_all-one_link (registered 7 ∷ []) later alone 2 7 8 refl first_up refl second_too
      (omega arith)

two_held : lookup (linked.handles 8).negotiated.peer_node_id linked.links ≡ some 7
unfolding lookup establish
two_held = refl

register-on_link_closed_example :
    let peer = (linked.handles 8).negotiated.peer_node_id in
    let after = on_link_closed 110 peer (register 8 linked) in
    (lookup peer after.links ≡ none)
    × (after.membership ≡ (mark_suspect linked.membership peer linked.retransmit 110).0)
    × ((frame : Frame) → send_frame peer frame after ≡ after)
    × (after.handles 7 ≡ linked.handles 7)
    × (after.handles 8 ≡ close (linked.handles 8))
register-on_link_closed_example = register-on_link_closed 110 linked 7 8 refl (omega arith) two_held

dial_targets_lem_example :
    (contains (addr 7004) (dial_targets linked) ≡ true
      → IsSeed linked (addr 7004) ⊎ IsLower linked (addr 7004))
    × (IsSeed linked (addr 7004) ⊎ IsLower linked (addr 7004)
        → contains (addr 7004) (dial_targets linked) ≡ true)
dial_targets_lem_example = dial_targets_lem linked (addr 7004)
