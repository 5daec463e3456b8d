-- ===== src/Mesh/Node.antt =====
-- crates/mesh/src/node.rs: what a node does with the frames, the links and the calls that reach it. A link
-- handle is the number of the link's shared parts. Each method is one step, though it takes one lock after
-- another. The counters of the probe plane and the tasks are left out.
pub mod Loops
pub mod Race
pub mod Relays
pub mod Dialing
pub mod Sweep
pub mod Sends
pub mod Wiring
mod Tests
use Prim.Native.Nat.{bit_and}
use beam_socket.Prelude.{
  ℕ, suc, ◌+◌, Bool, true, false, not, ◌&&◌, ◌||◌, Option, none, some, List, [], ◌∷◌, ◌++◌,
  if◌then◌else◌, bytes_eq, ◌==◌,
}
use beam_socket.Prelude.Bytes.{Bytes}
use beam_socket.Prelude.Keys.{nat_key, contains, write}
use beam_socket.Prelude.Maps.{Map, lookup, insert, remove}
use beam_socket.Prelude.Results.{Result, ok, err}
use beam_socket.Mesh.Addr.{SocketAddr}
use beam_socket.Mesh.Frame.{Frame, FrameKind}
use beam_socket.Mesh.Handshake.{plain}
use beam_socket.Mesh.Link.{LinkHandle, try_send, try_send_encoded, close, has_flag}
use beam_socket.Mesh.Queue.{PushOutcome, enqueued, dropped}
use beam_socket.Mesh.Swim.Types.{MState, alive, is_state, Update, Membership, full_state, table}
use beam_socket.Mesh.Swim.{mark_suspect}
use beam_socket.Mesh.Sync.{MembershipMsg, sync}
use beam_socket.Mesh.Sync
use beam_socket.Mesh.Interest.{
  Target, RoutingMode, InterestState, InterestSnapshot, InterestEdge, local_set, apply_edge,
  apply_snapshot, set_routing,
}
use beam_socket.Mesh.Interest.Codec.{InterestUpdate, edge, snapshot, decode_digest}
use beam_socket.Mesh.Interest.Codec
use beam_socket.Mesh.Interest.Repair.{local_snapshot, respond_to_digest}
use beam_socket.Mesh.Interest.Routing
use beam_socket.Mesh.Relay.{RelayKind, frame_kind, from_frame_kind, relay_bytes, binary}

-- `Inner`, with the shared parts of all links; a time of `dial_backoff` is when the next dial may be.
pub record MeshNode : Type 0 where
  pub self_id : ℕ
  pub addr : SocketAddr
  pub retransmit : ℕ
  pub gossip_max : ℕ
  pub seeds : List SocketAddr
  pub membership : Membership
  pub interest : InterestState
  pub links : Map ℕ
  pub handles : ℕ → LinkHandle
  pub deny : List ℕ
  pub dial_backoff : List (SocketAddr × ℕ × ℕ)
  pub down : Bool

-- The arguments of a call of the relay handler.
pub record Relayed : Type 0 where
  pub kind : RelayKind
  pub is_binary : Bool
  pub body : Bytes

unfoldable pub alive_ids : List Update → List ℕ
alive_ids [] = []
alive_ids (u ∷ us) = let rest = alive_ids us in if is_state alive u.state then u.id ∷ rest else rest

unfoldable pub alive_peer_ids : MeshNode → List ℕ
unfolding alive_ids
alive_peer_ids n = alive_ids (table n.membership)

abbrev pub send_on : ℕ → Frame → MeshNode → MeshNode
send_on handle frame n = record n {
  handles = write handle (try_send frame (n.handles handle)).0 n.handles;
}

unfoldable pub send_frame : ℕ → Frame → MeshNode → MeshNode
send_frame peer frame n = elim (lookup peer n.links) [
  | none ↦ n
  | some handle ↦ send_on handle frame n
]

unfoldable pub send_to : ℕ → MembershipMsg → MeshNode → MeshNode
unfolding send_frame
send_to peer msg n = send_frame peer (plain FrameKind.membership (Sync.encode msg)) n

unfoldable pub send_interest : ℕ → InterestUpdate → MeshNode → MeshNode
unfolding send_frame
send_interest peer update n = send_frame peer (plain FrameKind.interest (Codec.encode update)) n

unfoldable pub send_snapshots : ℕ → List InterestSnapshot → MeshNode → MeshNode
unfolding send_interest
send_snapshots peer [] n = n
send_snapshots peer (s ∷ ss) n = send_snapshots peer ss (send_interest peer (snapshot s) n)

abbrev pub send_each : List (ℕ × ℕ) → Frame → MeshNode → MeshNode
send_each [] frame n = n
send_each ((peer, handle) ∷ links) frame n = send_each links frame (send_on handle frame n)

unfoldable pub broadcast_frame : Frame → MeshNode → MeshNode
broadcast_frame frame n = send_each n.links frame n

abbrev pub answer : ℕ → Option MembershipMsg → MeshNode → MeshNode
answer peer none n = n
answer peer (some resp) n = send_to peer resp n

unfoldable pub on_membership : ℕ → ℕ → Bytes → MeshNode → MeshNode
unfolding send_to
on_membership now peer body n = elim (Sync.decode body) [
  | none ↦ n
  | some msg ↦
      (let (m, resp) = Sync.apply msg n.membership n.retransmit now in
        answer peer resp (record n { membership = m }))
]

abbrev pub apply_update : InterestUpdate → InterestState → InterestState
apply_update (edge e) s = (apply_edge e s).0
apply_update (snapshot snap) s = (apply_snapshot snap s).0

unfoldable pub on_interest : Bytes → MeshNode → MeshNode
on_interest body n = elim (Codec.decode body) [
  | none ↦ n
  | some update ↦ record n { interest = apply_update update n.interest }
]

unfoldable pub on_interest_digest : ℕ → Bytes → MeshNode → MeshNode
unfolding send_snapshots
on_interest_digest peer body n = elim (decode_digest body) [
  | none ↦ n
  | some digest ↦ send_snapshots peer (respond_to_digest n.interest digest) n
]

abbrev pub relayed : Option RelayKind → Frame → Option Relayed
relayed none frame = none
relayed (some kind) frame =
    some (record { kind = kind; is_binary = has_flag frame.flags binary; body = frame.body })

-- The `match` on the kind, for a node with a relay handler, and how the handler is called.
unfoldable pub on_kind : FrameKind → ℕ → ℕ → Frame → MeshNode → MeshNode × Option Relayed
unfolding on_membership on_interest on_interest_digest from_frame_kind
on_kind FrameKind.membership now peer frame n = (on_membership now peer frame.body n, none)
on_kind FrameKind.interest now peer frame n = (on_interest frame.body n, none)
on_kind FrameKind.interest_digest now peer frame n = (on_interest_digest peer frame.body n, none)
on_kind kind now peer frame n = (n, relayed (from_frame_kind kind) frame)

unfoldable pub on_inbound : ℕ → ℕ → Frame → MeshNode → MeshNode × Option Relayed
unfolding on_kind
on_inbound now peer frame n =
    if contains peer n.deny then (n, none) else on_kind frame.kind now peer frame n

unfoldable pub on_link_closed : ℕ → ℕ → MeshNode → MeshNode
on_link_closed now peer n =
    let unlinked : MeshNode = record n { links = remove peer n.links } in
    if n.down
    then unlinked
    else record unlinked { membership = (mark_suspect n.membership peer n.retransmit now).0 }

abbrev pub close_link : ℕ → MeshNode → MeshNode
close_link handle n = record n { handles = write handle (close (n.handles handle)) n.handles }

-- The push and pull over a link that is up.
unfoldable pub join_over : ℕ → MeshNode → MeshNode
unfolding send_to send_interest
join_over peer n =
    send_interest peer (snapshot (local_snapshot n.interest))
      (send_to peer (sync true (full_state n.membership)) n)

unfoldable pub register : ℕ → MeshNode → MeshNode
unfolding join_over
register handle n =
    let peer = (n.handles handle).negotiated.peer_node_id in
    if n.down || contains peer n.deny then close_link handle n else elim (lookup peer n.links) [
      | some held ↦ close_link handle n
      | none ↦ join_over peer (record n { links = insert peer handle n.links })
    ]

abbrev pub publish : Option InterestEdge → MeshNode → MeshNode
publish none n = n
publish (some e) n = broadcast_frame (plain FrameKind.interest (Codec.encode (edge e))) n

unfoldable pub set_local_interest : Target → Bool → MeshNode → MeshNode
unfolding broadcast_frame
set_local_interest target hosting n =
    let (s, made) = local_set target hosting n.interest in publish made (record n { interest = s })

unfoldable pub interested_peers : Target → MeshNode → List ℕ
unfolding alive_peer_ids
interested_peers target n = Routing.interested_peers target (alive_peer_ids n) n.interest

pub record RelaySendReport : Type 0 where
  pub sent : ℕ
  pub drops : ℕ
  pub suppressed : ℕ
  pub no_link : ℕ

abbrev pub no_report : RelaySendReport
no_report = record { sent = 0; drops = 0; suppressed = 0; no_link = 0 }

abbrev pub count_send : Result FrameKind PushOutcome → RelaySendReport → RelaySendReport
count_send (ok enqueued) r = record r { sent = r.sent + 1 }
count_send (ok dropped) r = record r { drops = r.drops + 1 }
count_send (err kind) r = record r { suppressed = r.suppressed + 1 }

-- The loop of `relay`. A report counts fewer peers than 2^64.
unfoldable pub relay_each :
    FrameKind → Bytes → List ℕ → MeshNode → RelaySendReport → MeshNode × RelaySendReport
unfolding try_send_encoded
relay_each kind frame [] n r = (n, r)
relay_each kind frame (peer ∷ peers) n r = elim (lookup peer n.links) [
  | none ↦ relay_each kind frame peers n (record r { no_link = r.no_link + 1 })
  | some handle ↦
      (let (after, res) = try_send_encoded kind frame (n.handles handle) in
        relay_each kind frame peers (record n { handles = write handle after n.handles })
          (count_send res r))
]

unfoldable pub relay :
    List ℕ → RelayKind → Bool → Bytes → Bytes → MeshNode → MeshNode × RelaySendReport
unfolding relay_each frame_kind relay_bytes
relay peers kind is_binary metadata payload n =
    relay_each (frame_kind kind) (relay_bytes kind is_binary metadata payload) peers n no_report

abbrev pub close_all : List (ℕ × ℕ) → MeshNode → MeshNode
close_all [] n = n
close_all ((peer, handle) ∷ links) n = close_all links (close_link handle n)

unfoldable pub links_to : List ℕ → List (ℕ × ℕ) → List (ℕ × ℕ)
links_to peers [] = []
links_to peers ((peer, handle) ∷ links) =
    let rest = links_to peers links in if contains peer peers then (peer, handle) ∷ rest else rest

unfoldable pub set_partition : List ℕ → MeshNode → MeshNode
unfolding links_to
set_partition peers n = record (close_all (links_to peers n.links) n) { deny = peers }

unfoldable pub heal : MeshNode → MeshNode
heal n = record n { deny = []; dial_backoff = [] }

unfoldable pub shut_down : MeshNode → MeshNode
shut_down n = close_all n.links (record n { down = true })
