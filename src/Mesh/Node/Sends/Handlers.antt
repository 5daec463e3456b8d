-- ===== src/Mesh/Node/Sends/Handlers.antt =====
-- node.rs: the handlers and the loops that only send.
use beam_socket.Prelude.{
  ℕ, refl, Bool, true, false, Option, none, some, List, if◌then◌else◌, Bool-cases, Option-cases,
  inl, inr,
}
use beam_socket.Prelude.Bytes.{Bytes}
use beam_socket.Prelude.Keys.{nat_key, contains}
use beam_socket.Mesh.Frame.{Frame, FrameKind}
use beam_socket.Mesh.Interest.{Target, local_set}
use beam_socket.Mesh.Interest
use beam_socket.Mesh.Interest.Codec
use beam_socket.Mesh.Interest.Repair.{respond_to_digest}
use beam_socket.Mesh.Swim.Gossip.{take_piggyback}
use beam_socket.Mesh.Sync.{MembershipMsg, apply}
use beam_socket.Mesh.Sync
use beam_socket.Mesh.Node.{
  MeshNode, alive_peer_ids, on_membership, on_interest, on_interest_digest, on_kind, on_inbound,
  publish, set_local_interest, answer, set_partition, shut_down, links_to, send_to, broadcast_frame,
}
use beam_socket.Mesh.Node.Loops.{sweep, keys, gossip_round, digest_round, interest_round}
use beam_socket.Mesh.Node.Sends.{
  Sends, nothing, both, send_frame-Sends, send_snapshots-Sends, send_each-Sends, close_all-Sends,
}

answer-Sends :
    (peer : ℕ) (resp : Option MembershipMsg) (n : MeshNode) → Sends n (answer peer resp n)
unfolding send_to
answer-Sends peer none n = nothing n
answer-Sends peer (some msg) n = send_frame-Sends peer _ n

on_membership-Sends :
    (now peer : ℕ) (body : Bytes) (n : MeshNode) → Sends n (on_membership now peer body n)
unfolding on_membership
on_membership-Sends now peer body n = elim (Option-cases (Sync.decode body)) [
  | inl e ↦ rw (on_membership, e) (nothing n)
  | inr (msg, e) ↦
      let res = apply msg n.membership n.retransmit now in
      let heard : MeshNode = record n { membership = res.0 } in
      let told : Sends n heard = record { links = refl; fixed = λ x. refl } in
      rw (on_membership, e) (both told (answer-Sends peer res.1 heard))
]

on_kind-Sends :
    (kind : FrameKind) (now peer : ℕ) (frame : Frame) (n : MeshNode)
    → Sends n (on_kind kind now peer frame n).0
unfolding on_kind on_interest on_interest_digest
on_kind-Sends FrameKind.membership now peer frame n = on_membership-Sends now peer frame.body n
on_kind-Sends FrameKind.interest now peer frame n = elim (Option-cases (Codec.decode frame.body)) [
  | inl e ↦ rw (on_interest, e) (nothing n)
  | inr (update, e) ↦ rw (on_interest, e) (record { links = refl; fixed = λ x. refl })
]
on_kind-Sends FrameKind.interest_digest now peer frame n =
    elim (Option-cases (Codec.decode_digest frame.body)) [
      | inl e ↦ rw (on_interest_digest, e) (nothing n)
      | inr (digest, e) ↦
          rw (on_interest_digest, e)
            (send_snapshots-Sends peer (respond_to_digest n.interest digest) n)
    ]
on_kind-Sends kind now peer frame n = nothing n

pub inbound-Sends :
    (now peer : ℕ) (frame : Frame) (n : MeshNode) → Sends n (on_inbound now peer frame n).0
unfolding on_inbound
inbound-Sends now peer frame n = elim (Bool-cases (contains peer n.deny)) [
  | inl e ↦ rw (on_inbound, e) (nothing n)
  | inr e ↦ rw (on_inbound, e) (on_kind-Sends frame.kind now peer frame n)
]

publish-Sends : (o : Option Interest.InterestEdge) (n : MeshNode) → Sends n (publish o n)
unfolding broadcast_frame
publish-Sends none n = nothing n
publish-Sends (some e) n = send_each-Sends n.links _ n

pub set_local_interest-Sends :
    (target : Target) (hosting : Bool) (n : MeshNode)
    → Sends n (set_local_interest target hosting n)
unfolding set_local_interest
set_local_interest-Sends target hosting n =
    let res = local_set target hosting n.interest in
    let noted : MeshNode = record n { interest = res.0 } in
    let told : Sends n noted = record { links = refl; fixed = λ x. refl } in
    both told (publish-Sends res.1 noted)

pub set_partition-Sends : (peers : List ℕ) (n : MeshNode) → Sends n (set_partition peers n)
unfolding set_partition
set_partition-Sends peers n =
    let closed = close_all-Sends (links_to peers n.links) n in
    record { links = closed.links; fixed = closed.fixed }

pub shut_down-Sends : (n : MeshNode) → Sends n (shut_down n)
unfolding shut_down
shut_down-Sends n =
    let stopped' : MeshNode = record n { down = true } in
    let told : Sends n stopped' = record { links = refl; fixed = λ x. refl } in
    both told (close_all-Sends n.links stopped')

if-Sends : (b : Bool) (n m : MeshNode) → Sends n m → Sends n (if b then n else m)
if-Sends true n m s = nothing n
if-Sends false n m s = s

pub gossip_round-Sends : (n : MeshNode) → Sends n (gossip_round n)
unfolding gossip_round broadcast_frame
gossip_round-Sends n =
    let quiet : MeshNode = record n { membership = (take_piggyback n.membership n.gossip_max).0 } in
    let told : Sends n quiet = record { links = refl; fixed = λ x. refl } in
    if-Sends n.down n _ (both told (send_each-Sends n.links _ quiet))

pub digest_round-Sends : (n : MeshNode) → Sends n (digest_round n)
unfolding digest_round broadcast_frame
digest_round-Sends n = if-Sends n.down n _ (send_each-Sends n.links _ n)

pub interest_round-Sends : (n : MeshNode) → Sends n (interest_round n)
unfolding interest_round broadcast_frame
interest_round-Sends n =
    let swept : MeshNode = record n {
      interest = sweep (alive_peer_ids n) (keys n.interest.remote) n.interest;
    } in
    let told : Sends n swept = record { links = refl; fixed = λ x. refl } in
    if-Sends n.down n _ (both told (send_each-Sends n.links _ swept))
