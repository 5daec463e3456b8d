-- ===== src/Mesh/Node/Sends.antt =====
-- node.rs: what only sends on links, or closes them, keeps the map of links.
pub mod Handlers
use beam_socket.Prelude.{
  ℕ, ◌≡◌, ◌∙◌, refl, sym, ap, Bool, true, false, ◌||◌, Option, none, some, List, [], ◌∷◌, arith,
  ◌==◌, ==→eq, if◌then◌else◌, Bool-cases, Option-cases, inl, inr,
}
use beam_socket.Prelude.Bytes.{Bytes}
use beam_socket.Prelude.Keys.{nat_key, contains, write}
use beam_socket.Prelude.Maps.{
  Map, Distinct, lookup, insert, remove, lookup-insert, lookup-remove, insert-Distinct,
  remove-Distinct,
}
use beam_socket.Prelude.Results.{Result, ok, err}
use beam_socket.Mesh.Frame.{Frame, FrameKind}
use beam_socket.Mesh.Handshake.{Negotiated}
use beam_socket.Mesh.Link.{LinkHandle, try_send, try_send_encoded, close}
use beam_socket.Mesh.Sync.{MembershipMsg}
use beam_socket.Mesh.Interest.{Target, InterestSnapshot, InterestEdge}
use beam_socket.Mesh.Relay.{RelayKind}
use beam_socket.Mesh.Node.{
  MeshNode, send_on, send_frame, send_to, send_interest, send_snapshots, send_each, broadcast_frame,
  answer, on_membership, on_interest, on_interest_digest, on_kind, on_inbound, on_link_closed,
  close_link, join_over, register, publish, set_local_interest, relay_each, relay, RelaySendReport,
  close_all, set_partition, heal, shut_down, links_to,
}
use beam_socket.Mesh.Node.Loops.{gossip_round, digest_round, interest_round}

-- What only sends, or closes links, leaves the map of links and what each link negotiated.
pub record Sends (n n' : MeshNode) : Type 0 where
  pub links : n'.links ≡ n.links
  pub fixed : (x : ℕ) → (n'.handles x).negotiated ≡ (n.handles x).negotiated

pub nothing : (n : MeshNode) → Sends n n
nothing n = record { links = refl; fixed = λ x. refl }

pub both : {a b c : MeshNode} → Sends a b → Sends b c → Sends a c
both p q = record { links = q.links ∙ p.links; fixed = λ x. q.fixed x ∙ p.fixed x }

try_send_encoded_negotiated :
    (kind : FrameKind) (frame : Bytes) (h : LinkHandle)
    → (try_send_encoded kind frame h).0.negotiated ≡ h.negotiated
unfolding try_send_encoded
try_send_encoded_negotiated kind frame h = ground arith

write_fixed :
    (handle : ℕ) (h : LinkHandle) (handles : ℕ → LinkHandle)
    → h.negotiated ≡ (handles handle).negotiated
    → (x : ℕ) → (write handle h handles x).negotiated ≡ (handles x).negotiated
write_fixed handle h handles e x = elim (Bool-cases (handle == x)) [
  | inl d ↦ rw d (e ∙ ap (λ k. (handles k).negotiated) (==→eq handle x d))
  | inr d ↦ rw d refl
]

send_on-Sends : (handle : ℕ) (frame : Frame) (n : MeshNode) → Sends n (send_on handle frame n)
unfolding try_send
send_on-Sends handle frame n = record {
  links = refl;
  fixed =
      write_fixed handle (try_send frame (n.handles handle)).0 n.handles
        (try_send_encoded_negotiated frame.kind _ (n.handles handle));
}

pub send_frame-Sends : (peer : ℕ) (frame : Frame) (n : MeshNode) → Sends n (send_frame peer frame n)
unfolding send_frame
send_frame-Sends peer frame n = elim (Option-cases (lookup peer n.links)) [
  | inl e ↦ rw (send_frame, e) (nothing n)
  | inr (handle, e) ↦ rw (send_frame, e) (send_on-Sends handle frame n)
]

pub send_snapshots-Sends :
    (peer : ℕ) (ss : List InterestSnapshot) (n : MeshNode) → Sends n (send_snapshots peer ss n)
unfolding send_snapshots send_interest
send_snapshots-Sends peer [] n = nothing n
send_snapshots-Sends peer (s ∷ ss) n =
    both (send_frame-Sends peer _ n) (send_snapshots-Sends peer ss _)

pub send_each-Sends :
    (links : List (ℕ × ℕ)) (frame : Frame) (n : MeshNode) → Sends n (send_each links frame n)
send_each-Sends [] frame n = nothing n
send_each-Sends ((peer, handle) ∷ links) frame n =
    both (send_on-Sends handle frame n) (send_each-Sends links frame (send_on handle frame n))

pub close_link-Sends : (handle : ℕ) (n : MeshNode) → Sends n (close_link handle n)
unfolding close
close_link-Sends handle n = record {
  links = refl;
  fixed = write_fixed handle (close (n.handles handle)) n.handles refl;
}

pub close_all-Sends : (links : List (ℕ × ℕ)) (n : MeshNode) → Sends n (close_all links n)
close_all-Sends [] n = nothing n
close_all-Sends ((peer, handle) ∷ links) n =
    both (close_link-Sends handle n) (close_all-Sends links (close_link handle n))

pub relay_each-Sends :
    (kind : FrameKind) (frame : Bytes) (peers : List ℕ) (n : MeshNode) (r : RelaySendReport)
    → Sends n (relay_each kind frame peers n r).0
unfolding relay_each
relay_each-Sends kind frame [] n r = nothing n
relay_each-Sends kind frame (peer ∷ peers) n r = elim (Option-cases (lookup peer n.links)) [
  | inl e ↦ rw (relay_each, e) (relay_each-Sends kind frame peers n _)
  | inr (handle, e) ↦
      let sent : MeshNode = record n {
        handles = write handle (try_send_encoded kind frame (n.handles handle)).0 n.handles;
      } in
      let step : Sends n sent = record {
        links = refl;
        fixed =
            write_fixed handle (try_send_encoded kind frame (n.handles handle)).0 n.handles
              (try_send_encoded_negotiated kind frame (n.handles handle));
      } in
      rw (relay_each, e) (both step (relay_each-Sends kind frame peers sent _))
]
