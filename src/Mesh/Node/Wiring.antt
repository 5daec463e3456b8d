-- ===== src/Mesh/Node/Wiring.antt =====
-- node.rs: the links of a node through all that happens to it.
pub mod Kept
use beam_socket.Prelude.{
  ℕ, ◌≡◌, ◌∙◌, sym, ap, Bool, true, false, ◌||◌, some, List, [], ◌∷◌, arith, ◌==◌, ==→eq,
  if◌then◌else◌, Bool-cases, Option-cases, inl, inr,
}
use beam_socket.Prelude.Bytes.{Bytes}
use beam_socket.Prelude.Keys.{nat_key, contains}
use beam_socket.Prelude.Maps.{
  Distinct, lookup, insert, remove, lookup-insert, lookup-remove, insert-Distinct, remove-Distinct,
  lookup-Fresh,
}
use beam_socket.Mesh.Addr.{SocketAddr}
use beam_socket.Mesh.Frame.{Frame}
use beam_socket.Mesh.Interest.{Target}
use beam_socket.Mesh.Swim.{mark_suspect}
use beam_socket.Mesh.Relay.{RelayKind, frame_kind, relay_bytes}
use beam_socket.Mesh.Node.{
  MeshNode, on_inbound, on_link_closed, join_over, register, set_local_interest, relay, no_report,
  set_partition, heal, shut_down, send_to, send_interest,
}
use beam_socket.Mesh.Node.Loops.{gossip_round, digest_round, interest_round, dial_ok, dial_fail}
use beam_socket.Mesh.Node.Sends.{Sends, both, send_frame-Sends, close_link-Sends, relay_each-Sends}
use beam_socket.Mesh.Node.Sends.Handlers.{
  inbound-Sends, set_local_interest-Sends, set_partition-Sends, shut_down-Sends, gossip_round-Sends,
  digest_round-Sends, interest_round-Sends,
}

-- What happens to a node.
pub data Event : Type 0 where
  inbound : ℕ → ℕ → Frame → Event
  link_closed : ℕ → ℕ → Event
  registered : ℕ → Event
  hosted : Target → Bool → Event
  relays : List ℕ → RelayKind → Bool → Bytes → Bytes → Event
  partitioned : List ℕ → Event
  dialed : SocketAddr → Event
  dial_failed : ℕ → (ℕ → ℕ) → SocketAddr → Event
  healed stopped gossips digests interests : Event

unfoldable pub happen : Event → MeshNode → MeshNode
unfolding on_inbound on_link_closed register set_local_interest relay
happen (inbound now peer frame) n = (on_inbound now peer frame n).0
happen (link_closed now peer) n = on_link_closed now peer n
happen (registered handle) n = register handle n
happen (hosted target hosting) n = set_local_interest target hosting n
happen (relays peers kind is_binary metadata payload) n =
    (relay peers kind is_binary metadata payload n).0
happen (partitioned peers) n = set_partition peers n
happen (dialed a) n = dial_ok a n
happen (dial_failed now delay a) n = dial_fail now delay a n
happen healed n = heal n
happen stopped n = shut_down n
happen gossips n = gossip_round n
happen digests n = digest_round n
happen interests n = interest_round n

unfoldable pub happen_all : List Event → MeshNode → MeshNode
unfolding happen
happen_all [] n = n
happen_all (e ∷ es) n = happen_all es (happen e n)

-- The map has one entry for a peer, and the link there was negotiated with that peer.
pub record IsWired (n : MeshNode) : Type 0 where
  pub distinct : Distinct n.links
  pub to_peer :
      (peer handle : ℕ)
      → lookup peer n.links ≡ some handle
      → (n.handles handle).negotiated.peer_node_id ≡ peer

Sends-IsWired : {n n' : MeshNode} → Sends n n' → IsWired n → IsWired n'
Sends-IsWired s w = record {
  distinct = rw s.links w.distinct;
  to_peer = λ peer handle e.
      ap (λ k. k.peer_node_id) (s.fixed handle)
      ∙ w.to_peer peer handle (ap (lookup peer) (sym s.links) ∙ e);
}

removed-IsWired :
    (peer : ℕ) (n : MeshNode) → IsWired n → IsWired (record n { links = remove peer n.links })
removed-IsWired peer n w = record {
  distinct = remove-Distinct peer n.links w.distinct;
  to_peer = λ p handle e. w.to_peer p handle (ground (arith, lookup-remove peer p n.links, e));
}

link_closed-IsWired :
    (now peer : ℕ) (n : MeshNode) → IsWired n → IsWired (on_link_closed now peer n)
unfolding on_link_closed
link_closed-IsWired now peer n w =
    let unlinked : MeshNode = record n { links = remove peer n.links } in
    let kept = removed-IsWired peer n w in
    let doubted : IsWired
        (record unlinked { membership = (mark_suspect n.membership peer n.retransmit now).0 }) =
      record { distinct = kept.distinct; to_peer = kept.to_peer } in
    either n.down _ _ kept doubted
  where
    either : (b : Bool) (x y : MeshNode) → IsWired x → IsWired y → IsWired (if b then x else y)
    either true x y p q = p
    either false x y p q = q

linked-IsWired :
    (handle : ℕ) (n : MeshNode)
    → IsWired n
    → IsWired
        (record n { links = insert (n.handles handle).negotiated.peer_node_id handle n.links })
linked-IsWired handle n w =
    let peer = (n.handles handle).negotiated.peer_node_id in
    record {
      distinct = insert-Distinct peer handle n.links w.distinct;
      to_peer = λ p held e. elim (Bool-cases (peer == p)) [
        | inl d ↦
            let same : handle ≡ held = ground (arith, lookup-insert peer p handle n.links, e, d) in
            rw (← same) (==→eq peer p d)
        | inr d ↦ w.to_peer p held (ground (arith, lookup-insert peer p handle n.links, e, d))
      ];
    }

register-IsWired : (handle : ℕ) (n : MeshNode) → IsWired n → IsWired (register handle n)
unfolding register join_over send_to send_interest
register-IsWired handle n w =
    let peer = (n.handles handle).negotiated.peer_node_id in
    let turned_away = Sends-IsWired (close_link-Sends handle n) w in
    let linked : MeshNode = record n { links = insert peer handle n.links } in
    elim (Bool-cases (n.down || contains peer n.deny)) [
      | inl e ↦ rw (register, e) turned_away
      | inr e ↦ elim (Option-cases (lookup peer n.links)) [
        | inr (held, k) ↦ rw (register, e, k) turned_away
        | inl k ↦
            rw (register, e, k)
              (Sends-IsWired (both (send_frame-Sends peer _ linked) (send_frame-Sends peer _ _))
                (linked-IsWired handle n w))
      ]
    ]

happen-IsWired : (e : Event) (n : MeshNode) → IsWired n → IsWired (happen e n)
unfolding happen relay heal dial_ok dial_fail
happen-IsWired (inbound now peer frame) n w = Sends-IsWired (inbound-Sends now peer frame n) w
happen-IsWired (link_closed now peer) n w = link_closed-IsWired now peer n w
happen-IsWired (registered handle) n w = register-IsWired handle n w
happen-IsWired (hosted target hosting) n w =
    Sends-IsWired (set_local_interest-Sends target hosting n) w
happen-IsWired (relays peers kind is_binary metadata payload) n w =
    Sends-IsWired
      (relay_each-Sends (frame_kind kind) (relay_bytes kind is_binary metadata payload) peers n
        no_report)
      w
happen-IsWired (partitioned peers) n w = Sends-IsWired (set_partition-Sends peers n) w
happen-IsWired (dialed a) n w = record { distinct = w.distinct; to_peer = w.to_peer }
happen-IsWired (dial_failed now delay a) n w = record { distinct = w.distinct; to_peer = w.to_peer }
happen-IsWired healed n w = record { distinct = w.distinct; to_peer = w.to_peer }
happen-IsWired stopped n w = Sends-IsWired (shut_down-Sends n) w
happen-IsWired gossips n w = Sends-IsWired (gossip_round-Sends n) w
happen-IsWired digests n w = Sends-IsWired (digest_round-Sends n) w
happen-IsWired interests n w = Sends-IsWired (interest_round-Sends n) w

pub all_kept : (es : List Event) (n : MeshNode) → IsWired n → IsWired (happen_all es n)
unfolding happen_all
all_kept [] n w = w
all_kept (e ∷ es) n w = all_kept es (happen e n) (happen-IsWired e n w)

pub unlinked-IsWired : (n : MeshNode) → n.links ≡ [] → IsWired n
unlinked-IsWired n fresh = record {
  distinct = rw fresh tt;
  to_peer = λ peer handle e. absurd (cc (e, lookup-Fresh peer n.links (rw fresh tt)));
}
