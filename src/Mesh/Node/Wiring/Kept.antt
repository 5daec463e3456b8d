-- ===== src/Mesh/Node/Wiring/Kept.antt =====
-- node.rs: a peer's link stays the peer's only link until it is closed.
use beam_socket.Prelude.{
  ℕ, ◌≡◌, ◌≢◌, ◌∙◌, sym, refl, ap, Bool, true, not, ◌&&◌, ◌||◌, none, some, List, [], ◌∷◌, arith,
  ◌==◌, ==→eq, Bool-cases, Option-cases, inl, inr,
}
use beam_socket.Prelude.Keys.{nat_key, contains}
use beam_socket.Prelude.Maps.{lookup, insert, lookup-insert, lookup-remove}
use beam_socket.Mesh.Link.{close}
use beam_socket.Mesh.Node.{
  MeshNode, on_link_closed, join_over, register, relay, no_report, send_to, send_interest, heal,
}
use beam_socket.Mesh.Node.Loops.{dial_ok, dial_fail}
use beam_socket.Mesh.Node.Race.{register_again}
use beam_socket.Mesh.Relay.{frame_kind, relay_bytes}
use beam_socket.Mesh.Node.Sends.{Sends, both, send_frame-Sends, close_link-Sends, relay_each-Sends}
use beam_socket.Mesh.Node.Sends.Handlers.{
  inbound-Sends, set_local_interest-Sends, set_partition-Sends, shut_down-Sends, gossip_round-Sends,
  digest_round-Sends, interest_round-Sends,
}
use beam_socket.Mesh.Node.Wiring.{
  Event, inbound, link_closed, registered, hosted, relays, partitioned, dialed, dial_failed, healed,
  stopped, gossips, digests, interests, happen, happen_all, all_kept, unlinked-IsWired,
}

-- No link to the peer closes.
unfoldable pub stays_open : ℕ → Event → Bool
stays_open peer (inbound now p frame) = true
stays_open peer (link_closed now p) = not (p == peer)
stays_open peer (registered handle) = true
stays_open peer (hosted target hosting) = true
stays_open peer (relays peers kind is_binary metadata payload) = true
stays_open peer (partitioned peers) = true
stays_open peer (dialed a) = true
stays_open peer (dial_failed now delay a) = true
stays_open peer healed = true
stays_open peer stopped = true
stays_open peer gossips = true
stays_open peer digests = true
stays_open peer interests = true

unfoldable pub all_open : ℕ → List Event → Bool
all_open peer [] = true
all_open peer (e ∷ es) = stays_open peer e && all_open peer es

module _ (peer held : ℕ) where
  Sends-held :
      {n n' : MeshNode}
      → Sends n n'
      → lookup peer n.links ≡ some held
      → lookup peer n'.links ≡ some held
  Sends-held s h = ap (lookup peer) s.links ∙ h

  register-held :
      (handle : ℕ) (n : MeshNode)
      → lookup peer n.links ≡ some held
      → lookup peer (register handle n).links ≡ some held
  unfolding register join_over send_to send_interest
  register-held handle n h =
      let other = (n.handles handle).negotiated.peer_node_id in
      let turned_away = Sends-held (close_link-Sends handle n) h in
      let linked : MeshNode = record n { links = insert other handle n.links } in
      elim (Bool-cases (n.down || contains other n.deny)) [
        | inl e ↦ rw (register, e) turned_away
        | inr e ↦ elim (Option-cases (lookup other n.links)) [
          | inr (first, k) ↦ rw (register, e, k) turned_away
          | inl k ↦ elim (Bool-cases (other == peer)) [
            | inl d ↦
                let same : none ≡ some held =
                  sym k ∙ ap (λ p. lookup p n.links) (==→eq other peer d) ∙ h in
                cc same
            | inr d ↦
                rw (register, e, k)
                  (Sends-held (both (send_frame-Sends other _ linked) (send_frame-Sends other _ _))
                    (ground (arith, lookup-insert other peer handle n.links, d, h)))
          ]
        ]
      ]

  closed-held :
      (now p : ℕ) (n : MeshNode)
      → not (p == peer) ≡ true
      → lookup peer n.links ≡ some held
      → lookup peer (on_link_closed now p n).links ≡ some held
  unfolding on_link_closed
  closed-held now p n other h = ground (arith, lookup-remove p peer n.links, other, h)

  happen-held :
      (e : Event) (n : MeshNode)
      → stays_open peer e ≡ true
      → lookup peer n.links ≡ some held
      → lookup peer (happen e n).links ≡ some held
  unfolding happen stays_open relay heal dial_ok dial_fail
  happen-held (inbound now p frame) n u h = Sends-held (inbound-Sends now p frame n) h
  happen-held (link_closed now p) n u h = closed-held now p n u h
  happen-held (registered handle) n u h = register-held handle n h
  happen-held (hosted target hosting) n u h =
      Sends-held (set_local_interest-Sends target hosting n) h
  happen-held (relays peers kind is_binary metadata payload) n u h =
      Sends-held
        (relay_each-Sends (frame_kind kind) (relay_bytes kind is_binary metadata payload) peers n
          no_report)
        h
  happen-held (partitioned peers) n u h = Sends-held (set_partition-Sends peers n) h
  happen-held (dialed a) n u h = h
  happen-held (dial_failed now delay a) n u h = h
  happen-held healed n u h = h
  happen-held stopped n u h = Sends-held (shut_down-Sends n) h
  happen-held gossips n u h = Sends-held (gossip_round-Sends n) h
  happen-held digests n u h = Sends-held (digest_round-Sends n) h
  happen-held interests n u h = Sends-held (interest_round-Sends n) h

  happen_all-held :
      (es : List Event) (n : MeshNode)
      → all_open peer es ≡ true
      → lookup peer n.links ≡ some held
      → lookup peer (happen_all es n).links ≡ some held
  unfolding happen_all all_open
  happen_all-held [] n u h = h
  happen_all-held (e ∷ es) n u h =
      happen_all-held es (happen e n) (ground (arith, u)) (happen-held e n (ground (arith, u)) h)

-- Whatever happens to a node without links, in whatever order: the link that it sends to a peer on was
-- negotiated with that peer; and whatever happens next, other than that a link to the peer closes, this link
-- stays the one that the node sends to the peer on, and any other link to the peer that comes up is closed
-- and leaves the map of links and this link as they are.
pub happen_all-one_link :
    (es later : List Event) (n : MeshNode) (peer held second : ℕ)
    → n.links ≡ []
    → lookup peer (happen_all es n).links ≡ some held
    → all_open peer later ≡ true
    → ((happen_all later (happen_all es n)).handles second).negotiated.peer_node_id ≡ peer
    → held ≢ second
    → let last = happen_all later (happen_all es n) in
      let after = register second last in
      ((last.handles held).negotiated.peer_node_id ≡ peer)
      × (lookup peer last.links ≡ some held)
      × (after.links ≡ last.links)
      × (after.handles held ≡ last.handles held)
      × (after.handles second ≡ close (last.handles second))
happen_all-one_link es later n peer held second fresh linked u to_peer other =
    let first = happen_all es n in
    let last = happen_all later first in
    let wired = all_kept later first (all_kept es n (unlinked-IsWired n fresh)) in
    let kept = happen_all-held peer held later first u linked in
    rw (register_again last held second (ap (λ p. lookup p last.links) to_peer ∙ kept))
      (wired.to_peer peer held kept, kept, refl, ground (arith, other), ground arith)
