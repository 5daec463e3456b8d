-- ===== src/Mesh/Node/Sweep.antt =====
-- node.rs: the sweep of the interest loop.
use beam_socket.Prelude.{
  ℕ, ◌≡◌, ◌∙◌, refl, ap, Bool, true, false, not, ◌&&◌, none, List, [], ◌∷◌, arith, if◌then◌else◌,
  Bool-cases, inl, inr, ◌==◌, ==→eq,
}
use mathlib.Core.Path.{subst}
use beam_socket.Prelude.Keys.{nat_key, contains}
use beam_socket.Prelude.Maps.{Map, lookup, lookup-remove}
use beam_socket.Mesh.Interest.{InterestState, sweep_origin}
use beam_socket.Mesh.Interest.Repair
use beam_socket.Mesh.Interest.Codec.{encode_digest}
use beam_socket.Mesh.Frame.{Frame, FrameKind}
use beam_socket.Mesh.Handshake.{plain}
use beam_socket.Mesh.Node.{MeshNode, send_on, alive_peer_ids, broadcast_frame, send_each}
use beam_socket.Mesh.Node.Loops.{keys, sweep, interest_round}

if_false : {A : Type 0} (b : Bool) (x y : A) → b ≡ false → (if b then x else y) ≡ y
if_false true x y e = absurd (cc e)
if_false false x y e = refl

-- What a sweep of these origins leaves of an entry.
sweep_lem :
    (reachable ids : List ℕ) (s : InterestState) (id : ℕ)
    → lookup id (sweep reachable ids s).remote
      ≡ (if contains id ids && not (contains id reachable) then none else lookup id s.remote)
unfolding sweep contains sweep_origin
sweep_lem reachable [] s id = refl
sweep_lem reachable (k ∷ ids) s id = elim (Bool-cases (contains k reachable)) [
  | inl e ↦
      let kept = sweep_lem reachable ids s id in
      let same : (k == id) ≡ true → contains id reachable ≡ true =
        λ d. subst (λ j. contains j reachable ≡ true) (==→eq k id d) e in
      rw (sweep, e) (ground (arith, kept, same))
  | inr e ↦
      let swept = sweep_lem reachable ids (sweep_origin k s) id in
      let same : (k == id) ≡ true → contains id reachable ≡ false =
        λ d. subst (λ j. contains j reachable ≡ false) (==→eq k id d) e in
      rw (sweep, e) (ground (arith, swept, same, lookup-remove k id s.remote))
]

lookup-keys : {V : Type 0} (id : ℕ) (m : Map V) → contains id (keys m) ≡ false → lookup id m ≡ none
unfolding keys contains lookup
lookup-keys id [] e = refl
lookup-keys id ((k, v) ∷ m) e = ground (arith, lookup-keys id m)

send_each-interest :
    (links : List (ℕ × ℕ)) (frame : Frame) (n : MeshNode)
    → (send_each links frame n).interest ≡ n.interest
send_each-interest [] frame n = refl
send_each-interest ((peer, handle) ∷ links) frame n =
    send_each-interest links frame (send_on handle frame n)

-- After a round of the interest loop of a running node, exactly the entries of peers that are alive in the
-- table of members are left, as they were.
pub interest_round-remote :
    (n : MeshNode) (id : ℕ)
    → n.down ≡ false
    → lookup id (interest_round n).interest.remote
      ≡ (if contains id (alive_peer_ids n) then lookup id n.interest.remote else none)
unfolding interest_round broadcast_frame
interest_round-remote n id running =
    let reachable = alive_peer_ids n in
    let swept = sweep reachable (keys n.interest.remote) n.interest in
    let frame = plain FrameKind.interest_digest (encode_digest (Repair.build_digest swept)) in
    ap (λ (m : MeshNode). lookup id m.interest.remote) (if_false n.down n _ running)
    ∙ ap (λ (s : InterestState). lookup id s.remote)
        (send_each-interest n.links frame (record n { interest = swept }))
    ∙ sweep_lem reachable (keys n.interest.remote) n.interest id
    ∙ ground (arith, lookup-keys id n.interest.remote)
