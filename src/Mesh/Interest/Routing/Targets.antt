-- ===== src/Mesh/Interest/Routing/Targets.antt =====
-- interest.rs: who `interested_peers` names.
use beam_socket.Prelude.{
  ℕ, ◌≡◌, ◌∙◌, refl, ap, Bool, false, not, ◌&&◌, ◌||◌, Option, none, some, List, [], ◌∷◌, ◌==◌,
  ==→eq, arith, Bool-cases, inl, inr,
}
use beam_socket.Prelude.Maps.{Map, lookup, Distinct, lookup-Fresh}
use beam_socket.Mesh.Interest.{
  Target, RoutingMode, interest, flood, OriginInterest, hosts, InterestState,
}
use beam_socket.Mesh.Interest.Routing.{
  has, insert_id, sort, others, hosting, peers_by, interested_peers,
}

has-insert_id : (k id : ℕ) (js : List ℕ) → has k (insert_id id js) ≡ (id == k || has k js)
unfolding has insert_id
has-insert_id k id [] = refl
has-insert_id k id (j ∷ js) = ground (arith, has-insert_id k id js)

has-sort : (k : ℕ) (js : List ℕ) → has k (sort js) ≡ has k js
unfolding has sort
has-sort k [] = refl
has-sort k (j ∷ js) = has-insert_id k j (sort js) ∙ ap (λ b. j == k || b) (has-sort k js)

has-others :
    (k self_id : ℕ) (js : List ℕ) → has k (others self_id js) ≡ (not (k == self_id) && has k js)
unfolding has others
has-others k self_id [] = ground arith
has-others k self_id (j ∷ js) = ground (arith, has-others k self_id js)

abbrev hosts_some : Option OriginInterest → Target → Bool
hosts_some none target = false
hosts_some (some o) target = hosts o target

has-hosting :
    (k : ℕ) (target : Target) (reachable : List ℕ) (remote : Map OriginInterest)
    → Distinct remote
    → has k (hosting target reachable remote)
      ≡ (has k reachable && hosts_some (lookup k remote) target)
unfolding has hosting lookup
has-hosting k target reachable [] d = ground arith
has-hosting k target reachable ((id, o) ∷ remote) d = elim (Bool-cases (id == k)) [
  | inl e ↦
      let at : id ≡ k = ==→eq id k e in
      let gone : lookup k remote ≡ none = rw (← at) (lookup-Fresh id remote d.0) in
      ground (arith, e, gone, has-hosting k target reachable remote d.1)
  | inr e ↦ ground (arith, e, has-hosting k target reachable remote d.1)
]

-- Whether a relay for the target has to go to a node.
pub is_relayed : RoutingMode → Target → List ℕ → InterestState → ℕ → Bool
is_relayed flood target reachable s k = not (k == s.self_id) && has k reachable
is_relayed interest target reachable s k = has k reachable && hosts_some (lookup k s.remote) target

peers_by_lem :
    (mode : RoutingMode) (target : Target) (reachable : List ℕ) (s : InterestState) (k : ℕ)
    → Distinct s.remote
    → has k (peers_by mode target reachable s) ≡ is_relayed mode target reachable s k
unfolding peers_by is_relayed
peers_by_lem flood target reachable s k d =
    has-sort k (others s.self_id reachable) ∙ has-others k s.self_id reachable
peers_by_lem interest target reachable s k d =
    has-sort k (hosting target reachable s.remote) ∙ has-hosting k target reachable s.remote d

-- When the table has one entry for an origin, a relay goes to exactly these nodes: with interest
-- routing, the reachable ones whose entry hosts the target; with flooding, the reachable ones other than
-- the node itself.
pub interested_peers_lem :
    (target : Target) (reachable : List ℕ) (s : InterestState) (k : ℕ)
    → Distinct s.remote
    → has k (interested_peers target reachable s) ≡ is_relayed s.routing target reachable s k
unfolding interested_peers
interested_peers_lem target reachable s k d = peers_by_lem s.routing target reachable s k d
