-- ===== src/Mesh/Interest/Routing.antt =====
-- interest.rs: `interested_peers`, the peers that a relay goes to.
pub mod Targets
use beam_socket.Prelude.{
  ℕ, Bool, true, false, not, ◌&&◌, ◌||◌, Option, none, some, List, [], ◌∷◌, leb, ◌==◌,
  if◌then◌else◌,
}
use beam_socket.Prelude.Maps.{Map}
use beam_socket.Mesh.Interest.{
  Target, RoutingMode, interest, flood, OriginInterest, hosts, InterestState,
}

-- `alive.contains(&id)`, for the set of reachable peers.
pub has : ℕ → List ℕ → Bool
has id [] = false
has id (j ∷ js) = j == id || has id js

insert_id : ℕ → List ℕ → List ℕ
insert_id id [] = id ∷ []
insert_id id (j ∷ js) = if leb id j then id ∷ j ∷ js else j ∷ insert_id id js

-- `sort_unstable`, on numbers.
sort : List ℕ → List ℕ
unfolding insert_id
sort [] = []
sort (id ∷ ids) = insert_id id (sort ids)

others : ℕ → List ℕ → List ℕ
others self_id [] = []
others self_id (j ∷ js) = if j == self_id then others self_id js else j ∷ others self_id js

hosting : Target → List ℕ → Map OriginInterest → List ℕ
hosting target reachable [] = []
hosting target reachable ((id, o) ∷ remote) =
    if has id reachable && hosts o target
    then id ∷ hosting target reachable remote
    else hosting target reachable remote

peers_by : RoutingMode → Target → List ℕ → InterestState → List ℕ
unfolding sort others hosting
peers_by flood target reachable s = sort (others s.self_id reachable)
peers_by interest target reachable s = sort (hosting target reachable s.remote)

pub interested_peers : Target → List ℕ → InterestState → List ℕ
unfolding peers_by
interested_peers target reachable s = peers_by s.routing target reachable s
