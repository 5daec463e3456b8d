-- ===== src/Mesh/Interest/Tests.antt =====
-- Concrete runs of the interest table.
use beam_socket.Prelude.{◌≡◌, Bool, true, false, List, [], ◌∷◌, arith}
use beam_socket.Mesh.Interest.{
  Target, room, user, interest, flood, OriginInterest, InterestState, new,
}
use beam_socket.Mesh.Interest.Edges.{view, publish, new-publish_mirrors}
use beam_socket.Mesh.Interest.Routing.{has, interested_peers}
use beam_socket.Mesh.Interest.Routing.Targets.{is_relayed, interested_peers_lem}

abbrev lobby : Target
lobby = room (108 ∷ [])

abbrev changes : List (Target × Bool)
changes = (lobby, true) ∷ (user (97 ∷ []), true) ∷ (lobby, false) ∷ []

new-publish_mirrors_example :
    view 1 (publish changes (new 1 interest) (new 2 flood)).1
    ≡ (publish changes (new 1 interest) (new 2 flood)).0.own
new-publish_mirrors_example =
    new-publish_mirrors changes 1 2 interest flood (omega arith) (omega arith)

abbrev lobby_host : OriginInterest
lobby_host = record { seq = 4; rooms = (108 ∷ []) ∷ []; users = [] }

abbrev router : InterestState
unfolding new
router = record (new 1 interest) { remote = (2, lobby_host) ∷ (3, lobby_host) ∷ [] }

interested_peers_lem_example :
    has 2 (interested_peers lobby (2 ∷ 4 ∷ []) router)
    ≡ is_relayed interest lobby (2 ∷ 4 ∷ []) router 2
unfolding router
interested_peers_lem_example =
    interested_peers_lem lobby (2 ∷ 4 ∷ []) router 2 ((omega arith, tt), (tt, tt))
