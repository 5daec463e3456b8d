-- ===== src/Core/Engine/Closing.antt =====
-- engine.rs: the rooms that `admin_close_room` closes.
use beam_socket.Prelude.{ℕ, ◌≡◌, refl, true, false, none, some, [], ◌∷◌, Option-cases, inl, inr}
use beam_socket.Prelude.Bytes.{Bytes}
use beam_socket.Mesh.Interest
use beam_socket.Core.Rooms
use beam_socket.Core.Registry
use beam_socket.Core.Ids
use beam_socket.Core.Engine
use beam_socket.Core.Engine.Calls
use beam_socket.Prelude.Maps
use beam_socket.Prelude.Keys
use beam_socket.Core.Rooms.{close_room}
use beam_socket.Core.Engine.{Node, new, admin_close_room}
use beam_socket.Core.Engine.Hosting.{advertises, is_clustered, occupied, IsHosting}
use beam_socket.Core.Engine.Calls.{connects, joins, calls, calls-IsHosting}

pub new-IsHosting :
    (self_id max_rooms : ℕ) (routing : Interest.RoutingMode)
    → IsHosting (new (some (Interest.new self_id routing)) max_rooms)
unfolding new advertises Rooms.new Rooms.member_count Interest.hosts Interest.new Interest.mem
new-IsHosting self_id max_rooms routing = λ d q. refl

-- Closing a room withdraws no interest.
pub admin_close_room-advertises :
    (r q : Bytes) (n : Node) → advertises (admin_close_room r n).0 q ≡ advertises n q
unfolding admin_close_room advertises
admin_close_room-advertises r q n = elim (Option-cases (close_room r n.hub).1) [
  | inl e ↦ rw (admin_close_room, e) refl
  | inr (c, e) ↦ rw (admin_close_room, e) refl
]

abbrev lobby : Bytes
lobby = 108 ∷ []

abbrev hosting_node : Node
hosting_node =
    calls (connects 0 7 none ∷ joins 0 lobby ∷ []) (new (some (Interest.new 1 Interest.interest)) 0)

-- `admin_close_room` does not keep a node to advertising the rooms with members on it and no others: some
-- node that does so no longer does once one of its rooms is closed.
pub admin_close_room-stale :
    ¬ ((r : Bytes) (n : Node) → IsHosting n → IsHosting (admin_close_room r n).0)
unfolding calls Calls.call new admin_close_room advertises is_clustered Engine.join Engine.connect
    Engine.set_room_interest close_room Rooms.new Rooms.members Rooms.join Rooms.join_set
    Rooms.insert_member Rooms.info Rooms.member_count Rooms.leave Rooms.leave_all Rooms.leave_set
    Rooms.remove_member Rooms.unlink Rooms.reap Registry.new Registry.register
    Registry.next_generation Registry.with_rooms Registry.find Registry.put_entry Ids.new Ids.shard
    Ids.generation Ids.key Maps.lookup Maps.insert Keys.contains Keys.add Keys.del Interest.new
    Interest.hosts Interest.local_set Interest.put_target Interest.set_insert Interest.mem
admin_close_room-stale keeps =
    let hosting : IsHosting hosting_node =
      calls-IsHosting (connects 0 7 none ∷ joins 0 lobby ∷ [])
        (new (some (Interest.new 1 Interest.interest)) 0) (new-IsHosting 1 0 Interest.interest) in
    let after : advertises (admin_close_room lobby hosting_node).0 lobby
        ≡ occupied (admin_close_room lobby hosting_node).0 lobby =
      keeps lobby hosting_node hosting refl lobby in
    let told : advertises (admin_close_room lobby hosting_node).0 lobby ≡ true = refl in
    let left : occupied (admin_close_room lobby hosting_node).0 lobby ≡ false = refl in
    cc (after, told, left)
