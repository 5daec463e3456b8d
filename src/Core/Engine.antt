-- ===== src/Core/Engine.antt =====
-- crates/core/src/engine.rs: the membership operations of a node and the interest that its mesh advertises.
-- A node in a cluster has the interest table of crates/mesh; each whole call is one step.
pub mod Hosting
pub mod Calls
pub mod Closing
mod Tests
use beam_socket.Prelude.{
  ℕ, ◌+◌, ◌%◌, ◌^◌, Bool, true, false, not, ◌&&◌, Option, none, some, List, [], ◌∷◌, ◌==◌,
  if◌then◌else◌, length,
}
use beam_socket.Prelude.Bytes.{Bytes}
use beam_socket.Prelude.Words.{add64, sub64}
use beam_socket.Mesh.Interest.{InterestState, room, user, local_set}
use beam_socket.Core.Identity
use beam_socket.Core.Identity.{UserMap, device_count}
use beam_socket.Core.Registry.{register, remove_full, user_of, get}
use beam_socket.Core.Rooms
use beam_socket.Core.Rooms.{
  Hub, MembershipChange, changed, no_op, not_found, limit_exceeded, is_changed, info,
  disconnect_cleanup, close_room, member_count, members,
}

pub record Node : Type 0 where
  pub hub : Hub
  pub users : UserMap
  pub cluster : Option InterestState
  pub max_rooms_per_connection : ℕ
  pub connections : ℕ
  pub admin_room_closes : ℕ

unfoldable pub new : Option InterestState → ℕ → Node
new cluster max_rooms = record {
  hub = Rooms.new;
  users = Identity.new;
  cluster = cluster;
  max_rooms_per_connection = max_rooms;
  connections = 0;
  admin_room_closes = 0;
}

-- `c.set_room_interest` and `c.set_user_interest`, where there is a cluster.
unfoldable pub set_room_interest : Bytes → Bool → Node → Node
set_room_interest r hosting n = elim n.cluster [
  | none ↦ n
  | some s ↦ record n { cluster = some (local_set (room r) hosting s).0 }
]

unfoldable pub set_user_interest : Bytes → Bool → Node → Node
set_user_interest u hosting n = elim n.cluster [
  | none ↦ n
  | some s ↦ record n { cluster = some (local_set (user u) hosting s).0 }
]

unfoldable pub join : ℕ → Bytes → Node → Node × MembershipChange
unfolding set_room_interest
join id r n =
    let (hub, change) = Rooms.join id r n.max_rooms_per_connection n.hub in
    let after : Node = record n { hub = hub } in
    (
      if is_changed change && (info r hub.rooms).members == 1
          then set_room_interest r true after
          else after,
      change,
    )

unfoldable pub leave : ℕ → Bytes → Node → Node × MembershipChange
unfolding set_room_interest
leave id r n =
    let (hub, change) = Rooms.leave id r n.hub in
    let after : Node = record n { hub = hub } in
    (
      if is_changed change && (info r hub.rooms).members == 0
          then set_room_interest r false after
          else after,
      change,
    )

unfoldable pub admin_close_room : Bytes → Node → Node × ℕ
admin_close_room r n =
    let (hub, removed) = close_room r n.hub in
    elim removed [
      | none ↦ (record n { hub = hub }, 0)
      | some count ↦
          (record n { hub = hub; admin_room_closes = add64 n.admin_room_closes 1 }, count)
    ]

-- `setup_connection` as far as `run_connection`.
unfoldable pub connect : ℕ → ℕ → Option Bytes → Node → Node × ℕ
unfolding set_user_interest
connect vacant handle user_id n =
    let (conns, id) = register vacant handle user_id n.hub.conns in
    let after : Node = record n {
      hub = record n.hub { conns = conns };
      connections = add64 n.connections 1;
    } in
    elim user_id [
      | none ↦ (after, id)
      | some uid ↦
          (let bound : Node = record after { users = Identity.bind uid id n.users } in
            (
              if device_count uid bound.users == 1 then set_user_interest uid true bound else bound,
              id,
            ))
    ]

-- The withdrawal of the rooms that a disconnect has emptied.
unfoldable pub withdraw : List Bytes → Node → Node
unfolding set_room_interest
withdraw [] n = n
withdraw (r ∷ rs) n =
    withdraw rs (if (info r n.hub.rooms).members == 0 then set_room_interest r false n else n)

unfoldable pub drop_rooms : ℕ → Node → Node
unfolding withdraw
drop_rooms id n =
    let (conns, taken) = remove_full id n.hub.conns in
    elim taken [
      | none ↦ record n { hub = record n.hub { conns = conns } }
      | some (handle, joined) ↦ withdraw joined (record n {
        hub = record { conns = conns; rooms = disconnect_cleanup id joined n.hub.rooms };
      })
    ]

-- What follows `run_connection`.
unfoldable pub teardown : ℕ → Option Bytes → Node → Node
unfolding drop_rooms set_user_interest
teardown id user_id n =
    let swept = drop_rooms id n in
    let unbound : Node = elim user_id [
      | none ↦ swept
      | some uid ↦
          (let after : Node = record swept { users = Identity.unbind uid id swept.users } in
            if device_count uid after.users == 0 then set_user_interest uid false after else after)
    ] in
    record unbound { connections = sub64 unbound.connections 1 }

-- `LocalPresence::room_presence`: the live members and their users.
unfoldable pub users_of : List ℕ → Hub → List (ℕ × Option Bytes)
users_of [] h = []
users_of (id ∷ ids) h =
    let rest = users_of ids h in
    elim (user_of h.conns id) [ none ↦ rest | some uid ↦ (id, uid) ∷ rest ]

unfoldable pub room_presence : Bytes → Hub → List (ℕ × Option Bytes)
unfolding users_of
room_presence r h = elim (members r h.rooms) [ none ↦ [] | some ids ↦ users_of ids h ]
