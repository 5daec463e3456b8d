-- ===== src/Core/Rooms.antt =====
-- crates/core/src/rooms.rs: the members of each room. The `DashMap` is a function from room names, and
-- each of its guarded accesses is one step. A `HashSet` is a list of distinct values, in the order in which
-- the code would iterate. A `Hub` is the pair of registries that every method here is given.
pub mod View
pub mod Counts
pub mod Steps
mod Tests
use beam_socket.Prelude.{
  ℕ, ◌+◌, ◌%◌, ◌^◌, Bool, true, false, not, ◌&&◌, Option, none, some, List, [], ◌∷◌, leb, ◌==◌,
  if◌then◌else◌, length,
}
use beam_socket.Prelude.Bytes.{Bytes}
use beam_socket.Prelude.Keys.{nat_key, bytes_key, contains, add, del, write}
use beam_socket.Core.Registry
use beam_socket.Core.Registry.{Registry, with_rooms}

pub record RoomEntry : Type 0 where
  pub members : List ℕ
  pub messages : ℕ

abbrev pub RoomMap : Type 0
RoomMap = Bytes → Option RoomEntry

pub data MembershipChange : Type 0 where
  changed : MembershipChange
  no_op : MembershipChange
  not_found : MembershipChange
  limit_exceeded : MembershipChange

-- `change == MembershipChange::Changed`.
abbrev pub is_changed : MembershipChange → Bool
is_changed changed = true
is_changed no_op = false
is_changed not_found = false
is_changed limit_exceeded = false

pub record RoomStat : Type 0 where
  pub room : Bytes
  pub members : ℕ
  pub messages : ℕ

pub record Hub : Type 0 where
  pub conns : Registry
  pub rooms : RoomMap

unfoldable pub new : Hub
new = record { conns = Registry.new; rooms = λ room. none }

unfoldable pub members : Bytes → RoomMap → Option (List ℕ)
members room rooms = elim (rooms room) [ none ↦ none | some e ↦ some e.members ]

unfoldable pub record_and_members : Bytes → RoomMap → RoomMap × Option (List ℕ)
record_and_members room rooms = elim (rooms room) [
  | none ↦ (rooms, none)
  | some e ↦
      (write room (some (record e { messages = (e.messages + 1) % 2 ^ 64 })) rooms, some e.members)
]

unfoldable pub member_count : Bytes → RoomMap → ℕ
member_count room rooms = elim (rooms room) [ none ↦ 0 | some e ↦ length e.members ]

unfoldable pub info : Bytes → RoomMap → RoomStat
info room rooms = elim (rooms room) [
  | none ↦ record { room = room; members = 0; messages = 0 }
  | some e ↦ record { room = room; members = length e.members; messages = e.messages }
]

-- `rooms.entry(room).or_default()`.
abbrev pub or_default : Option RoomEntry → RoomEntry
or_default none = record { members = []; messages = 0 }
or_default (some e) = e

unfoldable pub insert_member : Bytes → ℕ → RoomMap → RoomMap
insert_member room id rooms =
    let e = or_default (rooms room) in
    write room (some (record e { members = add id e.members })) rooms

abbrev pub is_empty : List ℕ → Bool
is_empty [] = true
is_empty (id ∷ ids) = false

-- The first half of `remove_member`, under the room's guard, and whether the room is left empty.
unfoldable pub unlink : Bytes → ℕ → RoomMap → RoomMap × Bool
unlink room id rooms = elim (rooms room) [
  | none ↦ (rooms, false)
  | some e ↦
      (let rest = del id e.members in
        (write room (some (record e { members = rest })) rooms, is_empty rest))
]

-- The second half, `remove_if`, under the map's lock.
unfoldable pub reap : Bytes → RoomMap → RoomMap
reap room rooms = elim (rooms room) [
  | none ↦ rooms
  | some e ↦ if is_empty e.members then write room none rooms else rooms
]

unfoldable pub remove_member : Bytes → ℕ → RoomMap → RoomMap
unfolding unlink reap
remove_member room id rooms =
    let (after, emptied) = unlink room id rooms in if emptied then reap room after else after

-- What `join` does to the room set of the connection, which `with_rooms` hands to it.
unfoldable pub join_set :
    Bytes → ℕ → ℕ → RoomMap → List Bytes → List Bytes × (RoomMap × MembershipChange)
unfolding insert_member
join_set room id max_rooms rooms set =
    if contains room set
    then (set, (rooms, no_op))
    else if not (max_rooms == 0) && leb max_rooms (length set)
    then (set, (rooms, limit_exceeded))
    else (add room set, (insert_member room id rooms, changed))

abbrev pub settle :
    Registry × Option (RoomMap × MembershipChange) → RoomMap → Hub × MembershipChange
settle (conns, none) rooms = (record { conns = conns; rooms = rooms }, not_found)
settle (conns, some (after, change)) rooms = (record { conns = conns; rooms = after }, change)

unfoldable pub join : ℕ → Bytes → ℕ → Hub → Hub × MembershipChange
unfolding join_set
join id room max_rooms h =
    settle (with_rooms id (join_set room id max_rooms h.rooms) h.conns) h.rooms

unfoldable pub leave_set :
    Bytes → ℕ → RoomMap → List Bytes → List Bytes × (RoomMap × MembershipChange)
unfolding remove_member
leave_set room id rooms set =
    if contains room set
    then (del room set, (remove_member room id rooms, changed))
    else (set, (rooms, no_op))

unfoldable pub leave : ℕ → Bytes → Hub → Hub × MembershipChange
unfolding leave_set
leave id room h = settle (with_rooms id (leave_set room id h.rooms) h.conns) h.rooms

-- The loop of `close_room`, and how many memberships it removed.
unfoldable pub leave_all : Bytes → List ℕ → Hub → Hub × ℕ
unfolding leave
leave_all room [] h = (h, 0)
leave_all room (id ∷ ids) h =
    let (next, change) = leave id room h in
    let (last, removed) = leave_all room ids next in
    (
      last,
      elim change [
        | changed ↦ removed + 1
        | no_op ↦ removed
        | not_found ↦ removed
        | limit_exceeded ↦ removed
      ],
    )

unfoldable pub close_room : Bytes → Hub → Hub × Option ℕ
unfolding leave_all
close_room room h = elim (members room h.rooms) [
  | none ↦ (h, none)
  | some ids ↦ (let (after, removed) = leave_all room ids h in (after, some removed))
]

unfoldable pub disconnect_cleanup : ℕ → List Bytes → RoomMap → RoomMap
unfolding remove_member
disconnect_cleanup id [] rooms = rooms
disconnect_cleanup id (room ∷ rest) rooms = disconnect_cleanup id rest (remove_member room id rooms)
