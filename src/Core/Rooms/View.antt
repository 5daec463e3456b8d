-- ===== src/Core/Rooms/View.antt =====
-- rooms.rs: who is in which room, as the two sides of the membership say it, after each access to the map.
use beam_socket.Prelude.{
  ℕ, ◌≡◌, refl, sym, ap, Bool, true, false, not, ◌&&◌, ◌||◌, none, some, List, [], ◌∷◌, ◌==◌,
  if◌then◌else◌, arith, Bool-cases, Option-cases, inl, inr,
}
use beam_socket.Prelude.Bytes.{Bytes}
use beam_socket.Prelude.Keys.{nat_key, bytes_key, same, contains, add, contains-add, contains-del}
use beam_socket.Core.Registry.{Registry, find}
use beam_socket.Core.Rooms.{
  RoomMap, or_default, is_empty, insert_member, unlink, reap, record_and_members,
}

-- The room's side.
unfoldable pub in_room : RoomMap → Bytes → ℕ → Bool
in_room rooms room id = elim (rooms room) [ none ↦ false | some e ↦ contains id e.members ]

-- The connection's side.
unfoldable pub joined : Registry → ℕ → Bytes → Bool
joined conns id room = elim (find conns id) [ none ↦ false | some e ↦ contains room e.rooms ]

-- The room is there and has no member.
unfoldable pub hollow : RoomMap → Bytes → Bool
hollow rooms room = elim (rooms room) [ none ↦ false | some e ↦ is_empty e.members ]

add-full : (id : ℕ) (ids : List ℕ) → is_empty (add id ids) ≡ false
unfolding add contains
add-full id [] = refl
add-full id (b ∷ bs) = ground arith

pub rooms_at :
    (rooms : RoomMap) (room other : Bytes) → same room other ≡ true → rooms other ≡ rooms room
rooms_at rooms room other e = ap rooms (sym (bytes_key.same→eq room other e))

pub in_room-insert_member :
    (rooms : RoomMap) (room other : Bytes) (id who : ℕ)
    → in_room (insert_member room id rooms) other who
      ≡ (same room other && id == who || in_room rooms other who)
unfolding insert_member in_room contains
in_room-insert_member rooms room other id who =
    let added = contains-add id who (or_default (rooms room)).members in
    elim (Bool-cases (same room other)) [
      | inl e ↦ rw (in_room, insert_member, e, added, rooms_at rooms room other e) (ground arith)
      | inr e ↦ rw (in_room, insert_member, e) refl
    ]

pub in_room-unlink :
    (rooms : RoomMap) (room other : Bytes) (id who : ℕ)
    → in_room (unlink room id rooms).0 other who
      ≡ (not (same room other && id == who) && in_room rooms other who)
unfolding unlink in_room
in_room-unlink rooms room other id who = elim (Option-cases (rooms room)) [
  | inl n ↦ elim (Bool-cases (same room other)) [
    | inl e ↦ rw (in_room, unlink, n, e, rooms_at rooms room other e, n) (ground arith)
    | inr e ↦ rw (in_room, unlink, n, e) refl
  ]
  | inr (d, n) ↦ elim (Bool-cases (same room other)) [
    | inl e ↦
        rw (in_room, unlink, n, e, contains-del id who d.members, rooms_at rooms room other e, n)
          refl
    | inr e ↦ rw (in_room, unlink, n, e) refl
  ]
]

pub in_room-reap :
    (rooms : RoomMap) (room other : Bytes) (who : ℕ)
    → in_room (reap room rooms) other who ≡ in_room rooms other who
unfolding reap in_room contains
in_room-reap rooms room other who = elim (Bool-cases (same room other)) [
  | inl e ↦ ground (arith, e, rooms_at rooms room other e)
  | inr e ↦ ground (arith, e)
]

pub hollow-insert_member :
    (rooms : RoomMap) (room other : Bytes) (id : ℕ)
    → hollow (insert_member room id rooms) other ≡ (not (same room other) && hollow rooms other)
unfolding insert_member hollow
hollow-insert_member rooms room other id = elim (Bool-cases (same room other)) [
  | inl e ↦ rw (hollow, insert_member, e, add-full id (or_default (rooms room)).members) refl
  | inr e ↦ rw (hollow, insert_member, e) refl
]

-- Only the room that `unlink` says it has emptied is newly empty.
pub hollow-unlink :
    (rooms : RoomMap) (room other : Bytes) (id : ℕ)
    → hollow (unlink room id rooms).0 other
      ≡ (if same room other then (unlink room id rooms).1 else hollow rooms other)
unfolding unlink hollow
hollow-unlink rooms room other id = elim (Bool-cases (same room other)) [
  | inl e ↦ ground (arith, e, rooms_at rooms room other e)
  | inr e ↦ ground (arith, e)
]

pub hollow-reap :
    (rooms : RoomMap) (room other : Bytes)
    → hollow (reap room rooms) other ≡ (not (same room other) && hollow rooms other)
unfolding reap hollow
hollow-reap rooms room other = elim (Bool-cases (same room other)) [
  | inl e ↦ ground (arith, e, rooms_at rooms room other e)
  | inr e ↦ ground (arith, e)
]

pub broadcast-view :
    (rooms : RoomMap) (room other : Bytes) (who : ℕ)
    → (in_room (record_and_members room rooms).0 other who ≡ in_room rooms other who)
      × (hollow (record_and_members room rooms).0 other ≡ hollow rooms other)
unfolding record_and_members in_room hollow
broadcast-view rooms room other who = elim (Option-cases (rooms room)) [
  | inl n ↦ rw (in_room, hollow, record_and_members, n) (refl, refl)
  | inr (d, n) ↦ elim (Bool-cases (same room other)) [
    | inl e ↦
        let at = rooms_at rooms room other e in
        (
          rw (in_room, record_and_members, n, e, at, n) refl,
          rw (hollow, record_and_members, n, e, at, n) refl,
        )
    | inr e ↦
        (rw (in_room, record_and_members, n, e) refl, rw (hollow, record_and_members, n, e) refl)
  ]
]
