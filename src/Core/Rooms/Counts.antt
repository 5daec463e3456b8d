-- ===== src/Core/Rooms/Counts.antt =====
-- rooms.rs: the number of a room's members after each operation.
use beam_socket.Prelude.{
  ℕ, ◌+◌, ◌≤◌, ◌≡◌, refl, sym, true, false, not, ◌&&◌, List, [], ◌∷◌, ◌==◌, leb, length, arith,
  Bool-cases, Option-cases, inl, inr,
}
use beam_socket.Prelude.Bytes.{Bytes}
use beam_socket.Prelude.Keys.{nat_key, bytes_key, same, contains, add, del, length-add}
use beam_socket.Core.Registry.{find}
use beam_socket.Core.Registry.Laws.{with_rooms-none, with_rooms-some}
use beam_socket.Core.Rooms.{
  Hub, RoomMap, or_default, is_empty, member_count, info, insert_member, unlink, reap,
  remove_member, join_set, leave_set, join, leave, disconnect_cleanup, is_changed,
}
use beam_socket.Core.Rooms.View.{rooms_at}

pub info-member_count :
    (room : Bytes) (rooms : RoomMap) → (info room rooms).members ≡ member_count room rooms
unfolding info member_count
info-member_count room rooms = elim (Option-cases (rooms room)) [
  | inl n ↦ rw (info, member_count, n) refl
  | inr (e, n) ↦ rw (info, member_count, n) refl
]

add-positive : (id : ℕ) (ids : List ℕ) → 1 ≤ length (add id ids)
unfolding add contains
add-positive id [] = omega arith
add-positive id (b ∷ bs) = ground arith

length-del : (id : ℕ) (ids : List ℕ) → length (del id ids) ≤ length ids
unfolding del
length-del id [] = omega arith
length-del id (b ∷ bs) = ground (arith, length-del id bs)

default_count :
    (room : Bytes) (rooms : RoomMap)
    → length (or_default (rooms room)).members ≡ member_count room rooms
unfolding member_count
default_count room rooms = elim (Option-cases (rooms room)) [
  | inl n ↦ rw (member_count, n) refl
  | inr (e, n) ↦ rw (member_count, n) refl
]

pub count_at :
    (rooms : RoomMap) (room other : Bytes)
    → same room other ≡ true
    → member_count other rooms ≡ member_count room rooms
unfolding member_count
count_at rooms room other e = rw (member_count, rooms_at rooms room other e) refl

count-insert_member :
    (room other : Bytes) (id : ℕ) (rooms : RoomMap)
    → let after = member_count other (insert_member room id rooms) in
      let before = member_count other rooms in
      (same room other ≡ true → (1 ≤ after) × (after ≤ before + 1))
      × (same room other ≡ false → after ≡ before)
unfolding insert_member member_count
count-insert_member room other id rooms =
    let size = default_count room rooms in
    let members = (or_default (rooms room)).members in
    elim (Bool-cases (same room other)) [
      | inl e ↦
          let at = count_at rooms room other e in
          rw (member_count, insert_member, e)
            (
              λ y. (add-positive id members, omega (arith, length-add id members, size, at)),
              λ y. absurd (cc y),
            )
      | inr e ↦ rw (member_count, insert_member, e) (λ y. absurd (cc y), λ y. refl)
    ]

count-unlink :
    (room other : Bytes) (id : ℕ) (rooms : RoomMap)
    → let after = member_count other (unlink room id rooms).0 in
      let before = member_count other rooms in
      (after ≤ before) × (same room other ≡ false → after ≡ before)
unfolding member_count unlink
count-unlink room other id rooms = elim (Option-cases (rooms room)) [
  | inl n ↦ rw (member_count, unlink, n) (omega arith, λ y. refl)
  | inr (e, n) ↦ elim (Bool-cases (same room other)) [
    | inl d ↦
        let at = rooms_at rooms room other d in
        rw (member_count, unlink, n, d, at, n) (length-del id e.members, λ y. absurd (cc y))
    | inr d ↦ rw (member_count, unlink, n, d) (omega arith, λ y. refl)
  ]
]

empty_length : (ids : List ℕ) → is_empty ids ≡ true → length ids ≡ 0
empty_length [] e = refl
empty_length (id ∷ ids) e = absurd (cc e)

count-reap :
    (room other : Bytes) (rooms : RoomMap)
    → member_count other (reap room rooms) ≡ member_count other rooms
unfolding member_count reap
count-reap room other rooms = elim (Option-cases (rooms room)) [
  | inl n ↦ rw (member_count, reap, n) refl
  | inr (e, n) ↦ elim (Bool-cases (is_empty e.members)) [
    | inr z ↦ rw (member_count, reap, n, z) refl
    | inl z ↦ elim (Bool-cases (same room other)) [
      | inl d ↦
          let at = rooms_at rooms room other d in
          rw (member_count, reap, n, z, d, at, n) (sym (empty_length e.members z))
      | inr d ↦ rw (member_count, reap, n, z, d) refl
    ]
  ]
]

pub count-remove_member :
    (room other : Bytes) (id : ℕ) (rooms : RoomMap)
    → let after = member_count other (remove_member room id rooms) in
      let before = member_count other rooms in
      (after ≤ before) × (same room other ≡ false → after ≡ before)
unfolding remove_member
count-remove_member room other id rooms =
    let counted = count-unlink room other id rooms in
    elim (Bool-cases (unlink room id rooms).1) [
      | inl e ↦ rw (remove_member, e, count-reap room other (unlink room id rooms).0) counted
      | inr e ↦ rw (remove_member, e) counted
    ]

pub count-join :
    (id max_rooms : ℕ) (room other : Bytes) (h : Hub)
    → let (hub, change) = join id room max_rooms h in
      let after = member_count other hub.rooms in
      let before = member_count other h.rooms in
      ((is_changed change && same room other) ≡ true → (1 ≤ after) × (after ≤ before + 1))
      × ((is_changed change && same room other) ≡ false → after ≡ before)
unfolding join join_set
count-join id max_rooms room other h = elim (Option-cases (find h.conns id)) [
  | inl n ↦
      rw (with_rooms-none id (join_set room id max_rooms h.rooms) h.conns n)
        (λ y. absurd (cc y), λ y. refl)
  | inr (e, n) ↦
      rw (with_rooms-some id (join_set room id max_rooms h.rooms) h.conns e n)
        (elim (Bool-cases (contains room e.rooms)) [
          | inl k ↦ rw (join_set, k) (λ y. absurd (cc y), λ y. refl)
          | inr k ↦ elim (Bool-cases (not (max_rooms == 0) && leb max_rooms (length e.rooms))) [
            | inl l ↦ rw (join_set, k, l) (λ y. absurd (cc y), λ y. refl)
            | inr l ↦ rw (join_set, k, l) (count-insert_member room other id h.rooms)
          ]
        ])
]

pub count-leave :
    (id : ℕ) (room other : Bytes) (h : Hub)
    → let (hub, change) = leave id room h in
      let after = member_count other hub.rooms in
      let before = member_count other h.rooms in
      (after ≤ before) × ((is_changed change && same room other) ≡ false → after ≡ before)
unfolding leave leave_set
count-leave id room other h = elim (Option-cases (find h.conns id)) [
  | inl n ↦ rw (with_rooms-none id (leave_set room id h.rooms) h.conns n) (omega arith, λ y. refl)
  | inr (e, n) ↦
      rw (with_rooms-some id (leave_set room id h.rooms) h.conns e n)
        (elim (Bool-cases (contains room e.rooms)) [
          | inl k ↦ rw (leave_set, k) (count-remove_member room other id h.rooms)
          | inr k ↦ rw (leave_set, k) (omega arith, λ y. refl)
        ])
]

pub count-disconnect_cleanup :
    (id : ℕ) (joined : List Bytes) (other : Bytes) (rooms : RoomMap)
    → let after = member_count other (disconnect_cleanup id joined rooms) in
      let before = member_count other rooms in
      (after ≤ before) × (contains other joined ≡ false → after ≡ before)
unfolding disconnect_cleanup contains
count-disconnect_cleanup id [] other rooms = (omega arith, λ e. refl)
count-disconnect_cleanup id (room ∷ rest) other rooms =
    let (first, kept) = count-remove_member room other id rooms in
    let (ih, held) = count-disconnect_cleanup id rest other (remove_member room id rooms) in
    (omega arith, λ e. ground (arith, e, kept, held))
