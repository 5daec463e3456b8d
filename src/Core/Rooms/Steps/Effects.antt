-- ===== src/Core/Rooms/Steps/Effects.antt =====
-- rooms.rs: what each step changes of the two sides of the membership.
use beam_socket.Prelude.{
  ==_refl, ==→eq, ℕ, ◌^◌, ◌<◌, ◌≡◌, ◌∙◌, refl, sym, ap, true, false, not, ◌&&◌, ◌||◌, none, some,
  List, [], ◌==◌, if◌then◌else◌, leb, length, arith, Bool-cases, Option-cases, inl, inr,
}
use beam_socket.Prelude.Bytes.{Bytes}
use beam_socket.Prelude.Keys.{bytes_key, same, contains, add, del, contains-add, contains-del}
use beam_socket.Core.Registry.{Registry, Entry, find, put_entry}
use beam_socket.Core.Registry.Laws.{find-put_entry, with_rooms-none, with_rooms-some}
use beam_socket.Core.Rooms.{Hub, is_changed, join_set, join}
use beam_socket.Core.Rooms.View.{
  in_room, joined, hollow, in_room-insert_member, in_room-unlink, hollow-insert_member,
  hollow-unlink,
}
use beam_socket.Core.Rooms.Steps.{unlink_set, begin_leave}

pub find_same : (id who : ℕ) (r : Registry) → (id == who) ≡ true → find r id ≡ find r who
find_same id who r e = ap (find r) (==→eq id who e)

-- The connection's side after its room set was written.
joined-put_entry :
    (id who : ℕ) (e : Entry) (set : List Bytes) (room : Bytes) (r : Registry)
    → id < 2 ^ 64
    → who < 2 ^ 64
    → find r id ≡ some e
    → (joined (put_entry id (record e { rooms = set }) r) who room
        ≡ (if id == who then contains room set else joined r who room))
      × (find r who ≡ none → find (put_entry id (record e { rooms = set }) r) who ≡ none)
unfolding joined
joined-put_entry id who e set room r b c h =
    let after = find-put_entry id who e (record e { rooms = set }) r b c h refl in
    (rw (joined, after) (ground arith), λ n. rw after (ground (arith, n, h, find_same id who r)))

joined_at :
    (id who : ℕ) (e : Entry) (room : Bytes) (r : Registry)
    → find r id ≡ some e
    → (id == who) ≡ true
    → joined r who room ≡ contains room e.rooms
unfolding joined
joined_at id who e room r h d = rw (joined, ← find_same id who r d, h) refl

-- The room set is written back as it was.
joined-unchanged :
    (id who : ℕ) (e : Entry) (room : Bytes) (r : Registry)
    → id < 2 ^ 64
    → who < 2 ^ 64
    → find r id ≡ some e
    → joined (put_entry id (record e { rooms = e.rooms }) r) who room ≡ joined r who room
joined-unchanged id who e room r b c h = elim (Bool-cases (id == who)) [
  | inl d ↦
      (joined-put_entry id who e e.rooms room r b c h).0
      ∙ rw (d, joined_at id who e room r h d) refl
  | inr d ↦ (joined-put_entry id who e e.rooms room r b c h).0 ∙ rw d refl
]

joined-add :
    (id who : ℕ) (e : Entry) (room other : Bytes) (r : Registry)
    → id < 2 ^ 64
    → who < 2 ^ 64
    → find r id ≡ some e
    → joined (put_entry id (record e { rooms = add room e.rooms }) r) who other
      ≡ (same room other && id == who || joined r who other)
joined-add id who e room other r b c h = elim (Bool-cases (id == who)) [
  | inl d ↦
      (joined-put_entry id who e (add room e.rooms) other r b c h).0
      ∙ rw (d, joined_at id who e other r h d, contains-add room other e.rooms) (ground arith)
  | inr d ↦ (joined-put_entry id who e (add room e.rooms) other r b c h).0 ∙ rw d (ground arith)
]

joined-del :
    (id who : ℕ) (e : Entry) (room other : Bytes) (r : Registry)
    → id < 2 ^ 64
    → who < 2 ^ 64
    → find r id ≡ some e
    → joined (put_entry id (record e { rooms = del room e.rooms }) r) who other
      ≡ (not (same room other && id == who) && joined r who other)
joined-del id who e room other r b c h = elim (Bool-cases (id == who)) [
  | inl d ↦
      (joined-put_entry id who e (del room e.rooms) other r b c h).0
      ∙ rw (d, joined_at id who e other r h d, contains-del room other e.rooms) (ground arith)
  | inr d ↦ (joined-put_entry id who e (del room e.rooms) other r b c h).0 ∙ rw d (ground arith)
]

pub joined_none :
    (id who : ℕ) (room : Bytes) (r : Registry)
    → find r id ≡ none
    → (id == who) ≡ true
    → joined r who room ≡ false
unfolding joined
joined_none id who room r h d = rw (joined, ← find_same id who r d, h) refl

find-kept :
    (id who : ℕ) (e : Entry) (set : List Bytes) (r : Registry)
    → id < 2 ^ 64
    → who < 2 ^ 64
    → find r id ≡ some e
    → find r who ≡ none
    → find (put_entry id (record e { rooms = set }) r) who ≡ none
find-kept id who e set r b c h = (joined-put_entry id who e set [] r b c h).1

same_at :
    (room other : Bytes) (set : List Bytes)
    → same room other ≡ true
    → contains other set ≡ contains room set
same_at room other set e = ap (λ x. contains x set) (sym (bytes_key.same→eq room other e))

pub join-view :
    (id who max_rooms : ℕ) (room other : Bytes) (h : Hub)
    → id < 2 ^ 64
    → who < 2 ^ 64
    → let (after, change) = join id room max_rooms h in
      (joined after.conns who other
        ≡ (is_changed change && (same room other && id == who) || joined h.conns who other))
      × (in_room after.rooms other who
          ≡ (is_changed change && (same room other && id == who) || in_room h.rooms other who))
      × (hollow after.rooms other ≡ true → hollow h.rooms other ≡ true)
      × (find h.conns who ≡ none → find after.conns who ≡ none)
unfolding join join_set
join-view id who max_rooms room other h b c = elim (Option-cases (find h.conns id)) [
  | inl n ↦
      rw (with_rooms-none id (join_set room id max_rooms h.rooms) h.conns n)
        (refl, refl, λ x. x, λ x. x)
  | inr (e, n) ↦
      let kept = joined-unchanged id who e other h.conns b c n in
      rw (with_rooms-some id (join_set room id max_rooms h.rooms) h.conns e n)
        (elim (Bool-cases (contains room e.rooms)) [
          | inl k ↦ rw (join_set, k) (kept, refl, λ x. x, find-kept id who e e.rooms h.conns b c n)
          | inr k ↦ elim (Bool-cases (not (max_rooms == 0) && leb max_rooms (length e.rooms))) [
            | inl l ↦
                rw (join_set, k, l) (kept, refl, λ x. x, find-kept id who e e.rooms h.conns b c n)
            | inr l ↦
                rw (join_set, k, l)
                  (
                    joined-add id who e room other h.conns b c n,
                    in_room-insert_member h.rooms room other id who,
                    λ x. ground (arith, x, hollow-insert_member h.rooms room other id),
                    find-kept id who e (add room e.rooms) h.conns b c n,
                  )
          ]
        ])
]

pub leave-view :
    (id who : ℕ) (room other : Bytes) (h : Hub)
    → id < 2 ^ 64
    → who < 2 ^ 64
    → let (after, emptied) = begin_leave id room h in
      let left = joined h.conns id room in
      (joined after.conns who other
        ≡ (not (same room other && id == who) && joined h.conns who other))
      × (in_room after.rooms other who
          ≡ (not (left && (same room other && id == who)) && in_room h.rooms other who))
      × (hollow after.rooms other ≡ true
          → (emptied && same room other || hollow h.rooms other) ≡ true)
      × (find h.conns who ≡ none → find after.conns who ≡ none)
unfolding begin_leave unlink_set
leave-view id who room other h b c = elim (Option-cases (find h.conns id)) [
  | inl n ↦
      let off = joined_none id id room h.conns n (==_refl id) in
      rw (with_rooms-none id (unlink_set room id h.rooms) h.conns n, off)
        (ground (arith, joined_none id who other h.conns n), refl, λ x. x, λ x. x)
  | inr (e, n) ↦
      let on = joined_at id id e room h.conns n (==_refl id) in
      rw (with_rooms-some id (unlink_set room id h.rooms) h.conns e n, on)
        (elim (Bool-cases (contains room e.rooms)) [
          | inl k ↦
              rw (unlink_set, k)
                (
                  joined-del id who e room other h.conns b c n,
                  in_room-unlink h.rooms room other id who,
                  λ x. ground (arith, x, hollow-unlink h.rooms room other id),
                  find-kept id who e (del room e.rooms) h.conns b c n,
                )
          | inr k ↦
              rw (unlink_set, k)
                (
                  joined-unchanged id who e other h.conns b c n
                      ∙ ground (
                        arith,
                        k,
                        joined_at id who e other h.conns n,
                        same_at room other e.rooms,
                      ),
                  refl,
                  λ x. x,
                  find-kept id who e e.rooms h.conns b c n,
                )
        ])
]
