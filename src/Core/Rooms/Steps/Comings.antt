-- ===== src/Core/Rooms/Steps/Comings.antt =====
-- rooms.rs, registry.rs: what a new connection and one that goes change of the two sides of the membership,
-- and which unlinks are pending.
use beam_socket.Prelude.{
  ℕ, ◌^◌, ◌<◌, ◌≡◌, ◌∙◌, refl, Bool, true, false, not, ◌&&◌, ◌||◌, Option, none, List, [], ◌∷◌,
  ◌++◌, ◌==◌, ==→eq, ==_refl, if◌then◌else◌, arith, Bool-cases, Option-cases, inl, inr,
}
use beam_socket.Prelude.Bytes.{Bytes}
use beam_socket.Prelude.Keys.{bytes_key, same, contains}
use beam_socket.Core.Registry.{Registry, find, register, remove_full}
use beam_socket.Core.Registry.Laws.{
  remove_full-none, remove_full-some, find-register, find-remove_slot, IsVacant, new_entry,
}
use beam_socket.Core.Rooms.{Hub}
use beam_socket.Core.Rooms.View.{joined}
use beam_socket.Core.Rooms.Steps.Effects.{joined_none, find_same}
use beam_socket.Core.Rooms.Steps.{
  Task, unlink_task, reap_task, pending_unlink, pending_reap, unlink_all, begin_disconnect, reap_if,
}

pub register-view :
    (vacant handle who : ℕ) (user : Option Bytes) (room : Bytes) (r : Registry)
    → IsVacant vacant r
    → who < 2 ^ 64
    → let (after, id) = register vacant handle user r in
      (joined after who room ≡ joined r who room)
      × ((id == who) ≡ false → find after who ≡ find r who)
unfolding joined new_entry contains
register-view vacant handle who user room r v c =
    let (small, free, at) = find-register vacant handle who user r v c in
    (
      elim (Bool-cases ((register vacant handle user r).1 == who)) [
        | inl e ↦ rw (joined, at, e, ← ==→eq (register vacant handle user r).1 who e, free) refl
        | inr e ↦ rw (joined, at, e) refl
      ],
      λ e. rw (at, e) refl,
    )

unlink_all_lem :
    (id who : ℕ) (room : Bytes) (rooms : List Bytes)
    → (pending_unlink room who (unlink_all id rooms) ≡ (id == who && contains room rooms))
      × (pending_reap room (unlink_all id rooms) ≡ false)
unfolding pending_unlink pending_reap unlink_all contains
unlink_all_lem id who room [] = ground arith
unlink_all_lem id who room (r ∷ rs) = ground (arith, unlink_all_lem id who room rs)

pub disconnect-view :
    (id who : ℕ) (room : Bytes) (h : Hub)
    → id < 2 ^ 64
    → who < 2 ^ 64
    → let (after, tasks) = begin_disconnect id h in
      (joined after.conns who room ≡ (not (id == who) && joined h.conns who room))
      × (find after.conns who ≡ (if id == who then none else find h.conns who))
      × (after.rooms ≡ h.rooms)
      × (pending_unlink room who tasks ≡ (id == who && joined h.conns id room))
      × (pending_reap room tasks ≡ false)
unfolding begin_disconnect joined pending_unlink pending_reap
disconnect-view id who room h b c = elim (Option-cases (find h.conns id)) [
  | inl n ↦
      let out : remove_full id h.conns ≡ (h.conns, none) = remove_full-none id h.conns n in
      let same_find = find_same id who h.conns in
      rw (begin_disconnect, out)
        (
          ground (arith, joined_none id who room h.conns n),
          ground (arith, n, same_find),
          refl,
          ground (arith, joined_none id id room h.conns n (==_refl id)),
          refl,
        )
  | inr (e, n) ↦
      let gone = find-remove_slot id who e h.conns b c n in
      let (unlinks, reaps) = unlink_all_lem id who room e.rooms in
      let out = remove_full-some id h.conns e n in
      rw (begin_disconnect, out)
        (
          rw (joined, out, gone) (ground arith),
          rw out gone,
          refl,
          unlinks ∙ rw (joined, n) refl,
          reaps,
        )
]

pub pending_unlink-append :
    (room : Bytes) (id : ℕ) (xs ys : List Task)
    → pending_unlink room id (xs ++ ys) ≡ (pending_unlink room id xs || pending_unlink room id ys)
unfolding pending_unlink
pending_unlink-append room id [] ys = refl
pending_unlink-append room id (unlink_task r i ∷ xs) ys =
    ground (arith, pending_unlink-append room id xs ys)
pending_unlink-append room id (reap_task r ∷ xs) ys = pending_unlink-append room id xs ys

pub pending_reap-append :
    (room : Bytes) (xs ys : List Task)
    → pending_reap room (xs ++ ys) ≡ (pending_reap room xs || pending_reap room ys)
unfolding pending_reap
pending_reap-append room [] ys = refl
pending_reap-append room (unlink_task r i ∷ xs) ys = pending_reap-append room xs ys
pending_reap-append room (reap_task r ∷ xs) ys = ground (arith, pending_reap-append room xs ys)

pub pending-reap_if :
    (emptied : Bool) (room other : Bytes) (id : ℕ) (ts : List Task)
    → (pending_unlink other id (reap_if emptied room ts) ≡ pending_unlink other id ts)
      × (pending_reap other (reap_if emptied room ts)
          ≡ (emptied && same room other || pending_reap other ts))
unfolding pending_unlink pending_reap
pending-reap_if true room other id ts = (refl, refl)
pending-reap_if false room other id ts = (refl, refl)

-- A task that stands between others.
pub pending-unlink_task :
    (room other : Bytes) (id who : ℕ) (before after : List Task)
    → let ts = before ++ (unlink_task room id ∷ after) in
      (pending_unlink other who ts
        ≡ (same room other && id == who || pending_unlink other who (before ++ after)))
      × (pending_reap other ts ≡ pending_reap other (before ++ after))
unfolding pending_unlink pending_reap
pending-unlink_task room other id who before after = (
  ground (
    arith,
    pending_unlink-append other who before (unlink_task room id ∷ after),
    pending_unlink-append other who before after,
  ),
  ground (
    arith,
    pending_reap-append other before (unlink_task room id ∷ after),
    pending_reap-append other before after,
  ),
)

pub pending-reap_task :
    (room other : Bytes) (who : ℕ) (before after : List Task)
    → let ts = before ++ (reap_task room ∷ after) in
      (pending_unlink other who ts ≡ pending_unlink other who (before ++ after))
      × (pending_reap other ts ≡ (same room other || pending_reap other (before ++ after)))
unfolding pending_unlink pending_reap
pending-reap_task room other who before after = (
  ground (
    arith,
    pending_unlink-append other who before (reap_task room ∷ after),
    pending_unlink-append other who before after,
  ),
  ground (
    arith,
    pending_reap-append other before (reap_task room ∷ after),
    pending_reap-append other before after,
  ),
)
