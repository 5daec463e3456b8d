-- ===== src/Core/Rooms/Steps/Invariant.antt =====
-- rooms.rs: every step keeps the two sides of the membership consistent.
use beam_socket.Prelude.{
  ℕ, ◌^◌, ◌<◌, ◌≡◌, ◌∙◌, sym, ap, true, false, ◌&&◌, [], ◌∷◌, ◌++◌, ◌==◌, ==→eq, ==_refl, arith,
  Bool-cases, inl, inr,
}
use beam_socket.Prelude.Bytes.{Bytes}
use beam_socket.Prelude.Keys.{bytes_key, same}
use beam_socket.Core.Registry.{Registry, register}
use beam_socket.Core.Registry.Laws.{find-new}
use beam_socket.Core.Rooms.{Hub, unlink, new}
use beam_socket.Core.Rooms.View.{
  in_room, joined, hollow, in_room-unlink, in_room-reap, hollow-unlink, hollow-reap, broadcast-view,
}
use beam_socket.Core.Rooms.Steps.{
  unlink_task, World, pending_unlink, pending_reap, begin_leave, begin_disconnect, Step,
  on_register, on_join, on_leave, on_disconnect, on_unlink, on_reap, on_broadcast, Reach, here,
  next, start, IsConsistent,
}
use beam_socket.Core.Rooms.Steps.Effects.{joined_none, join-view, leave-view}
use beam_socket.Core.Rooms.Steps.Comings.{
  register-view, disconnect-view, pending_unlink-append, pending_reap-append, pending-reap_if,
  pending-unlink_task, pending-reap_task,
}

-- A pending unlink is of a connection that has gone, so it is of none that has the room.
unlinked :
    (w : World) (id : ℕ) (room : Bytes)
    → IsConsistent w
    → id < 2 ^ 64
    → joined w.hub.conns id room ≡ true
    → pending_unlink room id w.tasks ≡ false
unlinked w id room k b j = elim (Bool-cases (pending_unlink room id w.tasks)) [
  | inl p ↦ ground (arith, j, joined_none id id room w.hub.conns (k.gone id room b p) (==_refl id))
  | inr p ↦ p
]

-- The same connection and the same room have the same membership.
joined_at_same :
    (r : Registry) (id who : ℕ) (room other : Bytes)
    → (same room other && id == who) ≡ true
    → joined r id room ≡ joined r who other
joined_at_same r id who room other e =
    ap (λ i. joined r i room) (==→eq id who (ground (arith, e)))
    ∙ ap (joined r who) (bytes_key.same→eq room other (ground (arith, e)))

joined_who :
    (r : Registry) (id who : ℕ) (room : Bytes)
    → (id == who) ≡ true
    → joined r id room ≡ joined r who room
joined_who r id who room e = ap (λ x. joined r x room) (==→eq id who e)

disconnect_hollow :
    (id : ℕ) (room : Bytes) (h : Hub)
    → id < 2 ^ 64
    → hollow (begin_disconnect id h).0.rooms room ≡ true
    → hollow h.rooms room ≡ true
disconnect_hollow id room h c e =
    ap (λ rooms. hollow rooms room) (sym (disconnect-view id id room h c c).2) ∙ e

pub Step-IsConsistent :
    (max_rooms : ℕ) (w v : World) → Step max_rooms w v → IsConsistent w → IsConsistent v
Step-IsConsistent m _ _ (on_register vacant handle user h ts v fresh) k = record {
  into = λ id room b j.
      k.into id room b (ground (arith, j, register-view vacant handle id user room h.conns v b));
  back = λ id room b i.
      ground (arith, k.back id room b i, register-view vacant handle id user room h.conns v b);
  gone = λ id room b p. elim (Bool-cases ((register vacant handle user h.conns).1 == id)) [
    | inl e ↦ ground (
      arith,
      p,
      ap (λ i. pending_unlink room i ts) (==→eq (register vacant handle user h.conns).1 id e),
      fresh room,
    )
    | inr e ↦ (register-view vacant handle id user room h.conns v b).1 e ∙ k.gone id room b p
  ];
  full = k.full;
}
Step-IsConsistent m _ _ (on_join id room h ts c) k = record {
  into = λ who r b j. ground (arith, j, k.into who r b, join-view id who m room r h c b);
  back = λ who r b i. ground (arith, i, k.back who r b, join-view id who m room r h c b);
  gone = λ who r b p. (join-view id who m room room h c b).3 (k.gone who r b p);
  full = λ r e. k.full r ((join-view id id m room r h c c).2 e);
}
Step-IsConsistent m _ _ (on_leave id room h ts c) k = record {
  into = λ who r b j. ground (arith, j, k.into who r b, leave-view id who room r h c b);
  back = λ who r b i. ground (
    arith,
    i,
    k.back who r b,
    leave-view id who room r h c b,
    joined_at_same h.conns id who room r,
    pending-reap_if (begin_leave id room h).1 room r who ts,
  );
  gone = λ who r b p.
      (leave-view id who room r h c b).3
        (k.gone who r b (sym (pending-reap_if (begin_leave id room h).1 room r who ts).0 ∙ p));
  full = λ r e. ground (
    arith,
    k.full r,
    (leave-view id id room r h c c).2 e,
    pending-reap_if (begin_leave id room h).1 room r id ts,
  );
}
Step-IsConsistent m _ _ (on_disconnect id h ts c) k = record {
  into = λ who r b j. ground (arith, j, k.into who r b, disconnect-view id who r h c b);
  back = λ who r b i. ground (
    arith,
    i,
    k.back who r b,
    disconnect-view id who r h c b,
    joined_who h.conns id who r,
    pending_unlink-append r who (begin_disconnect id h).1 ts,
  );
  gone = λ who r b p. ground (
    arith,
    p,
    k.gone who r b,
    disconnect-view id who r h c b,
    pending_unlink-append r who (begin_disconnect id h).1 ts,
  );
  full = λ r e.
      rw (pending_reap-append r (begin_disconnect id h).1 ts)
        (ground (arith, k.full r (disconnect_hollow id r h c e)));
}
Step-IsConsistent m _ _ (on_unlink id room h before after) k = record {
  into = λ who r b j. ground (
    arith,
    k.into who r b j,
    in_room-unlink h.rooms room r id who,
    unlinked (record { hub = h; tasks = before ++ (unlink_task room id ∷ after) }) who r k b j,
    pending-unlink_task room r id who before after,
  );
  back = λ who r b i. ground (
    arith,
    i,
    k.back who r b,
    in_room-unlink h.rooms room r id who,
    pending-unlink_task room r id who before after,
    pending-reap_if (unlink room id h.rooms).1 room r who (before ++ after),
  );
  gone = λ who r b p. k.gone who r b (
      ground (
        arith,
        p,
        pending-unlink_task room r id who before after,
        pending-reap_if (unlink room id h.rooms).1 room r who (before ++ after),
      ));
  full = λ r e. ground (
    arith,
    e,
    k.full r,
    hollow-unlink h.rooms room r id,
    pending-unlink_task room r id id before after,
    pending-reap_if (unlink room id h.rooms).1 room r id (before ++ after),
  );
}
Step-IsConsistent m _ _ (on_reap room h before after) k = record {
  into = λ who r b j. in_room-reap h.rooms room r who ∙ k.into who r b j;
  back = λ who r b i. ground (
    arith,
    k.back who r b (sym (in_room-reap h.rooms room r who) ∙ i),
    pending-reap_task room r who before after,
  );
  gone = λ who r b p. k.gone who r b ((pending-reap_task room r who before after).0 ∙ p);
  full = λ r e.
      ground
        (arith, e, k.full r, hollow-reap h.rooms room r, pending-reap_task room r 0 before after);
}
Step-IsConsistent m _ _ (on_broadcast room h ts) k = record {
  into = λ who r b j. (broadcast-view h.rooms room r who).0 ∙ k.into who r b j;
  back = λ who r b i. k.back who r b (sym (broadcast-view h.rooms room r who).0 ∙ i);
  gone = k.gone;
  full = λ r e. k.full r (sym (broadcast-view h.rooms room r 0).1 ∙ e);
}

start-IsConsistent : IsConsistent start
unfolding joined hollow in_room pending_unlink pending_reap new
start-IsConsistent = record {
  into = λ id room b j. ground (arith, j, find-new id);
  back = λ id room b i. ground (arith, i);
  gone = λ id room b p. find-new id;
  full = λ room e. ground (arith, e);
}

-- In every state that any interleaving of the steps brings about from an empty hub, `IsConsistent` holds: a
-- connection that has a room in its set is a member of the room; a member of a room has it in its set, but
-- for the unlinks that are pending; the connections of those have gone from the registry; and a room
-- without members is one that a pending task will come to remove.
pub Reach-IsConsistent :
    (max_rooms : ℕ) (w v : World) → Reach max_rooms w v → IsConsistent w → IsConsistent v
Reach-IsConsistent m w _ (here _) k = k
Reach-IsConsistent m w v (next _ u _ s r) k =
    Reach-IsConsistent m u v r (Step-IsConsistent m w u s k)

-- Whatever the interleaving of joins, leaves, broadcasts, connections and disconnects was, once no task is
-- pending the two sides of the membership agree for every connection and every room, and no room without
-- members is left.
pub Reach-settled :
    (max_rooms : ℕ) (h : Hub)
    → Reach max_rooms start (record { hub = h; tasks = [] })
    → ((id : ℕ) (room : Bytes) → id < 2 ^ 64 → in_room h.rooms room id ≡ joined h.conns id room)
      × ((room : Bytes) → hollow h.rooms room ≡ false)
unfolding pending_unlink pending_reap
Reach-settled m h r =
    let k = Reach-IsConsistent m start (record { hub = h; tasks = [] }) r start-IsConsistent in
    (
      λ id room b. ground (arith, k.into id room b, k.back id room b),
      λ room. ground (arith, k.full room),
    )
