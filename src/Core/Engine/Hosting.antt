-- ===== src/Core/Engine/Hosting.antt =====
-- engine.rs: the rooms that a node advertises are the rooms that have members on it.
use beam_socket.Prelude.{
  ℕ, ◌≡◌, ◌∙◌, refl, sym, ap, Bool, true, false, not, ◌&&◌, none, some, List, [], ◌∷◌, ◌==◌,
  if◌then◌else◌, arith, Bool-cases, Option-cases, inl, inr,
}
use beam_socket.Prelude.Bytes.{Bytes}
use beam_socket.Prelude.Keys.{bytes_key, same, contains}
use beam_socket.Mesh.Interest
use beam_socket.Mesh.Interest.{InterestState, hosts, local_set}
use beam_socket.Mesh.Interest.Hosting.{hosts-local_set}
use beam_socket.Core.Rooms
use beam_socket.Core.Rooms.{is_changed, Hub, RoomMap, info, member_count, disconnect_cleanup}
use beam_socket.Core.Rooms.Counts.{
  count_at, info-member_count, count-join, count-leave, count-disconnect_cleanup,
}
use beam_socket.Core.Registry.{remove_full}
use beam_socket.Core.Engine.{Node, set_room_interest, join, leave, drop_rooms, withdraw}

-- The node is in a cluster, and its table says that it hosts the room.
unfoldable pub advertises : Node → Bytes → Bool
advertises n r = elim n.cluster [ none ↦ false | some s ↦ hosts s.own (Interest.room r) ]

unfoldable pub is_clustered : Node → Bool
is_clustered n = elim n.cluster [ none ↦ false | some s ↦ true ]

abbrev pub occupied : Node → Bytes → Bool
occupied n r = not (member_count r n.hub.rooms == 0)

-- A node in a cluster advertises the rooms that have members on it, and no others.
abbrev pub IsHosting : Node → Type 0
IsHosting n = is_clustered n ≡ true → (r : Bytes) → advertises n r ≡ occupied n r

set_room_interest_lem :
    (a b : Bytes) (on : Bool) (n : Node)
    → (advertises (set_room_interest a on n) b
        ≡ (is_clustered n && (if same a b then on else advertises n b)))
      × (is_clustered (set_room_interest a on n) ≡ is_clustered n)
      × ((set_room_interest a on n).hub ≡ n.hub)
unfolding set_room_interest advertises is_clustered
set_room_interest_lem a b on n = elim (Option-cases n.cluster) [
  | inl e ↦
      rw (set_room_interest, advertises, is_clustered, e)
        (rw (advertises, e) refl, rw (is_clustered, e) refl, refl)
  | inr (s, e) ↦
      rw (set_room_interest, advertises, is_clustered, e) (hosts-local_set a b on s, refl, refl)
]

occupied_at : (a b : Bytes) (n : Node) → same a b ≡ true → occupied n b ≡ occupied n a
occupied_at a b n e = ap (λ k. not (k == 0)) (count_at n.hub.rooms a b e)

pub same_cluster :
    (n m : Node)
    → m.cluster ≡ n.cluster
    → (is_clustered m ≡ is_clustered n) × ((q : Bytes) → advertises m q ≡ advertises n q)
unfolding is_clustered advertises
same_cluster n m c = (rw (is_clustered, c) refl, λ q. rw (advertises, c) refl)

-- A node whose rooms have changed, and that sets what it advertises of the one room that has, or need not.
settled :
    (r : Bytes) (on : Bool) (set : Bool) (n m : Node)
    → m.cluster ≡ n.cluster
    → IsHosting n
    → (set ≡ true → occupied m r ≡ on)
    → (set ≡ false → occupied m r ≡ occupied n r)
    → ((q : Bytes) → same r q ≡ false → occupied m q ≡ occupied n q)
    → IsHosting (if set then set_room_interest r on m else m)
settled r on true n m c h w k o = λ d q.
    let (told, cl, hub) = set_room_interest_lem r q on m in
    let (both, ads) = same_cluster n m c in
    let keeps : occupied (set_room_interest r on m) q ≡ occupied m q =
      ap (λ x. not (member_count q x.rooms == 0)) hub in
    let clustered : is_clustered m ≡ true = sym cl ∙ d in
    let before : advertises m q ≡ occupied n q = ads q ∙ h (sym both ∙ clustered) q in
    told
    ∙ rw clustered (elim (Bool-cases (same r q)) [
      | inl e ↦ rw e (sym (keeps ∙ occupied_at r q m e ∙ w refl))
      | inr e ↦ rw e (before ∙ sym (keeps ∙ o q e))
    ])
settled r on false n m c h w k o = λ d q.
    let (both, ads) = same_cluster n m c in
    let before : advertises m q ≡ occupied n q = ads q ∙ h (sym both ∙ d) q in
    elim (Bool-cases (same r q)) [
      | inl e ↦ before ∙ occupied_at r q n e ∙ sym (occupied_at r q m e ∙ k refl)
      | inr e ↦ before ∙ sym (o q e)
    ]

pub join-IsHosting : (id : ℕ) (r : Bytes) (n : Node) → IsHosting n → IsHosting (join id r n).0
unfolding join
join-IsHosting id r n h =
    let (hub, change) = Rooms.join id r n.max_rooms_per_connection n.hub in
    let m : Node = record n { hub = hub } in
    let count = λ (q : Bytes). count-join id n.max_rooms_per_connection r q n.hub in
    let seen = info-member_count r hub.rooms in
    let self = bytes_key.same_refl r in
    settled r true (is_changed change && (info r hub.rooms).members == 1) n m refl h
      (λ e. ground (arith, e, seen)) (λ e. ground (arith, e, seen, count r, self))
      (λ q e. ground (arith, e, count q))

pub leave-IsHosting : (id : ℕ) (r : Bytes) (n : Node) → IsHosting n → IsHosting (leave id r n).0
unfolding leave
leave-IsHosting id r n h =
    let (hub, change) = Rooms.leave id r n.hub in
    let m : Node = record n { hub = hub } in
    let count = λ (q : Bytes). count-leave id r q n.hub in
    let seen = info-member_count r hub.rooms in
    let self = bytes_key.same_refl r in
    settled r false (is_changed change && (info r hub.rooms).members == 0) n m refl h
      (λ e. ground (arith, e, seen)) (λ e. ground (arith, e, seen, count r, self))
      (λ q e. ground (arith, e, count q))

-- What is advertised while the rooms of a disconnect are gone through.
abbrev IsWithdrawing : List Bytes → Node → Type 0
IsWithdrawing rs n =
    (q : Bytes)
    → (occupied n q ≡ true → advertises n q ≡ true)
      × (contains q rs ≡ false → advertises n q ≡ occupied n q)

withdraw_one :
    (r : Bytes) (rs : List Bytes) (n : Node) (empties : Bool)
    → ((info r n.hub.rooms).members == 0) ≡ empties
    → (is_clustered n ≡ true → IsWithdrawing (r ∷ rs) n)
    → let after = if empties then set_room_interest r false n else n in
      is_clustered after ≡ true → IsWithdrawing rs after
unfolding contains
withdraw_one r rs n true e h d q =
    let (told, cl, hub) = set_room_interest_lem r q false n in
    let keeps : occupied (set_room_interest r false n) q ≡ occupied n q =
      ap (λ x. not (member_count q x.rooms == 0)) hub in
    let clustered : is_clustered n ≡ true = sym cl ∙ d in
    let empty : occupied n r ≡ false = ground (arith, e, info-member_count r n.hub.rooms) in
    let (some_kept, others) = h clustered q in
    elim (Bool-cases (same r q)) [
      | inl s ↦ ground (arith, told, keeps, clustered, s, empty, occupied_at r q n s)
      | inr s ↦ ground (arith, told, keeps, clustered, s, some_kept, others)
    ]
withdraw_one r rs n false e h d q =
    let full : occupied n r ≡ true = ground (arith, e, info-member_count r n.hub.rooms) in
    let (some_kept, others) = h d q in
    elim (Bool-cases (same r q)) [
      | inl s ↦ (
        some_kept,
        λ y. some_kept (occupied_at r q n s ∙ full) ∙ sym (occupied_at r q n s ∙ full),
      )
      | inr s ↦ (some_kept, λ y. ground (arith, y, s, others))
    ]

withdraw-IsHosting :
    (rs : List Bytes) (n : Node)
    → (is_clustered n ≡ true → IsWithdrawing rs n)
    → IsHosting (withdraw rs n)
unfolding withdraw contains
withdraw-IsHosting [] n h = λ c q. (h c q).1 refl
withdraw-IsHosting (r ∷ rs) n h =
    withdraw-IsHosting rs
      (if (info r n.hub.rooms).members == 0 then set_room_interest r false n else n)
      (withdraw_one r rs n ((info r n.hub.rooms).members == 0) refl h)

pub drop_rooms-IsHosting : (id : ℕ) (n : Node) → IsHosting n → IsHosting (drop_rooms id n)
unfolding drop_rooms is_clustered advertises
drop_rooms-IsHosting id n h = elim (Option-cases (remove_full id n.hub.conns).1) [
  | inl e ↦ rw (drop_rooms, e) h
  | inr ((handle, joined), e) ↦
      let m : Node = record n {
        hub = record {
          conns = (remove_full id n.hub.conns).0;
          rooms = disconnect_cleanup id joined n.hub.rooms;
        };
      } in
      rw (drop_rooms, e)
        (withdraw-IsHosting joined m (λ d q.
          let (less, kept) = count-disconnect_cleanup id joined q n.hub.rooms in
          let before = h d q in
          (λ y. ground (arith, y, less, before), λ y. ground (arith, kept y, before))))
]
