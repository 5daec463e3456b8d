-- ===== src/Core/Engine/Calls.antt =====
-- engine.rs: sequences of calls on a node.
use beam_socket.Prelude.{
  ℕ, ◌≡◌, ◌∙◌, refl, sym, ap, Bool, true, false, not, Option, none, some, List, [], ◌∷◌, ◌==◌,
  if◌then◌else◌, Option-cases, inl, inr,
}
use beam_socket.Prelude.Bytes.{Bytes}
use beam_socket.Mesh.Interest.Hosting.{hosts-local_set_user}
use beam_socket.Core.Rooms.{member_count}
use beam_socket.Core.Engine.{Node, set_user_interest, join, leave, connect, teardown}
use beam_socket.Core.Engine.Hosting.{
  advertises, is_clustered, IsHosting, join-IsHosting, leave-IsHosting, drop_rooms-IsHosting,
}

-- What the SDK and the connections' tasks call, with what each is given.
pub data Call : Type 0 where
  connects : ℕ → ℕ → Option Bytes → Call
  joins leaves : ℕ → Bytes → Call
  goes : ℕ → Option Bytes → Call

unfoldable pub call : Call → Node → Node
call (connects vacant handle user_id) n = (connect vacant handle user_id n).0
call (joins id r) n = (join id r n).0
call (leaves id r) n = (leave id r n).0
call (goes id user_id) n = teardown id user_id n

unfoldable pub calls : List Call → Node → Node
calls [] n = n
calls (c ∷ cs) n = calls cs (call c n)

-- A change of a user's interest, or of what is no room, leaves the rooms as they are advertised.
user_interest_lem :
    (u : Bytes) (on : Bool) (n : Node)
    → (is_clustered (set_user_interest u on n) ≡ is_clustered n)
      × ((set_user_interest u on n).hub ≡ n.hub)
      × ((q : Bytes) → advertises (set_user_interest u on n) q ≡ advertises n q)
unfolding set_user_interest is_clustered advertises
user_interest_lem u on n = elim (Option-cases n.cluster) [
  | inl e ↦ (
    rw (set_user_interest, is_clustered, e) (rw (is_clustered, e) refl),
    rw (set_user_interest, e) refl,
    λ q. rw (set_user_interest, advertises, e) (rw (advertises, e) refl),
  )
  | inr (s, e) ↦ (
    rw (set_user_interest, is_clustered, e) refl,
    rw (set_user_interest, e) refl,
    λ q. rw (set_user_interest, advertises, e) (hosts-local_set_user u q on s),
  )
]

user-IsHosting :
    (u : Bytes) (on : Bool) (n : Node) → IsHosting n → IsHosting (set_user_interest u on n)
user-IsHosting u on n h = λ d q.
    let (cl, hub, ads) = user_interest_lem u on n in
    ads q ∙ h (sym cl ∙ d) q ∙ sym (ap (λ x. not (member_count q x.rooms == 0)) hub)

unfoldable pub user_if : Bool → Bytes → Bool → Node → Node
user_if test u on n = if test then set_user_interest u on n else n

user_if-IsHosting :
    (test : Bool) (u : Bytes) (on : Bool) (n : Node)
    → IsHosting n
    → IsHosting (if test then set_user_interest u on n else n)
user_if-IsHosting true u on n h = user-IsHosting u on n h
user_if-IsHosting false u on n h = h

connect-IsHosting :
    (vacant handle : ℕ) (user_id : Option Bytes) (n : Node)
    → IsHosting n
    → IsHosting (connect vacant handle user_id n).0
unfolding connect advertises is_clustered
connect-IsHosting vacant handle none n h = h
connect-IsHosting vacant handle (some uid) n h = user_if-IsHosting _ uid true _ h

teardown-IsHosting :
    (id : ℕ) (user_id : Option Bytes) (n : Node) → IsHosting n → IsHosting (teardown id user_id n)
unfolding teardown advertises is_clustered
teardown-IsHosting id none n h = drop_rooms-IsHosting id n h
teardown-IsHosting id (some uid) n h = user_if-IsHosting _ uid false _ (drop_rooms-IsHosting id n h)

call-IsHosting : (c : Call) (n : Node) → IsHosting n → IsHosting (call c n)
unfolding call
call-IsHosting (connects vacant handle user_id) n h = connect-IsHosting vacant handle user_id n h
call-IsHosting (joins id r) n h = join-IsHosting id r n h
call-IsHosting (leaves id r) n h = leave-IsHosting id r n h
call-IsHosting (goes id user_id) n h = teardown-IsHosting id user_id n h

-- Whatever connections come and go and whatever rooms they join and leave, each call after the other, a
-- node that advertises the rooms with members on it, and no others, goes on doing so.
pub calls-IsHosting : (cs : List Call) (n : Node) → IsHosting n → IsHosting (calls cs n)
unfolding calls
calls-IsHosting [] n h = h
calls-IsHosting (c ∷ cs) n h = calls-IsHosting cs (call c n) (call-IsHosting c n h)
