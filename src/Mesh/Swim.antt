-- ===== src/Mesh/Swim.antt =====
-- crates/mesh/src/swim.rs: the SWIM membership table of one node. Every method runs under the lock of
-- the table. `Instant::now()` is the argument `now`; the table `members` is a map whose list order
-- stands for the order in which the `HashMap` is iterated. The types and the small steps are in
-- `Types` and `Gossip`; here are the methods that change the table.
pub mod Types
pub mod Gossip
pub mod Standing
pub mod Refute
pub mod Invariant
pub mod Vouching
pub mod History
pub mod Expiry
pub mod Budget
pub mod Probing
pub mod Tests
use beam_socket.Prelude.{
  ℕ, suc, ◌+◌, ◌-◌, ◌%◌, ◌^◌, Bool, true, false, not, ◌&&◌, ◌||◌, Option, none, some, List, [], ◌∷◌,
  ◌++◌, ltb, leb, ◌==◌, if◌then◌else◌, map,
}
use beam_socket.Prelude.Words.{add64}
use beam_socket.Prelude.Maps.{lookup, insert}
use beam_socket.Mesh.Addr.{SocketAddr}
use Types.{
  MState, alive, suspect, dead, is_state, precedence, Update, Member, Counters, Membership,
  self_update,
}
use Gossip.{enqueue}

-- `count_transition`: the counters after a member went from `prev` to `next`.
pub count_transition : Counters → Option MState → MState → Counters
count_transition c none alive = record c { joined = add64 c.joined 1 }
count_transition c none suspect = record c { suspected = add64 c.suspected 1 }
count_transition c none dead = record c { deaths = add64 c.deaths 1 }
count_transition c (some alive) alive = c
count_transition c (some suspect) alive = record c { revived = add64 c.revived 1 }
count_transition c (some dead) alive = record c { revived = add64 c.revived 1 }
count_transition c (some suspect) suspect = c
count_transition c (some alive) suspect = record c { suspected = add64 c.suspected 1 }
count_transition c (some dead) suspect = record c { suspected = add64 c.suspected 1 }
count_transition c (some dead) dead = c
count_transition c (some alive) dead = record c { deaths = add64 c.deaths 1 }
count_transition c (some suspect) dead = record c { deaths = add64 c.deaths 1 }

-- The test under which a fact about another node is taken over what the table holds.
pub accepts : Option Member → Update → Bool
accepts none u = true
accepts (some m) u =
    ltb m.inc u.inc || ((u.inc == m.inc) && ltb (precedence m.state) (precedence u.state))

abbrev state_of : Option Member → Option MState
state_of none = none
state_of (some m) = some m.state

-- The branch of `merge` for a fact about this node. `u.inc + 1` wraps in a release build.
pub merge_self : Membership → Update → ℕ → Membership × Bool
merge_self m u retransmit =
    if not (is_state alive u.state) && leb m.self_inc u.inc
    then (let bumped : Membership = record m {
      self_inc = (u.inc + 1) % 2 ^ 32;
      counters = record (m.counters) { refuted = add64 m.counters.refuted 1 };
    } in
        (enqueue bumped (self_update bumped) retransmit, true))
    else (m, false)

-- The branch for a fact about another node.
pub merge_peer : Membership → Update → ℕ → ℕ → Membership × Bool
merge_peer m u retransmit now =
    let held = lookup u.id m.members in
    if accepts held u
    then (
      enqueue
          (record m {
            members =
                insert u.id (record { addr = u.addr; state = u.state; inc = u.inc; since = now })
                  m.members;
            counters = count_transition m.counters (state_of held) u.state;
          })
          u retransmit,
      true,
    )
    else (m, false)

pub merge : Membership → Update → ℕ → ℕ → Membership × Bool
merge m u retransmit now =
    if u.id == m.self_id then merge_self m u retransmit else merge_peer m u retransmit now

-- `for u in &updates { membership.merge(u, retransmit); }`
unfoldable pub merge_all : Membership → List Update → ℕ → ℕ → Membership
merge_all m [] retransmit now = m
merge_all m (u ∷ us) retransmit now = merge_all (merge m u retransmit now).0 us retransmit now

revive : Membership → ℕ → Member → ℕ → ℕ → Membership
revive m from held retransmit now =
    enqueue
      (record m {
        members = insert from (record held { state = alive; since = now }) m.members;
        counters = record (m.counters) { revived = add64 m.counters.revived 1 };
      })
      (record { id = from; addr = held.addr; state = alive; inc = held.inc }) retransmit

pub note_direct_ack : Membership → ℕ → ℕ → ℕ → Membership × Bool
unfolding revive
note_direct_ack m from retransmit now = elim (lookup from m.members) [
  | none ↦ (m, false)
  | some held ↦
      if is_state suspect held.state then (revive m from held retransmit now, true) else (m, false)
]

-- `suspect`, named for its constructor's sake after what it does.
pub mark_suspect : Membership → ℕ → ℕ → ℕ → Membership × Bool
mark_suspect m target retransmit now = elim (lookup target m.members) [
  | none ↦ (m, false)
  | some held ↦
      if is_state alive held.state
      then merge m (record { id = target; addr = held.addr; state = suspect; inc = held.inc })
          retransmit now
      else (m, false)
]

-- The members that are suspected for longer than `timeout`, as the death of each.
unfoldable pub overdue : ℕ → ℕ → List (ℕ × Member) → List Update
overdue timeout now [] = []
overdue timeout now ((id, m) ∷ ms) =
    if is_state suspect m.state && ltb timeout (now - m.since)
    then record { id = id; addr = m.addr; state = dead; inc = m.inc } ∷ overdue timeout now ms
    else overdue timeout now ms

-- The evictions of `expire_suspects`, with the ids that `merge` took.
unfoldable pub evict : Membership → List Update → ℕ → ℕ → Membership × List ℕ
evict m [] retransmit now = (m, [])
evict m (u ∷ us) retransmit now =
    let (m', took) = merge m u retransmit now in
    let (m'', ids) = evict m' us retransmit now in (m'', if took then u.id ∷ ids else ids)

unfoldable pub expire_suspects : Membership → ℕ → ℕ → ℕ → Membership × List ℕ
expire_suspects m timeout retransmit now = evict m (overdue timeout now m.members) retransmit now
