-- ===== src/Mesh/Swim/Types.antt =====
-- swim.rs: the types of the membership table, and what is read off it.
use beam_socket.Prelude.{
  ℕ, suc, Bool, true, false, Option, none, some, List, [], ◌∷◌, ◌++◌, leb, if◌then◌else◌,
}
use beam_socket.Prelude.Maps.{Map, lookup}
use beam_socket.Mesh.Addr.{SocketAddr}
use beam_socket.Mesh.Rng.{Rng, seeded}

pub data MState : Type 0 where
  alive suspect dead : MState

unfoldable pub precedence : MState → ℕ
precedence alive = 0
precedence suspect = 1
precedence dead = 2

abbrev pub is_state : MState → MState → Bool
is_state alive alive = true
is_state suspect suspect = true
is_state dead dead = true
is_state _ _ = false

pub record Update : Type 0 where
  pub id : ℕ
  pub addr : SocketAddr
  pub state : MState
  pub inc : ℕ

pub record Member : Type 0 where
  pub addr : SocketAddr
  pub state : MState
  pub inc : ℕ
  pub since : ℕ

-- The counter `dead` of the source is `deaths`.
pub record Counters : Type 0 where
  pub joined : ℕ
  pub suspected : ℕ
  pub deaths : ℕ
  pub refuted : ℕ
  pub revived : ℕ

abbrev pub gossip_cap : ℕ
gossip_cap = 256

pub record Membership : Type 0 where
  pub self_id : ℕ
  pub self_addr : SocketAddr
  pub self_inc : ℕ
  pub members : Map Member
  pub gossip : List (Update × ℕ)
  pub counters : Counters
  pub probe_order : List ℕ
  pub probe_idx : ℕ
  pub rng : Rng

-- The seed of the generator comes from the operating system.
unfoldable pub new : ℕ → SocketAddr → ℕ → Membership
new self_id self_addr seed = record {
  self_id = self_id;
  self_addr = self_addr;
  self_inc = 1;
  members = [];
  gossip = [];
  counters = record { joined = 0; suspected = 0; deaths = 0; refuted = 0; revived = 0 };
  probe_order = [];
  probe_idx = 0;
  rng = seeded seed;
}

unfoldable pub self_update : Membership → Update
self_update m = record { id = m.self_id; addr = m.self_addr; state = alive; inc = m.self_inc }

abbrev pub update_of : ℕ → Member → Update
update_of id m = record { id = id; addr = m.addr; state = m.state; inc = m.inc }

unfoldable pub updates_of : Map Member → List Update
updates_of [] = []
updates_of ((id, m) ∷ ms) = update_of id m ∷ updates_of ms

unfoldable pub full_state : Membership → List Update
unfolding updates_of
full_state m = updates_of m.members ++ (self_update m ∷ [])

-- `sort_by_key(|m| m.id)`; `MemberInfo` has the fields of `Update`.
insert_by_id : Update → List Update → List Update
insert_by_id u [] = u ∷ []
insert_by_id u (v ∷ vs) = if leb u.id v.id then u ∷ v ∷ vs else v ∷ insert_by_id u vs

sort_by_id : List Update → List Update
unfolding insert_by_id
sort_by_id [] = []
sort_by_id (u ∷ us) = insert_by_id u (sort_by_id us)

unfoldable pub table : Membership → List Update
unfolding sort_by_id updates_of
table m = sort_by_id (updates_of m.members)

count_alive : Map Member → ℕ
count_alive [] = 0
count_alive ((id, m) ∷ ms) = if is_state alive m.state then suc (count_alive ms) else count_alive ms

unfoldable pub alive_count : Membership → ℕ
unfolding count_alive
alive_count m = count_alive m.members

any_non_alive : Map Member → Bool
any_non_alive [] = false
any_non_alive ((id, m) ∷ ms) = if is_state alive m.state then any_non_alive ms else true

unfoldable pub has_non_alive : Membership → Bool
unfolding any_non_alive
has_non_alive m = any_non_alive m.members

unfoldable pub addr_of : Membership → ℕ → Option SocketAddr
addr_of m id = elim (lookup id m.members) [ none ↦ none | some held ↦ some held.addr ]
