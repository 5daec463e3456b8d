-- ===== src/Mesh/Sync.antt =====
-- crates/mesh/src/membership_sync.rs: the MEMBERSHIP messages that ride the TCP links, their bytes, and
-- what a node does on one. An encoder's `buf` is the bytes that it appends; a decoder's buffer and
-- offset are the unread rest.
pub mod Codec
pub mod Refutation
pub mod AntiEntropy
mod Tests
use beam_socket.Prelude.Bytes.{
  put_many, Bytes, Reader, ◌>>=◌, pure, fail, get_u8, get_le, get_many, le_bytes,
}
use beam_socket.Prelude.{
  ℕ, zero, suc, ◌+◌, ◌%◌, ◌^◌, ◌≤◌, ◌<◌, ◌≡◌, Bool, true, false, not, Option, none, some, List, [],
  ◌∷◌, ◌++◌, ltb, ◌==◌, if◌then◌else◌, length,
}
use beam_socket.Prelude.Maps.{Map, lookup, insert}
use beam_socket.Mesh.Addr.{SocketAddr, put_addr, get_addr}
use beam_socket.Mesh.Swim.Types.{MState, alive, suspect, dead, Update, Membership, full_state}
use beam_socket.Mesh.Swim.{merge, merge_all}

pub data MembershipMsg : Type 0 where
  sync : Bool → List Update → MembershipMsg
  gossip : List Update → MembershipMsg
  digest : List (ℕ × ℕ) → MembershipMsg

state_u8 : MState → ℕ
state_u8 alive = 0
state_u8 suspect = 1
state_u8 dead = 2

u8_state : ℕ → Option MState
u8_state b =
    if b == 0
    then some alive
    else if b == 1
    then some suspect
    else if b == 2
    then some dead
    else none

abbrev or_fail : {A : Type 0} → Option A → Reader A
or_fail none = fail
or_fail (some a) = pure a

put_update : Update → Bytes
unfolding state_u8
put_update u = le_bytes 2 u.id ++ (state_u8 u.state ∷ (le_bytes 4 u.inc ++ put_addr u.addr))

get_update : Reader Update
get_update = do
  id ← get_le 2
  b ← get_u8
  state ← or_fail (u8_state b)
  inc ← get_le 4
  addr ← get_addr
  pure (record { id = id; addr = addr; state = state; inc = inc })

put_updates : List Update → Bytes
put_updates us = le_bytes 2 (length us % 2 ^ 16) ++ put_many put_update us

get_updates : Reader (List Update)
get_updates = do count ← get_le 2; get_many count get_update

put_entry : ℕ × ℕ → Bytes
put_entry (id, inc) = le_bytes 2 id ++ le_bytes 4 inc

get_entry : Reader (ℕ × ℕ)
get_entry = do id ← get_le 2; inc ← get_le 4; pure (id, inc)

abbrev of_bool : Bool → ℕ
of_bool true = 1
of_bool false = 0

pub encode : MembershipMsg → Bytes
encode (sync reply us) = 1 ∷ of_bool reply ∷ put_updates us
encode (gossip us) = 2 ∷ put_updates us
encode (digest es) = 3 ∷ (le_bytes 2 (length es % 2 ^ 16) ++ put_many put_entry es)

decode_sync : Reader MembershipMsg
decode_sync = do b ← get_u8; us ← get_updates; pure (sync (not (b == 0)) us)

decode_gossip : Reader MembershipMsg
decode_gossip = do us ← get_updates; pure (gossip us)

decode_digest : Reader MembershipMsg
decode_digest = do count ← get_le 2; es ← get_many count get_entry; pure (digest es)

abbrev value : {A : Type 0} → Option (A × Bytes) → Option A
value none = none
value (some (a, r)) = some a

-- Bytes behind a whole message are ignored.
pub decode : Bytes → Option MembershipMsg
decode [] = none
decode (sub ∷ r) =
    if sub == 1
    then value (decode_sync r)
    else if sub == 2
    then value (decode_gossip r)
    else if sub == 3
    then value (decode_digest r)
    else none

-- `entries.into_iter().collect()`: of two entries for one id the later counts.
collect : Map ℕ → List (ℕ × ℕ) → Map ℕ
collect acc [] = acc
collect acc ((id, inc) ∷ es) = collect (insert id inc acc) es

abbrev is_newer : Option ℕ → Update → Bool
is_newer none u = true
is_newer (some known) u = ltb known u.inc

newer : Map ℕ → List Update → List Update
newer peer [] = []
newer peer (u ∷ us) = if is_newer (lookup u.id peer) u then u ∷ newer peer us else newer peer us

abbrev gossip_unless_empty : List Update → Option MembershipMsg
gossip_unless_empty [] = none
gossip_unless_empty (u ∷ us) = some (gossip (u ∷ us))

-- The table afterwards, and the response.
pub apply : MembershipMsg → Membership → ℕ → ℕ → Membership × Option MembershipMsg
apply (sync reply us) m retransmit now =
    let m' = merge_all m us retransmit now in
    (m', if reply then some (sync false (full_state m')) else none)
apply (gossip us) m retransmit now = (merge_all m us retransmit now, none)
apply (digest es) m retransmit now = (m, gossip_unless_empty (newer (collect [] es) (full_state m)))

digest_entries : List Update → List (ℕ × ℕ)
digest_entries [] = []
digest_entries (u ∷ us) = (u.id, u.inc) ∷ digest_entries us

pub build_digest : Membership → MembershipMsg
unfolding digest_entries
build_digest m = digest (digest_entries (full_state m))
