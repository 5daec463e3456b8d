-- ===== src/Mesh/Interest.antt =====
-- crates/mesh/src/interest.rs: the interest table of a node and its routing decision. A `BTreeSet` is
-- the sorted list of its members without repetition; a `HashMap` is an association list with at most
-- one entry for a key. Strings are their UTF-8 bytes, ordered byte by byte as `str` is.
pub mod Codec
pub mod Edges
pub mod Routing
pub mod Repair
pub mod Hosting
mod Tests
use Prim.Native.Nat.{bit_xor}
use beam_socket.Prelude.{
  ℕ, zero, suc, ◌+◌, ◌*◌, ◌%◌, ◌^◌, Bool, true, false, not, ◌&&◌, ◌||◌, Option, none, some, List,
  [], ◌∷◌, ◌++◌, ltb, leb, ◌==◌, if◌then◌else◌, length, bytes_eq,
}
use beam_socket.Prelude.Bytes.{Bytes, le_bytes}
use beam_socket.Prelude.Maps.{Map, lookup, insert, remove}

-- `str`'s order.
pub str_lt : Bytes → Bytes → Bool
str_lt [] [] = false
str_lt [] (y ∷ ys) = true
str_lt (x ∷ xs) [] = false
str_lt (x ∷ xs) (y ∷ ys) = ltb x y || (x == y && str_lt xs ys)

unfoldable pub mem : Bytes → List Bytes → Bool
mem s [] = false
mem s (t ∷ ts) = bytes_eq s t || mem s ts

-- `BTreeSet::insert` and `BTreeSet::remove`; both say whether the set has changed.
unfoldable pub set_insert : Bytes → List Bytes → List Bytes
set_insert s [] = s ∷ []
set_insert s (t ∷ ts) =
    if bytes_eq s t then t ∷ ts else if str_lt s t then s ∷ t ∷ ts else t ∷ set_insert s ts

pub set_remove : Bytes → List Bytes → List Bytes
set_remove s [] = []
set_remove s (t ∷ ts) = if bytes_eq s t then set_remove s ts else t ∷ set_remove s ts

-- `iter().cloned().collect()` into a set.
pub set_of : List Bytes → List Bytes
set_of [] = []
set_of (s ∷ ss) = set_insert s (set_of ss)

pub data Target : Type 0 where
  room user : Bytes → Target

pub data RoutingMode : Type 0 where
  interest flood : RoutingMode

pub record OriginInterest : Type 0 where
  pub seq : ℕ
  pub rooms : List Bytes
  pub users : List Bytes

abbrev pub no_interest : OriginInterest
no_interest = record { seq = 0; rooms = []; users = [] }

unfoldable pub hosts : OriginInterest → Target → Bool
hosts o (room r) = mem r o.rooms
hosts o (user u) = mem u o.users

-- The bytes that a set is hashed from.
hash_bytes : ℕ → List Bytes → Bytes
hash_bytes tag [] = []
hash_bytes tag (s ∷ ss) = tag ∷ ((le_bytes 2 (length s % 2 ^ 16) ++ s) ++ hash_bytes tag ss)

fnv_loop : ℕ → Bytes → ℕ
fnv_loop h [] = h
fnv_loop h (b ∷ bs) = fnv_loop ((bit_xor h b * 1099511628211) % 2 ^ 64) bs

pub fnv1a64 : Bytes → ℕ
unfolding fnv_loop
fnv1a64 data_bytes = fnv_loop 14695981039346656037 data_bytes

pub hash : OriginInterest → ℕ
unfolding hash_bytes
hash o = fnv1a64 (hash_bytes 1 o.rooms ++ hash_bytes 2 o.users)

pub record InterestEdge : Type 0 where
  pub origin : ℕ
  pub seq : ℕ
  pub add : Bool
  pub target : Target

pub record InterestSnapshot : Type 0 where
  pub origin : ℕ
  pub seq : ℕ
  pub rooms : List Bytes
  pub users : List Bytes

pub record InterestCounters : Type 0 where
  pub interest_in : ℕ
  pub interest_out : ℕ
  pub seq_drops : ℕ
  pub digest_repairs : ℕ

pub record InterestState : Type 0 where
  pub self_id : ℕ
  pub own : OriginInterest
  pub remote : Map OriginInterest
  pub routing : RoutingMode
  pub counters : InterestCounters

unfoldable pub new : ℕ → RoutingMode → InterestState
new self_id routing = record {
  self_id = self_id;
  own = no_interest;
  remote = [];
  routing = routing;
  counters = record { interest_in = 0; interest_out = 0; seq_drops = 0; digest_repairs = 0 };
}

-- A set with one member more or less.
abbrev pub put : Bool → Bytes → List Bytes → List Bytes
put true s ss = set_insert s ss
put false s ss = set_remove s ss

unfoldable pub put_target : Bool → Target → OriginInterest → OriginInterest
put_target add (room r) o = record o { rooms = put add r o.rooms }
put_target add (user u) o = record o { users = put add u o.users }

unfoldable pub set_routing : RoutingMode → InterestState → InterestState
set_routing routing s = record s { routing = routing }

-- The set changes when a member comes that was not there, or one goes that was.
abbrev pub differs : Bool → Bool → Bool
differs true there = not there
differs false there = there

unfoldable pub local_set : Target → Bool → InterestState → InterestState × Option InterestEdge
unfolding put_target hosts
local_set target hosting s =
    if differs hosting (hosts s.own target)
    then (let own' : OriginInterest = record (put_target hosting target s.own) {
      seq = (s.own.seq + 1) % 2 ^ 64;
    } in
        (
          record s {
            own = own';
            counters = record s.counters { interest_out = (s.counters.interest_out + 1) % 2 ^ 64 };
          },
          some (record { origin = s.self_id; seq = own'.seq; add = hosting; target = target }),
        ))
    else (s, none)

abbrev pub or_default : Option OriginInterest → OriginInterest
or_default none = no_interest
or_default (some o) = o

-- The entry of the origin, made by `entry(..).or_default()` also where the edge is then dropped.
unfoldable pub apply_edge : InterestEdge → InterestState → InterestState × Bool
unfolding put_target
apply_edge edge s =
    let o = or_default (lookup edge.origin s.remote) in
    if edge.origin == s.self_id
    then (s, false)
    else if leb edge.seq o.seq
    then (
      record s {
        remote = insert edge.origin o s.remote;
        counters = record s.counters { seq_drops = (s.counters.seq_drops + 1) % 2 ^ 64 };
      },
      false,
    )
    else (
      record s {
        remote =
            insert edge.origin (put_target edge.add edge.target (record o { seq = edge.seq }))
              s.remote;
        counters = record s.counters { interest_in = (s.counters.interest_in + 1) % 2 ^ 64 };
      },
      true,
    )

abbrev strs_eq : List Bytes → List Bytes → Bool
strs_eq [] [] = true
strs_eq [] (y ∷ ys) = false
strs_eq (x ∷ xs) [] = false
strs_eq (x ∷ xs) (y ∷ ys) = bytes_eq x y && strs_eq xs ys

abbrev pub is_same : Option OriginInterest → OriginInterest → Bool
is_same none o = false
is_same (some c) o = c.seq == o.seq && (strs_eq c.rooms o.rooms && strs_eq c.users o.users)

abbrev pub accepts : Option OriginInterest → ℕ → Bool
accepts none seq = true
accepts (some o) seq = leb o.seq seq

unfoldable pub apply_snapshot : InterestSnapshot → InterestState → InterestState × Bool
apply_snapshot snap s =
    let cur = lookup snap.origin s.remote in
    let replacement : OriginInterest = record {
      seq = snap.seq;
      rooms = set_of snap.rooms;
      users = set_of snap.users;
    } in
    let changed = not (is_same cur replacement) in
    let repairs = s.counters.digest_repairs in
    if snap.origin == s.self_id
    then (s, false)
    else if accepts cur snap.seq
    then (
      record s {
        remote = insert snap.origin replacement s.remote;
        counters = record s.counters {
          digest_repairs = if changed then (repairs + 1) % 2 ^ 64 else repairs;
          interest_in = (s.counters.interest_in + 1) % 2 ^ 64;
        };
      },
      changed,
    )
    else (s, false)

unfoldable pub sweep_origin : ℕ → InterestState → InterestState
sweep_origin origin s = record s { remote = remove origin s.remote }
