-- ===== src/Mesh/Interest/Repair.antt =====
-- interest.rs: the digest, and the snapshots that repair what it shows.
pub mod Snapshots
use beam_socket.Prelude.{
  ℕ, Bool, true, false, not, ◌&&◌, ◌||◌, Option, none, some, List, [], ◌∷◌, ◌++◌, ltb, ◌==◌,
  if◌then◌else◌,
}
use beam_socket.Prelude.Bytes.{Bytes}
use beam_socket.Prelude.Maps.{Map, lookup, insert}
use beam_socket.Mesh.Interest.{OriginInterest, hash, InterestSnapshot, InterestState}

unfoldable pub snapshot_of : ℕ → OriginInterest → InterestSnapshot
snapshot_of origin o = record { origin = origin; seq = o.seq; rooms = o.rooms; users = o.users }

unfoldable pub local_snapshot : InterestState → InterestSnapshot
local_snapshot s = record {
  origin = s.self_id;
  seq = s.own.seq;
  rooms = s.own.rooms;
  users = s.own.users;
}

digest_of : Map OriginInterest → List (ℕ × ℕ × ℕ)
digest_of [] = []
digest_of ((id, o) ∷ remote) = (id, o.seq, hash o) ∷ digest_of remote

pub build_digest : InterestState → List (ℕ × ℕ × ℕ)
unfolding digest_of
build_digest s = (s.self_id, s.own.seq, hash s.own) ∷ digest_of s.remote

-- The peer's entries as a map: of two for one origin the later counts.
peer_map : Map (ℕ × ℕ) → List (ℕ × ℕ × ℕ) → Map (ℕ × ℕ)
peer_map acc [] = acc
peer_map acc ((origin, seq, h) ∷ entries) = peer_map (insert origin (seq, h) acc) entries

abbrev is_empty : List Bytes → Bool
is_empty [] = true
is_empty (s ∷ ss) = false

-- Whether the peer's entry for this node, if it has one, differs from what the node is.
abbrev sends_self : Option (ℕ × ℕ) → OriginInterest → Bool
sends_self none own = (not (is_empty own.rooms) || not (is_empty own.users)) || ltb 0 own.seq
sends_self (some (seq, h)) own = not (seq == own.seq && h == hash own)

abbrev is_ahead : Option (ℕ × ℕ) → OriginInterest → Bool
is_ahead none o = ltb 0 o.seq
is_ahead (some (seq, h)) o = ltb seq o.seq

forwards : Map (ℕ × ℕ) → Map OriginInterest → List InterestSnapshot
forwards peer [] = []
forwards peer ((id, o) ∷ remote) =
    if is_ahead (lookup id peer) o
    then snapshot_of id o ∷ forwards peer remote
    else forwards peer remote

pub respond_to_digest : InterestState → List (ℕ × ℕ × ℕ) → List InterestSnapshot
unfolding peer_map forwards
respond_to_digest s entries =
    let peer = peer_map [] entries in
    let rest = forwards peer s.remote in
    if sends_self (lookup s.self_id peer) s.own then local_snapshot s ∷ rest else rest
