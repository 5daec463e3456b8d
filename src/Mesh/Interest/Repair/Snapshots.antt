-- ===== src/Mesh/Interest/Repair/Snapshots.antt =====
-- interest.rs: what a snapshot repairs at the node that applies it.
use beam_socket.Prelude.{
  ℕ, ◌≤◌, ◌≡◌, ◌≢◌, ◌∙◌, refl, ap, true, false, ◌||◌, Option, none, some, List, [], ◌∷◌, ◌==◌,
  bytes_eq, bytes_eq→eq, arith, Bool-cases, inl, inr,
}
use beam_socket.Prelude.Bytes.{Bytes}
use beam_socket.Prelude.Maps.{lookup, lookup-insert}
use beam_socket.Mesh.Interest.{
  mem, set_insert, set_of, Target, room, user, OriginInterest, hosts, accepts, or_default,
  InterestSnapshot, InterestState, apply_snapshot,
}
use beam_socket.Mesh.Interest.Repair.{local_snapshot}

pub mem-set_insert :
    (s t : Bytes) (ts : List Bytes) → mem s (set_insert t ts) ≡ (bytes_eq s t || mem s ts)
unfolding mem set_insert
mem-set_insert s t [] = refl
mem-set_insert s t (u ∷ ts) = elim (Bool-cases (bytes_eq t u)) [
  | inl e ↦ rw (e, bytes_eq→eq t u e) (ground arith)
  | inr e ↦ ground (arith, e, mem-set_insert s t ts)
]

mem-set_of : (s : Bytes) (ts : List Bytes) → mem s (set_of ts) ≡ mem s ts
unfolding mem set_of
mem-set_of s [] = refl
mem-set_of s (t ∷ ts) =
    mem-set_insert s t (set_of ts) ∙ ap (λ b. bytes_eq s t || b) (mem-set_of s ts)

abbrev held : ℕ → InterestState → OriginInterest
held origin s = or_default (lookup origin s.remote)

accepts_held :
    (o : Option OriginInterest) (seq : ℕ) → (or_default o).seq ≤ seq → accepts o seq ≡ true
accepts_held none seq h = refl
accepts_held (some o) seq h = ground arith

==_false : (a b : ℕ) → a ≢ b → (a == b) ≡ false
==_false a b h = ground arith

snapshot_held :
    (snap : InterestSnapshot) (s : InterestState)
    → snap.origin ≢ s.self_id
    → (held snap.origin s).seq ≤ snap.seq
    → held snap.origin (apply_snapshot snap s).0
      ≡ record { seq = snap.seq; rooms = set_of snap.rooms; users = set_of snap.users }
unfolding apply_snapshot
snapshot_held snap s d h =
    let here : (snap.origin == snap.origin) ≡ true = ground arith in
    rw
      (
        ==_false snap.origin s.self_id d,
        accepts_held (lookup snap.origin s.remote) snap.seq h,
        lookup-insert snap.origin snap.origin
            (record { seq = snap.seq; rooms = set_of snap.rooms; users = set_of snap.users })
            s.remote,
        here,
      )
      refl

hosts-set_of :
    (target : Target) (o : OriginInterest)
    → hosts (record { seq = o.seq; rooms = set_of o.rooms; users = set_of o.users }) target
      ≡ hosts o target
unfolding hosts
hosts-set_of (room r) o = mem-set_of r o.rooms
hosts-set_of (user u) o = mem-set_of u o.users

-- A snapshot of a node's own interest repairs whatever another node has held of it, provided that is not
-- newer: afterwards the other node's entry has the sequence number of the snapshot and hosts exactly the
-- targets that the node does.
pub local_snapshot_repairs :
    (s peer : InterestState) (target : Target)
    → s.self_id ≢ peer.self_id
    → (or_default (lookup s.self_id peer.remote)).seq ≤ s.own.seq
    → let entry = or_default (lookup s.self_id (apply_snapshot (local_snapshot s) peer).0.remote) in
      (entry.seq ≡ s.own.seq) × (hosts entry target ≡ hosts s.own target)
unfolding local_snapshot
local_snapshot_repairs s peer target d h =
    let e = snapshot_held (local_snapshot s) peer d h in
    (ap OriginInterest.seq e, ap (λ o. hosts o target) e ∙ hosts-set_of target s.own)
