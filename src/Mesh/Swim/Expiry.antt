-- ===== src/Mesh/Swim/Expiry.antt =====
-- swim.rs: `expire_suspects` as a function on what is looked up in the table.
use beam_socket.Prelude.{
  ℕ, ◌-◌, ◌≡◌, ◌≢◌, ◌∙◌, refl, ap, List, [], ◌∷◌, arith, true, ◌&&◌, Bool, Bool-cases, ltb, ◌==◌,
  if◌then◌else◌, map, inl, inr, Option, none, some,
}
use beam_socket.Prelude.Maps.{Map, lookup, Fresh, Distinct, lookup-insert, lookup-Fresh}
use beam_socket.Mesh.Swim.Types.{
  MState, alive, suspect, dead, is_state, precedence, Update, Member, Membership,
}
use beam_socket.Mesh.Swim.Gossip.{enqueue}
use beam_socket.Mesh.Swim.Standing.{merge-self_id}
use beam_socket.Mesh.Swim.Invariant.{IsValid}
use beam_socket.Mesh.Swim.{merge, merge_peer, accepts, overdue, evict, expire_suspects}

abbrev pub is_overdue : ℕ → ℕ → Member → Bool
is_overdue timeout now m = is_state suspect m.state && ltb timeout (now - m.since)

-- The death of a member that the table suspects, at the same incarnation.
record Doomed (m : Membership) (u : Update) : Type 0 where
  held : Member
  known : lookup u.id m.members ≡ some held
  suspected : held.state ≡ suspect
  same : held.inc ≡ u.inc
  fate : u.state ≡ dead
  other : u.id ≢ m.self_id

abbrev buried : Update → ℕ → Member
buried u now = record { addr = u.addr; state = u.state; inc = u.inc; since = now }

merge-Doomed :
    (m : Membership) (u : Update) (r now j : ℕ)
    → Doomed m u
    → ((merge m u r now).1 ≡ true)
      × (lookup j (merge m u r now).0.members
          ≡ (if u.id == j then some (buried u now) else lookup j m.members))
unfolding merge merge_peer enqueue accepts precedence
merge-Doomed m u r now j d = ground (
  arith,
  d.known,
  d.suspected,
  d.same,
  d.fate,
  d.other,
  lookup-insert u.id j (buried u now) m.members,
)

abbrev Missing : ℕ → List Update → Type 0
Missing id [] = Unit
Missing id (u ∷ us) = (u.id ≢ id) × Missing id us

abbrev OnePerId : List Update → Type 0
OnePerId [] = Unit
OnePerId (u ∷ us) = Missing u.id us × OnePerId us

abbrev AllDoomed : Membership → List Update → Type 0
AllDoomed m [] = Unit
AllDoomed m (u ∷ us) = Doomed m u × AllDoomed m us

-- One death does not touch the others.
Doomed-merge :
    (m : Membership) (u v : Update) (r now : ℕ)
    → Doomed m u
    → v.id ≢ u.id
    → Doomed m v
    → Doomed (merge m u r now).0 v
Doomed-merge m u v r now d h e = record {
  held = e.held;
  known = ground (arith, (merge-Doomed m u r now v.id d).1, e.known);
  suspected = e.suspected;
  same = e.same;
  fate = e.fate;
  other = λ q. e.other (q ∙ merge-self_id m u r now);
}

AllDoomed-merge :
    (m : Membership) (u : Update) (us : List Update) (r now : ℕ)
    → Doomed m u
    → Missing u.id us
    → AllDoomed m us
    → AllDoomed (merge m u r now).0 us
AllDoomed-merge m u [] r now d h a = tt
AllDoomed-merge m u (v ∷ us) r now d h a =
    (Doomed-merge m u v r now d h.0 a.0, AllDoomed-merge m u us r now d h.1 a.1)

-- The first of the deaths that is about `id`.
find : ℕ → List Update → Option Update
find id [] = none
find id (u ∷ us) = if u.id == id then some u else find id us

abbrev after_burial : ℕ → Option Update → Option Member → Option Member
after_burial now none held = held
after_burial now (some u) held = some (buried u now)

find-Missing : (id : ℕ) (us : List Update) → Missing id us → find id us ≡ none
unfolding find
find-Missing id [] h = refl
find-Missing id (u ∷ us) h = ground (arith, find-Missing id us h.1)

evict_lem :
    (m : Membership) (us : List Update) (r now j : ℕ)
    → AllDoomed m us
    → OnePerId us
    → ((evict m us r now).1 ≡ map (λ u. u.id) us)
      × (lookup j (evict m us r now).0.members ≡ after_burial now (find j us) (lookup j m.members))
unfolding evict find
evict_lem m [] r now j a o = (refl, refl)
evict_lem m (u ∷ us) r now j a o = ground (
  arith,
  merge-Doomed m u r now j a.0,
  evict_lem (merge m u r now).0 us r now j (AllDoomed-merge m u us r now a.0 o.0 a.1) o.1,
  λ (e : u.id ≡ j). find-Missing u.id us o.0,
)

-- What `overdue` collects from a table without double keys.
overdue-Missing :
    (timeout now id : ℕ) (ms : Map Member) → Fresh id ms → Missing id (overdue timeout now ms)
unfolding overdue
overdue-Missing timeout now id [] f = tt
overdue-Missing timeout now id ((j, m) ∷ ms) f =
    ground (arith, overdue-Missing timeout now id ms f.1)

overdue-OnePerId :
    (timeout now : ℕ) (ms : Map Member) → Distinct ms → OnePerId (overdue timeout now ms)
unfolding overdue
overdue-OnePerId timeout now [] d = tt
overdue-OnePerId timeout now ((j, m) ∷ ms) d =
    ground (arith, overdue-OnePerId timeout now ms d.1, overdue-Missing timeout now j ms d.0)

abbrev death : ℕ → Member → Update
death id m = record { id = id; addr = m.addr; state = dead; inc = m.inc }

abbrev death_if_overdue : ℕ → ℕ → ℕ → Option Member → Option Update
death_if_overdue timeout now id none = none
death_if_overdue timeout now id (some m) =
    if is_overdue timeout now m then some (death id m) else none

find-overdue :
    (timeout now id : ℕ) (ms : Map Member)
    → Distinct ms
    → find id (overdue timeout now ms) ≡ death_if_overdue timeout now id (lookup id ms)
unfolding overdue find lookup
find-overdue timeout now id [] d = refl
find-overdue timeout now id ((j, m) ∷ ms) d = ground (
  arith,
  find-overdue timeout now id ms d.1,
  find-Missing j (overdue timeout now ms) (overdue-Missing timeout now j ms d.0),
)

-- A member of a part of the table without double keys, in the whole.
overdue-AllDoomed :
    (m : Membership) (timeout now : ℕ) (ms : Map Member)
    → ((id : ℕ) (held : Member) → lookup id ms ≡ some held → lookup id m.members ≡ some held)
    → Distinct ms
    → Fresh m.self_id ms
    → AllDoomed m (overdue timeout now ms)
unfolding overdue lookup
overdue-AllDoomed m timeout now [] whole d f = tt
overdue-AllDoomed m timeout now ((j, h) ∷ ms) whole d f =
    let rest = overdue-AllDoomed m timeout now ms in_whole d.1 f.1 in
    elim (Bool-cases (is_overdue timeout now h)) [
      | inl e ↦ rw e (
        record {
          held = h;
          known = whole j h (ground arith);
          suspected = is_suspect h.state (ground arith);
          same = refl;
          fate = refl;
          other = f.0;
        },
        rest,
      )
      | inr e ↦ rw e rest
    ]
  where
    in_whole : (id : ℕ) (held : Member) → lookup id ms ≡ some held → lookup id m.members ≡ some held
    in_whole id held e = whole id held (ground (arith, lookup-Fresh j ms d.0))

    is_suspect : (s : MState) → is_state suspect s ≡ true → s ≡ suspect
    is_suspect alive e = absurd (cc e)
    is_suspect suspect e = refl
    is_suspect dead e = absurd (cc e)

-- What the table holds of a node after the evictions.
abbrev pub expired : ℕ → ℕ → Option Member → Option Member
expired timeout now none = none
expired timeout now (some m) =
    if is_overdue timeout now m then some (record m { state = dead; since = now }) else some m

burial_expired :
    (timeout now id : ℕ) (o : Option Member)
    → after_burial now (death_if_overdue timeout now id o) o ≡ expired timeout now o
burial_expired timeout now id none = refl
burial_expired timeout now id (some m) = ground arith

-- On a valid table, `expire_suspects` turns exactly the members that are suspected for longer than
-- `timeout` into dead ones, at the same address and incarnation, and leaves every other entry as
-- it is; it returns the ids of those members.
pub expire_suspects_lem :
    (m : Membership) (timeout r now id : ℕ)
    → IsValid m
    → (lookup id (expire_suspects m timeout r now).0.members
        ≡ expired timeout now (lookup id m.members))
      × ((expire_suspects m timeout r now).1 ≡ map (λ u. u.id) (overdue timeout now m.members))
unfolding expire_suspects
expire_suspects_lem m timeout r now id v =
    let (ids, found) =
      evict_lem m (overdue timeout now m.members) r now id
        (overdue-AllDoomed m timeout now m.members (λ j held e. e) v.keys v.absent)
        (overdue-OnePerId timeout now m.members v.keys) in
    (
      found
          ∙ ap (λ o. after_burial now o (lookup id m.members))
              (find-overdue timeout now id m.members v.keys)
          ∙ burial_expired timeout now id (lookup id m.members),
      ids,
    )
