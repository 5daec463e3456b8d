-- ===== src/Core/Registry/Laws.antt =====
-- registry.rs: what each method does to the lookup of every id.
use beam_socket.Prelude.{
  ◌&&◌, ℕ, ◌+◌, ◌-◌, ◌*◌, ◌/◌, ◌%◌, ◌^◌, ◌<◌, ◌≡◌, ◌≢◌, ◌∙◌, refl, sym, ap, Option, none, some,
  List, [], ltb, ◌==◌, ==→eq, ==_refl, if◌then◌else◌, get_or, arith, Bool-cases, inl, inr,
  Option-cases, lt→ltb,
}
use Prim.Native.Nat.{bit_and}
use beam_socket.Prelude.Bytes.{Bytes}
use beam_socket.Prelude.Bits.{bit_and_mask}
use beam_socket.Prelude.Maps.{lookup, lookup-insert, lookup-remove}
use beam_socket.Core.Ids
use beam_socket.Core.Ids.{generation_mask}
use beam_socket.Core.Ids.Packing.{new_lem, new_fields, mask_mod}
use beam_socket.Core.Registry.{
  Entry, Registry, new, next_generation, register, live, find, remove_slot, remove_full, put_entry,
  with_rooms, shard_count,
}

-- Ids of 64 bits with the same fields are the same.
same_fields :
    (id other : ℕ)
    → id < 2 ^ 64
    → other < 2 ^ 64
    → Ids.shard id ≡ Ids.shard other
    → Ids.generation id ≡ Ids.generation other
    → Ids.key id ≡ Ids.key other
    → id ≡ other
same_fields id other b c s g k =
    sym (new_fields 0 0 0 id (omega arith) (omega arith) b).3
    ∙ cc (s, g, k)
    ∙ (new_fields 0 0 0 other (omega arith) (omega arith) c).3

-- What a successful lookup says of the slot.
find-eq_some :
    (r : Registry) (id : ℕ) (e : Entry)
    → find r id ≡ some e
    → (Ids.shard id < shard_count)
      × (lookup (Ids.key id) (r.shards (Ids.shard id)).slab ≡ some e)
      × (e.generation ≡ Ids.generation id)
unfolding find
find-eq_some r id e h = elim (Option-cases (lookup (Ids.key id) (r.shards (Ids.shard id)).slab)) [
  | inl n ↦ ground (arith, n, h)
  | inr (d, n) ↦ ground (arith, n, h)
]

slot : Registry → ℕ → ℕ → Option Entry
slot r s k = lookup k (r.shards s).slab

-- A method that changes nothing but the slot of `id`, and changes it for no other generation, changes
-- the lookup of no other id.
find_after :
    (r after : Registry) (id other : ℕ) (v : Option Entry)
    → id < 2 ^ 64
    → other < 2 ^ 64
    → Ids.shard id < shard_count
    → ((s k : ℕ)
        → slot after s k ≡ (if s == Ids.shard id && Ids.key id == k then v else slot r s k))
    → ((g : ℕ) → g ≢ Ids.generation id → live v g ≡ live (slot r (Ids.shard id) (Ids.key id)) g)
    → find after other ≡ (if id == other then live v (Ids.generation id) else find r other)
unfolding find slot
find_after r after id other v b c low w keep = elim (Bool-cases (id == other)) [
  | inl e ↦
      let same : id ≡ other = ==→eq id other e in
      rw (← same) (
        rw
          (
            w (Ids.shard id) (Ids.key id),
            ==_refl (Ids.shard id),
            ==_refl (Ids.key id),
            ==_refl id,
            lt→ltb (Ids.shard id) shard_count low,
          )
          refl)
  | inr e ↦ elim (Bool-cases (Ids.shard other == Ids.shard id && Ids.key id == Ids.key other)) [
    | inr d ↦ rw (e, w (Ids.shard other) (Ids.key other), d) refl
    | inl d ↦
        let s : Ids.shard other ≡ Ids.shard id = ground (arith, d) in
        let k : Ids.key other ≡ Ids.key id = ground (arith, d) in
        let g : Ids.generation other ≢ Ids.generation id =
          λ q. ground (arith, e, same_fields id other b c (sym s) (sym q) (sym k)) in
        rw (e, w (Ids.shard other) (Ids.key other), d, s, k, keep (Ids.generation other) g) refl
  ]
]

-- A new entry of the same generation in the place of a live one.
pub find-put_entry :
    (id other : ℕ) (d e : Entry) (r : Registry)
    → id < 2 ^ 64
    → other < 2 ^ 64
    → find r id ≡ some d
    → e.generation ≡ d.generation
    → find (put_entry id e r) other ≡ (if id == other then some e else find r other)
unfolding put_entry slot
find-put_entry id other d e r b c h g =
    let (low, at, gen) = find-eq_some r id d h in
    find_after r (put_entry id e r) id other (some e) b c low
      (λ s k. ground (arith, lookup-insert (Ids.key id) k e (r.shards (Ids.shard id)).slab))
      (λ n q. ground (arith, at, gen, g, q))
    ∙ ground (arith, gen, g)

pub find-remove_slot :
    (id other : ℕ) (d : Entry) (r : Registry)
    → id < 2 ^ 64
    → other < 2 ^ 64
    → find r id ≡ some d
    → find (remove_slot id r) other ≡ (if id == other then none else find r other)
unfolding remove_slot slot
find-remove_slot id other d r b c h =
    let (low, at, gen) = find-eq_some r id d h in
    find_after r (remove_slot id r) id other none b c low
      (λ s k. ground (arith, lookup-remove (Ids.key id) k (r.shards (Ids.shard id)).slab))
      (λ n q. ground (arith, at, gen, q))

shard_of_next : (n : ℕ) → bit_and n (shard_count - 1) < shard_count
shard_of_next n =
    let split : n / 2 ^ 4 * 2 ^ 4 + n % 2 ^ 4 ≡ n = omega arith in
    let mask : bit_and (n / 2 ^ 4 * 2 ^ 4 + n % 2 ^ 4) (2 ^ 4 - 1) ≡ n % 2 ^ 4 =
      bit_and_mask 4 (n / 2 ^ 4) (n % 2 ^ 4) (omega arith) in
    omega (arith, ap (λ t. bit_and t 15) (sym split) ∙ mask)

next_generation-lt : (gens : List ℕ) (key : ℕ) → (next_generation gens key).1 < 2 ^ 24
unfolding next_generation
next_generation-lt gens key = ground (arith, mask_mod (get_or gens key 0 + 1))

-- The entry that a new connection begins with, and its id.
unfoldable pub new_entry : ℕ → ℕ → Option Bytes → Registry → Entry
new_entry vacant handle user r = record {
  generation = (next_generation (r.shards (bit_and r.next (shard_count - 1))).gens vacant).1;
  handle = handle;
  rooms = [];
  user = user;
}

-- A slot that the slab calls vacant.
abbrev pub IsVacant : ℕ → Registry → Type 0
IsVacant vacant r =
    (vacant < 2 ^ 32) × (lookup vacant (r.shards (bit_and r.next (shard_count - 1))).slab ≡ none)

-- When the slab hands out a vacant key, the new connection's id has 64 bits and found no entry before; from
-- then on it finds the new entry, and every other id finds what it found before.
pub find-register :
    (vacant handle other : ℕ) (user : Option Bytes) (r : Registry)
    → IsVacant vacant r
    → other < 2 ^ 64
    → let (after, id) = register vacant handle user r in
      (id < 2 ^ 64)
      × (find r id ≡ none)
      × (find after other
          ≡ (if id == other then some (new_entry vacant handle user r) else find r other))
unfolding register new_entry find slot
find-register vacant handle other user r (fits, free) c =
    let s = bit_and r.next (shard_count - 1) in
    let gens = (r.shards s).gens in
    let g = (next_generation gens vacant).1 in
    let bound = next_generation-lt gens vacant in
    let low = shard_of_next r.next in
    let id = Ids.new s g vacant in
    let (at, gen, key, _) = new_fields s g vacant 0 (omega arith) fits (omega arith) in
    let whole : Ids.generation id ≡ g = omega arith in
    let small : id < 2 ^ 64 = omega (arith, new_lem s g vacant fits) in
    (
      small,
      rw (at, key, free) (ground arith),
      find_after r (register vacant handle user r).0 id other
            (some (new_entry vacant handle user r)) small c (omega arith)
            (λ t k.
              rw (at, key)
                (ground (
                  arith,
                  lookup-insert vacant k (new_entry vacant handle user r) (r.shards s).slab,
                )))
            (λ n q. rw (at, key, free) (ground (arith, q, whole)))
          ∙ rw (whole, ==_refl g) refl,
    )

pub with_rooms-none :
    {R : Type 0} (id : ℕ) (f : List Bytes → List Bytes × R) (r : Registry)
    → find r id ≡ none
    → with_rooms id f r ≡ (r, none)
unfolding with_rooms
with_rooms-none id f r h = rw (with_rooms, h) refl

pub with_rooms-some :
    {R : Type 0} (id : ℕ) (f : List Bytes → List Bytes × R) (r : Registry) (e : Entry)
    → find r id ≡ some e
    → with_rooms id f r ≡ (put_entry id (record e { rooms = (f e.rooms).0 }) r, some (f e.rooms).1)
unfolding with_rooms
with_rooms-some id f r e h = rw (with_rooms, h) refl

pub remove_full-none : (id : ℕ) (r : Registry) → find r id ≡ none → remove_full id r ≡ (r, none)
unfolding remove_full
remove_full-none id r h = rw (remove_full, h) refl

pub remove_full-some :
    (id : ℕ) (r : Registry) (e : Entry)
    → find r id ≡ some e
    → remove_full id r ≡ (remove_slot id r, some (e.handle, e.rooms))
unfolding remove_full
remove_full-some id r e h = rw (remove_full, h) refl

pub find-new : (id : ℕ) → find new id ≡ none
unfolding find new lookup
find-new id = elim (Bool-cases (ltb (Ids.shard id) shard_count)) [
  | inl e ↦ rw (find, e) refl
  | inr e ↦ rw (find, e) refl
]
