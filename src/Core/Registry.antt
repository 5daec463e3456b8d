-- ===== src/Core/Registry.antt =====
-- crates/core/src/connection/registry.rs: the table of live connections. The 16 shards are a function of
-- their index, which is only read below 16. A `Slab` is a crate's: a map from keys, whose choice of a
-- vacant key is an argument of `insert`. A mutex guards each shard, so each method is one step. A handle
-- is the number of the connection's shared parts.
pub mod Laws
use Prim.Native.Nat.{bit_and}
use beam_socket.Prelude.{
  ℕ, zero, suc, ◌+◌, ◌-◌, ◌%◌, ◌^◌, Bool, true, false, Option, none, some, List, [], ◌∷◌, ◌++◌, ltb,
  ◌==◌, if◌then◌else◌, length, get_or,
}
use beam_socket.Prelude.Bytes.{Bytes}
use beam_socket.Prelude.Maps.{Map, lookup, insert, remove}
use beam_socket.Core.Ids
use beam_socket.Core.Ids.{generation_mask}

abbrev pub shard_count : ℕ
shard_count = 16

pub record Entry : Type 0 where
  pub generation : ℕ
  pub handle : ℕ
  pub rooms : List Bytes
  pub user : Option Bytes

pub record Shard : Type 0 where
  pub slab : Map Entry
  pub gens : List ℕ

pub record Registry : Type 0 where
  pub shards : ℕ → Shard
  pub next : ℕ

unfoldable pub new : Registry
new = record { shards = λ i. record { slab = []; gens = [] }; next = 0 }

-- What a method does to the shard it has locked.
abbrev pub put_shard : ℕ → Shard → Registry → Registry
put_shard s shard r = record r { shards = λ i. if i == s then shard else r.shards i }

set : List ℕ → ℕ → ℕ → List ℕ
set [] i v = []
set (x ∷ xs) zero v = v ∷ xs
set (x ∷ xs) (suc i) v = x ∷ set xs i v

-- The generations after a slot was taken, and the slot's own.
unfoldable pub next_generation : List ℕ → ℕ → List ℕ × ℕ
unfolding set
next_generation gens key =
    let g = bit_and (get_or gens key 0 + 1) generation_mask in
    if ltb key (length gens) then (set gens key g, g) else (gens ++ (0 ∷ []), 0)

-- `vacant` is the key that the slab hands out.
unfoldable pub register : ℕ → ℕ → Option Bytes → Registry → Registry × ℕ
unfolding next_generation
register vacant handle user r =
    let s = bit_and r.next (shard_count - 1) in
    let shard = r.shards s in
    let (gens, g) = next_generation shard.gens vacant in
    let entry : Entry = record { generation = g; handle = handle; rooms = []; user = user } in
    (
      record (put_shard s (record { slab = insert vacant entry shard.slab; gens = gens }) r) {
        next = (r.next + 1) % 2 ^ 64;
      },
      Ids.new s g vacant,
    )

-- `handles`: the id and the handle of each live connection, shard by shard.
unfoldable pub slab_handles : ℕ → Map Entry → List (ℕ × ℕ)
slab_handles s [] = []
slab_handles s ((key, e) ∷ rest) = (Ids.new s e.generation key, e.handle) ∷ slab_handles s rest

unfoldable pub handles_from : ℕ → ℕ → Registry → List (ℕ × ℕ)
unfolding slab_handles
handles_from zero s r = []
handles_from (suc left) s r = slab_handles s (r.shards s).slab ++ handles_from left (suc s) r

unfoldable pub handles : Registry → List (ℕ × ℕ)
unfolding handles_from
handles r = handles_from shard_count 0 r

abbrev pub live : Option Entry → ℕ → Option Entry
live none g = none
live (some e) g = if e.generation == g then some e else none

-- The lookup that all methods begin with: the shard, the slot, and the generation.
unfoldable pub find : Registry → ℕ → Option Entry
find r id =
    if ltb (Ids.shard id) shard_count
    then live (lookup (Ids.key id) (r.shards (Ids.shard id)).slab) (Ids.generation id)
    else none

unfoldable pub get : Registry → ℕ → Option ℕ
get r id = elim (find r id) [ none ↦ none | some e ↦ some e.handle ]

unfoldable pub user_of : Registry → ℕ → Option (Option Bytes)
user_of r id = elim (find r id) [ none ↦ none | some e ↦ some e.user ]

unfoldable pub remove_slot : ℕ → Registry → Registry
remove_slot id r =
    let s = Ids.shard id in
    let shard = r.shards s in put_shard s (record shard { slab = remove (Ids.key id) shard.slab }) r

unfoldable pub remove_full : ℕ → Registry → Registry × Option (ℕ × List Bytes)
unfolding remove_slot
remove_full id r = elim (find r id) [
  | none ↦ (r, none)
  | some e ↦ (remove_slot id r, some (e.handle, e.rooms))
]

unfoldable pub put_entry : ℕ → Entry → Registry → Registry
put_entry id e r =
    let s = Ids.shard id in
    let shard = r.shards s in
    put_shard s (record shard { slab = insert (Ids.key id) e shard.slab }) r

-- `f` runs on the connection's rooms, under the lock of its shard.
unfoldable pub with_rooms :
    {R : Type 0} → ℕ → (List Bytes → List Bytes × R) → Registry → Registry × Option R
unfolding put_entry
with_rooms id f r = elim (find r id) [
  | none ↦ (r, none)
  | some e ↦
      (let (rooms, res) = f e.rooms in (put_entry id (record e { rooms = rooms }) r, some res))
]
