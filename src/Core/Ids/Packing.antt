-- ===== src/Core/Ids/Packing.antt =====
-- ids.rs: an id and its three fields.
use Prim.Native.Nat.{bit_and}
use beam_socket.Prelude.{ℕ, ◌+◌, ◌*◌, ◌/◌, ◌%◌, ◌^◌, ◌<◌, ◌≡◌, ◌∙◌, sym, ap, arith}
use beam_socket.Prelude.Bits.{bit_or_fields, bit_and_mask}
use beam_socket.Core.Ids.{generation_mask, new, shard, generation, key}

pub mask_mod : (g : ℕ) → bit_and g generation_mask ≡ g % 2 ^ 24
mask_mod g =
    let split : g / 2 ^ 24 * 2 ^ 24 + g % 2 ^ 24 ≡ g = omega arith in
    ap (λ t. bit_and t generation_mask) (sym split)
    ∙ bit_and_mask 24 (g / 2 ^ 24) (g % 2 ^ 24) (omega arith)

pub new_lem : (s g k : ℕ) → k < 2 ^ 32 → new s g k ≡ s * 2 ^ 56 + g % 2 ^ 24 * 2 ^ 32 + k
unfolding new
new_lem s g k b =
    let low : g % 2 ^ 24 * 2 ^ 32 < 2 ^ 56 = omega arith in
    let upper : s * 2 ^ 56 + g % 2 ^ 24 * 2 ^ 32 ≡ (s * 2 ^ 24 + g % 2 ^ 24) * 2 ^ 32 =
      omega arith in
    rw
      (
        mask_mod g,
        bit_or_fields 56 s (g % 2 ^ 24 * 2 ^ 32) low,
        upper,
        bit_or_fields 32 (s * 2 ^ 24 + g % 2 ^ 24) k b,
      )
      (omega arith)

pub generation_lem : (id : ℕ) → generation id ≡ id / 2 ^ 32 % 2 ^ 24
unfolding generation
generation_lem id = mask_mod (id / 2 ^ 32 % 2 ^ 32) ∙ omega arith

-- The three fields of an id are those that it was made of, the generation's low 24 bits; and every number
-- of 64 bits is the id made of its own fields, so that no two ids have the same ones.
pub new_fields :
    (s g k id : ℕ)
    → s < 2 ^ 8
    → k < 2 ^ 32
    → id < 2 ^ 64
    → (shard (new s g k) ≡ s)
      × (generation (new s g k) ≡ g % 2 ^ 24)
      × (key (new s g k) ≡ k)
      × (new (shard id) (generation id) (key id) ≡ id)
unfolding shard key
new_fields s g k id hs hk hid = (
  omega (arith, new_lem s g k hk),
  omega (arith, new_lem s g k hk, generation_lem (new s g k)),
  omega (arith, new_lem s g k hk),
  omega (arith, new_lem (shard id) (generation id) (key id) (omega arith), generation_lem id),
)
