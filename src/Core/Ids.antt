-- ===== src/Core/Ids.antt =====
-- crates/core/src/ids.rs: a connection's id, one number of 64 bits with 8 bits of shard, 24 of generation
-- and 32 of slab key.
pub mod Packing
use Prim.Native.Nat.{bit_and, bit_or}
use beam_socket.Prelude.{ℕ, ◌-◌, ◌*◌, ◌/◌, ◌%◌, ◌^◌}

abbrev pub generation_bits : ℕ
generation_bits = 24

abbrev pub generation_mask : ℕ
generation_mask = 2 ^ 24 - 1

-- `ConnectionId::new`, of a `u8` and two `u32`s.
unfoldable pub new : ℕ → ℕ → ℕ → ℕ
new shard generation key =
    bit_or (bit_or (shard * 2 ^ 56) (bit_and generation generation_mask * 2 ^ 32)) key

-- `as u8` and `as u32` keep the low bits.
unfoldable pub shard : ℕ → ℕ
shard id = id / 2 ^ 56 % 2 ^ 8

unfoldable pub generation : ℕ → ℕ
generation id = bit_and (id / 2 ^ 32 % 2 ^ 32) generation_mask

unfoldable pub key : ℕ → ℕ
key id = id % 2 ^ 32
