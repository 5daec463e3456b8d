-- ===== src/Mesh/Config.antt =====
-- crates/mesh/src/config.rs: what a link knows of its own node, and the check at startup. Durations are
-- numbers of milliseconds; the backoff schedule computes with floats and is left out.
use beam_socket.Prelude.{
  ℕ, Bool, true, false, ◌||◌, ◌≤◌, ◌<◌, ◌≡◌, ◌↔◌, ◌≢◌, [], ◌∷◌, ltb, leb, length, arith,
}
use beam_socket.Prelude.Bytes.{Bytes}
use beam_socket.Prelude.Results.{Result, ok, ◌>>◌, fail_if}
use beam_socket.Mesh.Frame.{min_frame_floor, max_frame_ceiling}
use beam_socket.Mesh.Hello.{max_cluster_name_len}

pub record LinkConfig : Type 0 where
  pub protocol_version : ℕ
  pub node_id : ℕ
  pub incarnation : ℕ
  pub cluster_name : Bytes
  pub secret : Bytes
  pub max_frame : ℕ
  pub features : ℕ
  pub auth_timeout : ℕ
  pub idle_ping_interval : ℕ
  pub idle_dead_after : ℕ
  pub queue_hwm_bytes : ℕ

-- The text of a `ConfigError`, as the check that made it.
pub data ConfigError : Type 0 where
  empty_secret name_too_long max_frame_out_of_range idle_order : ConfigError

abbrev is_empty : Bytes → Bool
is_empty [] = true
is_empty (b ∷ bs) = false

pub validate : LinkConfig → Result ConfigError (Unit {0})
validate c = do
  fail_if (is_empty c.secret) empty_secret
  fail_if (ltb max_cluster_name_len (length c.cluster_name)) name_too_long
  fail_if (ltb c.max_frame min_frame_floor || ltb max_frame_ceiling c.max_frame)
      max_frame_out_of_range
  fail_if (leb c.idle_dead_after c.idle_ping_interval) idle_order
  ok tt

-- What a configuration has to be for a link to work.
pub record IsConfig (c : LinkConfig) : Type 0 where
  pub secret : c.secret ≢ []
  pub name : length c.cluster_name ≤ max_cluster_name_len
  pub frame_low : min_frame_floor ≤ c.max_frame
  pub frame_high : c.max_frame ≤ max_frame_ceiling
  pub idle : c.idle_ping_interval < c.idle_dead_after

-- `validate` accepts a configuration if and only if its secret is not empty, its cluster name is
-- within its bound, its largest frame is between the floor and the ceiling, and it pings before it
-- gives up.
pub validate_iff : (c : LinkConfig) → (validate c ≡ ok tt) ↔ IsConfig c
unfolding validate
validate_iff c = ((λ e. ground arith), λ v. ground arith)
