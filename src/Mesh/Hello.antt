-- ===== src/Mesh/Hello.antt =====
-- crates/mesh/src/hello.rs: the body of the HELLO frame. A string is its bytes; the widths of the
-- fields are 2, 2, 8, 4, 4 and 32 bytes behind the magic of four.
pub mod RoundTrip
use beam_socket.Prelude.{
  ℕ, suc, ◌+◌, ◌-◌, ◌%◌, ◌^◌, ◌≤◌, ◌<◌, ◌≡◌, Bool, true, false, not, ◌&&◌, Option, none, some, List,
  [], ◌∷◌, ◌++◌, ltb, ◌==◌, if◌then◌else◌, length, take, drop, bytes_eq,
}
use beam_socket.Prelude.Bytes.{Bytes, le_bytes, of_le_bytes}
use beam_socket.Prelude.Utf8.{is_utf8}
use beam_socket.Prelude.Results.{Result, ok, err, ◌>>=◌, ◌>>◌, fail_if}

-- "BSMH"
abbrev pub mesh_magic : Bytes
mesh_magic = b'B' ∷ b'S' ∷ b'M' ∷ b'H' ∷ []

abbrev pub fixed_prefix : ℕ
fixed_prefix = 58

abbrev pub max_cluster_name_len : ℕ
max_cluster_name_len = 255

pub record Hello : Type 0 where
  pub protocol_version : ℕ
  pub node_id : ℕ
  pub incarnation : ℕ
  pub max_frame : ℕ
  pub features : ℕ
  pub fresh : Bytes
  pub cluster_name : Bytes

pub data HelloError : Type 0 where
  bad_magic truncated : HelloError
  cluster_name_too_long : ℕ → HelloError
  cluster_name_not_utf8 : HelloError

unfoldable pub encode : Hello → Bytes
encode h =
    mesh_magic
    ++ (le_bytes 2 h.protocol_version
        ++ (le_bytes 2 h.node_id
            ++ (le_bytes 8 h.incarnation
                ++ (le_bytes 4 h.max_frame
                    ++ (le_bytes 4 h.features
                        ++ (h.fresh
                            ++ (le_bytes 2 (length h.cluster_name % 2 ^ 16) ++ h.cluster_name)))))))

-- `body[from..from + n]`, in range after the test of the length.
abbrev slice : Bytes → ℕ → ℕ → Bytes
slice body from n = take n (drop from body)

unfoldable pub decode : Bytes → Result HelloError Hello
decode body = do
  fail_if (ltb (length body) fixed_prefix) truncated
  fail_if (not (bytes_eq (slice body 0 4) mesh_magic)) bad_magic
  let name_len = of_le_bytes (slice body 56 2)
  fail_if (ltb max_cluster_name_len name_len) (cluster_name_too_long name_len)
  fail_if (ltb (length body) (fixed_prefix + name_len)) truncated
  let cluster_name = slice body fixed_prefix name_len
  fail_if (not (is_utf8 cluster_name)) cluster_name_not_utf8
  ok (record {
    protocol_version = of_le_bytes (slice body 4 2);
    node_id = of_le_bytes (slice body 6 2);
    incarnation = of_le_bytes (slice body 8 8);
    max_frame = of_le_bytes (slice body 16 4);
    features = of_le_bytes (slice body 20 4);
    fresh = slice body 24 32;
    cluster_name = cluster_name;
  })
