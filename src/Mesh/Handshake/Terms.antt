-- ===== src/Mesh/Handshake/Terms.antt =====
-- handshake.rs: what an accepted HELLO has to be.
use beam_socket.Mesh.Handshake.{Role, Negotiated, Handshake, validate_peer_hello, abs_diff}
use beam_socket.Prelude.{◌≤◌, ◌≡◌, ◌≢◌, min, bytes_eq→eq, arith, inl, inr}
use Prim.Native.Nat.{bit_and}
use beam_socket.Prelude.Bytes.{Bytes}
use beam_socket.Prelude.Results.{ok, err, Result-cases}
use beam_socket.Mesh.Frame.{min_frame_floor}
use beam_socket.Mesh.Hello.{Hello, HelloError, bad_magic}
use beam_socket.Mesh.Hello
use beam_socket.Mesh.Config.{LinkConfig}

-- The terms on which a peer with this HELLO is met.
pub record Terms (cfg : LinkConfig) (role : Role) (hello : Hello) (n : Negotiated) : Type 0 where
  pub cluster : hello.cluster_name ≡ cfg.cluster_name
  pub distinct : hello.node_id ≢ cfg.node_id
  pub window : abs_diff cfg.protocol_version hello.protocol_version ≤ 1
  pub floor : min_frame_floor ≤ min cfg.max_frame hello.max_frame
  pub agreed : n ≡ record {
    protocol_version = min cfg.protocol_version hello.protocol_version;
    features = bit_and cfg.features hello.features;
    max_frame = min cfg.max_frame hello.max_frame;
    role = role;
    peer_node_id = hello.node_id;
    peer_incarnation = hello.incarnation;
  }

-- A HELLO that is accepted was well formed, from another node of this cluster, in the version window
-- and with room for the control frames, and the parameters are those of both sides together.
pub validate_peer_hello_ok :
    (hs : Handshake) (body : Bytes) (n : Negotiated)
    → validate_peer_hello hs body ≡ ok n
    → (hello : Hello) × (Hello.decode body ≡ ok hello) × Terms hs.cfg hs.role hello n
unfolding validate_peer_hello
validate_peer_hello_ok hs body n h = elim (Result-cases (Hello.decode body)) [
  | inl (hello, e) ↦
      (hello, e, ground (arith, e, bytes_eq→eq hello.cluster_name hs.cfg.cluster_name))
  | inr (x, e) ↦ absurd (no_hello x e)
]
  where
    no_hello : (x : HelloError) → Hello.decode body ≡ err x → ⊥
    no_hello bad_magic e = ground (arith, e)
    no_hello x e = ground (arith, e)
