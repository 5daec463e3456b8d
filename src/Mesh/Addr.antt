-- ===== src/Mesh/Addr.antt =====
-- crates/mesh/src/probe.rs: `put_addr` and `get_addr`, the wire form of a socket address that the
-- probe packets and the membership updates share. `IpAddr` is the standard library's.
use beam_socket.Prelude.{
  ℕ, ◌^◌, ◌<◌, ◌≡◌, ◌∷◌, ◌++◌, some, ◌==◌, if◌then◌else◌, arith, length, ap, ◌∙◌,
}
use mathlib.Core.List.{append_assoc}
use beam_socket.Prelude.Bytes.{
  Bytes, Reader, ◌>>=◌, pure, fail, get_u8, get_bytes, get_le, le_bytes, get_bytes_exact,
  get_le-append,
}

-- The octets of a V4 address are 4, of a V6 address 16.
pub data IpAddr : Type 0 where
  v4 v6 : Bytes → IpAddr

pub record SocketAddr : Type 0 where
  pub ip : IpAddr
  pub port : ℕ

pub put_ip : IpAddr → Bytes
put_ip (v4 octets) = 4 ∷ octets
put_ip (v6 octets) = 6 ∷ octets

-- The bytes are appended to the buffer.
pub put_addr : SocketAddr → Bytes
unfolding put_ip
put_addr a = put_ip a.ip ++ le_bytes 2 a.port

pub get_ip : ℕ → Reader IpAddr
get_ip fam =
    if fam == 4
    then (do o ← get_bytes 4; pure (v4 o))
    else if fam == 6
    then (do o ← get_bytes 16; pure (v6 o))
    else fail

pub get_addr : Reader SocketAddr
get_addr = do fam ← get_u8; ip ← get_ip fam; port ← get_le 2; pure (record { ip = ip; port = port })

abbrev pub IsIp : IpAddr → Type 0
IsIp (v4 octets) = length octets ≡ 4
IsIp (v6 octets) = length octets ≡ 16

abbrev pub IsAddr : SocketAddr → Type 0
IsAddr a = IsIp a.ip × (a.port < 2 ^ 16)

ip_port :
    (ip : IpAddr) (p : ℕ) (r : Bytes)
    → IsIp ip
    → p < 2 ^ 16
    → get_addr (put_ip ip ++ (le_bytes 2 p ++ r)) ≡ some (record { ip = ip; port = p }, r)
unfolding get_addr put_ip get_ip
ip_port (v4 o) p r h k =
    ground (arith, get_bytes_exact 4 o (le_bytes 2 p ++ r) h, get_le-append 2 p r k)
ip_port (v6 o) p r h k =
    ground (arith, get_bytes_exact 16 o (le_bytes 2 p ++ r) h, get_le-append 2 p r k)

-- An address with as many octets as its family has and a port of 16 bits is read back from its
-- bytes, and what follows them is left.
pub get_addr-put_addr :
    (a : SocketAddr) (r : Bytes) → IsAddr a → get_addr (put_addr a ++ r) ≡ some (a, r)
unfolding put_addr
get_addr-put_addr a r h =
    ap get_addr (append_assoc (put_ip a.ip) (le_bytes 2 a.port) r) ∙ ip_port a.ip a.port r h.0 h.1
