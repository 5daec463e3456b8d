-- ===== src/Mesh/Probe.antt =====
-- crates/mesh/src/probe.rs: the packets of the UDP probe plane and their bytes. HMAC-SHA-256 is a crate's
-- and a parameter. A decoder's buffer and offset are the unread rest.
pub mod Packets
pub mod Plane
pub mod Replay
pub mod Cycle
pub mod Unanswered
pub mod Unasked
pub mod Shadow
mod Tests
use beam_socket.Prelude.{
  ℕ, ◌+◌, ◌-◌, Bool, true, false, not, Option, none, some, List, [], ◌∷◌, ◌++◌, ltb, ◌==◌,
  if◌then◌else◌, length, take, drop, get_or, bytes_eq,
}
use beam_socket.Prelude.Bytes.{Bytes, Reader, ◌>>=◌, pure, fail, get_u8, get_le, le_bytes}
use beam_socket.Prelude.Results.{Result, ok, err}
use beam_socket.Mesh.Addr.{SocketAddr, put_addr, get_addr}
use beam_socket.Mesh.Crypto.{constant_time_eq}

abbrev pub probe_magic : Bytes
probe_magic = 66 ∷ 83 ∷ 77 ∷ 80 ∷ []

abbrev pub probe_version : ℕ
probe_version = 1

abbrev pub kind_ping : ℕ
kind_ping = 1

abbrev pub kind_ack : ℕ
kind_ack = 2

abbrev pub kind_ping_req : ℕ
kind_ping_req = 3

abbrev pub tag_len : ℕ
tag_len = 32

abbrev pub header_len : ℕ
header_len = 20

-- What `header` returns of a packet, of each kind.
pub record Header : Type 0 where
  pub from : ℕ
  pub seq : ℕ
  pub inc : ℕ

pub data ProbePacket : Type 0 where
  ping : Header → Option SocketAddr → ProbePacket
  ack : Header → ProbePacket
  ping_req : Header → SocketAddr → ℕ → SocketAddr → ProbePacket

pub data ProbeError : Type 0 where
  bad_magic : ProbeError
  bad_version : ℕ → ProbeError
  forged : ProbeError
  malformed : ProbeError
  unknown_kind : ℕ → ProbeError

abbrev pub kind : ProbePacket → ℕ
kind (ping h reply_to) = kind_ping
kind (ack h) = kind_ack
kind (ping_req h from_addr target target_addr) = kind_ping_req

abbrev pub header : ProbePacket → Header
header (ping h reply_to) = h
header (ack h) = h
header (ping_req h from_addr target target_addr) = h

abbrev pub stamp : ProbePacket → ℕ × ℕ
stamp p = ((header p).inc, (header p).seq)

unfoldable pub put_header : Header → Bytes
put_header h = le_bytes 2 h.from ++ (le_bytes 8 h.seq ++ le_bytes 4 h.inc)

unfoldable pub put_fields : ProbePacket → Bytes
put_fields (ping h none) = 0 ∷ []
put_fields (ping h (some a)) = 1 ∷ put_addr a
put_fields (ack h) = []
put_fields (ping_req h from_addr target target_addr) =
    put_addr from_addr ++ (le_bytes 2 target ++ put_addr target_addr)

-- The bytes that the tag is over.
unfoldable pub put_body : ProbePacket → Bytes
unfolding put_header put_fields
put_body p = probe_magic ++ (probe_version ∷ kind p ∷ (put_header (header p) ++ put_fields p))

unfoldable pub get_header : Reader Header
get_header = do
  from ← get_le 2
  seq ← get_le 8
  inc ← get_le 4
  pure (record { from = from; seq = seq; inc = inc })

unfoldable pub get_ping : Header → Reader ProbePacket
get_ping h = do
  has_reply ← get_u8
  reply_to ← (if has_reply == 0 then pure none else (do a ← get_addr; pure (some a)))
  pure (ping h reply_to)

unfoldable pub get_ping_req : Header → Reader ProbePacket
get_ping_req h = do
  from_addr ← get_addr
  target ← get_le 2
  target_addr ← get_addr
  pure (ping_req h from_addr target target_addr)

abbrev pub or_malformed : Option (ProbePacket × Bytes) → Result ProbeError ProbePacket
or_malformed none = err malformed
or_malformed (some (p, rest)) = ok p

unfoldable pub get_fields : ℕ → Header → Bytes → Result ProbeError ProbePacket
unfolding get_ping get_ping_req
get_fields k h r =
    if k == kind_ping
    then or_malformed (get_ping h r)
    else if k == kind_ack
    then ok (ack h)
    else if k == kind_ping_req
    then or_malformed (get_ping_req h r)
    else err (unknown_kind k)

-- The part of `decode` behind the tag. The body has the 20 bytes of the header, since the length of the
-- packet was tested: the reads of the header do not fail there.
unfoldable pub get_body : Bytes → Result ProbeError ProbePacket
unfolding get_header get_fields
get_body body = elim (get_header (drop 6 body)) [
  | none ↦ err malformed
  | some (h, r) ↦ get_fields (get_or body 5 0) h r
]

module _ (hmac_sha256 : Bytes → Bytes → Bytes) where
  abbrev pub with_tag : Bytes → Bytes → Bytes
  with_tag secret body = body ++ hmac_sha256 secret body

  unfoldable pub encode : ProbePacket → Bytes → Bytes
  unfolding put_body
  encode p secret = with_tag secret (put_body p)

  unfoldable pub decode : Bytes → Bytes → Result ProbeError ProbePacket
  unfolding get_body
  decode buf secret =
      if ltb (length buf) (header_len + tag_len)
      then err malformed
      else if not (bytes_eq (take 4 buf) probe_magic)
      then err bad_magic
      else if not (get_or buf 4 0 == probe_version)
      then err (bad_version (get_or buf 4 0))
      else (let body = take (length buf - tag_len) buf in
          let tag = drop (length buf - tag_len) buf in
          if not (constant_time_eq tag (hmac_sha256 secret body))
          then err forged
          else get_body body)
