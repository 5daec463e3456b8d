-- ===== src/Mesh/Frame.antt =====
-- crates/mesh/src/frame.rs: the wire framing `[len: u32 LE][kind: u8][flags: u8][body]`.
pub mod RoundTrip
pub mod Prefix
use beam_socket.Prelude.Results.{fail_if, Result, ok, err, ◌>>=◌, ◌>>◌, ok_or}
use beam_socket.Prelude.{
  ◌*◌, ℕ, suc, ◌+◌, ◌%◌, ◌^◌, ◌≤◌, ◌<◌, ◌≡◌, Bool, true, false, not, Option, none, some, List, [],
  ◌∷◌, ◌++◌, ltb, ◌==◌, if◌then◌else◌, length, take, drop, get_or,
}
use beam_socket.Prelude.Bytes.{Bytes, IsByte, le_bytes, of_le_bytes}

abbrev pub header_len : ℕ
header_len = 6

abbrev pub min_frame_floor : ℕ
min_frame_floor = 64

abbrev pub max_frame_ceiling : ℕ
max_frame_ceiling = 64 * 2 ^ 20

pub data FrameKind : Type 0 where
  hello challenge auth membership interest interest_digest : FrameKind
  relay_room relay_user relay_all relay_socket ping : FrameKind

unfoldable pub from_u8 : ℕ → Option FrameKind
from_u8 b =
    if b == 0x01
    then some hello
    else if b == 0x02
    then some challenge
    else if b == 0x03
    then some auth
    else if b == 0x04
    then some membership
    else if b == 0x05
    then some interest
    else if b == 0x06
    then some interest_digest
    else if b == 0x07
    then some relay_room
    else if b == 0x08
    then some relay_user
    else if b == 0x09
    then some relay_all
    else if b == 0x0a
    then some relay_socket
    else if b == 0x0b
    then some ping
    else none

unfoldable pub as_u8 : FrameKind → ℕ
as_u8 hello = 0x01
as_u8 challenge = 0x02
as_u8 auth = 0x03
as_u8 membership = 0x04
as_u8 interest = 0x05
as_u8 interest_digest = 0x06
as_u8 relay_room = 0x07
as_u8 relay_user = 0x08
as_u8 relay_all = 0x09
as_u8 relay_socket = 0x0a
as_u8 ping = 0x0b

-- `flags` is one byte.
pub record Frame : Type 0 where
  pub kind : FrameKind
  pub flags : ℕ
  pub body : Bytes

-- Every variant means that the link is closed.
pub data FrameError : Type 0 where
  truncated malformed : FrameError
  oversize : ℕ → ℕ → FrameError
  unknown_kind : ℕ → FrameError

unfoldable pub wire_len : Frame → ℕ
wire_len f = header_len + length f.body

-- `(2 + self.body.len()) as u32` keeps the low 32 bits.
unfoldable pub encode : Frame → Bytes
encode f = le_bytes 4 ((2 + length f.body) % 2 ^ 32) ++ (as_u8 f.kind ∷ f.flags ∷ f.body)

-- The writer's path: the encoding is appended to the buffer.
pub encode_into : Frame → Bytes → Bytes
encode_into f out =
    (((out ++ le_bytes 4 ((2 + length f.body) % 2 ^ 32)) ++ (as_u8 f.kind ∷ [])) ++ (f.flags ∷ []))
    ++ f.body

unfoldable pub decode_len : ℕ → ℕ → Result FrameError ℕ
decode_len len max_frame =
    if ltb len 2
    then err malformed
    else if ltb max_frame len
    then err (oversize len max_frame)
    else ok len

-- `buf[4]` and `buf[5]` are in range: the tests before them leave at least six bytes, so the default
-- of `get_or` is never read.
unfoldable pub parse : Bytes → ℕ → Result FrameError Frame
parse buf max_frame = do
  fail_if (ltb (length buf) 4) truncated
  let len = of_le_bytes (take 4 buf)
  decode_len len max_frame
  let total = 4 + len
  fail_if (ltb (length buf) total) truncated
  kind ← ok_or (from_u8 (get_or buf 4 0)) (unknown_kind (get_or buf 4 0))
  let flags = get_or buf 5 0
  let body = drop header_len (take total buf)
  ok (record { kind = kind; flags = flags; body = body })
