-- ===== src/Mesh/Probe/Packets.antt =====
-- probe.rs: packets are read back, and only tagged bytes are read at all.
use beam_socket.Prelude.{
  drop-length, take-length, length-take, take-append-drop, length-append, ℕ, ◌+◌, ◌-◌, ◌^◌, ◌<◌,
  ◌≤◌, ◌≡◌, ◌∙◌, refl, sym, ap, true, false, none, some, [], ◌∷◌, ◌++◌, ltb, length, take, drop,
  All, All-drop, get_or, arith,
}
use mathlib.Core.List.{append-nil, append_assoc}
use beam_socket.Mesh.Probe.{
  get_or, Header, ProbePacket, ping, ack, ping_req, kind, header, put_header, put_fields, put_body,
  get_header, get_ping, get_ping_req, get_fields, get_body, encode, decode, with_tag, probe_magic,
  probe_version, tag_len, header_len,
}
use beam_socket.Prelude.Bytes.{Bytes, IsByte, le_bytes, get_le-append}
use beam_socket.Prelude.Results.{ok}
use beam_socket.Mesh.Addr.{IsAddr, put_addr, get_addr-put_addr}
use beam_socket.Mesh.Crypto.{constant_time_eq, constant_time_eq_iff}

-- The fields fit their widths.
abbrev pub IsHeader : Header → Type 0
IsHeader h = (h.from < 2 ^ 16) × (h.seq < 2 ^ 64) × (h.inc < 2 ^ 32)

abbrev pub IsPacket : ProbePacket → Type 0
IsPacket (ping h none) = IsHeader h
IsPacket (ping h (some a)) = IsHeader h × IsAddr a
IsPacket (ack h) = IsHeader h
IsPacket (ping_req h from_addr target target_addr) =
    IsHeader h × IsAddr from_addr × (target < 2 ^ 16) × IsAddr target_addr

get_header-put_header :
    (h : Header) (r : Bytes) → IsHeader h → get_header (put_header h ++ r) ≡ some (h, r)
unfolding get_header put_header
get_header-put_header h r (f, s, i) = ground (
  arith,
  append_assoc (le_bytes 2 h.from) (le_bytes 8 h.seq ++ le_bytes 4 h.inc) r,
  get_le-append 2 h.from ((le_bytes 8 h.seq ++ le_bytes 4 h.inc) ++ r) f,
  append_assoc (le_bytes 8 h.seq) (le_bytes 4 h.inc) r,
  get_le-append 8 h.seq (le_bytes 4 h.inc ++ r) s,
  get_le-append 4 h.inc r i,
)

header_of : (p : ProbePacket) → IsPacket p → IsHeader (header p)
header_of (ping h none) v = v
header_of (ping h (some a)) v = v.0
header_of (ack h) v = v
header_of (ping_req h from_addr target target_addr) v = v.0

get_fields-put_fields :
    (p : ProbePacket) (r : Bytes)
    → IsPacket p
    → get_fields (kind p) (header p) (put_fields p ++ r) ≡ ok p
unfolding get_fields put_fields get_ping get_ping_req
get_fields-put_fields (ping h none) r v = refl
get_fields-put_fields (ping h (some a)) r v = ground (arith, get_addr-put_addr a r v.1)
get_fields-put_fields (ack h) r v = refl
get_fields-put_fields (ping_req h f t a) r v = ground (
  arith,
  append_assoc (put_addr f) (le_bytes 2 t ++ put_addr a) r,
  get_addr-put_addr f ((le_bytes 2 t ++ put_addr a) ++ r) v.1,
  append_assoc (le_bytes 2 t) (put_addr a) r,
  get_le-append 2 t (put_addr a ++ r) v.2,
  get_addr-put_addr a r v.3,
)

get_body_after :
    (body : Bytes) (h : Header) (r : Bytes)
    → get_header (drop 6 body) ≡ some (h, r)
    → get_body body ≡ get_fields (get_or body 5 0) h r
unfolding get_body get_fields
get_body_after body h r e = rw (get_body, e) refl

get_body-put_body : (p : ProbePacket) (r : Bytes) → IsPacket p → get_body (put_body p ++ r) ≡ ok p
unfolding put_body
get_body-put_body p r v =
    get_body_after (put_body p ++ r) (header p) (put_fields p ++ r) (
      ap get_header (append_assoc (put_header (header p)) (put_fields p) r)
      ∙ get_header-put_header (header p) (put_fields p ++ r) (header_of p v))
    ∙ get_fields-put_fields p r v

module _ (hmac_sha256 : Bytes → Bytes → Bytes) where
  -- The MAC is 32 bytes.
  abbrev pub IsMac : Type 0
  IsMac =
      (secret body : Bytes)
      → (length (hmac_sha256 secret body) ≡ tag_len) × All IsByte (hmac_sha256 secret body)

  decode_tagged :
      (k : ℕ) (rest secret : Bytes)
      → IsMac
      → 14 ≤ length rest
      → let body = probe_magic ++ (probe_version ∷ k ∷ rest) in
        decode hmac_sha256 (with_tag hmac_sha256 secret body) secret ≡ get_body body
  unfolding decode
  decode_tagged k rest secret mac long =
      let body = probe_magic ++ (probe_version ∷ k ∷ rest) in
      let tag = hmac_sha256 secret body in
      let (size, bytes) = mac secret body in
      let total : length (body ++ tag) ≡ length body + tag_len =
        length-append body tag ∙ omega (arith, size) in
      let cut : length (body ++ tag) - tag_len ≡ length body = omega (arith, total) in
      let enough : ltb (length (body ++ tag)) (header_len + tag_len) ≡ false =
        ground (arith, total, long) in
      let same : constant_time_eq tag tag ≡ true =
        (constant_time_eq_iff tag tag bytes bytes).1 refl in
      rw (decode, enough, cut, take-length body tag, drop-length body tag, same) refl

  -- A packet whose fields fit is read back from its bytes by whoever has the secret, also when a later
  -- version has appended fields to its body before the tag.
  pub decode-encode :
      (p : ProbePacket) (secret appended : Bytes)
      → IsMac
      → IsPacket p
      → (decode hmac_sha256 (with_tag hmac_sha256 secret (put_body p ++ appended)) secret ≡ ok p)
        × (decode hmac_sha256 (encode hmac_sha256 p secret) secret ≡ ok p)
  unfolding encode put_body put_header
  decode-encode p secret appended mac v = (
    decode_tagged (kind p) ((put_header (header p) ++ put_fields p) ++ appended) secret mac
          (omega arith)
        ∙ get_body-put_body p appended v,
    decode_tagged (kind p) (put_header (header p) ++ put_fields p) secret mac (omega arith)
        ∙ ap get_body (sym (append-nil (put_body p)))
        ∙ get_body-put_body p [] v,
  )

  -- A packet that is read is a body of at least 20 bytes with the body's MAC behind it: who does not know
  -- the secret makes none but by a MAC that was made before.
  pub decode-authentic :
      (buf secret : Bytes) (p : ProbePacket)
      → IsMac
      → All IsByte buf
      → decode hmac_sha256 buf secret ≡ ok p
      → (body : Bytes) × (buf ≡ with_tag hmac_sha256 secret body)
        × (header_len ≤ length body)
        × (get_body body ≡ ok p)
  unfolding decode
  decode-authentic buf secret p mac bytes h =
      let body = take (length buf - tag_len) buf in
      let tag = drop (length buf - tag_len) buf in
      let split : body ++ tag ≡ buf = take-append-drop (length buf - tag_len) buf in
      let same : constant_time_eq tag (hmac_sha256 secret body) ≡ true = ground (arith, h) in
      let long : header_len + tag_len ≤ length buf = ground (arith, h) in
      let tag_bytes : All IsByte tag = All-drop IsByte (length buf - tag_len) buf bytes in
      let equal : tag ≡ hmac_sha256 secret body =
        (constant_time_eq_iff tag (hmac_sha256 secret body) tag_bytes (mac secret body).1).0 same in
      (
        body,
        sym split ∙ ap (◌++◌ body) equal,
        omega (arith, length-take (length buf - tag_len) buf, long),
        ground (arith, h),
      )
