-- ===== src/Mesh/Link/Reading.antt =====
-- link.rs: the reader hears what the peer's writer wrote.
use beam_socket.Prelude.{
  ℕ, zero, suc, ◌+◌, ◌%◌, ◌^◌, ◌<◌, ◌≤◌, ◌≡◌, ◌∙◌, refl, ap, Bool, true, false, ◌&&◌, Option, none,
  some, List, [], ◌∷◌, ◌++◌, length, length-append, All, arith, if◌then◌else◌,
}
use beam_socket.Prelude.Bytes.{
  Bytes, le_bytes, of_le_bytes, get_bytes, get_bytes_exact, of_le_bytes-le_bytes,
}
use beam_socket.Prelude.Results.{ok, err}
use beam_socket.Prelude.Words.{add64, IsU64}
use beam_socket.Mesh.Frame.{Frame, FrameKind, header_len, encode, as_u8, decode_len}
use beam_socket.Mesh.Queue.{close}
use beam_socket.Mesh.Frame.RoundTrip.{from_u8-as_u8}
use beam_socket.Mesh.Handshake.{Negotiated, may_emit}
use beam_socket.Mesh.Link.{LinkHandle, closed}
use beam_socket.Mesh.Link.Reader.{
  read_raw_frame, dispatch, dispatch_known, on_ping, receive, eof, end_reading, read_loop,
  reader_loop, count_frame, and_hooked, split_head,
}

-- A frame within the limit, which fits 32 bits.
abbrev pub Fits : ℕ → Frame → Type 0
Fits max_frame f = (2 + length f.body ≤ max_frame) × (max_frame < 2 ^ 32)

read_cons :
    (prefix : Bytes) (n max_frame : ℕ) (buf rest : Bytes)
    → length prefix ≡ 4
    → of_le_bytes prefix ≡ n
    → 2 ≤ n
    → n ≤ max_frame
    → length buf ≡ n
    → read_raw_frame max_frame (prefix ++ (buf ++ rest)) ≡ ok (split_head buf, rest)
unfolding read_raw_frame decode_len
read_cons prefix n max_frame buf rest four e low high size =
    ground (arith, get_bytes_exact 4 prefix (buf ++ rest) four, get_bytes_exact n buf rest size)

pub read_raw_frame-encode :
    (f : Frame) (rest : Bytes) (max_frame : ℕ)
    → Fits max_frame f
    → read_raw_frame max_frame (encode f ++ rest) ≡ ok ((as_u8 f.kind, f.flags, f.body), rest)
unfolding encode
read_raw_frame-encode f rest max_frame h =
    let len : ℕ = (2 + length f.body) % 2 ^ 32 in
    read_cons (le_bytes 4 len) (2 + length f.body) max_frame (as_u8 f.kind ∷ f.flags ∷ f.body) rest
      refl (omega (arith, of_le_bytes-le_bytes 4 len (omega arith))) (omega arith) (omega arith)
      (omega arith)

-- The kinds that go to the inbound hook.
unfoldable pub is_data : FrameKind → Bool
is_data FrameKind.hello = false
is_data FrameKind.challenge = false
is_data FrameKind.auth = false
is_data FrameKind.ping = false
is_data _ = true

abbrev pub encodings : List Frame → Bytes
encodings [] = []
encodings (f ∷ fs) = encode f ++ encodings fs

-- Of the frames that a peer sent, those that the hook is called with, and the number of those that are
-- not counted as unknown.
unfoldable pub heard : Negotiated → List Frame → List Frame
heard n [] = []
heard n (f ∷ fs) =
    let rest = heard n fs in if is_data f.kind && may_emit n f.kind then f ∷ rest else rest

unfoldable pub known : Negotiated → List Frame → ℕ
known n [] = 0
known n (f ∷ fs) = let rest = known n fs in if may_emit n f.kind then suc rest else rest

-- What one frame does.
record Dispatched (kind : FrameKind) (flags : ℕ) (body : Bytes) (h : LinkHandle)
    (res : LinkHandle × Option Frame) : Type 0 where
  hooked : res.1 ≡ (
      if is_data kind && may_emit h.negotiated kind
      then some (record { kind = kind; flags = flags; body = body })
      else none)
  same : res.0.negotiated ≡ h.negotiated
  counted :
      res.0.counters.frames_in
      ≡ (if may_emit h.negotiated kind then add64 h.counters.frames_in 1 else h.counters.frames_in)
  bytes : res.0.counters.bytes_in ≡ h.counters.bytes_in

on_ping_keeps :
    (flags : ℕ) (h : LinkHandle)
    → ((on_ping flags h).negotiated ≡ h.negotiated)
      × ((on_ping flags h).counters.frames_in ≡ h.counters.frames_in)
      × ((on_ping flags h).counters.bytes_in ≡ h.counters.bytes_in)
unfolding on_ping
on_ping_keeps flags h = ground arith

dispatch_known_lem :
    (kind : FrameKind) (flags : ℕ) (body : Bytes) (h : LinkHandle)
    → Dispatched kind flags body h (dispatch_known kind flags body h)
unfolding dispatch_known may_emit is_data
dispatch_known_lem FrameKind.hello flags body h = record {
  hooked = refl;
  same = refl;
  counted = refl;
  bytes = refl;
}
dispatch_known_lem FrameKind.challenge flags body h = record {
  hooked = refl;
  same = refl;
  counted = refl;
  bytes = refl;
}
dispatch_known_lem FrameKind.auth flags body h = record {
  hooked = refl;
  same = refl;
  counted = refl;
  bytes = refl;
}
dispatch_known_lem FrameKind.membership flags body h = record {
  hooked = refl;
  same = refl;
  counted = refl;
  bytes = refl;
}
dispatch_known_lem FrameKind.ping flags body h =
    let kept = on_ping_keeps flags (count_frame h) in
    record { hooked = refl; same = kept.0; counted = kept.1; bytes = kept.2 }
dispatch_known_lem kind flags body h = record {
  hooked = ground arith;
  same = ground arith;
  counted = ground arith;
  bytes = ground arith;
}

abbrev pub hear : Frame → LinkHandle → LinkHandle × Option Frame
hear f h = receive (as_u8 f.kind) f.flags f.body h

pub hear_lem :
    (f : Frame) (h : LinkHandle)
    → ((hear f h).1 ≡ (if is_data f.kind && may_emit h.negotiated f.kind then some f else none))
      × ((hear f h).0.negotiated ≡ h.negotiated)
      × ((hear f h).0.counters.frames_in ≡ (
          if may_emit h.negotiated f.kind
          then add64 h.counters.frames_in 1
          else h.counters.frames_in))
      × ((hear f h).0.counters.bytes_in ≡ add64 h.counters.bytes_in (header_len + length f.body))
unfolding receive dispatch
hear_lem f h =
    let read : LinkHandle = record h {
      counters = record h.counters {
        bytes_in = add64 h.counters.bytes_in (header_len + length f.body);
      };
    } in
    let d = dispatch_known_lem f.kind f.flags f.body read in
    rw (receive, dispatch, from_u8-as_u8 f.kind) (d.hooked, d.same, d.counted, d.bytes)

read_raw_frame_nil : (max_frame : ℕ) → read_raw_frame max_frame [] ≡ err eof
unfolding read_raw_frame get_bytes
read_raw_frame_nil max_frame = refl

read_loop-encode :
    (f : Frame) (rest : Bytes) (fuel : ℕ) (h : LinkHandle)
    → Fits h.negotiated.max_frame f
    → read_loop (suc fuel) (encode f ++ rest) h ≡ (
      (read_loop fuel rest (hear f h).0).0,
      and_hooked (hear f h).1 (read_loop fuel rest (hear f h).0).1,
    )
unfolding read_loop
read_loop-encode f rest fuel h fit =
    rw (read_loop, read_raw_frame-encode f rest h.negotiated.max_frame fit) refl

-- What the reader makes of a peer that sent these frames and went.
pub record Heard (frames : List Frame) (h : LinkHandle) (res : LinkHandle × List Frame)
    : Type 0 where
  pub hooked : res.1 ≡ heard h.negotiated frames
  pub counted : res.0.counters.frames_in ≡ add64 h.counters.frames_in (known h.negotiated frames)
  pub bytes : res.0.counters.bytes_in ≡ add64 h.counters.bytes_in (length (encodings frames))
  pub ended : (res.0.state ≡ closed) × (res.0.queue.closed ≡ true)

length-encode : (f : Frame) → length (encode f) ≡ header_len + length f.body
unfolding encode
length-encode f = omega arith

and_hooked_if :
    (b : Bool) (f : Frame) {o : Option Frame} {xs ys : List Frame}
    → o ≡ (if b then some f else none)
    → xs ≡ ys
    → and_hooked o xs ≡ (if b then f ∷ ys else ys)
and_hooked_if true f e k = rw (e, k) refl
and_hooked_if false f e k = rw (e, k) refl

counted_if :
    (b : Bool) (c k : ℕ) {after last : ℕ}
    → after ≡ (if b then add64 c 1 else c)
    → last ≡ add64 after k
    → last ≡ add64 c (if b then suc k else k)
counted_if true c k e l = omega (arith, e, l)
counted_if false c k e l = omega (arith, e, l)

read_loop_lem :
    (frames : List Frame) (fuel : ℕ) (h : LinkHandle)
    → length frames < fuel
    → All (Fits h.negotiated.max_frame) frames
    → IsU64 h.counters.frames_in
    → IsU64 h.counters.bytes_in
    → Heard frames h (read_loop fuel (encodings frames) h)
unfolding read_loop heard known end_reading close
read_loop_lem frames zero h enough fit u v = absurd (omega arith)
read_loop_lem [] (suc fuel) h enough fit u v =
    rw (read_loop, read_raw_frame_nil h.negotiated.max_frame)
      (record { hooked = refl; counted = omega arith; bytes = omega arith; ended = (refl, refl) })
read_loop_lem (f ∷ fs) (suc fuel) h enough fit u v =
    let (hooked, same, counted, bytes) = hear_lem f h in
    let after = (hear f h).0 in
    let ih =
      read_loop_lem fs fuel after (omega arith) (rw same fit.1) (ground (arith, counted))
        (omega (arith, bytes)) in
    let size : length (encodings (f ∷ fs)) ≡ header_len + length f.body + length (encodings fs) =
      omega (arith, length-append (encode f) (encodings fs), length-encode f) in
    rw (read_loop-encode f (encodings fs) fuel h fit.0) (record {
      hooked =
          and_hooked_if (is_data f.kind && may_emit h.negotiated f.kind) f hooked
            (ih.hooked ∙ ap (λ n. heard n fs) same);
      counted =
          counted_if (may_emit h.negotiated f.kind) h.counters.frames_in (known h.negotiated fs)
            counted (ih.counted ∙ ap (λ n. add64 after.counters.frames_in (known n fs)) same);
      bytes = ih.bytes ∙ omega (arith, bytes, size);
      ended = ih.ended;
    })

length-encodings : (frames : List Frame) → length frames ≤ length (encodings frames)
length-encodings [] = omega arith
length-encodings (f ∷ fs) =
    omega (arith, length-encodings fs, length-append (encode f) (encodings fs), length-encode f)

-- When a peer has sent frames within the limit that was negotiated and then closed its side, the inbound
-- hook has been called with exactly the data frames whose feature was negotiated, in their order; frames
-- and bytes are added to their 64-bit counters; and the link is closed.
pub reader_loop-encodings :
    (frames : List Frame) (h : LinkHandle)
    → All (Fits h.negotiated.max_frame) frames
    → IsU64 h.counters.frames_in
    → IsU64 h.counters.bytes_in
    → Heard frames h (reader_loop (encodings frames) h)
unfolding reader_loop
reader_loop-encodings frames h fit u v =
    read_loop_lem frames (suc (length (encodings frames))) h
      (omega (arith, length-encodings frames)) fit u v
