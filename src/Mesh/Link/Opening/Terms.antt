-- ===== src/Mesh/Link/Opening/Terms.antt =====
-- link.rs: a link comes up only on the terms of both sides, whatever bytes arrive.
use beam_socket.Prelude.{
  ℕ, zero, suc, true, arith, ◌≡◌, ◌∙◌, refl, ap, sym, Option-cases, inl, inr, some, length,
}
use beam_socket.Prelude.Bytes.{Bytes}
use mathlib.Core.Path.{subst}
use beam_socket.Prelude.Results.{ok, Result-cases}
use beam_socket.Mesh.Config.{LinkConfig}
use beam_socket.Mesh.Frame.{Frame, FrameKind, from_u8, as_u8}
use beam_socket.Mesh.Hello
use beam_socket.Mesh.Hello.{Hello}
use beam_socket.Mesh.Handshake.{
  Role, Negotiated, RefuseReason, auth_failed, HandshakeStep, continue, established, refused,
  panicked, Handshake, awaiting_hello, new, start,
}
use beam_socket.Mesh.Handshake.Machine.{on_frame, dispatch, is_hello}
use beam_socket.Mesh.Handshake.Reach.{IsSound, Promise, GoodStep, dispatch-GoodStep, Checked}
use beam_socket.Mesh.Handshake.Heard.{HasHeard, FirstStep, on_hello-FirstStep, on_frame-HasHeard}
use beam_socket.Mesh.Handshake.Fixed.{on_frame-Same}
use beam_socket.Mesh.Handshake.Terms.{Terms, validate_peer_hello_ok}
use beam_socket.Mesh.Link.Reader.{read_raw_frame}
use beam_socket.Mesh.Link.Opening.{
  Outcome, opened, failed, crashed, Opening, after_step, open_loop, run_handshake, ends_by,
}

-- The driver did not panic, and if the link is up then on the terms of the HELLO with this body.
abbrev pub HeardTerms : LinkConfig → Role → Bytes → Outcome → Type 0
HeardTerms cfg role body (opened n) =
    (hello : Hello) × (Hello.decode body ≡ ok hello) × Terms cfg role hello n
HeardTerms cfg role body (failed e) = Unit {0}
HeardTerms cfg role body crashed = ⊥

-- And the HELLO is the first frame of the stream.
abbrev pub OnTerms : LinkConfig → Role → Bytes → Outcome → Type 0
OnTerms cfg role stream (opened n) =
    (flags : ℕ) × (body : Bytes) × (rest : Bytes) × (read_raw_frame cfg.max_frame stream
      ≡ ok ((as_u8 FrameKind.hello, flags, body), rest))
    × ((hello : Hello) × (Hello.decode body ≡ ok hello) × Terms cfg role hello n)
OnTerms cfg role stream (failed e) = Unit {0}
OnTerms cfg role stream crashed = ⊥

abbrev IsOf : LinkConfig → Role → Handshake → Type 0
IsOf cfg role hs = (hs.cfg ≡ cfg) × (hs.role ≡ role)

ends_by-HeardTerms :
    (cfg : LinkConfig) (role : Role) (body : Bytes) (reason : RefuseReason)
    → HeardTerms cfg role body (ends_by reason).outcome
ends_by-HeardTerms cfg role body auth_failed = tt
ends_by-HeardTerms cfg role body _ = tt

ends_by-OnTerms :
    (cfg : LinkConfig) (role : Role) (stream : Bytes) (reason : RefuseReason)
    → OnTerms cfg role stream (ends_by reason).outcome
ends_by-OnTerms cfg role stream auth_failed = tt
ends_by-OnTerms cfg role stream _ = tt

same_some : {A : Type 0} (a b : A) → some a ≡ some b → a ≡ b
same_some a b e = cc e

negotiated_under :
    (hs : Handshake) (n : Negotiated) {cfg : LinkConfig} {role : Role} (body : Bytes)
    → Checked hs
    → hs.negotiated ≡ some n
    → hs.peer_hello_raw ≡ some body
    → IsOf cfg role hs
    → (hello : Hello) × (Hello.decode body ≡ ok hello) × Terms cfg role hello n
negotiated_under hs n {cfg} {role} body c e raw k =
    let terms : c.terms ≡ n = same_some c.terms n (sym c.kept ∙ e) in
    let heard : c.body ≡ body = same_some c.body body (sym c.heard ∙ raw) in
    let (hello, decoded, agreed) =
      validate_peer_hello_ok hs c.body n (c.valid ∙ ap (λ t. ok t) terms) in
    (
      hello,
      ap (λ b. Hello.decode b) (sym heard) ∙ decoded,
      subst (λ r. Terms cfg r hello n) k.1
          (subst (λ (c' : LinkConfig). Terms c' hs.role hello n) k.0 agreed),
    )

hello_byte :
    (b : ℕ) (kind : FrameKind)
    → from_u8 b ≡ some kind
    → is_hello kind ≡ true
    → b ≡ as_u8 FrameKind.hello
unfolding from_u8 as_u8
hello_byte b kind u h = ground (arith, u, h)

-- A HELLO that was read first is the first frame of the stream.
read_first :
    (cfg : LinkConfig) (role : Role) (stream : Bytes) (b flags : ℕ) (body rest : Bytes)
    (o : Outcome)
    → read_raw_frame cfg.max_frame stream ≡ ok ((b, flags, body), rest)
    → b ≡ as_u8 FrameKind.hello
    → HeardTerms cfg role body o
    → OnTerms cfg role stream o
read_first cfg role stream b flags body rest (opened n) read is terms =
    (flags, body, rest, read ∙ ap (λ k. ok ((k, flags, body), rest)) is, terms)
read_first cfg role stream b flags body rest (failed e) read is terms = tt
read_first cfg role stream b flags body rest crashed read is terms = terms

module _ (hmac : Bytes → Bytes → Bytes) (nonce : Bytes) (cfg : LinkConfig) (role : Role) where
  later_step :
      (rest : Handshake → Opening) (body : Bytes)
      → ((hs : Handshake)
          → IsSound hs
          → IsOf cfg role hs
          → HasHeard body hs
          → HeardTerms cfg role body (rest hs).outcome)
      → (r : Handshake × HandshakeStep) → GoodStep r
      → IsOf cfg role r.0
      → HasHeard body r.0
      → HeardTerms cfg role body (after_step hmac nonce rest r).outcome
  unfolding after_step
  later_step rest body good (hs, continue frames) g k h = good hs g k h
  later_step rest body good (hs, established frames n) g k h =
      negotiated_under hs n body (subst (λ st. Promise st hs) g.2 g.0) g.1 h.0 k
  later_step rest body good (hs, refused reason) g k h = ends_by-HeardTerms cfg role body reason
  later_step rest body good (hs, panicked) g k h = g

  on_frame-GoodStep_of :
      (hs : Handshake) (frame : Frame) → IsSound hs → GoodStep (on_frame hmac hs frame nonce)
  unfolding on_frame
  on_frame-GoodStep_of hs frame sound = dispatch-GoodStep hmac hs.state hs frame nonce sound

  stays :
      (hs : Handshake) (frame : Frame)
      → IsOf cfg role hs
      → IsOf cfg role (on_frame hmac hs frame nonce).0
  stays hs frame k = let same = on_frame-Same hmac hs frame nonce in (same.0 ∙ k.0, same.1 ∙ k.1)

  open_loop-HeardTerms :
      (fuel : ℕ) (hs : Handshake) (max_frame : ℕ) (stream heard : Bytes)
      → IsSound hs
      → IsOf cfg role hs
      → HasHeard heard hs
      → HeardTerms cfg role heard (open_loop hmac nonce fuel hs max_frame stream).outcome
  unfolding open_loop
  open_loop-HeardTerms zero hs max_frame stream heard sound k h = tt
  open_loop-HeardTerms (suc fuel) hs max_frame stream heard sound k h =
      elim (Result-cases (read_raw_frame max_frame stream)) [
        | inr (e, r) ↦ rw (open_loop, r) tt
        | inl (((kind_byte, flags, body), rest), r) ↦ elim (Option-cases (from_u8 kind_byte)) [
          | inl u ↦ rw (open_loop, r, u) tt
          | inr (kind, u) ↦
              let frame : Frame = record { kind = kind; flags = flags; body = body } in
              rw (open_loop, r, u)
                (later_step (λ hs'. open_loop hmac nonce fuel hs' max_frame rest) heard
                  (λ hs'. open_loop-HeardTerms fuel hs' max_frame rest heard)
                  (on_frame hmac hs frame nonce) (on_frame-GoodStep_of hs frame sound)
                  (stays hs frame k) (on_frame-HasHeard hmac heard hs frame nonce h))
        ]
      ]

  -- The step on the first frame, which is at the front of the stream.
  first_step :
      (rest : Handshake → Opening) (stream : Bytes) (b : ℕ) (frame : Frame) (after : Bytes)
      → read_raw_frame cfg.max_frame stream ≡ ok ((b, frame.flags, frame.body), after)
      → from_u8 b ≡ some frame.kind
      → ((hs : Handshake)
          → IsSound hs
          → IsOf cfg role hs
          → HasHeard frame.body hs
          → HeardTerms cfg role frame.body (rest hs).outcome)
      → (r : Handshake × HandshakeStep) → GoodStep r
      → IsOf cfg role r.0
      → FirstStep frame r
      → OnTerms cfg role stream (after_step hmac nonce rest r).outcome
  unfolding after_step
  first_step rest stream b frame after read u good (hs, continue frames) g k h =
      read_first cfg role stream b frame.flags frame.body after (rest hs).outcome read
        (hello_byte b frame.kind u h.0) (good hs g k h.1)
  first_step rest stream b frame after read u good (hs, established frames n) g k h = absurd h
  first_step rest stream b frame after read u good (hs, refused reason) g k h =
      ends_by-OnTerms cfg role stream reason
  first_step rest stream b frame after read u good (hs, panicked) g k h = g

  first_frame :
      (hs : Handshake) (frame : Frame)
      → hs.state ≡ awaiting_hello
      → FirstStep frame (on_frame hmac hs frame nonce)
  unfolding on_frame dispatch
  first_frame hs frame w =
      subst (λ st. FirstStep frame (dispatch hmac st hs frame nonce)) (sym w)
        (on_hello-FirstStep hs frame nonce)

  open_loop-OnTerms :
      (fuel : ℕ) (hs : Handshake) (stream : Bytes)
      → hs.state ≡ awaiting_hello
      → IsSound hs
      → IsOf cfg role hs
      → OnTerms cfg role stream (open_loop hmac nonce (suc fuel) hs cfg.max_frame stream).outcome
  unfolding open_loop
  open_loop-OnTerms fuel hs stream w sound k =
      elim (Result-cases (read_raw_frame cfg.max_frame stream)) [
        | inr (e, r) ↦ rw (open_loop, r) tt
        | inl (((kind_byte, flags, body), rest), r) ↦ elim (Option-cases (from_u8 kind_byte)) [
          | inl u ↦ rw (open_loop, r, u) tt
          | inr (kind, u) ↦
              let frame : Frame = record { kind = kind; flags = flags; body = body } in
              let step : OnTerms cfg role stream
                  (after_step hmac nonce (λ hs'. open_loop hmac nonce fuel hs' cfg.max_frame rest)
                    (on_frame hmac hs frame nonce)).outcome =
                first_step (λ hs'. open_loop hmac nonce fuel hs' cfg.max_frame rest) stream
                  kind_byte frame rest r u
                  (λ hs'. open_loop-HeardTerms fuel hs' cfg.max_frame rest body)
                  (on_frame hmac hs frame nonce) (on_frame-GoodStep_of hs frame sound)
                  (stays hs frame k) (first_frame hs frame w) in
              rw (open_loop, r, u) step
        ]
      ]

-- Whatever bytes the peer sends, the driver of the handshake does not panic; and when it brings the link
-- up, the first frame of those bytes is a HELLO whose body decodes as one of another node of this cluster,
-- within the version window and with room for the control frames, and the parameters are those of both
-- sides, this HELLO's and the node's own, together.
pub run_handshake-OnTerms :
    (hmac : Bytes → Bytes → Bytes) (nonce : Bytes) (role : Role) (cfg : LinkConfig)
    (fresh stream : Bytes)
    → OnTerms cfg role stream (run_handshake hmac nonce role cfg fresh stream).outcome
unfolding run_handshake new start
run_handshake-OnTerms hmac nonce role cfg fresh stream =
    open_loop-OnTerms hmac nonce cfg role (length stream) (start (new role cfg) fresh).0 stream refl
      tt (refl, refl)
