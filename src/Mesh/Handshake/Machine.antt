-- ===== src/Mesh/Handshake/Machine.antt =====
-- handshake.rs: the steps of the machine, `on_frame` and what it calls.
use beam_socket.Prelude.{
  Bool, true, false, Option, none, some, [], ◌∷◌, ◌++◌, ◌==◌, if◌then◌else◌, length,
}
use beam_socket.Prelude.Bytes.{Bytes}
use beam_socket.Prelude.Results.{Result, ok, err}
use beam_socket.Mesh.Crypto.{constant_time_eq}
use beam_socket.Mesh.Frame.{Frame, FrameKind}
use beam_socket.Mesh.Handshake.{
  Role, initiator, responder, my_label, peer_label, responder_label, Negotiated, RefuseReason,
  protocol_violation, after_terminal, expected_hello, expected_challenge, nonce_size, expected_auth,
  mac_size, auth_failed, HandshakeStep, continue, established, refused, panicked, State,
  awaiting_hello, awaiting_challenge, awaiting_auth, done, stopped, Handshake, plain, transcript,
  validate_peer_hello,
}

unfoldable pub refuse : Handshake → RefuseReason → Handshake × HandshakeStep
refuse hs reason = (record hs { state = stopped }, refused reason)

abbrev pub is_hello : FrameKind → Bool
is_hello FrameKind.hello = true
is_hello _ = false

abbrev pub is_challenge : FrameKind → Bool
is_challenge FrameKind.challenge = true
is_challenge _ = false

abbrev pub is_auth : FrameKind → Bool
is_auth FrameKind.auth = true
is_auth _ = false

-- The answer to a peer's HELLO that was accepted; `random` is the responder's nonce.
unfoldable pub accept_hello : Role → Handshake → Bytes → Handshake × HandshakeStep
accept_hello responder hs random = (
  record hs { nonce = some random; state = awaiting_auth },
  continue (plain FrameKind.challenge random ∷ []),
)
accept_hello initiator hs random = (record hs { state = awaiting_challenge }, continue [])

unfoldable pub answer_hello :
    Result RefuseReason Negotiated → Handshake → Bytes → Handshake × HandshakeStep
unfolding refuse
answer_hello (err reason) hs random = refuse hs reason
answer_hello (ok n) hs random = accept_hello hs.role (record hs { negotiated = some n }) random

unfoldable pub on_hello : Handshake → Frame → Bytes → Handshake × HandshakeStep
unfolding refuse
on_hello hs frame random =
    if is_hello frame.kind
    then (let heard : Handshake = record hs { peer_hello_raw = some frame.body } in
        answer_hello (validate_peer_hello heard frame.body) heard random)
    else refuse hs (protocol_violation expected_hello)

module _ (hmac : Bytes → Bytes → Bytes) where
  -- The MAC over `role label ‖ nonce ‖ transcript`; `none` where the source panics for want of a nonce.
  unfoldable pub mac_with : Option Bytes → Handshake → Bytes → Option Bytes
  mac_with none hs label = none
  mac_with (some nonce) hs label = some (hmac hs.cfg.secret (label ++ (nonce ++ transcript hs)))

  unfoldable pub auth_mac : Handshake → Bytes → Option Bytes
  unfolding mac_with
  auth_mac hs label = mac_with hs.nonce hs label

  unfoldable pub prove : Option Bytes → Handshake → Handshake × HandshakeStep
  prove none hs = (hs, panicked)
  prove (some mac) hs =
      (record hs { state = awaiting_auth }, continue (plain FrameKind.auth mac ∷ []))

  unfoldable pub on_challenge : Handshake → Frame → Handshake × HandshakeStep
  unfolding refuse auth_mac prove
  on_challenge hs frame =
      if is_challenge frame.kind
      then (if length frame.body == 32
          then (let hs' : Handshake = record hs { nonce = some frame.body } in
              prove (auth_mac hs' (my_label hs.role)) hs')
          else refuse hs (protocol_violation nonce_size))
      else refuse hs (protocol_violation expected_challenge)

  -- The peer's MAC was verified; the responder proves itself in turn.
  unfoldable pub respond : Option Bytes → Handshake → Negotiated → Handshake × HandshakeStep
  respond none hs n = (hs, panicked)
  respond (some mac) hs n =
      (record hs { state = done }, established (plain FrameKind.auth mac ∷ []) n)

  unfoldable pub conclude_as : Role → Handshake → Negotiated → Handshake × HandshakeStep
  unfolding respond auth_mac
  conclude_as responder hs n = respond (auth_mac hs responder_label) hs n
  conclude_as initiator hs n = (record hs { state = done }, established [] n)

  unfoldable pub conclude : Option Negotiated → Handshake → Handshake × HandshakeStep
  unfolding conclude_as
  conclude none hs = (hs, panicked)
  conclude (some n) hs = conclude_as hs.role hs n

  unfoldable pub verify : Option Bytes → Handshake → Frame → Handshake × HandshakeStep
  unfolding refuse conclude
  verify none hs frame = (hs, panicked)
  verify (some expected) hs frame =
      if constant_time_eq frame.body expected
      then conclude hs.negotiated hs
      else refuse hs auth_failed

  unfoldable pub on_auth : Handshake → Frame → Handshake × HandshakeStep
  unfolding refuse auth_mac verify
  on_auth hs frame =
      if is_auth frame.kind
      then (if length frame.body == 32
          then verify (auth_mac hs (peer_label hs.role)) hs frame
          else refuse hs (protocol_violation mac_size))
      else refuse hs (protocol_violation expected_auth)

  unfoldable pub dispatch : State → Handshake → Frame → Bytes → Handshake × HandshakeStep
  unfolding refuse
  dispatch awaiting_hello hs frame random = on_hello hs frame random
  dispatch awaiting_challenge hs frame random = on_challenge hs frame
  dispatch awaiting_auth hs frame random = on_auth hs frame
  dispatch done hs frame random = refuse hs (protocol_violation after_terminal)
  dispatch stopped hs frame random = refuse hs (protocol_violation after_terminal)

  unfoldable pub on_frame : Handshake → Frame → Bytes → Handshake × HandshakeStep
  unfolding dispatch
  on_frame hs frame random = dispatch hs.state hs frame random
