-- ===== src/Mesh/Handshake/Fixed.antt =====
-- handshake.rs: no step changes the configuration or the role.
use beam_socket.Prelude.{◌≡◌, refl, Option, none, some, arith}
use beam_socket.Prelude.Bytes.{Bytes}
use beam_socket.Prelude.Results.{Result, ok, err}
use beam_socket.Mesh.Frame.{Frame}
use beam_socket.Mesh.Handshake.{
  Role, initiator, responder, Negotiated, RefuseReason, Handshake, State, awaiting_hello,
  awaiting_challenge, awaiting_auth, done, stopped, validate_peer_hello, my_label, peer_label,
  responder_label,
}
use beam_socket.Mesh.Handshake.Machine.{
  on_frame, dispatch, on_hello, answer_hello, accept_hello, on_challenge, prove, on_auth, verify,
  conclude, conclude_as, respond, refuse, auth_mac,
}

-- The configuration and the role of a machine stay.
abbrev pub Same : Handshake → Handshake → Type 0
Same hs hs' = (hs'.cfg ≡ hs.cfg) × (hs'.role ≡ hs.role)

accept_hello-Same :
    (role : Role) (hs : Handshake) (random : Bytes) → Same hs (accept_hello role hs random).0
unfolding accept_hello
accept_hello-Same initiator hs random = (refl, refl)
accept_hello-Same responder hs random = (refl, refl)

answer_hello-Same :
    (res : Result RefuseReason Negotiated) (hs : Handshake) (random : Bytes)
    → Same hs (answer_hello res hs random).0
unfolding answer_hello refuse
answer_hello-Same (err reason) hs random = (refl, refl)
answer_hello-Same (ok n) hs random =
    accept_hello-Same hs.role (record hs { negotiated = some n }) random

on_hello-Same :
    (hs : Handshake) (frame : Frame) (random : Bytes) → Same hs (on_hello hs frame random).0
unfolding on_hello refuse
on_hello-Same hs frame random =
    let heard : Handshake = record hs { peer_hello_raw = some frame.body } in
    let kept = answer_hello-Same (validate_peer_hello heard frame.body) heard random in
    ground (arith, kept)

module _ (hmac : Bytes → Bytes → Bytes) where
  prove-Same : (o : Option Bytes) (hs : Handshake) → Same hs (prove hmac o hs).0
  unfolding prove
  prove-Same none hs = (refl, refl)
  prove-Same (some mac) hs = (refl, refl)

  on_challenge-Same : (hs : Handshake) (frame : Frame) → Same hs (on_challenge hmac hs frame).0
  unfolding on_challenge refuse
  on_challenge-Same hs frame =
      let hs' : Handshake = record hs { nonce = some frame.body } in
      ground (arith, prove-Same (auth_mac hmac hs' (my_label hs.role)) hs')

  respond-Same :
      (o : Option Bytes) (hs : Handshake) (n : Negotiated) → Same hs (respond hmac o hs n).0
  unfolding respond
  respond-Same none hs n = (refl, refl)
  respond-Same (some mac) hs n = (refl, refl)

  conclude_as-Same :
      (role : Role) (hs : Handshake) (n : Negotiated) → Same hs (conclude_as hmac role hs n).0
  unfolding conclude_as
  conclude_as-Same initiator hs n = (refl, refl)
  conclude_as-Same responder hs n = respond-Same (auth_mac hmac hs responder_label) hs n

  conclude-Same : (o : Option Negotiated) (hs : Handshake) → Same hs (conclude hmac o hs).0
  unfolding conclude
  conclude-Same none hs = (refl, refl)
  conclude-Same (some n) hs = conclude_as-Same hs.role hs n

  verify-Same :
      (o : Option Bytes) (hs : Handshake) (frame : Frame) → Same hs (verify hmac o hs frame).0
  unfolding verify refuse
  verify-Same none hs frame = (refl, refl)
  verify-Same (some mac) hs frame = ground (arith, conclude-Same hs.negotiated hs)

  on_auth-Same : (hs : Handshake) (frame : Frame) → Same hs (on_auth hmac hs frame).0
  unfolding on_auth refuse
  on_auth-Same hs frame =
      ground (arith, verify-Same (auth_mac hmac hs (peer_label hs.role)) hs frame)

  dispatch-Same :
      (state : State) (hs : Handshake) (frame : Frame) (random : Bytes)
      → Same hs (dispatch hmac state hs frame random).0
  unfolding dispatch refuse
  dispatch-Same awaiting_hello hs frame random = on_hello-Same hs frame random
  dispatch-Same awaiting_challenge hs frame random = on_challenge-Same hs frame
  dispatch-Same awaiting_auth hs frame random = on_auth-Same hs frame
  dispatch-Same done hs frame random = (refl, refl)
  dispatch-Same stopped hs frame random = (refl, refl)

  pub on_frame-Same :
      (hs : Handshake) (frame : Frame) (random : Bytes) → Same hs (on_frame hmac hs frame random).0
  unfolding on_frame
  on_frame-Same hs frame random = dispatch-Same hs.state hs frame random
