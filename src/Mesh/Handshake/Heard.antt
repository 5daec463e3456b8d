-- ===== src/Mesh/Handshake/Heard.antt =====
-- handshake.rs: the machine goes on only from a HELLO, and keeps the first one that it heard.
use beam_socket.Prelude.{
  ◌≡◌, refl, Bool, true, false, Option, none, some, arith, Bool-cases, inl, inr,
}
use beam_socket.Prelude.Bytes.{Bytes}
use beam_socket.Prelude.Results.{Result, ok, err}
use beam_socket.Mesh.Frame.{Frame}
use beam_socket.Mesh.Handshake.{
  Role, initiator, responder, Negotiated, RefuseReason, HandshakeStep, continue, established,
  refused, panicked, Handshake, State, awaiting_hello, awaiting_challenge, awaiting_auth, done,
  stopped, validate_peer_hello, my_label, peer_label, responder_label,
}
use beam_socket.Mesh.Handshake.Machine.{
  on_frame, dispatch, on_hello, answer_hello, accept_hello, on_challenge, prove, on_auth, verify,
  conclude, conclude_as, respond, refuse, auth_mac, is_hello,
}

-- No HELLO was heard yet.
abbrev pub is_waiting : State → Bool
is_waiting awaiting_hello = true
is_waiting awaiting_challenge = false
is_waiting awaiting_auth = false
is_waiting done = false
is_waiting stopped = false

-- A HELLO was heard, and this is its body.
abbrev pub HasHeard : Bytes → Handshake → Type 0
HasHeard body hs = (hs.peer_hello_raw ≡ some body) × (is_waiting hs.state ≡ false)

-- The step of a machine that waits for a HELLO, on this frame.
abbrev pub FirstStep : Frame → Handshake × HandshakeStep → Type 0
FirstStep frame (hs, continue frames) = (is_hello frame.kind ≡ true) × HasHeard frame.body hs
FirstStep frame (hs, established frames n) = ⊥
FirstStep frame (hs, refused reason) = Unit {0}
FirstStep frame (hs, panicked) = Unit {0}

accept_hello-FirstStep :
    (role : Role) (hs : Handshake) (frame : Frame) (random : Bytes)
    → is_hello frame.kind ≡ true
    → hs.peer_hello_raw ≡ some frame.body
    → FirstStep frame (accept_hello role hs random)
unfolding accept_hello
accept_hello-FirstStep initiator hs frame random h raw = (h, (raw, refl))
accept_hello-FirstStep responder hs frame random h raw = (h, (raw, refl))

answer_hello-FirstStep :
    (res : Result RefuseReason Negotiated) (hs : Handshake) (frame : Frame) (random : Bytes)
    → is_hello frame.kind ≡ true
    → hs.peer_hello_raw ≡ some frame.body
    → FirstStep frame (answer_hello res hs random)
unfolding answer_hello refuse
answer_hello-FirstStep (err reason) hs frame random h raw = tt
answer_hello-FirstStep (ok n) hs frame random h raw =
    accept_hello-FirstStep hs.role (record hs { negotiated = some n }) frame random h raw

pub on_hello-FirstStep :
    (hs : Handshake) (frame : Frame) (random : Bytes) → FirstStep frame (on_hello hs frame random)
unfolding on_hello refuse
on_hello-FirstStep hs frame random = elim (Bool-cases (is_hello frame.kind)) [
  | inl h ↦
      let heard : Handshake = record hs { peer_hello_raw = some frame.body } in
      rw (on_hello, h)
        (answer_hello-FirstStep (validate_peer_hello heard frame.body) heard frame random h refl)
  | inr h ↦ rw (on_hello, h) tt
]

module _ (hmac : Bytes → Bytes → Bytes) (heard : Bytes) where
  prove-HasHeard :
      (o : Option Bytes) (hs : Handshake) → HasHeard heard hs → HasHeard heard (prove hmac o hs).0
  unfolding prove
  prove-HasHeard none hs k = k
  prove-HasHeard (some mac) hs k = (k.0, refl)

  on_challenge-HasHeard :
      (hs : Handshake) (frame : Frame)
      → HasHeard heard hs
      → HasHeard heard (on_challenge hmac hs frame).0
  unfolding on_challenge refuse
  on_challenge-HasHeard hs frame k =
      let hs' : Handshake = record hs { nonce = some frame.body } in
      ground (arith, k, prove-HasHeard (auth_mac hmac hs' (my_label hs.role)) hs' k)

  respond-HasHeard :
      (o : Option Bytes) (hs : Handshake) (n : Negotiated)
      → HasHeard heard hs
      → HasHeard heard (respond hmac o hs n).0
  unfolding respond
  respond-HasHeard none hs n k = k
  respond-HasHeard (some mac) hs n k = (k.0, refl)

  conclude_as-HasHeard :
      (role : Role) (hs : Handshake) (n : Negotiated)
      → HasHeard heard hs
      → HasHeard heard (conclude_as hmac role hs n).0
  unfolding conclude_as
  conclude_as-HasHeard initiator hs n k = (k.0, refl)
  conclude_as-HasHeard responder hs n k = respond-HasHeard (auth_mac hmac hs responder_label) hs n k

  conclude-HasHeard :
      (o : Option Negotiated) (hs : Handshake)
      → HasHeard heard hs
      → HasHeard heard (conclude hmac o hs).0
  unfolding conclude
  conclude-HasHeard none hs k = k
  conclude-HasHeard (some n) hs k = conclude_as-HasHeard hs.role hs n k

  verify-HasHeard :
      (o : Option Bytes) (hs : Handshake) (frame : Frame)
      → HasHeard heard hs
      → HasHeard heard (verify hmac o hs frame).0
  unfolding verify refuse
  verify-HasHeard none hs frame k = k
  verify-HasHeard (some mac) hs frame k = ground (arith, k, conclude-HasHeard hs.negotiated hs k)

  on_auth-HasHeard :
      (hs : Handshake) (frame : Frame)
      → HasHeard heard hs
      → HasHeard heard (on_auth hmac hs frame).0
  unfolding on_auth refuse
  on_auth-HasHeard hs frame k =
      ground (arith, k, verify-HasHeard (auth_mac hmac hs (peer_label hs.role)) hs frame k)

  dispatch-HasHeard :
      (state : State) (hs : Handshake) (frame : Frame) (random : Bytes)
      → is_waiting state ≡ false
      → HasHeard heard hs
      → HasHeard heard (dispatch hmac state hs frame random).0
  unfolding dispatch refuse
  dispatch-HasHeard awaiting_hello hs frame random w k = absurd (cc w)
  dispatch-HasHeard awaiting_challenge hs frame random w k = on_challenge-HasHeard hs frame k
  dispatch-HasHeard awaiting_auth hs frame random w k = on_auth-HasHeard hs frame k
  dispatch-HasHeard done hs frame random w k = (k.0, refl)
  dispatch-HasHeard stopped hs frame random w k = (k.0, refl)

  -- No later frame takes the place of the HELLO.
  pub on_frame-HasHeard :
      (hs : Handshake) (frame : Frame) (random : Bytes)
      → HasHeard heard hs
      → HasHeard heard (on_frame hmac hs frame random).0
  unfolding on_frame
  on_frame-HasHeard hs frame random k = dispatch-HasHeard hs.state hs frame random k.1 k
