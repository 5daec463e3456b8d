-- ===== src/Mesh/Handshake/Forgery.antt =====
-- handshake.rs: what a body has to be for the machine to establish a link on it.
use beam_socket.Prelude.{
  ◌≡◌, refl, Option, none, some, List, ◌++◌, ◌==◌, length, All, Bool-cases, inl, inr,
}
use beam_socket.Prelude.Bytes.{Bytes, IsByte}
use mathlib.Core.Path.{subst}
use beam_socket.Prelude.Results.{Result, ok, err}
use beam_socket.Mesh.Frame.{Frame}
use beam_socket.Mesh.Crypto.{constant_time_eq, constant_time_eq_iff}
use beam_socket.Mesh.Handshake.{
  Role, initiator, responder, my_label, peer_label, Negotiated, HandshakeStep, continue,
  established, refused, panicked, State, awaiting_hello, awaiting_challenge, awaiting_auth, done,
  stopped, Handshake, transcript, RefuseReason, validate_peer_hello,
}
use beam_socket.Mesh.Handshake.Machine.{
  refuse, accept_hello, answer_hello, on_hello, is_auth, is_hello, is_challenge, mac_with, auth_mac,
  prove, on_challenge, verify, conclude, on_auth, dispatch, on_frame,
}

module _ (hmac : Bytes → Bytes → Bytes) where
  -- The MAC that the peer has to send: under the shared secret, over its role, the nonce and both HELLOs.
  abbrev pub IsProof : Handshake → Bytes → Type 0
  IsProof hs body =
      (nonce : Bytes) × (hs.nonce ≡ some nonce)
      × (body ≡ hmac hs.cfg.secret (peer_label hs.role ++ (nonce ++ transcript hs)))

  -- What a step claims of the body it was taken on: only one that establishes the link claims anything.
  abbrev pub Claim : Handshake → Bytes → HandshakeStep → Type 0
  Claim hs body (established fs n) = (hs.state ≡ awaiting_auth) × IsProof hs body
  Claim hs body (continue fs) = Unit
  Claim hs body (refused reason) = Unit
  Claim hs body panicked = Unit

  accept_hello-Claim :
      (role : Role) (hs hs' : Handshake) (body random : Bytes)
      → Claim hs body (accept_hello role hs' random).1
  unfolding accept_hello
  accept_hello-Claim responder hs hs' body random = tt
  accept_hello-Claim initiator hs hs' body random = tt

  answer_hello-Claim :
      (res : Result RefuseReason Negotiated) (hs hs' : Handshake) (body random : Bytes)
      → Claim hs body (answer_hello res hs' random).1
  unfolding answer_hello refuse
  answer_hello-Claim (err reason) hs hs' body random = tt
  answer_hello-Claim (ok n) hs hs' body random =
      accept_hello-Claim hs'.role hs (record hs' { negotiated = some n }) body random

  on_hello-Claim :
      (hs : Handshake) (frame : Frame) (random : Bytes)
      → Claim hs frame.body (on_hello hs frame random).1
  unfolding on_hello refuse
  on_hello-Claim hs frame random = elim (Bool-cases (is_hello frame.kind)) [
    | inr e ↦ rw e tt
    | inl e ↦
        let heard : Handshake = record hs { peer_hello_raw = some frame.body } in
        rw e (answer_hello-Claim (validate_peer_hello heard frame.body) hs heard frame.body random)
  ]

  prove-Claim :
      (o : Option Bytes) (hs hs' : Handshake) (body : Bytes) → Claim hs body (prove hmac o hs').1
  unfolding prove
  prove-Claim none hs hs' body = tt
  prove-Claim (some mac) hs hs' body = tt

  on_challenge-Claim :
      (hs : Handshake) (frame : Frame) → Claim hs frame.body (on_challenge hmac hs frame).1
  unfolding on_challenge refuse
  on_challenge-Claim hs frame = elim (Bool-cases (is_challenge frame.kind)) [
    | inr e ↦ rw e tt
    | inl e ↦ elim (Bool-cases (length frame.body == 32)) [
      | inr d ↦ rw (e, d) tt
      | inl d ↦
          let hs' : Handshake = record hs { nonce = some frame.body } in
          rw (e, d) (prove-Claim (auth_mac hmac hs' (my_label hs.role)) hs hs' frame.body)
    ]
  ]

  -- A step from a state and on a body that bear the claim out.
  all-Claim :
      (step : HandshakeStep) (hs : Handshake) (body : Bytes)
      → (hs.state ≡ awaiting_auth) × IsProof hs body
      → Claim hs body step
  all-Claim (established fs n) hs body p = p
  all-Claim (continue fs) hs body p = tt
  all-Claim (refused reason) hs body p = tt
  all-Claim panicked hs body p = tt

  module _ (hmac-IsByte : (key msg : Bytes) → All IsByte (hmac key msg)) where
    verify-Claim :
        (o : Option Bytes) (hs : Handshake) (frame : Frame)
        → hs.nonce ≡ o
        → hs.state ≡ awaiting_auth
        → All IsByte frame.body
        → Claim hs frame.body (verify hmac (mac_with hmac o hs (peer_label hs.role)) hs frame).1
    unfolding verify refuse mac_with
    verify-Claim none hs frame e w b = tt
    verify-Claim (some nonce) hs frame e w b =
        let mac = hmac hs.cfg.secret (peer_label hs.role ++ (nonce ++ transcript hs)) in
        elim (Bool-cases (constant_time_eq frame.body mac)) [
          | inr d ↦ rw d tt
          | inl d ↦
              let same =
                (constant_time_eq_iff frame.body mac b
                    (hmac-IsByte hs.cfg.secret (peer_label hs.role ++ (nonce ++ transcript hs)))).0
                  d in
              rw d
                (all-Claim (conclude hmac hs.negotiated hs).1 hs frame.body (w, (nonce, e, same)))
        ]

    on_auth-Claim :
        (hs : Handshake) (frame : Frame)
        → hs.state ≡ awaiting_auth
        → All IsByte frame.body
        → Claim hs frame.body (on_auth hmac hs frame).1
    unfolding on_auth refuse auth_mac
    on_auth-Claim hs frame w b = elim (Bool-cases (is_auth frame.kind)) [
      | inr e ↦ rw e tt
      | inl e ↦ elim (Bool-cases (length frame.body == 32)) [
        | inr d ↦ rw (e, d) tt
        | inl d ↦ rw (e, d) (verify-Claim hs.nonce hs frame refl w b)
      ]
    ]

    dispatch-Claim :
        (state : State) (hs : Handshake) (frame : Frame) (random : Bytes)
        → hs.state ≡ state
        → All IsByte frame.body
        → Claim hs frame.body (dispatch hmac state hs frame random).1
    unfolding dispatch refuse
    dispatch-Claim awaiting_hello hs frame random w b = on_hello-Claim hs frame random
    dispatch-Claim awaiting_challenge hs frame random w b = on_challenge-Claim hs frame
    dispatch-Claim awaiting_auth hs frame random w b = on_auth-Claim hs frame w b
    dispatch-Claim done hs frame random w b = tt
    dispatch-Claim stopped hs frame random w b = tt

    -- A frame establishes the link only in the state that waits for an AUTH, and only if its body is the
    -- MAC, under the configured secret, over the label of the peer's role, the nonce and both HELLOs as
    -- this side has seen them. The MAC function is any that returns bytes.
    pub on_frame_needs-IsProof :
        (hs : Handshake) (frame : Frame) (random : Bytes) (fs : List Frame) (n : Negotiated)
        → All IsByte frame.body
        → (on_frame hmac hs frame random).1 ≡ established fs n
        → (hs.state ≡ awaiting_auth) × IsProof hs frame.body
    unfolding on_frame
    on_frame_needs-IsProof hs frame random fs n b e =
        subst (Claim hs frame.body) e (dispatch-Claim hs.state hs frame random refl b)
