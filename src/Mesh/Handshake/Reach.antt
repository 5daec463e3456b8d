-- ===== src/Mesh/Handshake/Reach.antt =====
-- handshake.rs: what holds in every state that the machine reaches.
use beam_socket.Mesh.Handshake.{
  transcript, responder_label, peer_label, Role, initiator, responder, Negotiated, RefuseReason,
  HandshakeStep, continue, established, refused, panicked, State, awaiting_hello,
  awaiting_challenge, awaiting_auth, done, stopped, Handshake, validate_peer_hello, new, start,
}
use beam_socket.Mesh.Handshake.Machine.{
  conclude_as, dispatch, respond, verify, mac_with, answer_hello, refuse, accept_hello, on_hello,
  on_challenge, on_auth, conclude, on_frame, auth_mac, is_hello, is_challenge, is_auth,
}
use beam_socket.Prelude.{
  ◌≡◌, refl, ap, Option, none, some, List, [], ◌∷◌, ◌++◌, ◌==◌, length, Bool-cases, inl, inr,
}
use beam_socket.Prelude.Bytes.{Bytes}
use beam_socket.Prelude.Results.{Result, ok, err}
use beam_socket.Mesh.Frame.{Frame}
use beam_socket.Mesh.Crypto.{constant_time_eq}
use beam_socket.Mesh.Config.{LinkConfig}

-- The peer's HELLO was accepted, and the parameters are what came of it.
pub record Checked (hs : Handshake) : Type 0 where
  pub body : Bytes
  pub terms : Negotiated
  pub heard : hs.peer_hello_raw ≡ some body
  pub kept : hs.negotiated ≡ some terms
  pub valid : validate_peer_hello hs body ≡ ok terms

-- What each state promises: for a challenge, that the machine is an initiator's; for an AUTH, that the
-- nonce is known.
abbrev pub Promise : State → Handshake → Type 0
Promise awaiting_hello hs = Unit
Promise awaiting_challenge hs = Checked hs × (hs.role ≡ initiator)
Promise awaiting_auth hs = Checked hs × ((nonce : Bytes) × (hs.nonce ≡ some nonce))
Promise done hs = Checked hs
Promise stopped hs = Unit

abbrev pub IsSound : Handshake → Type 0
IsSound hs = Promise hs.state hs

-- A step ends in a state that keeps its promise, without a panic; what it establishes was checked.
abbrev pub GoodStep : Handshake × HandshakeStep → Type 0
GoodStep (hs, continue fs) = IsSound hs
GoodStep (hs, established fs n) = IsSound hs × (hs.negotiated ≡ some n) × (hs.state ≡ done)
GoodStep (hs, refused reason) = hs.state ≡ stopped
GoodStep (hs, panicked) = ⊥

accept_hello-GoodStep :
    (role : Role) (hs : Handshake) (random : Bytes)
    → hs.role ≡ role
    → Checked hs
    → GoodStep (accept_hello role hs random)
unfolding accept_hello validate_peer_hello
accept_hello-GoodStep responder hs random e c = (
  record { body = c.body; terms = c.terms; heard = c.heard; kept = c.kept; valid = c.valid },
  (random, refl),
)
accept_hello-GoodStep initiator hs random e c =
    (record { body = c.body; terms = c.terms; heard = c.heard; kept = c.kept; valid = c.valid }, e)

answer_hello-GoodStep :
    (res : Result RefuseReason Negotiated) (hs : Handshake) (body random : Bytes)
    → hs.peer_hello_raw ≡ some body
    → validate_peer_hello hs body ≡ res
    → GoodStep (answer_hello res hs random)
unfolding answer_hello validate_peer_hello
answer_hello-GoodStep (err reason) hs body random e v = refl
answer_hello-GoodStep (ok n) hs body random e v =
    accept_hello-GoodStep hs.role (record hs { negotiated = some n }) random refl
      (record { body = body; terms = n; heard = e; kept = refl; valid = v })

on_hello-GoodStep :
    (hs : Handshake) (frame : Frame) (random : Bytes) → GoodStep (on_hello hs frame random)
unfolding on_hello
on_hello-GoodStep hs frame random = elim (Bool-cases (is_hello frame.kind)) [
  | inr e ↦ rw e refl
  | inl e ↦
      let heard : Handshake = record hs { peer_hello_raw = some frame.body } in
      rw e (
        answer_hello-GoodStep (validate_peer_hello heard frame.body) heard frame.body random refl
          refl)
]

module _ (hmac : Bytes → Bytes → Bytes) where
  on_challenge-GoodStep :
      (hs : Handshake) (frame : Frame) → Checked hs → GoodStep (on_challenge hmac hs frame)
  unfolding on_challenge validate_peer_hello
  on_challenge-GoodStep hs frame c = elim (Bool-cases (is_challenge frame.kind)) [
    | inr e ↦ rw e refl
    | inl e ↦ elim (Bool-cases (length frame.body == 32)) [
      | inr d ↦ rw (e, d) refl
      | inl d ↦
          rw (e, d)
            (
              record {
                body = c.body;
                terms = c.terms;
                heard = c.heard;
                kept = c.kept;
                valid = c.valid;
              },
              (frame.body, refl),
            )
    ]
  ]

  respond-GoodStep :
      (mac : Bytes) (hs : Handshake) (n : Negotiated)
      → Checked hs
      → hs.negotiated ≡ some n
      → GoodStep (respond hmac (some mac) hs n)
  unfolding respond validate_peer_hello
  respond-GoodStep mac hs n c e = (
    record { body = c.body; terms = c.terms; heard = c.heard; kept = c.kept; valid = c.valid },
    e,
    refl,
  )

  auth_mac-some :
      (hs : Handshake) (label nonce : Bytes)
      → hs.nonce ≡ some nonce
      → (mac : Bytes) × (auth_mac hmac hs label ≡ some mac)
  unfolding auth_mac mac_with
  auth_mac-some hs label nonce k =
      (hmac hs.cfg.secret (label ++ (nonce ++ transcript hs)), ap (λ o. mac_with hmac o hs label) k)

  conclude_as-GoodStep :
      (role : Role) (hs : Handshake) (n : Negotiated)
      → Checked hs
      → hs.negotiated ≡ some n
      → (nonce : Bytes) → hs.nonce ≡ some nonce
      → GoodStep (conclude_as hmac role hs n)
  unfolding conclude_as validate_peer_hello
  conclude_as-GoodStep initiator hs n c e nonce k = (
    record { body = c.body; terms = c.terms; heard = c.heard; kept = c.kept; valid = c.valid },
    e,
    refl,
  )
  conclude_as-GoodStep responder hs n c e nonce k =
      let (mac, m) = auth_mac-some hs responder_label nonce k in
      rw m (respond-GoodStep mac hs n c e)

  conclude-GoodStep :
      (o : Option Negotiated) (hs : Handshake) (c : Checked hs) (nonce : Bytes)
      → hs.negotiated ≡ o
      → hs.nonce ≡ some nonce
      → GoodStep (conclude hmac o hs)
  unfolding conclude
  conclude-GoodStep none hs c nonce e k = cc (e, c.kept)
  conclude-GoodStep (some n) hs c nonce e k = conclude_as-GoodStep hs.role hs n c e nonce k

  verify-GoodStep :
      (mac : Bytes) (hs : Handshake) (frame : Frame) (c : Checked hs) (nonce : Bytes)
      → hs.nonce ≡ some nonce
      → GoodStep (verify hmac (some mac) hs frame)
  unfolding verify refuse conclude
  verify-GoodStep mac hs frame c nonce k = elim (Bool-cases (constant_time_eq frame.body mac)) [
    | inr e ↦ rw e refl
    | inl e ↦ rw e (conclude-GoodStep hs.negotiated hs c nonce refl k)
  ]

  on_auth-GoodStep :
      (hs : Handshake) (frame : Frame) (c : Checked hs) (nonce : Bytes)
      → hs.nonce ≡ some nonce
      → GoodStep (on_auth hmac hs frame)
  unfolding on_auth refuse
  on_auth-GoodStep hs frame c nonce k = elim (Bool-cases (is_auth frame.kind)) [
    | inr e ↦ rw e refl
    | inl e ↦ elim (Bool-cases (length frame.body == 32)) [
      | inr d ↦ rw (e, d) refl
      | inl d ↦
          let (mac, m) = auth_mac-some hs (peer_label hs.role) nonce k in
          rw (e, d, m) (verify-GoodStep mac hs frame c nonce k)
    ]
  ]

  pub dispatch-GoodStep :
      (state : State) (hs : Handshake) (frame : Frame) (random : Bytes)
      → Promise state hs
      → GoodStep (dispatch hmac state hs frame random)
  unfolding dispatch refuse
  dispatch-GoodStep awaiting_hello hs frame random p = on_hello-GoodStep hs frame random
  dispatch-GoodStep awaiting_challenge hs frame random (c, e) = on_challenge-GoodStep hs frame c
  dispatch-GoodStep awaiting_auth hs frame random (c, (nonce, k)) =
      on_auth-GoodStep hs frame c nonce k
  dispatch-GoodStep done hs frame random p = refl
  dispatch-GoodStep stopped hs frame random p = refl

  -- The machine after the frames that came in, each with the random bytes at hand when it did.
  unfoldable pub after : Handshake → List (Frame × Bytes) → Handshake
  after hs [] = hs
  after hs ((frame, random) ∷ rest) = after (on_frame hmac hs frame random).0 rest

  pub GoodStep-IsSound : (r : Handshake × HandshakeStep) → GoodStep r → IsSound r.0
  GoodStep-IsSound (hs, continue fs) p = p
  GoodStep-IsSound (hs, established fs n) p = p.0
  GoodStep-IsSound (hs, refused reason) p = rw p tt
  GoodStep-IsSound (hs, panicked) p = absurd p

  after-IsSound :
      (frames : List (Frame × Bytes)) (hs : Handshake) → IsSound hs → IsSound (after hs frames)
  unfolding after on_frame
  after-IsSound [] hs p = p
  after-IsSound ((frame, random) ∷ rest) hs p =
      after-IsSound rest (on_frame hmac hs frame random).0 (
        GoodStep-IsSound (on_frame hmac hs frame random)
          (dispatch-GoodStep hs.state hs frame random p))

  -- Whatever frames a handshake has met since its start, the next one makes no panic; a state that
  -- waits for an AUTH knows the nonce and has accepted the peer's HELLO; and a step that establishes the
  -- link does so with exactly the parameters that the peer's HELLO was accepted on.
  pub on_frame-GoodStep :
      (role : Role) (cfg : LinkConfig) (fresh : Bytes) (frames : List (Frame × Bytes))
      (frame : Frame) (random : Bytes)
      → GoodStep (on_frame hmac (after (start (new role cfg) fresh).0 frames) frame random)
  unfolding on_frame start new
  on_frame-GoodStep role cfg fresh frames frame random =
      let hs = after (start (new role cfg) fresh).0 frames in
      dispatch-GoodStep hs.state hs frame random
        (after-IsSound frames (start (new role cfg) fresh).0 tt)
