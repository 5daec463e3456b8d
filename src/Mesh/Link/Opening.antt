-- ===== src/Mesh/Link/Opening.antt =====
-- link.rs: `run_handshake`, the driver of the handshake over the bytes that the peer sends.
pub mod Terms
use beam_socket.Prelude.{
  ℕ, zero, suc, ◌+◌, Bool, true, false, Option, none, some, List, [], ◌∷◌, ◌++◌, length,
}
use beam_socket.Prelude.Bytes.{Bytes}
use beam_socket.Prelude.Results.{Result, ok, err}
use beam_socket.Prelude.Words.{add64}
use beam_socket.Mesh.Config.{LinkConfig}
use beam_socket.Mesh.Frame.{Frame, FrameKind, from_u8}
use beam_socket.Mesh.Handshake.{
  Role, Negotiated, RefuseReason, auth_failed, HandshakeStep, continue, established, refused,
  panicked, Handshake, new, start,
}
use beam_socket.Mesh.Handshake.Machine.{on_frame}
use beam_socket.Mesh.Link.{LinkCounters}
use beam_socket.Mesh.Link.Reader.{
  LinkError, link_refused, protocol, unknown_kind_in_handshake, eof, read_raw_frame,
}

-- How the driver ends; `crashed` is a panic of the machine.
pub data Outcome : Type 0 where
  opened : Negotiated → Outcome
  failed : LinkError → Outcome
  crashed : Outcome

pub record Opening : Type 0 where
  pub sent : List Frame
  pub outcome : Outcome
  pub auth_failures : ℕ

abbrev pub ends : Outcome → Opening
ends outcome = record { sent = []; outcome = outcome; auth_failures = 0 }

abbrev pub sending : List Frame → Opening → Opening
sending frames o = record o { sent = frames ++ o.sent }

-- The `match` on a step of the machine, but for a step that goes on.
abbrev pub ends_by : RefuseReason → Opening
ends_by auth_failed = record {
  sent = [];
  outcome = failed (link_refused auth_failed);
  auth_failures = 1;
}
ends_by reason = ends (failed (link_refused reason))

module _ (hmac : Bytes → Bytes → Bytes) (nonce : Bytes) where
  -- `rest` is how the loop goes on.
  unfoldable pub after_step : (Handshake → Opening) → Handshake × HandshakeStep → Opening
  after_step rest (hs, continue frames) = sending frames (rest hs)
  after_step rest (hs, established frames n) = sending frames (ends (opened n))
  after_step rest (hs, refused reason) = ends_by reason
  after_step rest (hs, panicked) = ends crashed

  -- The loop, with fuel for the frames of `stream`, which is all that the peer will have sent.
  unfoldable pub open_loop : ℕ → Handshake → ℕ → Bytes → Opening
  unfolding read_raw_frame after_step on_frame
  open_loop zero hs max_frame stream = ends (failed eof)
  open_loop (suc fuel) hs max_frame stream = elim (read_raw_frame max_frame stream) [
    | err e ↦ ends (failed e)
    | ok ((kind_byte, flags, body), rest) ↦ elim (from_u8 kind_byte) [
      | none ↦ ends (failed (protocol unknown_kind_in_handshake))
      | some kind ↦
          after_step (λ hs'. open_loop fuel hs' max_frame rest)
            (on_frame hmac hs (record { kind = kind; flags = flags; body = body }) nonce)
    ]
  ]

  -- `fresh` are the random bytes of the HELLO, `nonce` those of a responder's challenge.
  unfoldable pub run_handshake : Role → LinkConfig → Bytes → Bytes → Opening
  unfolding open_loop start new
  run_handshake role cfg fresh stream =
      let (hs, opening) = start (new role cfg) fresh in
      sending (opening ∷ []) (open_loop (suc (length stream)) hs cfg.max_frame stream)
