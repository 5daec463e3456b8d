-- ===== src/Mesh/Probe/Unanswered.antt =====
-- probe.rs: the cycle of a probe that is not acknowledged.
use beam_socket.Prelude.{ℕ, ◌≡◌, Bool, false, ◌||◌, Option, none, some, List, [], ◌∷◌, ◌==◌}
use beam_socket.Prelude.Maps.{lookup}
use beam_socket.Prelude.Keys.{nat_key}
use beam_socket.Mesh.Addr.{SocketAddr}
use beam_socket.Mesh.Probe.{ProbePacket, ping, ack, ping_req}
use beam_socket.Mesh.Probe.Plane.{ProbePlane, Probe, Send}

-- The packet, or one of them, is an acknowledgement of the probe with this number.
unfoldable pub answers : ℕ → ProbePacket → Bool
answers seq (ping h r) = false
answers seq (ack h) = h.seq == seq
answers seq (ping_req h f t a) = false

unfoldable pub answered : ℕ → List (ProbePacket × SocketAddr × ℕ) → Bool
unfolding answers
answered seq [] = false
answered seq ((p, src, now) ∷ ps) = answers seq p || answered seq ps

abbrev IsPending : ℕ → ℕ → ProbePlane → Type 0
IsPending seq target pl = lookup seq pl.pending ≡ some target

number_of : Option (Probe × Send) → ℕ
number_of none = 0
number_of (some ((seq, target, addr), sent)) = seq

target_of : Option (Probe × Send) → ℕ
target_of none = 0
target_of (some ((seq, target, addr), sent)) = target
