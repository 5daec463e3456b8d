-- ===== src/Mesh/Probe/Tests.antt =====
-- Concrete runs of the probe packets and the probe plane.
use beam_socket.Mesh.Swim.Types.{suspect, Membership, alive}
use beam_socket.Prelude.{ℕ, ◌+◌, ◌≡◌, ◌≢◌, ◌⊎◌, refl, none, some, List, [], ◌∷◌, length, arith}
use beam_socket.Prelude.Bytes.{Bytes, le_bytes, of_le_bytes, length-le_bytes, le_bytes-IsByte}
use beam_socket.Prelude.Maps.{lookup}
use beam_socket.Prelude.Keys.{contains}
use beam_socket.Mesh.Addr.{SocketAddr, v4}
use beam_socket.Mesh.Swim.Types
use beam_socket.Mesh.Probe.{Header, ProbePacket, ping, ack, ping_req, with_tag}
use beam_socket.Mesh.Probe.Packets.{IsMac}
use beam_socket.Mesh.Probe.Plane.{ProbePlane, start, handle, dispatch, receive, escalate, conclude}
use beam_socket.Mesh.Probe.Replay.{
  accepted, stamps_of, records, Rises, accepted-rising, receive-authentic,
}
use beam_socket.Mesh.Probe.Cycle.{arrivals, acknowledged}
use beam_socket.Mesh.Probe.Unasked.{has_probe, unasked-members}
use beam_socket.Mesh.Probe.Shadow.{relayed-shadows}

-- A function that returns 32 bytes.
abbrev mac : Bytes → Bytes → Bytes
mac secret body = le_bytes 32 (of_le_bytes secret + length body)

mac-IsMac : IsMac mac
mac-IsMac secret body = (
  length-le_bytes 32 (of_le_bytes secret + length body),
  le_bytes-IsByte 32 (of_le_bytes secret + length body),
)

abbrev secret : Bytes
secret = 5 ∷ 6 ∷ []

abbrev addr : SocketAddr
addr = record { ip = v4 (10 ∷ 0 ∷ 0 ∷ 1 ∷ []); port = 7000 }

abbrev head : ℕ → ℕ → Header
head from seq = record { from = from; seq = seq; inc = 1 }

abbrev member : ℕ → Membership
member id = Types.new id addr 42

abbrev plane : ℕ → ProbePlane
plane id =
    start (member id) (record { suspicion_timeout = 50; indirect_k = 2; retransmit = 6 }) secret []

receive-authentic_example :
    ((body : Bytes) × (1 ∷ 2 ∷ [] ≡ with_tag mac (plane 1).secret body))
    ⊎ (((receive mac (1 ∷ 2 ∷ []) addr 100 (plane 1)).1 ≡ [])
        × ((receive mac (1 ∷ 2 ∷ []) addr 100 (plane 1)).0 ≡ record (plane 1) {
          counters = (receive mac (1 ∷ 2 ∷ []) addr 100 (plane 1)).0.counters;
        }))
receive-authentic_example =
    receive-authentic mac (1 ∷ 2 ∷ []) addr 100 (plane 1) mac-IsMac (omega arith, (omega arith, tt))

-- The second packet of node 2 arrives twice, and its first after it.
abbrev stamps : List (ℕ × (ℕ × ℕ))
stamps = (2, (1, 7)) ∷ (3, (1, 1)) ∷ (2, (1, 7)) ∷ (2, (1, 6)) ∷ (2, (2, 1)) ∷ []

accepted-rising_example :
    let through = stamps_of 2 (accepted stamps []) in
    (through ≡ records (lookup 2 []) (stamps_of 2 stamps)) × Rises (lookup 2 []) through
accepted-rising_example = accepted-rising 2 stamps []

-- A probe of node 4 comes between.
abbrev between : List (ProbePacket × SocketAddr × ℕ)
between = (ping (head 4 9) none, addr, 101) ∷ []

relayed-shadows_example :
    let m = (plane 2).membership in
    let relayed = ping (record { from = m.self_id; seq = 42; inc = m.self_inc }) (some addr) in
    let own = ping (record { from = m.self_id; seq = 7; inc = m.self_inc }) none in
    ((handle (ping_req (head 1 42) addr 3 addr) addr 101 (plane 2)).1 ≡ (addr, relayed) ∷ [])
    × ((dispatch own addr 102 (arrivals ((relayed, addr, 101) ∷ between) (plane 3))).1 ≡ [])
relayed-shadows_example =
    relayed-shadows (plane 2) (plane 3) (head 1 42) addr addr addr addr addr between 3 7 101 102
      (omega arith)

acknowledged_example :
    (escalate (42, 3, addr) (arrivals ((ack (head 3 42), addr, 100) ∷ []) (plane 1))
      ≡ (arrivals ((ack (head 3 42), addr, 100) ∷ []) (plane 1), none))
    × ((conclude
          (42, 3, addr)
          200
          (arrivals ((ack (head 3 42), addr, 100) ∷ []) (plane 1))).membership
        ≡ (arrivals ((ack (head 3 42), addr, 100) ∷ []) (plane 1)).membership)
unfolding start contains
acknowledged_example = acknowledged (head 3 42) addr 100 200 3 addr (plane 1) [] refl

-- Node 1, that knows node 3.
abbrev knowing : ProbePlane
knowing = record (plane 1) {
  membership = record (member 1) {
    members = (3, record { addr = addr; state = alive; inc = 1; since = 90 }) ∷ [];
    probe_order = 3 ∷ [];
  };
}

abbrev other_ack : List (ProbePacket × SocketAddr × ℕ)
other_ack = (ack (head 3 5), addr, 103) ∷ []

-- A probe of node 5 is pending, and node 3 is suspected.
abbrev doubting : ProbePlane
doubting = record (plane 1) {
  membership = record (member 1) {
    members = (3, record { addr = addr; state = suspect; inc = 1; since = 90 }) ∷ [];
  };
  pending = (1, 5) ∷ [];
}

abbrev forged_acks : List (ProbePacket × SocketAddr × ℕ)
forged_acks = (ack (head 3 1), addr, 103) ∷ (ping (head 4 9) none, addr, 104) ∷ []

doubting-unasked : (seq : ℕ) → lookup seq doubting.pending ≢ some 3
unfolding lookup
doubting-unasked seq is = ground (arith, is)

unasked-members_example :
    lookup 3 (arrivals forged_acks doubting).membership.members
    ≡ lookup 3 doubting.membership.members
unfolding has_probe
unasked-members_example = unasked-members 3 forged_acks doubting doubting-unasked refl
