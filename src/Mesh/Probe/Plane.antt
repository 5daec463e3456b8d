-- ===== src/Mesh/Probe/Plane.antt =====
-- probe.rs: what the probe plane does with a datagram, and the phases of its probe cycle between the sleeps.
-- A send is an address and a packet. The clock is an argument.
use beam_socket.Prelude.{
  ℕ, Bool, true, false, ◌&&◌, ◌||◌, Option, none, some, List, [], ◌∷◌, ltb, leb, ◌==◌,
  if◌then◌else◌,
}
use beam_socket.Prelude.Bytes.{Bytes}
use beam_socket.Prelude.Results.{ok, err}
use beam_socket.Prelude.Words.{add64}
use beam_socket.Prelude.Maps.{Map, lookup, insert, remove}
use beam_socket.Prelude.Keys.{nat_key, contains}
use beam_socket.Mesh.Addr.{SocketAddr}
use beam_socket.Mesh.Swim.Types.{Membership}
use beam_socket.Mesh.Swim.{note_direct_ack, mark_suspect, expire_suspects}
use beam_socket.Mesh.Swim.Probing.{next_probe_target, indirect_helpers}
use beam_socket.Mesh.Probe.{
  ProbePacket, ping, ack, ping_req, ProbeError, forged, bad_magic, bad_version, malformed,
  unknown_kind, header, stamp, decode,
}

pub record ProbeCounters : Type 0 where
  pub pings_sent : ℕ
  pub acks_sent : ℕ
  pub indirect_sent : ℕ
  pub forged_seen : ℕ
  pub replayed : ℕ
  pub malformed_seen : ℕ

-- `SwimParams`, as far as the plane reads it.
pub record Params : Type 0 where
  pub suspicion_timeout : ℕ
  pub indirect_k : ℕ
  pub retransmit : ℕ

pub record ProbePlane : Type 0 where
  pub membership : Membership
  pub params : Params
  pub secret : Bytes
  pub deny : List ℕ
  pub seq : ℕ
  pub pending : Map ℕ
  pub replay : Map (ℕ × ℕ)
  pub counters : ProbeCounters

abbrev pub Send : Type 0
Send = SocketAddr × ProbePacket

unfoldable pub start : Membership → Params → Bytes → List ℕ → ProbePlane
start membership params secret deny = record {
  membership = membership;
  params = params;
  secret = secret;
  deny = deny;
  seq = 1;
  pending = [];
  replay = [];
  counters = record {
    pings_sent = 0;
    acks_sent = 0;
    indirect_sent = 0;
    forged_seen = 0;
    replayed = 0;
    malformed_seen = 0;
  };
}

abbrev pub stamp_leb : ℕ × ℕ → ℕ × ℕ → Bool
stamp_leb (inc, seq) (last_inc, last_seq) =
    ltb inc last_inc || (inc == last_inc && leb seq last_seq)

unfoldable pub accept_stamp : ℕ → ℕ × ℕ → Map (ℕ × ℕ) → Map (ℕ × ℕ) × Bool
accept_stamp from st replay = elim (lookup from replay) [
  | none ↦ (insert from st replay, true)
  | some last ↦ if stamp_leb st last then (replay, false) else (insert from st replay, true)
]

abbrev pub is_pending_of : Option ℕ → ℕ → Bool
is_pending_of none from = false
is_pending_of (some id) from = id == from

abbrev pub unwrap_or : Option SocketAddr → SocketAddr → SocketAddr
unwrap_or none a = a
unwrap_or (some a) b = a

-- `m.note_direct_ack(from, rt)` under the lock.
abbrev pub note : ℕ → ℕ → ProbePlane → ProbePlane
note from now pl = record pl {
  membership = (note_direct_ack pl.membership from pl.params.retransmit now).0;
}

unfoldable pub handle : ProbePacket → SocketAddr → ℕ → ProbePlane → ProbePlane × List Send
handle (ping h reply_to) src now pl =
    let noted = note h.from now pl in
    let m = noted.membership in
    let reply = ack (record { from = m.self_id; seq = h.seq; inc = m.self_inc }) in
    (
      record noted {
        counters = record (pl.counters) { acks_sent = add64 pl.counters.acks_sent 1 };
      },
      (unwrap_or reply_to src, reply) ∷ [],
    )
handle (ack h) src now pl =
    let matched = is_pending_of (lookup h.seq pl.pending) h.from in
    let removed : ProbePlane = record pl { pending = remove h.seq pl.pending } in
    (if matched then note h.from now removed else removed, [])
handle (ping_req h from_addr target target_addr) src now pl =
    let m = pl.membership in
    (
      pl,
      (
        target_addr,
        ping (record { from = m.self_id; seq = h.seq; inc = m.self_inc }) (some from_addr),
      )
          ∷ [],
    )

abbrev pub count_error : ProbeError → ProbeCounters → ProbeCounters
count_error forged c = record c { forged_seen = add64 c.forged_seen 1 }
count_error bad_magic c = record c { malformed_seen = add64 c.malformed_seen 1 }
count_error (bad_version v) c = record c { malformed_seen = add64 c.malformed_seen 1 }
count_error malformed c = record c { malformed_seen = add64 c.malformed_seen 1 }
count_error (unknown_kind k) c = record c { malformed_seen = add64 c.malformed_seen 1 }

abbrev pub is_originated : ProbePacket → Bool
is_originated (ping h reply_to) = true
is_originated (ack h) = false
is_originated (ping_req h from_addr target target_addr) = true

-- The body of `recv_loop` behind the decoding.
unfoldable pub dispatch : ProbePacket → SocketAddr → ℕ → ProbePlane → ProbePlane × List Send
unfolding accept_stamp handle
dispatch p src now pl =
    if contains (header p).from pl.deny
    then (pl, [])
    else if is_originated p
    then (let (replay, fresh) = accept_stamp (header p).from (stamp p) pl.replay in
        if fresh then handle p src now (record pl { replay = replay }) else (
          record pl { counters = record (pl.counters) { replayed = add64 pl.counters.replayed 1 } },
          [],
        ))
    else handle p src now pl

-- What the cycle goes on with: the number of the probe, its target and the target's address.
abbrev pub Probe : Type 0
Probe = ℕ × ℕ × SocketAddr

-- The cycle after its first sleep.
unfoldable pub begin_probe : ℕ → ProbePlane → ProbePlane × Option (Probe × Send)
begin_probe now pl =
    let p = pl.params in
    let expired = (expire_suspects pl.membership p.suspicion_timeout p.retransmit now).0 in
    let (m, target) = next_probe_target expired in
    elim target [
      | none ↦ (record pl { membership = m }, none)
      | some (id, addr) ↦ (
        record pl {
          membership = m;
          seq = add64 pl.seq 1;
          pending = insert pl.seq id pl.pending;
          counters = record (pl.counters) { pings_sent = add64 pl.counters.pings_sent 1 };
        },
        some (
          (pl.seq, id, addr),
          (addr, ping (record { from = m.self_id; seq = pl.seq; inc = m.self_inc }) none),
        ),
      )
    ]

unfoldable pub requests :
    Membership → Probe → List (ℕ × SocketAddr) → ProbePlane → ProbePlane × List Send
requests m probe [] pl = (pl, [])
requests m (seq, target, addr) ((id, helper) ∷ helpers) pl =
    let sent : ProbePlane = record pl {
      counters = record (pl.counters) { indirect_sent = add64 pl.counters.indirect_sent 1 };
    } in
    let (last, sends) = requests m (seq, target, addr) helpers sent in
    (
      last,
      (
        helper,
        ping_req (record { from = m.self_id; seq = seq; inc = m.self_inc }) m.self_addr target addr,
      )
          ∷ sends,
    )

-- After the second sleep; `none` is the `continue` of a probe that was acknowledged.
unfoldable pub escalate : Probe → ProbePlane → ProbePlane × Option (List Send)
unfolding requests
escalate (seq, target, addr) pl = elim (lookup seq pl.pending) [
  | none ↦ (pl, none)
  | some id ↦
      (let (m, helpers) = indirect_helpers pl.membership target pl.params.indirect_k in
        let (last, sends) = requests m (seq, target, addr) helpers (record pl { membership = m }) in
        (last, some sends))
]

-- After the third.
unfoldable pub conclude : Probe → ℕ → ProbePlane → ProbePlane
conclude (seq, target, addr) now pl =
    let removed : ProbePlane = record pl { pending = remove seq pl.pending } in
    elim (lookup seq pl.pending) [
      | none ↦ removed
      | some id ↦ record removed {
        membership = (mark_suspect pl.membership target pl.params.retransmit now).0;
      }
    ]

module _ (hmac_sha256 : Bytes → Bytes → Bytes) where
  -- A datagram.
  unfoldable pub receive : Bytes → SocketAddr → ℕ → ProbePlane → ProbePlane × List Send
  unfolding dispatch
  receive buf src now pl = elim (decode hmac_sha256 buf pl.secret) [
    | ok p ↦ dispatch p src now pl
    | err e ↦ (record pl { counters = count_error e pl.counters }, [])
  ]
