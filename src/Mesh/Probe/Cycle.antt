-- ===== src/Mesh/Probe/Cycle.antt =====
-- probe.rs: the probe cycle and the datagrams that arrive between its phases.
use beam_socket.Prelude.{ℕ, ◌≡◌, refl, false, none, List, [], ◌∷◌, arith, Bool-cases, inl, inr}
use beam_socket.Prelude.Words.{add64}
use beam_socket.Prelude.Maps.{Map, lookup, lookup-remove}
use beam_socket.Prelude.Keys.{nat_key, contains}
use beam_socket.Mesh.Addr.{SocketAddr}
use beam_socket.Mesh.Probe.{Header, ProbePacket, ping, ack, ping_req, header, stamp}
use beam_socket.Mesh.Probe.Plane.{
  ProbePlane, accept_stamp, handle, dispatch, is_originated, escalate, conclude,
}
use beam_socket.Mesh.Probe.Replay.{dispatch_guarded}

-- What a packet does to the parts of the plane: nothing, but for the counters, or what `handle` does after
-- the guard.
pub dispatch-cases :
    (P : ProbePlane → Type 0) (p : ProbePacket) (src : SocketAddr) (now : ℕ) (pl : ProbePlane)
    → P pl
    → P (record pl { counters = record (pl.counters) { replayed = add64 pl.counters.replayed 1 } })
    → ((r : Map (ℕ × ℕ)) → P (handle p src now (record pl { replay = r })).0)
    → P (dispatch p src now pl).0
unfolding dispatch
dispatch-cases P p src now pl denied stale handled =
    elim (Bool-cases (contains (header p).from pl.deny)) [
      | inl d ↦ rw (dispatch, d) denied
      | inr d ↦ elim (Bool-cases (is_originated p)) [
        | inl o ↦ elim (Bool-cases (accept_stamp (header p).from (stamp p) pl.replay).1) [
          | inl e ↦
              rw (dispatch_guarded p src now pl o d, e)
                (handled (accept_stamp (header p).from (stamp p) pl.replay).0)
          | inr e ↦ rw (dispatch_guarded p src now pl o d, e) stale
        ]
        | inr o ↦ rw (dispatch, d, o) (handled pl.replay)
      ]
    ]

-- Packets that arrive one after the other.
unfoldable pub arrivals : List (ProbePacket × SocketAddr × ℕ) → ProbePlane → ProbePlane
arrivals [] pl = pl
arrivals ((p, src, now) ∷ ps) pl = arrivals ps (dispatch p src now pl).0

handle-pending :
    (p : ProbePacket) (src : SocketAddr) (now seq : ℕ) (pl : ProbePlane)
    → lookup seq pl.pending ≡ none
    → lookup seq (handle p src now pl).0.pending ≡ none
unfolding handle
handle-pending (ping h r) src now seq pl n = n
handle-pending (ack h) src now seq pl n = ground (arith, n, lookup-remove h.seq seq pl.pending)
handle-pending (ping_req h f t a) src now seq pl n = n

arrivals-pending :
    (ps : List (ProbePacket × SocketAddr × ℕ)) (seq : ℕ) (pl : ProbePlane)
    → lookup seq pl.pending ≡ none
    → lookup seq (arrivals ps pl).pending ≡ none
unfolding arrivals
arrivals-pending [] seq pl n = n
arrivals-pending ((p, src, now) ∷ ps) seq pl n = arrivals-pending ps seq (dispatch p src now pl).0 (
    dispatch-cases (λ q. lookup seq q.pending ≡ none) p src now pl n n
      (λ r. handle-pending p src now seq (record pl { replay = r }) n))

dispatch_ack :
    (h : Header) (src : SocketAddr) (now : ℕ) (pl : ProbePlane)
    → contains h.from pl.deny ≡ false
    → lookup h.seq (dispatch (ack h) src now pl).0.pending ≡ none
unfolding dispatch handle
dispatch_ack h src now pl d =
    rw (dispatch, d) (ground (arith, lookup-remove h.seq h.seq pl.pending))

-- Once the acknowledgement of a probe has arrived from a node that is not denied, and whatever packets
-- arrive after it, the cycle neither asks others about the target nor suspects it for that probe.
pub acknowledged :
    (h : Header) (src : SocketAddr) (now later target : ℕ) (addr : SocketAddr) (pl : ProbePlane)
    → (ps : List (ProbePacket × SocketAddr × ℕ)) → contains h.from pl.deny ≡ false
    → let after = arrivals ((ack h, src, now) ∷ ps) pl in
      (escalate (h.seq, target, addr) after ≡ (after, none))
      × ((conclude (h.seq, target, addr) later after).membership ≡ after.membership)
unfolding arrivals escalate conclude
acknowledged h src now later target addr pl ps d =
    let first : lookup h.seq (dispatch (ack h) src now pl).0.pending ≡ none =
      dispatch_ack h src now pl d in
    let gone = arrivals-pending ps h.seq (dispatch (ack h) src now pl).0 first in
    (rw (escalate, gone) refl, rw (conclude, gone) refl)
