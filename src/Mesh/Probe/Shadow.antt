-- ===== src/Mesh/Probe/Shadow.antt =====
-- probe.rs: what a relayed probe does to the relaying node's own.
use beam_socket.Prelude.{
  ℕ, ◌≤◌, ◌≡◌, ◌∙◌, refl, sym, ap, true, false, not, none, some, List, [], ◌∷◌, arith, ◌==◌, ==→eq,
  Bool-cases, inl, inr,
}
use beam_socket.Prelude.Maps.{lookup}
use beam_socket.Prelude.Keys.{nat_key, contains}
use beam_socket.Mesh.Addr.{SocketAddr}
use beam_socket.Mesh.Probe.{Header, ProbePacket, ping, ping_req, header, stamp}
use beam_socket.Mesh.Probe.Plane.{
  ProbePlane, stamp_leb, accept_stamp, handle, dispatch, is_originated,
}
use beam_socket.Mesh.Probe.Replay.{
  above, accept_stamp_lem, handle-replay, dispatch_denied, dispatch_guarded, dispatch-last,
  stamp_leb_trans,
}
use beam_socket.Mesh.Probe.Cycle.{arrivals, dispatch-cases}

-- The last stamp of this sender is this one or above it.
abbrev pub HasReached : ℕ → ℕ × ℕ → ProbePlane → Type 0
HasReached who st pl =
    (last : ℕ × ℕ) × (lookup who pl.replay ≡ some last) × (stamp_leb st last ≡ true)

raised :
    (low st last : ℕ × ℕ)
    → stamp_leb low last ≡ true
    → not (stamp_leb st last) ≡ true
    → stamp_leb low st ≡ true
raised (i, s) (inc, seq) (li, ls) e h = ground arith

accept_stamp-HasReached :
    (who from : ℕ) (low st : ℕ × ℕ) (pl : ProbePlane)
    → HasReached who low pl
    → HasReached who low (record pl { replay = (accept_stamp from st pl.replay).0 })
accept_stamp-HasReached who from low st pl (last, at, above_low) =
    let (fresh, kept) = accept_stamp_lem from who st pl.replay in
    elim (Bool-cases (accept_stamp from st pl.replay).1) [
      | inr e ↦ (last, kept ∙ rw e at, above_low)
      | inl e ↦ elim (Bool-cases (from == who)) [
        | inr d ↦ (last, kept ∙ rw (e, d) at, above_low)
        | inl d ↦
            let held : lookup from pl.replay ≡ some last =
              ap (λ k. lookup k pl.replay) (==→eq from who d) ∙ at in
            let over : not (stamp_leb st last) ≡ true =
              ap (λ o. above o st) (sym held) ∙ sym fresh ∙ e in
            (st, kept ∙ rw (e, d) refl, raised low st last above_low over)
      ]
    ]

handle-HasReached :
    (who : ℕ) (low : ℕ × ℕ) (p : ProbePacket) (src : SocketAddr) (now : ℕ) (pl : ProbePlane)
    → HasReached who low pl
    → HasReached who low (handle p src now pl).0
handle-HasReached who low p src now pl (last, at, k) =
    (last, ap (lookup who) (handle-replay p src now pl).0 ∙ at, k)

-- No packet takes a sender's last stamp back, and none changes who is denied.
dispatch-HasReached :
    (who : ℕ) (low : ℕ × ℕ) (p : ProbePacket) (src : SocketAddr) (now : ℕ) (pl : ProbePlane)
    → HasReached who low pl
    → HasReached who low (dispatch p src now pl).0 × ((dispatch p src now pl).0.deny ≡ pl.deny)
unfolding dispatch
dispatch-HasReached who low p src now pl k = elim (Bool-cases (contains (header p).from pl.deny)) [
  | inl d ↦ rw (dispatch_denied p src now pl d) (k, refl)
  | inr d ↦ elim (Bool-cases (is_originated p)) [
    | inr o ↦
        rw (dispatch, d, o)
          (handle-HasReached who low p src now pl k, (handle-replay p src now pl).1)
    | inl o ↦
        let (next, fresh) = accept_stamp (header p).from (stamp p) pl.replay in
        let noted : ProbePlane = record pl { replay = next } in
        elim (Bool-cases (accept_stamp (header p).from (stamp p) pl.replay).1) [
          | inr e ↦ rw (dispatch_guarded p src now pl o d, e) (k, refl)
          | inl e ↦
              rw (dispatch_guarded p src now pl o d, e)
                (
                  handle-HasReached who low p src now noted
                      (accept_stamp-HasReached who (header p).from low (stamp p) pl k),
                  (handle-replay p src now noted).1,
                )
        ]
  ]
]

arrivals-HasReached :
    (ps : List (ProbePacket × SocketAddr × ℕ)) (who : ℕ) (low : ℕ × ℕ) (pl : ProbePlane)
    → HasReached who low pl
    → HasReached who low (arrivals ps pl) × ((arrivals ps pl).deny ≡ pl.deny)
unfolding arrivals
arrivals-HasReached [] who low pl k = (k, refl)
arrivals-HasReached ((p, src, now) ∷ ps) who low pl k =
    let (there, deny) = dispatch-HasReached who low p src now pl k in
    let rest = arrivals-HasReached ps who low (dispatch p src now pl).0 there in
    (rest.0, rest.1 ∙ deny)

arrivals-deny :
    (ps : List (ProbePacket × SocketAddr × ℕ)) (pl : ProbePlane) → (arrivals ps pl).deny ≡ pl.deny
unfolding arrivals
arrivals-deny [] pl = refl
arrivals-deny ((p, src, now) ∷ ps) pl =
    arrivals-deny ps (dispatch p src now pl).0
    ∙ dispatch-cases (λ q. q.deny ≡ pl.deny) p src now pl refl refl
        (λ r. (handle-replay p src now (record pl { replay = r })).1)

-- A node that relays a probe sends it under its own id and incarnation, and under the sequence number of
-- the node that asked. Whatever the target then does with it, and whatever packets reach the target after it,
-- the target does not answer a probe of the relaying node's own under that incarnation with that sequence
-- number or a lower one: it drops it.
pub relayed-shadows :
    (relay target : ProbePlane) (asked : Header)
    (from_addr target_addr asker src there : SocketAddr) (ps : List (ProbePacket × SocketAddr × ℕ))
    → (target_id seq now later : ℕ) → seq ≤ asked.seq
    → let m = relay.membership in
      let relayed =
        ping (record { from = m.self_id; seq = asked.seq; inc = m.self_inc }) (some from_addr) in
      let own = ping (record { from = m.self_id; seq = seq; inc = m.self_inc }) none in
      ((handle (ping_req asked from_addr target_id target_addr) asker now relay).1
        ≡ (target_addr, relayed) ∷ [])
      × ((dispatch own there later (arrivals ((relayed, src, now) ∷ ps) target)).1 ≡ [])
unfolding handle arrivals
relayed-shadows relay target asked fa ta asker src there ps t seq now later low =
    let m = relay.membership in
    let relayed = ping (record { from = m.self_id; seq = asked.seq; inc = m.self_inc }) (some fa) in
    let own = ping (record { from = m.self_id; seq = seq; inc = m.self_inc }) none in
    let first = (dispatch relayed src now target).0 in
    let after = arrivals ps first in
    (
      refl,
      elim (Bool-cases (contains m.self_id target.deny)) [
        | inl e ↦
            let shut : contains m.self_id after.deny ≡ true =
              ap (contains m.self_id) (arrivals-deny ((relayed, src, now) ∷ ps) target) ∙ e in
            rw (dispatch_denied own there later after shut) refl
        | inr e ↦
            let (reached, deny) = dispatch-last relayed src now target refl e in
            let ((last, at, below), same) =
              arrivals-HasReached ps m.self_id (m.self_inc, asked.seq) first reached in
            let allowed : contains m.self_id after.deny ≡ false =
              ap (contains m.self_id) (same ∙ deny) ∙ e in
            let stale : (accept_stamp m.self_id (m.self_inc, seq) after.replay).1 ≡ false =
              (accept_stamp_lem m.self_id m.self_id (m.self_inc, seq) after.replay).0
              ∙ ap (λ o. above o (m.self_inc, seq)) at
              ∙ ap not (stamp_leb_trans m.self_inc asked.seq seq last low below) in
            rw (dispatch_guarded own there later after refl allowed, stale) refl
      ],
    )
