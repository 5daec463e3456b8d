-- ===== src/Mesh/Swim/History.antt =====
-- swim.rs: every sequence of calls on the table of one node, from `new` on.
use beam_socket.Prelude.{
  ℕ, zero, suc, ◌-◌, ◌≡◌, ◌≤◌, refl, List, [], ◌∷◌, ◌++◌, arith, Bool-cases, leb, length, take,
  drop, inl, inr, Option, none, some,
}
use beam_socket.Mesh.Addr.{SocketAddr}
use beam_socket.Mesh.Swim.Types.{Update, Membership, new}
use beam_socket.Mesh.Swim.Gossip.{take_piggyback}
use beam_socket.Mesh.Swim.Budget.{aged, take_piggyback_lem}
use beam_socket.Mesh.Swim.Probing.{
  live_ids, get_elem?, retain, next_round, next_probe_target, indirect_helpers,
}
use beam_socket.Mesh.Swim.{merge, note_direct_ack, mark_suspect, overdue, expire_suspects}
use beam_socket.Mesh.Swim.Invariant.{
  Unheard, OneEach, IsValid, merge-IsValid, note_direct_ack-IsValid, mark_suspect-IsValid,
  evict-IsValid,
}

piggyback-Unheard :
    (id k : ℕ) (gs : List (Update × ℕ)) → Unheard id gs → Unheard id (aged (take k gs) ++ drop k gs)
unfolding aged
piggyback-Unheard id zero gs h = h
piggyback-Unheard id (suc k) [] h = tt
piggyback-Unheard id (suc k) ((u, n) ∷ gs) h = ground (arith, piggyback-Unheard id k gs h.1)

piggyback-OneEach :
    (k : ℕ) (gs : List (Update × ℕ))
    → OneEach gs
    → OneEach (aged (take k gs) ++ drop k gs) × (length (aged (take k gs) ++ drop k gs) ≤ length gs)
unfolding aged
piggyback-OneEach zero gs h = (h, omega arith)
piggyback-OneEach (suc k) [] h = (tt, omega arith)
piggyback-OneEach (suc k) ((u, n) ∷ gs) h =
    ground (arith, piggyback-OneEach k gs h.1, piggyback-Unheard u.id k gs h.0)

pub take_piggyback-IsValid :
    (m : Membership) (max_len : ℕ) → IsValid m → IsValid (take_piggyback m max_len).0
take_piggyback-IsValid m max_len v =
    let kept = piggyback-OneEach (max_len - 1) m.gossip v.one_each in
    rw (take_piggyback_lem m max_len) (record {
      absent = v.absent;
      keys = v.keys;
      one_each = kept.0;
      bounded = omega (arith, kept.1, v.bounded);
    })

next_round-IsValid : (m : Membership) (live : List ℕ) → IsValid m → IsValid (next_round m live)
unfolding next_round
next_round-IsValid m live v =
    elim (Bool-cases (leb (length (retain live m.probe_order)) m.probe_idx)) [
      | inl e ↦
          rw e (record {
            absent = v.absent;
            keys = v.keys;
            one_each = v.one_each;
            bounded = v.bounded;
          })
      | inr e ↦
          rw e (record {
            absent = v.absent;
            keys = v.keys;
            one_each = v.one_each;
            bounded = v.bounded;
          })
    ]

pub next_probe_target-IsValid : (m : Membership) → IsValid m → IsValid (next_probe_target m).0
unfolding next_probe_target
next_probe_target-IsValid m v = on (live_ids m.members) refl
  where
    picked :
        (id : ℕ) (ids : List ℕ) (o : Option ℕ)
        → live_ids m.members ≡ id ∷ ids
        → get_elem? (next_round m (id ∷ ids)).probe_order (next_round m (id ∷ ids)).probe_idx ≡ o
        → IsValid (next_round m (id ∷ ids))
        → IsValid (next_probe_target m).0
    picked id ids none e k w = rw (e, k, next_probe_target) w
    picked id ids (some x) e k w =
        rw (e, k, next_probe_target)
          (record { absent = w.absent; keys = w.keys; one_each = w.one_each; bounded = w.bounded })

    on : (ls : List ℕ) → live_ids m.members ≡ ls → IsValid (next_probe_target m).0
    on [] e = rw (e, next_probe_target) v
    on (id ∷ ids) e =
        let m' = next_round m (id ∷ ids) in
        picked id ids (get_elem? m'.probe_order m'.probe_idx) e refl
          (next_round-IsValid m (id ∷ ids) v)

-- The calls on the table; each has the retransmission count and the time at which it was made.
pub data Call : Type 0 where
  merges : Update → Call
  acks suspects expires piggybacks helps : ℕ → Call
  probes : Call

unfoldable pub call : Call × ℕ × ℕ → Membership → Membership
call (merges u, r, now) m = (merge m u r now).0
call (acks from, r, now) m = (note_direct_ack m from r now).0
call (suspects target, r, now) m = (mark_suspect m target r now).0
call (expires timeout, r, now) m = (expire_suspects m timeout r now).0
call (piggybacks max_len, r, now) m = (take_piggyback m max_len).0
call (helps exclude, r, now) m = (indirect_helpers m exclude r).0
call (probes, r, now) m = (next_probe_target m).0

unfoldable pub calls : List (Call × ℕ × ℕ) → Membership → Membership
calls [] m = m
calls (c ∷ cs) m = calls cs (call c m)

call-IsValid : (c : Call × ℕ × ℕ) (m : Membership) → IsValid m → IsValid (call c m)
unfolding call expire_suspects indirect_helpers
call-IsValid (merges u, r, now) m v = merge-IsValid m u r now v
call-IsValid (acks from, r, now) m v = note_direct_ack-IsValid m from r now v
call-IsValid (suspects target, r, now) m v = mark_suspect-IsValid m target r now v
call-IsValid (expires timeout, r, now) m v = evict-IsValid m (overdue timeout now m.members) r now v
call-IsValid (piggybacks max_len, r, now) m v = take_piggyback-IsValid m max_len v
call-IsValid (helps exclude, r, now) m v = record {
  absent = v.absent;
  keys = v.keys;
  one_each = v.one_each;
  bounded = v.bounded;
}
call-IsValid (probes, r, now) m v = next_probe_target-IsValid m v

calls-IsValid : (cs : List (Call × ℕ × ℕ)) (m : Membership) → IsValid m → IsValid (calls cs m)
unfolding calls
calls-IsValid [] m v = v
calls-IsValid (c ∷ cs) m v = calls-IsValid cs (call c m) (call-IsValid c m v)

-- From a new table, after any sequence of merges, acks, suspicions, expiries, piggybacks, choices of
-- helpers and probe rounds: the node is not in its own table, no id stands there twice, and the gossip
-- holds at most one fact for each node and at most 256 in all.
pub calls-new-IsValid :
    (cs : List (Call × ℕ × ℕ)) (self_id : ℕ) (self_addr : SocketAddr) (seed : ℕ)
    → IsValid (calls cs (new self_id self_addr seed))
unfolding new
calls-new-IsValid cs self_id self_addr seed =
    calls-IsValid cs (new self_id self_addr seed)
      (record { absent = tt; keys = tt; one_each = tt; bounded = omega arith })
