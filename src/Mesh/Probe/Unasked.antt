-- ===== src/Mesh/Probe/Unasked.antt =====
-- probe.rs: an acknowledgement counts only where the sender was asked.
use beam_socket.Prelude.Maps.{remove, lookup, lookup-remove}
use beam_socket.Prelude.{
  Option, ℕ, ◌≡◌, ◌≢◌, ◌∙◌, refl, sym, ap, Bool, true, false, ◌||◌, none, some, List, [], ◌∷◌,
  arith, ◌==◌, ==→eq, Bool-cases, inl, inr, ==_refl,
}
use beam_socket.Mesh.Probe.{Option, ProbePacket, ping, ack, ping_req}
use beam_socket.Prelude.Keys.{nat_key}
use beam_socket.Mesh.Addr.{SocketAddr}
use beam_socket.Mesh.Swim.Vouching.{note_direct_ack-other}
use beam_socket.Mesh.Probe.Plane.{ProbePlane, handle, dispatch, is_pending_of}
use beam_socket.Mesh.Probe.Cycle.{arrivals, dispatch-cases}

-- No probe of this node is pending.
abbrev pub IsUnasked : ℕ → ProbePlane → Type 0
IsUnasked who pl = (seq : ℕ) → lookup seq pl.pending ≢ some who

-- The packet, or one of them, is a probe by this node.
unfoldable pub probes : ℕ → ProbePacket → Bool
probes who (ping h r) = h.from == who
probes who (ack h) = false
probes who (ping_req h f t a) = false

unfoldable pub has_probe : ℕ → List (ProbePacket × SocketAddr × ℕ) → Bool
unfolding probes
has_probe who [] = false
has_probe who ((p, src, now) ∷ ps) = probes who p || has_probe who ps

module _ (who : ℕ) where
  abbrev Keeps : ProbePlane → ProbePlane → Type 0
  Keeps pl q =
      IsUnasked who q × (lookup who q.membership.members ≡ lookup who pl.membership.members)

  differ : (a : ℕ) → (a == who) ≡ false → a ≢ who
  differ a e is = cc (sym (ap (a ==◌) is) ∙ ==_refl a, e)

  removed-IsUnasked :
      (seq : ℕ) (pl : ProbePlane)
      → IsUnasked who pl
      → IsUnasked who (record pl { pending = remove seq pl.pending })
  removed-IsUnasked seq pl u other is =
      u other (ground (arith, lookup-remove seq other pl.pending, is))

  handle-Keeps :
      (p : ProbePacket) (src : SocketAddr) (now : ℕ) (pl : ProbePlane)
      → probes who p ≡ false
      → IsUnasked who pl
      → Keeps pl (handle p src now pl).0
  unfolding handle probes
  handle-Keeps (ping h r) src now pl e u =
      (u, note_direct_ack-other pl.membership h.from pl.params.retransmit now who (differ h.from e))
  handle-Keeps (ack h) src now pl e u =
      let unasked = removed-IsUnasked h.seq pl u in
      elim (Bool-cases (is_pending_of (lookup h.seq pl.pending) h.from)) [
        | inr d ↦ rw d (unasked, refl)
        | inl d ↦ rw d (
          unasked,
          note_direct_ack-other pl.membership h.from pl.params.retransmit now who
              (λ is. u h.seq (asked (lookup h.seq pl.pending) h.from d ∙ ap (λ k. some k) is)),
        )
      ]
    where
      asked : (o : Option ℕ) (from : ℕ) → is_pending_of o from ≡ true → o ≡ some from
      asked none from d = absurd (cc d)
      asked (some id) from d = ap (λ k. some k) (==→eq id from d)
  handle-Keeps (ping_req h f t a) src now pl e u = (u, refl)

  arrivals-Keeps :
      (ps : List (ProbePacket × SocketAddr × ℕ)) (pl : ProbePlane)
      → has_probe who ps ≡ false
      → IsUnasked who pl
      → Keeps pl (arrivals ps pl)
  unfolding arrivals has_probe
  arrivals-Keeps [] pl e u = (u, refl)
  arrivals-Keeps ((p, src, now) ∷ ps) pl e u =
      let (unasked, same) =
        dispatch-cases (Keeps pl) p src now pl (u, refl) (u, refl)
          (λ r. handle-Keeps p src now (record pl { replay = r }) (ground (arith, e)) u) in
      let (last, rest) = arrivals-Keeps ps (dispatch p src now pl).0 (ground (arith, e)) unasked in
      (last, rest ∙ same)

-- Where no probe of a node is pending and no probe by it arrives, its entry in the table is what it was,
-- whatever other packets arrive: no acknowledgement that was not asked for, whosever and under whatever
-- number, revives a suspect.
pub unasked-members :
    (who : ℕ) (ps : List (ProbePacket × SocketAddr × ℕ)) (pl : ProbePlane)
    → ((seq : ℕ) → lookup seq pl.pending ≢ some who)
    → has_probe who ps ≡ false
    → lookup who (arrivals ps pl).membership.members ≡ lookup who pl.membership.members
unasked-members who ps pl u e = (arrivals-Keeps who ps pl e u).1
