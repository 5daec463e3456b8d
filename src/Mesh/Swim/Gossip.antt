-- ===== src/Mesh/Swim/Gossip.antt =====
-- swim.rs: the bounded list of updates that are still to be passed on.
use beam_socket.Prelude.{ℕ, ◌-◌, true, false, List, [], ◌∷◌, ◌++◌, ltb, ◌==◌, if◌then◌else◌, length}
use beam_socket.Mesh.Swim.Types.{Update, Membership, gossip_cap, self_update}

-- `self.gossip.retain(|(g, _)| g.id != u.id)`
unfoldable pub without : ℕ → List (Update × ℕ) → List (Update × ℕ)
without id [] = []
without id ((u, n) ∷ gs) = if u.id == id then without id gs else (u, n) ∷ without id gs

-- `while self.gossip.len() > GOSSIP_CAP { self.gossip.pop_front(); }`
unfoldable pub trim : List (Update × ℕ) → List (Update × ℕ)
trim [] = []
trim (g ∷ gs) = let rest = trim gs in if ltb gossip_cap (length (g ∷ gs)) then rest else g ∷ gs

unfoldable pub enqueue : Membership → Update → ℕ → Membership
enqueue m u retransmit = record m {
  gossip = trim (without u.id m.gossip ++ ((u, retransmit) ∷ []));
}

-- The loop of `take_piggyback`: the updates sent so far, and the entries that stay.
unfoldable pub piggyback_loop :
    ℕ → List (Update × ℕ) → List Update → List (Update × ℕ) → List Update × List (Update × ℕ)
piggyback_loop max_len [] out still = (out, still)
piggyback_loop max_len ((u, n) ∷ gs) out still = elim (ltb (length out) max_len) [
  | true ↦ elim (ltb 1 n) [
    | true ↦ piggyback_loop max_len gs (out ++ (u ∷ [])) (still ++ ((u, n - 1) ∷ []))
    | false ↦ piggyback_loop max_len gs (out ++ (u ∷ [])) still
  ]
  | false ↦ piggyback_loop max_len gs out (still ++ ((u, n) ∷ []))
]

unfoldable pub take_piggyback : Membership → ℕ → Membership × List Update
take_piggyback m max_len =
    let (out, still) = piggyback_loop max_len m.gossip (self_update m ∷ []) [] in
    (record m { gossip = still }, out)
