-- ===== src/Mesh/Swim/Budget.antt =====
-- swim.rs: `take_piggyback` without its loop, and the accounting of the retransmission budgets.
use mathlib.Core.List.{append-nil, append_assoc}
use beam_socket.Prelude.{
  ℕ, zero, suc, ◌+◌, ◌-◌, ◌≡◌, ◌≤◌, ◌∙◌, sym, ap, List, [], ◌∷◌, ◌++◌, arith, ltb, ◌==◌,
  if◌then◌else◌, length, take, drop, length-append,
}
use beam_socket.Mesh.Swim.Types.{Update, Membership, self_update}
use beam_socket.Mesh.Swim.Gossip.{piggyback_loop, take_piggyback}

abbrev pub facts : List (Update × ℕ) → List Update
facts [] = []
facts ((u, n) ∷ gs) = u ∷ facts gs

-- Entries that were sent once more; those whose budget is used up are gone.
unfoldable pub aged : List (Update × ℕ) → List (Update × ℕ)
aged [] = []
aged ((u, n) ∷ gs) = if ltb 1 n then (u, n - 1) ∷ aged gs else aged gs

piggyback_loop-full :
    (max_len : ℕ) (gs : List (Update × ℕ)) (out : List Update) (still : List (Update × ℕ))
    → max_len ≤ length out
    → piggyback_loop max_len gs out still ≡ (out, still ++ gs)
unfolding piggyback_loop
piggyback_loop-full max_len [] out still h = ap (λ s. (out, s)) (sym (append-nil still))
piggyback_loop-full max_len ((u, n) ∷ gs) out still h = ground (
  arith,
  piggyback_loop-full max_len gs out (still ++ ((u, n) ∷ [])),
  append_assoc still ((u, n) ∷ []) gs,
)

-- With room for `k` more the loop sends the first `k` entries and leaves the others alone.
piggyback_loop_lem :
    (k max_len : ℕ) (gs : List (Update × ℕ)) (out : List Update) (still : List (Update × ℕ))
    → max_len ≡ length out + k
    → piggyback_loop max_len gs out still
      ≡ (out ++ facts (take k gs), still ++ (aged (take k gs) ++ drop k gs))
unfolding piggyback_loop aged
piggyback_loop_lem zero max_len gs out still h =
    piggyback_loop-full max_len gs out still (omega arith)
    ∙ ap (λ o. (o, still ++ gs)) (sym (append-nil out))
piggyback_loop_lem (suc k) max_len [] out still h = rw (append-nil out, append-nil still)
piggyback_loop_lem (suc k) max_len ((u, n) ∷ gs) out still h = ground (
  arith,
  length-append out (u ∷ []),
  piggyback_loop_lem k max_len gs (out ++ (u ∷ [])) (still ++ ((u, n - 1) ∷ [])),
  piggyback_loop_lem k max_len gs (out ++ (u ∷ [])) still,
  append_assoc out (u ∷ []) (facts (take k gs)),
  append_assoc still ((u, n - 1) ∷ []) (aged (take k gs) ++ drop k gs),
)

-- A packet carries the fact that this node is alive, then the oldest gossip up to the packet's
-- limit; what was carried has one transmission less to go, and the rest of the gossip is
-- untouched.
pub take_piggyback_lem :
    (m : Membership) (max_len : ℕ)
    → take_piggyback m max_len ≡ (
      record m { gossip = aged (take (max_len - 1) m.gossip) ++ drop (max_len - 1) m.gossip },
      self_update m ∷ facts (take (max_len - 1) m.gossip),
    )
unfolding take_piggyback aged
take_piggyback_lem m zero =
    ap (λ t. (record m { gossip = t.1 }, t.0))
      (piggyback_loop-full 0 m.gossip (self_update m ∷ []) [] (omega arith))
take_piggyback_lem m (suc k) =
    let e : suc k - 1 ≡ k = omega arith in
    rw e (
      ap (λ t. (record m { gossip = t.1 }, t.0))
        (piggyback_loop_lem k (suc k) m.gossip (self_update m ∷ []) [] (omega arith)))

-- The transmissions that are left for the facts about a node, and those that a frame makes.
abbrev pub budget : ℕ → List (Update × ℕ) → ℕ
budget id [] = 0
budget id ((u, n) ∷ gs) = (if u.id == id then n else 0) + budget id gs

abbrev pub carried : ℕ → List Update → ℕ
carried id [] = 0
carried id (u ∷ us) = (if u.id == id then 1 else 0) + carried id us

abbrev pub HasBudget : List (Update × ℕ) → Type 0
HasBudget [] = Unit
HasBudget ((u, n) ∷ gs) = (1 ≤ n) × HasBudget gs

budget-append :
    (id : ℕ) (gs hs : List (Update × ℕ)) → budget id (gs ++ hs) ≡ budget id gs + budget id hs
budget-append id [] hs = omega arith
budget-append id ((u, n) ∷ gs) hs = ground (arith, budget-append id gs hs)

budget-aged :
    (id k : ℕ) (gs : List (Update × ℕ))
    → HasBudget gs
    → budget id (aged (take k gs) ++ drop k gs) + carried id (facts (take k gs)) ≡ budget id gs
unfolding aged
budget-aged id zero gs h = omega arith
budget-aged id (suc k) [] h = omega arith
budget-aged id (suc k) ((u, n) ∷ gs) h = ground (arith, budget-aged id k gs h.1)

-- When every fact of the gossip has a transmission left, a packet that carries a fact costs it one
-- transmission, and nothing else does: what is left for a node afterwards and what the packet
-- carries of it make up what was left before, and the fact that this node is alive, which is free.
pub take_piggyback-budget :
    (m : Membership) (max_len id : ℕ)
    → HasBudget m.gossip
    → budget id (take_piggyback m max_len).0.gossip + carried id (take_piggyback m max_len).1
      ≡ budget id m.gossip + carried id (self_update m ∷ [])
take_piggyback-budget m max_len id h =
    rw (take_piggyback_lem m max_len) (omega (arith, budget-aged id (max_len - 1) m.gossip h))
