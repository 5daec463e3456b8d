-- ===== src/Mesh/Sync/Tests.antt =====
-- Concrete runs of the membership messages.
use beam_socket.Prelude.{ℕ, ◌≤◌, ◌<◌, ◌≡◌, ◌≢◌, refl, true, false, some, List, [], ◌∷◌, ◌++◌, arith}
use beam_socket.Mesh.Addr.{SocketAddr, v4}
use beam_socket.Mesh.Swim.Types.{
  MState, alive, suspect, dead, Update, Membership, new, full_state, updates_of,
}
use beam_socket.Mesh.Swim.Standing.{standing}
use beam_socket.Mesh.Swim.History.{Call, merges, calls, calls-new-IsValid}
use beam_socket.Mesh.Sync.{sync, apply}
use beam_socket.Mesh.Sync.Refutation.{sync_refutes}
use beam_socket.Mesh.Sync.AntiEntropy.{known, exchange, exchange_catches_up}

abbrev sample_addr : SocketAddr
sample_addr = record { ip = v4 (10 ∷ 0 ∷ 0 ∷ 1 ∷ []); port = 7000 }

abbrev fact : ℕ → MState → ℕ → Update
fact id state inc = record { id = id; addr = sample_addr; state = state; inc = inc }

abbrev node : Membership
unfolding new
node = new 1 sample_addr 42

suspect-ne-alive : suspect ≢ alive
suspect-ne-alive e = ground (arith, e)

-- Node 1 after a sync that says it is suspected.
abbrev refuting : Membership
refuting = (apply (sync true ([] ++ (fact 1 suspect 3 ∷ []))) node 6 100).0

sync_refutes_example :
    ((apply (sync true ([] ++ (fact 1 suspect 3 ∷ []))) node 6 100).1
      ≡ some (
          sync false (
            updates_of refuting.members
            ++ (record { id = 1; addr = refuting.self_addr; state = alive; inc = refuting.self_inc }
                ∷ []))))
    × (3 < refuting.self_inc)
unfolding node
sync_refutes_example =
    sync_refutes node [] [] (fact 1 suspect 3) 6 100 (omega arith, tt) refl suspect-ne-alive

abbrev history : List (Call × ℕ × ℕ)
history = (merges (fact 3 dead 5), 6, 90) ∷ []

abbrev behind : Membership
behind = calls [] (new 2 sample_addr 7)

abbrev ahead : Membership
ahead = calls history (new 1 sample_addr 42)

three-ne-two : 3 ≢ behind.self_id
unfolding calls new
three-ne-two = omega arith

exchange_catches_up_example : known 3 (full_state ahead) ≤ standing (exchange behind ahead 6 100) 3
exchange_catches_up_example =
    exchange_catches_up behind ahead 6 100 3 (calls-new-IsValid [] 2 sample_addr 7) three-ne-two
