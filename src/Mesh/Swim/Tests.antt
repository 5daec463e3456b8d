-- ===== src/Mesh/Swim/Tests.antt =====
-- Concrete runs of the membership table.
use beam_socket.Prelude.{false, ℕ, true, ◌-◌, ◌^◌, ◌≤◌, ◌≡◌, refl, List, [], ◌∷◌, max, map, arith}
use beam_socket.Mesh.Swim.{false, merge, merge_all, expire_suspects, overdue}
use mathlib.Core.List.{Perm}
use mathlib.Core.List.Perm
use beam_socket.Prelude.Maps.{lookup}
use beam_socket.Mesh.Addr.{SocketAddr, v4}
use beam_socket.Mesh.Swim.Types.{MState, alive, suspect, dead, Update, Membership, new, self_update}
use beam_socket.Mesh.Swim.Standing.{
  rank, standing, loudest, standing-merge_all, standing-merge_all_perm,
}
use beam_socket.Mesh.Swim.Refute.{refuted-stays_dead}
use beam_socket.Mesh.Swim.Expiry.{expired, expire_suspects_lem}
use beam_socket.Mesh.Swim.History.{Call, merges, suspects, calls, calls-new-IsValid}
use beam_socket.Mesh.Swim.Invariant.{IsValid}

abbrev sample_addr : SocketAddr
sample_addr = record { ip = v4 (10 ∷ 0 ∷ 0 ∷ 1 ∷ []); port = 7000 }

abbrev fact : ℕ → MState → ℕ → Update
fact id state inc = record { id = id; addr = sample_addr; state = state; inc = inc }

-- Node 1, that knows nobody.
abbrev node : Membership
unfolding new
node = new 1 sample_addr 42

abbrev rumours : List Update
rumours = fact 2 suspect 4 ∷ fact 2 alive 5 ∷ []

abbrev other_rumours : List Update
other_rumours = fact 2 alive 5 ∷ fact 2 suspect 4 ∷ []

rumours-perm : Perm rumours other_rumours
rumours-perm = Perm.swap (fact 2 alive 5) (fact 2 suspect 4) []

standing-merge_all_perm_example :
    standing (merge_all node rumours 6 100) 2 ≡ standing (merge_all node other_rumours 6 200) 2
unfolding node
standing-merge_all_perm_example =
    standing-merge_all_perm node node 6 100 6 200 2 rumours-perm (omega arith) (omega arith) refl

standing-merge_all_example :
    standing (merge_all node rumours 6 100) 2 ≡ max (standing node 2) (loudest 2 rumours)
unfolding node
standing-merge_all_example = standing-merge_all node rumours 6 100 2 (omega arith)

refuted-stays_dead_example :
    let (refuted, bumped) = merge node (fact 1 dead 4294967295) 6 100 in
    let peer = (merge (new 4 sample_addr 42) (fact 1 dead 4294967295) 6 101).0 in
    (bumped ≡ true)
    × (rank (2 ^ 32 - 1) dead ≤ standing peer 1)
    × (merge peer (self_update refuted) 6 102 ≡ (peer, false))
unfolding node new
refuted-stays_dead_example =
    refuted-stays_dead node (new 4 sample_addr 42) (fact 1 dead 4294967295) 6 100 6 101 6 102
      (omega arith) refl refl (omega arith) refl

abbrev history : List (Call × ℕ × ℕ)
history =
    (merges (fact 2 alive 1), 6, 100)
    ∷ (merges (fact 3 alive 1), 6, 101)
    ∷ (suspects 2, 6, 110)
    ∷ []

calls-new-IsValid_example : IsValid (calls history (new 1 sample_addr 42))
calls-new-IsValid_example = calls-new-IsValid history 1 sample_addr 42

-- Node 1 after that.
abbrev informed : Membership
informed = calls history (new 1 sample_addr 42)

expire_suspects_lem_example :
    (lookup 2 (expire_suspects informed 50 6 200).0.members
      ≡ expired 50 200 (lookup 2 informed.members))
    × ((expire_suspects informed 50 6 200).1 ≡ map (λ u. u.id) (overdue 50 200 informed.members))
expire_suspects_lem_example =
    expire_suspects_lem informed 50 6 200 2 (calls-new-IsValid history 1 sample_addr 42)
