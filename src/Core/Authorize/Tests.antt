-- ===== src/Core/Authorize/Tests.antt =====
-- Two calls at a table of one: the first waits and is answered, the second is shed.
use beam_socket.Prelude.{ℕ, ◌≤◌, ◌≡◌, true, none, some, [], ◌∷◌, length, arith}
use beam_socket.Prelude.Keys.{nat_key, contains, add, del}
use beam_socket.Core.Authorize.{
  new, reserve, shed, enter, resolve, accept, waiting, tell, World, on_reserve, on_shed, on_enter,
  on_resolve, Reach, here, next, start,
}
use beam_socket.Core.Authorize.Counts.{admitted, has_task}
use beam_socket.Core.Authorize.Bound.{Reach-bounded}

abbrev answered : World
unfolding new reserve shed enter resolve
answered = record {
  authorizer = (resolve 1 (shed (reserve (enter (reserve (new 1)).0).0).0).0).0;
  tasks = waiting 1 (some (accept none)) ∷ [];
}

history : Reach (start 1) answered
unfolding answered new reserve shed enter resolve tell contains add del
history = next _ _ _ (on_reserve (new 1) [] (omega arith)) (
    next _ _ _ (on_enter (reserve (new 1)).0 [] [] (omega arith)) (
      next _ _ _ (on_reserve (enter (reserve (new 1)).0).0 (waiting 1 none ∷ []) (omega arith)) (
        next _ _ _ (on_shed (reserve (enter (reserve (new 1)).0).0).0 [] (waiting 1 none ∷ [])) (
          next _ _ _
            (on_resolve 1 (accept none) (shed (reserve (enter (reserve (new 1)).0).0).0).0
              (waiting 1 none ∷ []))
            (here _)))))

Reach-bounded_example :
    (answered.authorizer.in_flight ≡ length answered.tasks)
    × (admitted answered.tasks ≤ 1)
    × ((id : ℕ)
        → contains id answered.authorizer.pending ≡ true
        → has_task id answered.tasks ≡ true)
    × (answered.tasks ≡ [] → answered.authorizer.pending ≡ [])
Reach-bounded_example = Reach-bounded 1 answered history
