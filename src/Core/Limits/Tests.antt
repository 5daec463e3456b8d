-- ===== src/Core/Limits/Tests.antt =====
-- Concrete runs of the limits.
use beam_socket.Prelude.{
  ℕ, ◌≤◌, ◌≡◌, ◌≢◌, refl, Bool, false, Option, none, some, [], ◌∷◌, ◌++◌, length, ◌==◌,
  if◌then◌else◌, arith,
}
use beam_socket.Prelude.Bytes.{Bytes}
use beam_socket.Core.Limits.{
  Ip, trusted_proxies, resolve, current, new, try_admit, decrement, reap, trusted, split,
}
use beam_socket.Core.Limits.Chain.{resolve-unspoofable, all_proxies, is_proxy}
use beam_socket.Core.Limits.Slots.{
  held, World, Reach, here, next, on_admit, on_drop, on_reap, start,
}
use beam_socket.Core.Limits.Slots.Invariant.{Reach-slots}

-- Hops of four octets, and a network given by its first.
abbrev canonical : Ip → Ip
canonical ip = ip

abbrev parse : Bytes → Option Ip
parse hop = if length hop == 4 then some hop else none

abbrev net_contains : ℕ → Ip → Bool
net_contains net [] = false
net_contains net (a ∷ ip) = a == net

abbrev proxy : Ip
proxy = 10 ∷ 0 ∷ 0 ∷ 1 ∷ []

abbrev client : Ip
client = 203 ∷ 0 ∷ 113 ∷ 9 ∷ []

abbrev forged : Ip
forged = 1 ∷ 2 ∷ 3 ∷ 4 ∷ []

resolve-unspoofable_example :
    resolve canonical parse net_contains
      (trusted_proxies (10 ∷ []))
      proxy
      (some (forged ++ (44 ∷ client)))
    ≡ resolve canonical parse net_contains (trusted_proxies (10 ∷ [])) proxy (some client)
unfolding all_proxies is_proxy split trusted
resolve-unspoofable_example =
    resolve-unspoofable canonical parse net_contains (10 ∷ []) proxy forged client refl

abbrev admitted : World
admitted = record { limiter = (try_admit client (new 2)).0; guards = client ∷ []; reaps = [] }

abbrev freed : World
freed = record {
  limiter = reap client (decrement client admitted.limiter).0;
  guards = [];
  reaps = [];
}

-- A client comes and goes, and its entry is removed.
freed-Reach : Reach (start 2) freed
unfolding new try_admit decrement
freed-Reach = next _ _ _ (on_admit client (new 2) [] []) (
    next _ _ _ (on_drop client admitted.limiter [] [] [])
      (next _ _ _ (on_reap client (decrement client admitted.limiter).0 [] [] []) (here _)))

Reach-slots_example :
    ((ip : Ip) → (current freed.limiter ip ≡ held ip freed.guards) × (held ip freed.guards ≤ 2))
    × (freed.reaps ≡ [] → (ip : Ip) → freed.limiter.counts ip ≢ some 0)
Reach-slots_example = Reach-slots 2 freed (omega arith) freed-Reach
