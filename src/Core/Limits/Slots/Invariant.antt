-- ===== src/Core/Limits/Slots/Invariant.antt =====
-- limits.rs: what holds of the limiter and the guards however the steps interleave.
use beam_socket.Prelude.{ℕ, ◌≤◌, ◌≡◌, ◌≢◌, ◌∙◌, refl, ap, true, some, [], arith}
use beam_socket.Prelude.Keys.{bytes_key, contains}
use beam_socket.Core.Limits.{Ip, new, current, decrement}
use beam_socket.Core.Limits.Slots.{
  World, Step, on_admit, on_drop, on_reap, Reach, here, next, start, held, is_zero,
}
use beam_socket.Core.Limits.Slots.Effects.{
  admit-view, decrement-view, reap-view, middle, contains-reap_if,
}

-- With a limit, the count of an address is the number of its guards and within the limit, and an entry that
-- is 0 will be looked at.
pub record IsCounted (max_per_ip : ℕ) (w : World) : Type 0 where
  pub limited : 1 ≤ max_per_ip
  pub limit : w.limiter.max_per_ip ≡ max_per_ip
  pub counts : (ip : Ip) → current w.limiter ip ≡ held ip w.guards
  pub bounded : (ip : Ip) → current w.limiter ip ≤ max_per_ip
  pub zeros : (ip : Ip) → is_zero w.limiter ip ≡ true → contains ip w.reaps ≡ true

Step-IsCounted :
    (max_per_ip : ℕ) (w v : World) → Step w v → IsCounted max_per_ip w → IsCounted max_per_ip v
Step-IsCounted m _ _ (on_admit ip l guards reaps) k =
    let view = λ (other : Ip). admit-view ip other l guards (omega (arith, k.limited, k.limit)) in
    record {
      limited = k.limited;
      limit = (view ip).3 ∙ k.limit;
      counts = λ other. omega (arith, (view other).0, k.counts other);
      bounded =
          λ other. omega (arith, (view other).1 (omega (arith, k.bounded other, k.limit)), k.limit);
      zeros = λ other z. k.zeros other ((view other).2 z);
    }
Step-IsCounted m _ _ (on_drop ip l before after reaps) k =
    let view = λ (other : Ip). decrement-view ip other l in
    record {
      limited = k.limited;
      limit = (view ip).2 ∙ k.limit;
      counts =
          λ other. ground (arith, (view other).0, k.counts other, middle ip other before after);
      bounded = λ other. ground (arith, (view other).0, k.bounded other);
      zeros = λ other z. ground (
        arith,
        (view other).1 z,
        k.zeros other,
        contains-reap_if (decrement ip l).1 ip other reaps,
      );
    }
Step-IsCounted m _ _ (on_reap ip l guards before after) k =
    let view = λ (other : Ip). reap-view ip other l in
    record {
      limited = k.limited;
      limit = (view ip).2 ∙ k.limit;
      counts = λ other. (view other).0 ∙ k.counts other;
      bounded = λ other. omega (arith, (view other).0, k.bounded other);
      zeros =
          λ other z. ground (arith, (view other).1 z, k.zeros other, middle ip other before after);
    }

Reach-IsCounted :
    (max_per_ip : ℕ) (w v : World) → Reach w v → IsCounted max_per_ip w → IsCounted max_per_ip v
Reach-IsCounted m w _ (here _) k = k
Reach-IsCounted m w v (next _ u _ s r) k = Reach-IsCounted m u v r (Step-IsCounted m w u s k)

start-IsCounted : (max_per_ip : ℕ) → 1 ≤ max_per_ip → IsCounted max_per_ip (start max_per_ip)
unfolding new current held is_zero
start-IsCounted m limited = record {
  limited = limited;
  limit = refl;
  counts = λ ip. refl;
  bounded = λ ip. omega arith;
  zeros = λ ip z. absurd (cc z);
}

-- With a limit, however admissions and drops of guards interleave, the count of every address is the number
-- of its guards that are alive and within the limit; and once no half of a release is pending, no address
-- has an entry that is 0.
pub Reach-slots :
    (max_per_ip : ℕ) (w : World)
    → 1 ≤ max_per_ip
    → Reach (start max_per_ip) w
    → ((ip : Ip) → (current w.limiter ip ≡ held ip w.guards) × (held ip w.guards ≤ max_per_ip))
      × (w.reaps ≡ [] → (ip : Ip) → w.limiter.counts ip ≢ some 0)
unfolding contains is_zero
Reach-slots m w limited r =
    let k = Reach-IsCounted m (start m) w r (start-IsCounted m limited) in
    (
      λ ip. (k.counts ip, omega (arith, k.counts ip, k.bounded ip)),
      λ done ip z. ground (arith, k.zeros ip (rw (is_zero, z) refl), ap (contains ip) done),
    )
