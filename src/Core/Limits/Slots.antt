-- ===== src/Core/Limits/Slots.antt =====
-- limits.rs: the slots of the limiter and the guards that hold them, under any interleaving of admissions and
-- of the two halves of a release.
pub mod Effects
pub mod Invariant
use beam_socket.Prelude.{
  ℕ, suc, ◌+◌, ◌-◌, ◌≤◌, ◌≡◌, ◌≢◌, ◌∙◌, refl, sym, ap, Bool, true, false, not, ◌&&◌, ◌||◌, Option,
  none, some, List, [], ◌∷◌, ◌++◌, leb, ◌==◌, if◌then◌else◌, arith, Bool-cases, Option-cases, inl,
  inr,
}
use beam_socket.Prelude.Keys.{bytes_key, same, contains}
use beam_socket.Core.Limits.{
  Ip, IpLimiter, Guard, new, current, try_admit, decrement, reap, count_of,
}

-- The limiter, the addresses of the guards that are alive, and those whose entry is still to be looked at.
pub record World : Type 0 where
  pub limiter : IpLimiter
  pub guards : List Ip
  pub reaps : List Ip

abbrev pub reap_if : Bool → Ip → List Ip → List Ip
reap_if zeroed ip reaps = if zeroed then ip ∷ reaps else reaps

abbrev pub take_slot : Option Guard → Ip → List Ip → List Ip
take_slot none ip guards = guards
take_slot (some g) ip guards = ip ∷ guards

pub data Step : World → World → Type 0 where
  on_admit :
      (ip : Ip) (l : IpLimiter) (guards reaps : List Ip)
      → Step
          (record { limiter = l; guards = guards; reaps = reaps })
          (record {
            limiter = (try_admit ip l).0;
            guards = take_slot (try_admit ip l).1 ip guards;
            reaps = reaps;
          })
  on_drop :
      (ip : Ip) (l : IpLimiter) (before after reaps : List Ip)
      → Step
          (record { limiter = l; guards = before ++ (ip ∷ after); reaps = reaps })
          (record {
            limiter = (decrement ip l).0;
            guards = before ++ after;
            reaps = reap_if (decrement ip l).1 ip reaps;
          })
  on_reap :
      (ip : Ip) (l : IpLimiter) (guards before after : List Ip)
      → Step
          (record { limiter = l; guards = guards; reaps = before ++ (ip ∷ after) })
          (record { limiter = reap ip l; guards = guards; reaps = before ++ after })

pub data Reach : World → World → Type 0 where
  here : (w : World) → Reach w w
  next : (w v u : World) → Step w v → Reach v u → Reach w u

abbrev pub start : ℕ → World
start max_per_ip = record { limiter = new max_per_ip; guards = []; reaps = [] }

-- The guards of an address.
unfoldable pub held : Ip → List Ip → ℕ
held ip [] = 0
held ip (g ∷ gs) = if same g ip then suc (held ip gs) else held ip gs

unfoldable pub is_zero : IpLimiter → Ip → Bool
is_zero l ip = elim (l.counts ip) [ none ↦ false | some n ↦ n == 0 ]
