-- ===== src/Core/Limits.antt =====
-- crates/core/src/limits.rs: the client's address and the admission of its connection. An address is its
-- octets, 4 or 16. The parsing of addresses and networks, and the test of a network, are the standard
-- library's and a crate's, and parameters. The `DashMap` of counts is a function.
pub mod Chain
pub mod Slots
mod Tests
use beam_socket.Prelude.{
  ℕ, zero, suc, ◌+◌, ◌-◌, ◌%◌, ◌^◌, Bool, true, false, not, Option, none, some, List, [], ◌∷◌, ◌++◌,
  leb, ◌==◌, if◌then◌else◌,
}
use beam_socket.Prelude.Bytes.{Bytes}
use beam_socket.Prelude.Keys.{bytes_key, same, write}
use beam_socket.Prelude.Results.{Result, ok, err}
use beam_socket.Prelude.Words.{add64}

abbrev pub http_too_many_requests : ℕ
http_too_many_requests = 429

abbrev pub http_service_unavailable : ℕ
http_service_unavailable = 503

abbrev pub Ip : Type 0
Ip = Bytes

pub data TrustProxy : Type 0 where
  never : TrustProxy
  always : TrustProxy
  cidrs : List Bytes → TrustProxy

pub data ClientIpResolver (Net : Type 0) : Type 0 where
  peer_only : ClientIpResolver Net
  rightmost_forwarded : ClientIpResolver Net
  trusted_proxies : List Net → ClientIpResolver Net

-- `str::split(',')`: at least one part.
unfoldable pub split : Bytes → List Bytes
split [] = [] ∷ []
split (b ∷ bs) =
    let rest = split bs in
    if b == 44
    then [] ∷ rest
    else elim rest [ [] ↦ (b ∷ []) ∷ [] | part ∷ parts ↦ (b ∷ part) ∷ parts ]

-- `.iter().enumerate()`, from `i` on, and `.rev()`.
unfoldable pub enumerate : ℕ → List Bytes → List (ℕ × Bytes)
enumerate i [] = []
enumerate i (part ∷ parts) = (i, part) ∷ enumerate (i + 1) parts

unfoldable pub rev : {A : Type 0} → List A → List A
rev [] = []
rev (x ∷ xs) = rev xs ++ (x ∷ [])

module _ {Net : Type 0} (parse_net : Bytes → Option Net) where
  unfoldable pub parse_nets : List Bytes → Option (List Net)
  parse_nets [] = some []
  parse_nets (c ∷ cs) = elim (parse_net c) [
    | none ↦ none
    | some net ↦ elim (parse_nets cs) [ none ↦ none | some nets ↦ some (net ∷ nets) ]
  ]

  -- A `ConfigError` is the unit.
  unfoldable pub from_trust_proxy : TrustProxy → Result (Unit {0}) (ClientIpResolver Net)
  unfolding parse_nets
  from_trust_proxy never = ok peer_only
  from_trust_proxy always = ok rightmost_forwarded
  from_trust_proxy (cidrs cs) = elim (parse_nets cs) [
    | none ↦ err tt
    | some nets ↦ ok (trusted_proxies nets)
  ]

-- `to_canonical`, `parse` after `trim`, and `IpNet::contains`.
module _ {Net : Type 0} (canonical : Ip → Ip) (parse : Bytes → Option Ip)
    (net_contains : Net → Ip → Bool) where
  unfoldable pub trusted : List Net → Ip → Bool
  trusted [] ip = false
  trusted (net ∷ nets) ip = if net_contains net ip then true else trusted nets ip

  abbrev pub parse_hop : Bytes → Option Ip
  parse_hop s = elim (parse s) [ none ↦ none | some ip ↦ some (canonical ip) ]

  unfoldable pub find_hop : List Bytes → Option Ip
  find_hop [] = none
  find_hop (part ∷ parts) = elim (parse_hop part) [ none ↦ find_hop parts | some ip ↦ some ip ]

  unfoldable pub rightmost_hop : Bytes → Option Ip
  unfolding find_hop
  rightmost_hop xff = find_hop (rev (split xff))

  -- The loop, over what is left of it, with `leftmost_trusted`.
  unfoldable pub walk : List Net → Ip → List (ℕ × Bytes) → Option Ip → Ip
  walk nets peer [] none = peer
  walk nets peer [] (some ip) = ip
  walk nets peer ((i, part) ∷ hops) leftmost = elim (parse_hop part) [
    | none ↦ peer
    | some ip ↦
        if not (trusted nets ip)
        then ip
        else walk nets peer hops (if i == 0 then some ip else leftmost)
  ]

  unfoldable pub resolve_via_trusted_chain : List Net → Ip → Bytes → Ip
  unfolding walk
  resolve_via_trusted_chain nets peer xff = walk nets peer (rev (enumerate 0 (split xff))) none

  abbrev pub or_peer : Option Ip → Ip → Ip
  or_peer none peer = peer
  or_peer (some ip) peer = ip

  unfoldable pub resolve : ClientIpResolver Net → Ip → Option Bytes → Ip
  unfolding rightmost_hop resolve_via_trusted_chain trusted
  resolve peer_only p xff = canonical p
  resolve rightmost_forwarded p none = canonical p
  resolve rightmost_forwarded p (some xff) = or_peer (rightmost_hop xff) (canonical p)
  resolve (trusted_proxies nets) p none = canonical p
  resolve (trusted_proxies nets) p (some xff) =
      let peer = canonical p in
      if not (trusted nets peer) then peer else resolve_via_trusted_chain nets peer xff

pub record IpLimiter : Type 0 where
  pub max_per_ip : ℕ
  pub counts : Ip → Option ℕ

-- `IpAdmitGuard`: whether it holds a slot of the limiter.
pub record Guard : Type 0 where
  pub limited : Bool
  pub ip : Ip

unfoldable pub new : ℕ → IpLimiter
new max_per_ip = record { max_per_ip = max_per_ip; counts = λ ip. none }

abbrev pub count_of : Option ℕ → ℕ
count_of none = 0
count_of (some n) = n

unfoldable pub current : IpLimiter → Ip → ℕ
current l ip = count_of (l.counts ip)

unfoldable pub try_admit : Ip → IpLimiter → IpLimiter × Option Guard
try_admit ip l =
    if l.max_per_ip == 0
    then (l, some (record { limited = false; ip = ip }))
    else (let entry = count_of (l.counts ip) in
        if leb l.max_per_ip entry
        then (record l { counts = write ip (some entry) l.counts }, none)
        else (
          record l { counts = write ip (some (entry + 1)) l.counts },
          some (record { limited = true; ip = ip }),
        ))

-- `release` as far as the drop of the entry's guard, and whether it has reached 0.
unfoldable pub decrement : Ip → IpLimiter → IpLimiter × Bool
decrement ip l = elim (l.counts ip) [
  | none ↦ (l, false)
  | some n ↦ (record l { counts = write ip (some (n - 1)) l.counts }, n - 1 == 0)
]

-- `remove_if`, under the map's lock.
unfoldable pub reap : Ip → IpLimiter → IpLimiter
reap ip l = elim (l.counts ip) [
  | none ↦ l
  | some n ↦ if n == 0 then record l { counts = write ip none l.counts } else l
]

unfoldable pub release : Ip → IpLimiter → IpLimiter
unfolding decrement reap
release ip l = let (after, zeroed) = decrement ip l in if zeroed then reap ip after else after

-- The drop of a guard.
abbrev pub drop_guard : Guard → IpLimiter → IpLimiter
drop_guard g l = if g.limited then release g.ip l else l

pub record Gate (Net : Type 0) : Type 0 where
  pub resolver : ClientIpResolver Net
  pub limiter : IpLimiter
  pub admission_rejected_ip : ℕ
  pub draining : Bool

-- The request's headers and url go through unread, but for the value of `x-forwarded-for`.
module _ {Net : Type 0} (canonical : Ip → Ip) (parse : Bytes → Option Ip)
    (net_contains : Net → Ip → Bool) where
  unfoldable pub admit : Ip → Option Bytes → Gate Net → Gate Net × Result ℕ (Ip × Guard)
  unfolding resolve try_admit
  admit peer xff g =
      if g.draining
      then (g, err http_service_unavailable)
      else (let client_ip = resolve canonical parse net_contains g.resolver peer xff in
          let (limiter, slot) = try_admit client_ip g.limiter in
          elim slot [
            | none ↦ (
              record g {
                limiter = limiter;
                admission_rejected_ip = add64 g.admission_rejected_ip 1;
              },
              err http_too_many_requests,
            )
            | some guard ↦ (record g { limiter = limiter }, ok (client_ip, guard))
          ])
