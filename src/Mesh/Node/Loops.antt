-- ===== src/Mesh/Node/Loops.antt =====
-- node.rs: which addresses a node dials and when, and the bodies of the gossip, digest and interest loops.
-- The delay that `Backoff::next_delay` computes is an argument.
use beam_socket.Prelude.{
  ℕ, ◌+◌, ◌%◌, ◌^◌, Bool, true, false, not, ◌&&◌, Option, none, some, List, [], ◌∷◌, ◌++◌,
  if◌then◌else◌, bytes_eq, bytes_eq_refl, bytes_eq→eq, ◌==◌, leb, ltb, ◌≡◌, arith,
}
use beam_socket.Prelude.Keys.{Key, nat_key, contains, same}
use beam_socket.Prelude.Maps.{Map}
use beam_socket.Mesh.Addr.{IpAddr, v4, v6, SocketAddr}
use beam_socket.Mesh.Frame.{FrameKind}
use beam_socket.Mesh.Handshake.{plain}
use beam_socket.Mesh.Swim.Types.{dead, is_state, Update, table}
use beam_socket.Mesh.Swim.Gossip.{take_piggyback}
use beam_socket.Mesh.Sync.{gossip, build_digest}
use beam_socket.Mesh.Sync
use beam_socket.Mesh.Interest.{InterestState, sweep_origin}
use beam_socket.Mesh.Interest.Repair
use beam_socket.Mesh.Interest.Codec.{encode_digest}
use beam_socket.Mesh.Node.{MeshNode, alive_peer_ids, broadcast_frame}

abbrev pub ip_eq : IpAddr → IpAddr → Bool
ip_eq (v4 a) (v4 b) = bytes_eq a b
ip_eq (v6 a) (v6 b) = bytes_eq a b
ip_eq _ _ = false

ip_eq_refl : (a : IpAddr) → ip_eq a a ≡ true
ip_eq_refl (v4 a) = bytes_eq_refl a
ip_eq_refl (v6 a) = bytes_eq_refl a

ip_eq→eq : (a b : IpAddr) → ip_eq a b ≡ true → a ≡ b
ip_eq→eq (v4 a) (v4 b) h = cc (bytes_eq→eq a b h)
ip_eq→eq (v4 a) (v6 b) h = absurd (cc h)
ip_eq→eq (v6 a) (v4 b) h = absurd (cc h)
ip_eq→eq (v6 a) (v6 b) h = cc (bytes_eq→eq a b h)

-- `==` on addresses.
unfoldable pub addr_eq : SocketAddr → SocketAddr → Bool
addr_eq a b = ip_eq a.ip b.ip && a.port == b.port

pub addr_eq_refl : (a : SocketAddr) → addr_eq a a ≡ true
unfolding addr_eq
addr_eq_refl a = ground (arith, ip_eq_refl a.ip)

pub addr_eq→eq : (a b : SocketAddr) → addr_eq a b ≡ true → a ≡ b
unfolding addr_eq
addr_eq→eq a b h = ground (arith, ip_eq→eq a.ip b.ip)

instance abbrev pub addr_key : Key SocketAddr
addr_key = record { same = addr_eq; same→eq = addr_eq→eq; same_refl = addr_eq_refl }

-- `links.keys()`.
unfoldable pub keys : {V : Type 0} → Map V → List ℕ
keys [] = []
keys ((k, v) ∷ m) = k ∷ keys m

-- The addresses of the members with one of these ids.
unfoldable pub addrs_of : List ℕ → List Update → List SocketAddr
addrs_of ids [] = []
addrs_of ids (u ∷ us) =
    let rest = addrs_of ids us in if contains u.id ids then u.addr ∷ rest else rest

unfoldable pub dial_seeds :
    SocketAddr → List SocketAddr → List SocketAddr → List SocketAddr → List SocketAddr
dial_seeds own linked denied [] = []
dial_seeds own linked denied (s ∷ seeds) =
    let rest = dial_seeds own linked denied seeds in
    if not (same s own) && (not (contains s linked) && not (contains s denied))
    then s ∷ rest
    else rest

-- A member that this node is to dial.
abbrev pub is_dialed : ℕ → List ℕ → List ℕ → Update → Bool
is_dialed self_id linked denied u =
    ltb u.id self_id
    && (not (is_state dead u.state) && (not (contains u.id linked) && not (contains u.id denied)))

unfoldable pub dial_members : ℕ → List ℕ → List ℕ → List Update → List SocketAddr → List SocketAddr
dial_members self_id linked denied [] out = out
dial_members self_id linked denied (u ∷ us) out = dial_members self_id linked denied us (
    if is_dialed self_id linked denied u && not (contains u.addr out)
    then out ++ (u.addr ∷ [])
    else out)

unfoldable pub dial_targets : MeshNode → List SocketAddr
unfolding addrs_of dial_seeds dial_members keys
dial_targets n =
    let members = table n.membership in
    let linked = keys n.links in
    dial_members n.self_id linked n.deny members
      (dial_seeds n.addr (addrs_of linked members) (addrs_of n.deny members) n.seeds)

-- `dial_backoff` as a map from addresses.
unfoldable pub find_backoff : SocketAddr → List (SocketAddr × ℕ × ℕ) → Option (ℕ × ℕ)
find_backoff a [] = none
find_backoff a ((b, attempts, next) ∷ rest) =
    if same b a then some (attempts, next) else find_backoff a rest

unfoldable pub drop_backoff : SocketAddr → List (SocketAddr × ℕ × ℕ) → List (SocketAddr × ℕ × ℕ)
drop_backoff a [] = []
drop_backoff a ((b, attempts, next) ∷ rest) =
    if same b a then drop_backoff a rest else (b, attempts, next) ∷ drop_backoff a rest

unfoldable pub dial_ready : ℕ → SocketAddr → MeshNode → Bool
unfolding find_backoff
dial_ready now a n = elim (find_backoff a n.dial_backoff) [
  | none ↦ true
  | some (attempts, next) ↦ leb next now
]

unfoldable pub dial_ok : SocketAddr → MeshNode → MeshNode
unfolding drop_backoff
dial_ok a n = record n { dial_backoff = drop_backoff a n.dial_backoff }

abbrev pub attempts_of : Option (ℕ × ℕ) → ℕ
attempts_of none = 0
attempts_of (some (attempts, next)) = attempts

-- `delay` is the backoff's for the number of attempts, which wraps at 2^32.
unfoldable pub dial_fail : ℕ → (ℕ → ℕ) → SocketAddr → MeshNode → MeshNode
unfolding find_backoff drop_backoff
dial_fail now delay a n =
    let attempts = (attempts_of (find_backoff a n.dial_backoff) + 1) % 2 ^ 32 in
    record n { dial_backoff = (a, attempts, now + delay attempts) ∷ drop_backoff a n.dial_backoff }

-- What one round of `dial_loop` dials.
unfoldable pub ready_targets : ℕ → MeshNode → List SocketAddr → List SocketAddr
unfolding dial_ready
ready_targets now n [] = []
ready_targets now n (a ∷ addrs) =
    let rest = ready_targets now n addrs in if dial_ready now a n then a ∷ rest else rest

unfoldable pub dial_round : ℕ → MeshNode → List SocketAddr
unfolding ready_targets dial_targets
dial_round now n = if n.down then [] else ready_targets now n (dial_targets n)

unfoldable pub gossip_round : MeshNode → MeshNode
unfolding broadcast_frame
gossip_round n =
    let (m, updates) = take_piggyback n.membership n.gossip_max in
    if n.down
    then n
    else broadcast_frame (plain FrameKind.membership (Sync.encode (gossip updates)))
        (record n { membership = m })

unfoldable pub digest_round : MeshNode → MeshNode
unfolding broadcast_frame
digest_round n =
    if n.down
    then n
    else broadcast_frame (plain FrameKind.membership (Sync.encode (build_digest n.membership))) n

-- The sweep of the interest loop, over `known_origins()`.
unfoldable pub sweep : List ℕ → List ℕ → InterestState → InterestState
sweep reachable [] s = s
sweep reachable (id ∷ ids) s =
    sweep reachable ids (if contains id reachable then s else sweep_origin id s)

unfoldable pub interest_round : MeshNode → MeshNode
unfolding sweep keys broadcast_frame alive_peer_ids
interest_round n =
    let swept = sweep (alive_peer_ids n) (keys n.interest.remote) n.interest in
    if n.down
    then n
    else broadcast_frame
        (plain FrameKind.interest_digest (encode_digest (Repair.build_digest swept)))
        (record n { interest = swept })
