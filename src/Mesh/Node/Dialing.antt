-- ===== src/Mesh/Node/Dialing.antt =====
-- node.rs: which addresses `dial_targets` returns.
pub mod Rule
use beam_socket.Prelude.{
  ◌⊎◌, sym, ℕ, ◌≡◌, ◌≢◌, ◌<◌, ◌∙◌, Option, none, some, refl, ap, Bool, true, false, not, ◌&&◌, ◌||◌,
  List, [], ◌∷◌, ◌++◌, arith, Bool-cases, inl, inr,
}
use mathlib.Core.Path.{subst}
use mathlib.Core.List.{Memᴰ}
use mathlib.Core.List.Memᴰ.{head, tail}
use beam_socket.Prelude.Maps.{Map, lookup}
use beam_socket.Prelude.Keys.{nat_key, contains, same}
use beam_socket.Mesh.Addr.{SocketAddr}
use beam_socket.Mesh.Swim.Types.{MState, alive, suspect, Update, dead, is_state, table}
use beam_socket.Mesh.Node.{MeshNode}
use beam_socket.Mesh.Node.Loops.{
  addr_key, addrs_of, dial_seeds, is_dialed, dial_members, dial_targets, keys,
}

contains-append :
    (a : SocketAddr) (xs ys : List SocketAddr)
    → contains a (xs ++ ys) ≡ (contains a xs || contains a ys)
unfolding contains
contains-append a [] ys = refl
contains-append a (x ∷ xs) ys = ground (arith, contains-append a xs ys)

-- A seed is dialed unless it is the node's own address or one of a peer that is linked or denied.
abbrev pub is_open : SocketAddr → List SocketAddr → List SocketAddr → SocketAddr → Bool
is_open own linked denied a =
    not (same a own) && (not (contains a linked) && not (contains a denied))

-- Some member with this address is to be dialed.
unfoldable pub has_dialed : ℕ → List ℕ → List ℕ → List Update → SocketAddr → Bool
has_dialed self_id linked denied [] a = false
has_dialed self_id linked denied (u ∷ us) a =
    is_dialed self_id linked denied u && same u.addr a || has_dialed self_id linked denied us a

contains-dial_seeds :
    (own a : SocketAddr) (linked denied seeds : List SocketAddr)
    → contains a (dial_seeds own linked denied seeds)
      ≡ (contains a seeds && is_open own linked denied a)
unfolding contains dial_seeds
contains-dial_seeds own a linked denied [] = refl
contains-dial_seeds own a linked denied (s ∷ seeds) =
    let ih = contains-dial_seeds own a linked denied seeds in
    elim (Bool-cases (same s a)) [
      | inl e ↦ rw (addr_key.same→eq s a e) (ground (arith, ih, addr_key.same_refl a))
      | inr e ↦ ground (arith, ih, e)
    ]

contains-dial_members :
    (self_id : ℕ) (linked denied : List ℕ) (us : List Update) (out : List SocketAddr)
    (a : SocketAddr)
    → contains a (dial_members self_id linked denied us out)
      ≡ (contains a out || has_dialed self_id linked denied us a)
unfolding dial_members has_dialed contains
contains-dial_members self_id linked denied [] out a = ground arith
contains-dial_members self_id linked denied (u ∷ us) out a =
    let wanted = is_dialed self_id linked denied u in
    let more = contains-dial_members self_id linked denied us (out ++ (u.addr ∷ [])) a in
    let rest = contains-dial_members self_id linked denied us out a in
    let split = contains-append a out (u.addr ∷ []) in
    elim (Bool-cases (contains u.addr out)) [
      | inl e ↦ elim (Bool-cases (same u.addr a)) [
        | inl d ↦
            let there : contains a out ≡ true =
              subst (λ x. contains x out ≡ true) (addr_key.same→eq u.addr a d) e in
            ground (arith, rest, there)
        | inr d ↦ ground (arith, rest, d)
      ]
      | inr e ↦ ground (arith, more, rest, split, e)
    ]

pub dial_targets_has :
    (n : MeshNode) (a : SocketAddr)
    → contains a (dial_targets n) ≡ (
        contains a n.seeds
          && is_open n.addr
              (addrs_of (keys n.links) (table n.membership))
              (addrs_of n.deny (table n.membership))
              a
        || has_dialed n.self_id (keys n.links) n.deny (table n.membership) a)
unfolding dial_targets
dial_targets_has n a =
    let members = table n.membership in
    let linked = keys n.links in
    contains-dial_members n.self_id linked n.deny members
      (dial_seeds n.addr (addrs_of linked members) (addrs_of n.deny members) n.seeds) a
    ∙ ap (λ b. b || has_dialed n.self_id linked n.deny members a)
        (contains-dial_seeds n.addr a (addrs_of linked members) (addrs_of n.deny members) n.seeds)
