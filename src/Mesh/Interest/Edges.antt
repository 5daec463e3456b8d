-- ===== src/Mesh/Interest/Edges.antt =====
-- interest.rs: the edges that a node publishes keep its view at a peer.
use beam_socket.Prelude.{
  ℕ, ◌+◌, ◌%◌, ◌^◌, ◌≤◌, ◌<◌, ◌≡◌, ◌≢◌, ◌∙◌, refl, sym, ap, Bool, true, false, Option, none, some,
  List, [], ◌∷◌, leb, ◌==◌, arith, Bool-cases, inl, inr, length,
}
use beam_socket.Prelude.Maps.{lookup, lookup-insert}
use beam_socket.Mesh.Interest.{
  Target, room, user, OriginInterest, hosts, put_target, differs, or_default, InterestEdge,
  InterestState, RoutingMode, new, local_set, apply_edge,
}

-- What a node holds of an origin.
abbrev pub view : ℕ → InterestState → OriginInterest
view origin s = or_default (lookup origin s.remote)

-- An edge, if there is one, arrives.
unfoldable pub deliver : Option InterestEdge → InterestState → InterestState
deliver none s = s
deliver (some edge) s = (apply_edge edge s).0

-- The node and its peer after changes of the node's own interest, each edge delivered in its turn.
unfoldable pub publish :
    List (Target × Bool) → InterestState → InterestState → InterestState × InterestState
publish [] s peer = (s, peer)
publish ((target, on) ∷ changes) s peer =
    let (s', edge) = local_set target on s in publish changes s' (deliver edge peer)

put_target_seq :
    (on : Bool) (target : Target) (o : OriginInterest) (n : ℕ)
    → put_target on target (record o { seq = n }) ≡ record (put_target on target o) { seq = n }
unfolding put_target
put_target_seq on (room r) o n = refl
put_target_seq on (user u) o n = refl

==_false : (a b : ℕ) → a ≢ b → (a == b) ≡ false
==_false a b h = ground arith

-- An edge from another node that is newer than what is held is applied to it.
pub view-apply_edge :
    (edge : InterestEdge) (s : InterestState)
    → edge.origin ≢ s.self_id
    → (view edge.origin s).seq < edge.seq
    → view edge.origin (apply_edge edge s).0
      ≡ put_target edge.add edge.target (record (view edge.origin s) { seq = edge.seq })
unfolding apply_edge
view-apply_edge edge s d h =
    let old : leb edge.seq (view edge.origin s).seq ≡ false = ground arith in
    let here : (edge.origin == edge.origin) ≡ true = ground arith in
    rw
      (
        ==_false edge.origin s.self_id d,
        old,
        lookup-insert edge.origin edge.origin
            (put_target edge.add edge.target (record (view edge.origin s) { seq = edge.seq }))
            s.remote,
        here,
      )
      refl

deliver_mirrors :
    (target : Target) (on : Bool) (s peer : InterestState)
    → s.self_id ≢ peer.self_id
    → s.own.seq + 1 < 2 ^ 64
    → view s.self_id peer ≡ s.own
    → view s.self_id (deliver (local_set target on s).1 peer) ≡ (local_set target on s).0.own
unfolding local_set deliver
deliver_mirrors target on s peer d b e = elim (Bool-cases (differs on (hosts s.own target))) [
  | inr q ↦ rw q e
  | inl q ↦
      let wrap : (s.own.seq + 1) % 2 ^ 64 ≡ s.own.seq + 1 = omega arith in
      let edge : InterestEdge = record {
        origin = s.self_id;
        seq = (s.own.seq + 1) % 2 ^ 64;
        add = on;
        target = target;
      } in
      let newer : (view s.self_id peer).seq < edge.seq =
        omega (arith, wrap, ap OriginInterest.seq e) in
      rw q (
        view-apply_edge edge peer d newer
        ∙ ap (λ o. put_target on target (record o { seq = edge.seq })) e
        ∙ put_target_seq on target s.own edge.seq)
]

local_set-self_id :
    (target : Target) (on : Bool) (s : InterestState)
    → (local_set target on s).0.self_id ≡ s.self_id
unfolding local_set
local_set-self_id target on s = ground arith

local_set-seq :
    (target : Target) (on : Bool) (s : InterestState)
    → (local_set target on s).0.own.seq ≤ s.own.seq + 1
unfolding local_set
local_set-seq target on s = ground arith

apply_edge-self_id :
    (edge : InterestEdge) (s : InterestState) → (apply_edge edge s).0.self_id ≡ s.self_id
unfolding apply_edge
apply_edge-self_id edge s = ground arith

deliver-self_id :
    (edge : Option InterestEdge) (s : InterestState) → (deliver edge s).self_id ≡ s.self_id
unfolding deliver
deliver-self_id none s = refl
deliver-self_id (some edge) s = apply_edge-self_id edge s

publish_mirrors :
    (changes : List (Target × Bool)) (s peer : InterestState)
    → s.self_id ≢ peer.self_id
    → s.own.seq + length changes < 2 ^ 64
    → view s.self_id peer ≡ s.own
    → view s.self_id (publish changes s peer).1 ≡ (publish changes s peer).0.own
unfolding publish
publish_mirrors [] s peer d b e = e
publish_mirrors ((target, on) ∷ changes) s peer d b e =
    let s' = (local_set target on s).0 in
    let peer' = deliver (local_set target on s).1 peer in
    let mine = local_set-self_id target on s in
    let theirs = deliver-self_id (local_set target on s).1 peer in
    ap (λ k. view k (publish changes s' peer').1) (sym mine)
    ∙ publish_mirrors changes s' peer' (λ q. d (sym mine ∙ q ∙ theirs))
        (omega (arith, local_set-seq target on s))
        (ap (λ k. view k peer') mine ∙ deliver_mirrors target on s peer d (omega arith) e)

-- Start two different nodes with nothing known of each other, let one of them start and stop hosting
-- rooms and users in any order, and deliver every edge that it publishes, in order: then the other
-- node's entry for it is its own interest, sequence number included. The node's sequence number is 64
-- bits wide, and the theorem is for runs that do not exhaust it.
pub new-publish_mirrors :
    (changes : List (Target × Bool)) (a b : ℕ) (mode mode' : RoutingMode)
    → a ≢ b
    → length changes < 2 ^ 64
    → view a (publish changes (new a mode) (new b mode')).1
      ≡ (publish changes (new a mode) (new b mode')).0.own
unfolding new lookup
new-publish_mirrors changes a b mode mode' d h =
    publish_mirrors changes (new a mode) (new b mode') d (omega arith) refl
