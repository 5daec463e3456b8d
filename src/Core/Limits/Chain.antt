-- ===== src/Core/Limits/Chain.antt =====
-- limits.rs: the address of a client behind proxies.
use mathlib.Core.List.{append-nil, append_assoc}
use beam_socket.Prelude.{
  ℕ, ◌+◌, ◌≡◌, ◌∙◌, refl, sym, ap, Bool, true, false, not, ◌&&◌, Option, none, some, List, [], ◌∷◌,
  ◌++◌, ◌==◌, if◌then◌else◌, length, arith, Bool-cases, Option-cases, inl, inr,
}
use beam_socket.Prelude.Bytes.{Bytes}
use beam_socket.Core.Limits.{
  Ip, trusted_proxies, split, enumerate, rev, trusted, parse_hop, walk, resolve_via_trusted_chain,
  resolve,
}

unfoldable pub nonempty : List Bytes → Bool
nonempty [] = false
nonempty (p ∷ ps) = true

nonempty-split : (b : Bytes) → nonempty (split b) ≡ true
unfolding split nonempty
nonempty-split [] = refl
nonempty-split (b ∷ bs) = ground (arith, nonempty-split bs)

split-append : (a b : Bytes) → split (a ++ (44 ∷ b)) ≡ split a ++ split b
unfolding split nonempty
split-append [] b = refl
split-append (x ∷ a) b = ground (arith, split-append a b, nonempty-split a)

enumerate-append :
    (i : ℕ) (xs ys : List Bytes)
    → enumerate i (xs ++ ys) ≡ enumerate i xs ++ enumerate (i + length xs) ys
unfolding enumerate
enumerate-append i [] ys = ap (λ k. enumerate k ys) (omega arith)
enumerate-append i (x ∷ xs) ys = ap (◌∷◌ (i, x)) (
    enumerate-append (i + 1) xs ys ∙ ap (λ k. enumerate (i + 1) xs ++ enumerate k ys) (omega arith))

rev-append : {A : Type 0} → (xs ys : List A) → rev (xs ++ ys) ≡ rev ys ++ rev xs
unfolding rev
rev-append [] ys = sym (append-nil (rev ys))
rev-append (x ∷ xs) ys =
    ap (λ t. t ++ (x ∷ [])) (rev-append xs ys) ∙ append_assoc (rev ys) (rev xs) (x ∷ [])

unfoldable parts_of : List (ℕ × Bytes) → List Bytes
parts_of [] = []
parts_of ((i, part) ∷ hops) = part ∷ parts_of hops

parts_of-append : (xs ys : List (ℕ × Bytes)) → parts_of (xs ++ ys) ≡ parts_of xs ++ parts_of ys
unfolding parts_of
parts_of-append [] ys = refl
parts_of-append ((i, x) ∷ xs) ys = ap (◌∷◌ x) (parts_of-append xs ys)

parts_of-rev-enumerate : (i : ℕ) (ps : List Bytes) → parts_of (rev (enumerate i ps)) ≡ rev ps
unfolding parts_of rev enumerate
parts_of-rev-enumerate i [] = refl
parts_of-rev-enumerate i (p ∷ ps) =
    parts_of-append (rev (enumerate (i + 1) ps)) ((i, p) ∷ [])
    ∙ ap (λ t. t ++ (p ∷ [])) (parts_of-rev-enumerate (i + 1) ps)

module _ {Net : Type 0} (canonical : Ip → Ip) (parse : Bytes → Option Ip)
    (net_contains : Net → Ip → Bool) where
  -- The hop is the address of a trusted proxy.
  unfoldable pub is_proxy : List Net → Bytes → Bool
  unfolding trusted
  is_proxy nets part = elim (parse_hop canonical parse net_contains part) [
    | none ↦ false
    | some ip ↦ trusted canonical parse net_contains nets ip
  ]

  unfoldable pub all_proxies : List Net → List Bytes → Bool
  unfolding is_proxy
  all_proxies nets [] = true
  all_proxies nets (part ∷ parts) = is_proxy nets part && all_proxies nets parts

  all_proxies-append :
      (nets : List Net) (xs ys : List Bytes)
      → all_proxies nets (xs ++ ys) ≡ (all_proxies nets xs && all_proxies nets ys)
  unfolding all_proxies
  all_proxies-append nets [] ys = refl
  all_proxies-append nets (x ∷ xs) ys = ground (arith, all_proxies-append nets xs ys)

  all_proxies-rev :
      (nets : List Net) (xs : List Bytes) → all_proxies nets (rev xs) ≡ all_proxies nets xs
  unfolding all_proxies rev
  all_proxies-rev nets [] = refl
  all_proxies-rev nets (x ∷ xs) =
      ground (arith, all_proxies-append nets (rev xs) (x ∷ []), all_proxies-rev nets xs)

  -- The client by the hops from the right: the first that is no trusted proxy, or the peer if it is no
  -- address.
  unfoldable pub first_stop : List Net → Ip → List Bytes → Ip
  first_stop nets peer [] = peer
  first_stop nets peer (part ∷ parts) = elim (parse_hop canonical parse net_contains part) [
    | none ↦ peer
    | some ip ↦
        if not (trusted canonical parse net_contains nets ip)
        then ip
        else first_stop nets peer parts
  ]

  proxy_rest :
      (nets : List Net) (part : Bytes) (parts : List Bytes) (ip : Ip)
      → parse_hop canonical parse net_contains part ≡ some ip
      → trusted canonical parse net_contains nets ip ≡ true
      → all_proxies nets (part ∷ parts) ≡ false
      → all_proxies nets parts ≡ false
  unfolding all_proxies is_proxy
  proxy_rest nets part parts ip n t h =
      let proxy : is_proxy nets part ≡ true = rw (is_proxy, n) t in
      ap (λ b. b && all_proxies nets parts) (sym proxy) ∙ h

  walk-first_stop :
      (nets : List Net) (peer : Ip) (hops more : List (ℕ × Bytes)) (leftmost : Option Ip)
      → all_proxies nets (parts_of hops) ≡ false
      → walk canonical parse net_contains nets peer (hops ++ more) leftmost
        ≡ first_stop nets peer (parts_of hops)
  unfolding walk first_stop all_proxies is_proxy parts_of
  walk-first_stop nets peer [] more leftmost h = absurd (cc h)
  walk-first_stop nets peer ((i, part) ∷ hops) more leftmost h =
      elim (Option-cases (parse_hop canonical parse net_contains part)) [
        | inl n ↦ rw (walk, first_stop, n) refl
        | inr (ip, n) ↦ elim (Bool-cases (trusted canonical parse net_contains nets ip)) [
          | inl t ↦
              rw (walk, first_stop, n, t)
                (walk-first_stop nets peer hops more (if i == 0 then some ip else leftmost)
                  (proxy_rest nets part (parts_of hops) ip n t h))
          | inr t ↦ rw (walk, first_stop, n, t) refl
        ]
      ]

  -- If some hop is no trusted proxy, the client is the rightmost one of those, or the peer where that is no
  -- address.
  chain-first_stop :
      (nets : List Net) (peer : Ip) (xff : Bytes)
      → all_proxies nets (split xff) ≡ false
      → resolve_via_trusted_chain canonical parse net_contains nets peer xff
        ≡ first_stop nets peer (rev (split xff))
  unfolding resolve_via_trusted_chain
  chain-first_stop nets peer xff h =
      let hops = rev (enumerate 0 (split xff)) in
      let parts = parts_of-rev-enumerate 0 (split xff) in
      let stops = ap (all_proxies nets) parts ∙ all_proxies-rev nets (split xff) ∙ h in
      ap (λ t. walk canonical parse net_contains nets peer t none) (sym (append-nil hops))
      ∙ walk-first_stop nets peer hops [] none stops
      ∙ ap (first_stop nets peer) parts

  chain_left :
      (nets : List Net) (peer : Ip) (forged real : Bytes)
      → all_proxies nets (split real) ≡ false
      → resolve_via_trusted_chain canonical parse net_contains nets peer (forged ++ (44 ∷ real))
        ≡ resolve_via_trusted_chain canonical parse net_contains nets peer real
  unfolding resolve_via_trusted_chain
  chain_left nets peer forged real h =
      let k = length (split forged) in
      let zero_add : 0 + k ≡ k = omega arith in
      let hops = rev (enumerate k (split real)) in
      let parts = parts_of-rev-enumerate k (split real) in
      let stops = ap (all_proxies nets) parts ∙ all_proxies-rev nets (split real) ∙ h in
      let shape : rev (enumerate 0 (split (forged ++ (44 ∷ real))))
          ≡ hops ++ rev (enumerate 0 (split forged)) =
        ap (λ t. rev (enumerate 0 t)) (split-append forged real)
        ∙ ap rev (enumerate-append 0 (split forged) (split real))
        ∙ ap (λ j. rev (enumerate 0 (split forged) ++ enumerate j (split real))) zero_add
        ∙ rev-append (enumerate 0 (split forged)) (enumerate k (split real)) in
      ap (λ t. walk canonical parse net_contains nets peer t none) shape
      ∙ walk-first_stop nets peer hops (rev (enumerate 0 (split forged))) none stops
      ∙ ap (first_stop nets peer) parts
      ∙ sym (chain-first_stop nets peer real h)

  -- Behind a trusted peer, what stands to the left of a hop that is no trusted proxy has no influence on the
  -- client's address: a client that puts hops in front of the one that its proxy appends changes nothing.
  pub resolve-unspoofable :
      (nets : List Net) (peer : Ip) (forged real : Bytes)
      → all_proxies nets (split real) ≡ false
      → resolve canonical parse net_contains
          (trusted_proxies nets)
          peer
          (some (forged ++ (44 ∷ real)))
        ≡ resolve canonical parse net_contains (trusted_proxies nets) peer (some real)
  unfolding resolve resolve_via_trusted_chain
  resolve-unspoofable nets peer forged real h =
      elim (Bool-cases (trusted canonical parse net_contains nets (canonical peer))) [
        | inr t ↦ rw t refl
        | inl t ↦ rw t (chain_left nets (canonical peer) forged real h)
      ]
