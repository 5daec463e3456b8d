-- ===== src/Mesh/Rng.antt =====
-- crates/mesh/src/swim.rs: the xorshift64* generator of the probe order, and its shuffle. The seed
-- comes from the operating system and is an argument of `seeded`.
use Prim.Native.Nat.{bit_xor, bit_or}
use mathlib.Core.List.{Perm}
use mathlib.Core.List.Perm
use mathlib.Core.Path.{subst, sym}
use mathlib.Core.Option.{some-injective}
use beam_socket.Prelude.{
  ℕ, zero, suc, ◌+◌, ◌-◌, ◌*◌, ◌/◌, ◌%◌, ◌^◌, ◌≡◌, refl, Option, none, some, List, [], ◌∷◌, length,
  Option-cases, inl, inr,
}

-- The state of the generator.
pub record Rng : Type 0 where
  pub state : ℕ

pub seeded : ℕ → Rng
seeded n = record { state = bit_or n 1 }

-- The output and the next state; shifts to the left and the product keep 64 bits.
pub next : Rng → ℕ × Rng
next r =
    let x₁ = bit_xor r.state (r.state / 2 ^ 12) in
    let x₂ = bit_xor x₁ (x₁ * 2 ^ 25 % 2 ^ 64) in
    let x₃ = bit_xor x₂ (x₂ / 2 ^ 27) in
    (x₃ * 0x2545_f491_4f6c_dd1d % 2 ^ 64, record { state = x₃ })

module _ {A : Type 0} where
  get_elem? : List A → ℕ → Option A
  get_elem? [] i = none
  get_elem? (x ∷ xs) zero = some x
  get_elem? (x ∷ xs) (suc i) = get_elem? xs i

  set : List A → ℕ → A → List A
  set [] i v = []
  set (x ∷ xs) zero v = v ∷ xs
  set (x ∷ xs) (suc i) v = x ∷ set xs i v

  -- `v.swap(i, j)`; both positions are in range where it is called.
  swap : List A → ℕ → ℕ → List A
  unfolding get_elem? set
  swap v i j = elim (get_elem? v i) [
    | none ↦ v
    | some x ↦ elim (get_elem? v j) [ none ↦ v | some y ↦ set (set v i y) j x ]
  ]

  -- `for i in (1..n).rev()`: the argument is the `i` of the round.
  shuffle_loop : ℕ → Rng → List A → List A × Rng
  unfolding swap
  shuffle_loop zero r v = (v, r)
  shuffle_loop (suc i) r v =
      let (x, r') = next r in shuffle_loop i r' (swap v (suc i) (x % (suc i + 1)))

  pub shuffle : Rng → List A → List A × Rng
  unfolding shuffle_loop
  shuffle r v = shuffle_loop (length v - 1) r v

  -- Taking out the item at a position leaves a permutation.
  get_elem?-perm :
      (v : List A) (i : ℕ) (x y : A) → get_elem? v i ≡ some x → Perm (y ∷ v) (x ∷ set v i y)
  unfolding get_elem? set
  get_elem?-perm [] i x y h = absurd (cc h)
  get_elem?-perm (z ∷ v) zero x y h =
      subst (λ t. Perm (y ∷ t ∷ v) (x ∷ y ∷ v)) (some-injective x z (sym h)) (Perm.swap x y v)
  get_elem?-perm (z ∷ v) (suc i) x y h =
      Perm.trans (Perm.swap z y v)
        (Perm.trans (Perm.cons z (get_elem?-perm v i x y h)) (Perm.swap x z (set v i y)))

  -- Writing what another position holds does not change that position.
  get_elem?-set_same :
      (v : List A) (i j : ℕ) (y : A) → get_elem? v j ≡ some y → get_elem? (set v i y) j ≡ some y
  unfolding get_elem? set
  get_elem?-set_same [] i j y h = h
  get_elem?-set_same (z ∷ v) zero zero y h = refl
  get_elem?-set_same (z ∷ v) zero (suc j) y h = h
  get_elem?-set_same (z ∷ v) (suc i) zero y h = h
  get_elem?-set_same (z ∷ v) (suc i) (suc j) y h = get_elem?-set_same v i j y h

  swap-perm : (v : List A) (i j : ℕ) → Perm v (swap v i j)
  unfolding swap
  swap-perm v i j = elim (Option-cases (get_elem? v i)) [
    | inl e ↦ rw (e, swap) (Perm.refl v)
    | inr (x, e) ↦ elim (Option-cases (get_elem? v j)) [
      | inl d ↦ rw (e, swap, d) (Perm.refl v)
      | inr (y, d) ↦
          rw (e, swap, d)
            (Perm.cons_inv (
              Perm.trans (get_elem?-perm v i x y e)
                (get_elem?-perm (set v i y) j y x (get_elem?-set_same v i j y d))))
    ]
  ]

  shuffle_loop-perm : (i : ℕ) (r : Rng) (v : List A) → Perm v (shuffle_loop i r v).0
  unfolding shuffle_loop
  shuffle_loop-perm zero r v = Perm.refl v
  shuffle_loop-perm (suc i) r v =
      Perm.trans (swap-perm v (suc i) ((next r).0 % (suc i + 1))) (shuffle_loop-perm i (next r).1 _)

  -- Whatever state the generator is in, a shuffled list is a permutation of the list.
  pub shuffle-perm : (r : Rng) (v : List A) → Perm v (shuffle r v).0
  unfolding shuffle
  shuffle-perm r v = shuffle_loop-perm (length v - 1) r v
