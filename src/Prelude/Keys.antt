-- ===== src/Prelude/Keys.antt =====
-- Keys that can be compared: sets as lists of distinct keys, and maps as functions, for `HashSet` and
-- `DashMap`.
use Prim.Native.Nat.{ℕ, suc, ◌≤◌}
use mathlib.Core.Path.{◌≡◌, refl, ap}
use mathlib.Core.Logic.{inl, inr}
use mathlib.Core.Bool.{Bool, true, false, not, ◌&&◌, ◌||◌}
use mathlib.Core.List.{List, [], ◌∷◌}
use native.Mathlib.Omega.{arith}
use beam_socket.Prelude.Tests.{◌==◌, ==_iff, ==→eq, if◌then◌else◌, Bool-cases}
use beam_socket.Prelude.Lists.{length, bytes_eq, bytes_eq_refl, bytes_eq→eq}

pub record Key (A : Type 0) : Type 0 where
  pub same : A → A → Bool
  pub same→eq : (a b : A) → same a b ≡ true → a ≡ b
  pub same_refl : (a : A) → same a a ≡ true

instance abbrev pub nat_key : Key ℕ
nat_key = record { same = ◌==◌; same→eq = ==→eq; same_refl = λ a. (==_iff a a).1 refl }

instance abbrev pub bytes_key : Key (List ℕ)
bytes_key = record { same = bytes_eq; same→eq = bytes_eq→eq; same_refl = bytes_eq_refl }

abbrev pub same : {A : Type 0} ⦃k : Key A⦄ → A → A → Bool
same ⦃k⦄ = k.same

module _ {A : Type 0} ⦃k : Key A⦄ where
  unfoldable pub contains : A → List A → Bool
  contains a [] = false
  contains a (b ∷ bs) = same b a || contains a bs

  -- `HashSet::insert` and `HashSet::remove`.
  unfoldable pub add : A → List A → List A
  unfolding contains
  add a bs = if contains a bs then bs else a ∷ bs

  unfoldable pub del : A → List A → List A
  del a [] = []
  del a (b ∷ bs) = if same b a then del a bs else b ∷ del a bs

  same_other : (a b c : A) → same b a ≡ false → same b c ≡ true → same a c ≡ false
  same_other a b c e d = elim (Bool-cases (same a c)) [
    | inl f ↦ cc (e, d, ap (same b) (k.same→eq a c f))
    | inr f ↦ f
  ]

  pub contains-add : (a c : A) (bs : List A) → contains c (add a bs) ≡ (same a c || contains c bs)
  unfolding add
  contains-add a c bs = elim (Bool-cases (contains a bs)) [
    | inl e ↦ elim (Bool-cases (same a c)) [
      | inl d ↦ rw (e, d) (rw (← k.same→eq a c d) e)
      | inr d ↦ rw (e, d) refl
    ]
    | inr e ↦ rw e refl
  ]

  pub contains-del :
      (a c : A) (bs : List A) → contains c (del a bs) ≡ (not (same a c) && contains c bs)
  unfolding del contains
  contains-del a c [] = ground arith
  contains-del a c (b ∷ bs) = elim (Bool-cases (same b a)) [
    | inl e ↦ rw (e, k.same→eq b a e, contains-del a c bs) (ground arith)
    | inr e ↦ elim (Bool-cases (same b c)) [
      | inl d ↦ rw (e, d, same_other a b c e d) refl
      | inr d ↦ rw (e, d) (contains-del a c bs)
    ]
  ]

  pub length-add : (a : A) (bs : List A) → length (add a bs) ≤ suc (length bs)
  unfolding add
  length-add a bs = ground arith

  -- A map's write.
  abbrev pub write : {V : Type 0} → A → V → (A → V) → A → V
  write a v f c = if same a c then v else f c
