-- ===== src/Prelude/Maps.antt =====
-- `HashMap` with numbers for keys, as an association list in which `insert` replaces in place. The
-- order of the list stands for the order of iteration, which Rust leaves open.
use Prim.Native.Nat.{ℕ}
use mathlib.Core.Path.{◌≡◌, refl, sym}
use mathlib.Core.Logic.{◌≢◌}
use mathlib.Core.Option.{Option, none, some}
use mathlib.Core.List.{List, [], ◌∷◌}
use native.Mathlib.Omega.{arith}
use beam_socket.Prelude.Tests.{◌==◌, if◌then◌else◌}

abbrev pub Map : Type 0 → Type 0
Map V = List (ℕ × V)

module _ {V : Type 0} where
  unfoldable pub lookup : ℕ → Map V → Option V
  lookup k [] = none
  lookup k ((j, v) ∷ m) = if j == k then some v else lookup k m

  unfoldable pub insert : ℕ → V → Map V → Map V
  insert k v [] = (k, v) ∷ []
  insert k v ((j, w) ∷ m) = if j == k then (k, v) ∷ m else (j, w) ∷ insert k v m

  unfoldable pub remove : ℕ → Map V → Map V
  remove k [] = []
  remove k ((j, w) ∷ m) = if j == k then remove k m else (j, w) ∷ remove k m

  -- No key of the map is `k`; the keys are distinct.
  abbrev pub Fresh : ℕ → Map V → Type 0
  Fresh k [] = Unit
  Fresh k ((j, w) ∷ m) = (j ≢ k) × Fresh k m

  abbrev pub Distinct : Map V → Type 0
  Distinct [] = Unit
  Distinct ((j, w) ∷ m) = Fresh j m × Distinct m

  pub lookup-insert :
      (key other : ℕ) (val : V) (table : Map V)
      → lookup other (insert key val table)
        ≡ (if key == other then some val else lookup other table)
  unfolding lookup insert
  lookup-insert key other val [] = ground arith
  lookup-insert key other val (entry ∷ table) =
      let ih = lookup-insert key other val table in ground (arith, ih)

  pub lookup-remove :
      (k j : ℕ) (m : Map V) → lookup j (remove k m) ≡ (if k == j then none else lookup j m)
  unfolding lookup remove
  lookup-remove k j [] = ground arith
  lookup-remove k j ((i, w) ∷ m) = ground (arith, lookup-remove k j m)

  pub lookup-Fresh : (k : ℕ) (m : Map V) → Fresh k m → lookup k m ≡ none
  unfolding lookup
  lookup-Fresh k [] h = refl
  lookup-Fresh k ((j, w) ∷ m) h = ground (arith, lookup-Fresh k m h.1)

  pub insert-Fresh : (k j : ℕ) (v : V) (m : Map V) → j ≢ k → Fresh j m → Fresh j (insert k v m)
  unfolding insert
  insert-Fresh k j v [] h f = (λ e. h (sym e), tt)
  insert-Fresh k j v ((i, w) ∷ m) h f = ground (arith, insert-Fresh k j v m h f.1)

  pub insert-Distinct : (k : ℕ) (v : V) (m : Map V) → Distinct m → Distinct (insert k v m)
  unfolding insert
  insert-Distinct k v [] d = (tt, tt)
  insert-Distinct k v ((i, w) ∷ m) d =
      ground (arith, insert-Distinct k v m d.1, insert-Fresh k i v m)

  pub remove-Fresh : (k j : ℕ) (m : Map V) → Fresh j m → Fresh j (remove k m)
  unfolding remove
  remove-Fresh k j [] f = tt
  remove-Fresh k j ((i, w) ∷ m) f = ground (arith, remove-Fresh k j m f.1)

  pub remove-Distinct : (k : ℕ) (m : Map V) → Distinct m → Distinct (remove k m)
  unfolding remove
  remove-Distinct k [] d = tt
  remove-Distinct k ((i, w) ∷ m) d = ground (arith, remove-Distinct k m d.1, remove-Fresh k i m d.0)
