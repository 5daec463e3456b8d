-- ===== src/Core/Broadcast/Exclusion.antt =====
-- broadcast.rs: the index of the exclusions finds what the list holds.
use mathlib.Core.Path.{subst}
use beam_socket.Prelude.{
  ◌⊎◌, ◌≢◌, ℕ, zero, suc, ◌+◌, ◌/◌, ◌≤◌, ◌<◌, ◌≡◌, ◌∙◌, refl, sym, ap, false, ◌&&◌, ◌||◌, List, [],
  ◌∷◌, ◌++◌, leb, ◌==◌, length, take, drop, take-append-drop, length-take, length-append, All,
  arith, Bool-cases, inl, inr,
}
use beam_socket.Prelude.Keys.{nat_key, contains}
use beam_socket.Core.Broadcast.{exclusions, excludes, insert_id, sort_ids, binary_search}

List-cases : (xs : List ℕ) → (xs ≡ []) ⊎ ((x : ℕ) × (rest : List ℕ) × (xs ≡ x ∷ rest))
List-cases [] = inl refl
List-cases (x ∷ xs) = inr (x, xs, refl)

-- Each id is at most those behind it.
abbrev IsSorted : List ℕ → Type 0
IsSorted [] = Unit
IsSorted (x ∷ xs) = All (λ y. x ≤ y) xs × IsSorted xs

contains-append :
    (x : ℕ) (xs ys : List ℕ) → contains x (xs ++ ys) ≡ (contains x xs || contains x ys)
unfolding contains
contains-append x [] ys = refl
contains-append x (y ∷ xs) ys = ground (arith, contains-append x xs ys)

contains-insert_id :
    (x y : ℕ) (ys : List ℕ) → contains x (insert_id y ys) ≡ (y == x || contains x ys)
unfolding contains insert_id
contains-insert_id x y [] = refl
contains-insert_id x y (z ∷ zs) = ground (arith, contains-insert_id x y zs)

contains-sort_ids : (x : ℕ) (ids : List ℕ) → contains x (sort_ids ids) ≡ contains x ids
unfolding contains sort_ids
contains-sort_ids x [] = refl
contains-sort_ids x (y ∷ ys) =
    ground (arith, contains-insert_id x y (sort_ids ys), contains-sort_ids x ys)

All-insert_id :
    (low x : ℕ) (ys : List ℕ)
    → low ≤ x
    → All (λ y. low ≤ y) ys
    → All (λ y. low ≤ y) (insert_id x ys)
unfolding insert_id
All-insert_id low x [] b h = (b, tt)
All-insert_id low x (y ∷ ys) b h = ground (arith, All-insert_id low x ys b h.1)

All-weaken : (low mid : ℕ) (ys : List ℕ) → low ≤ mid → All (λ y. mid ≤ y) ys → All (λ y. low ≤ y) ys
All-weaken low mid [] b h = tt
All-weaken low mid (y ∷ ys) b h = (omega (arith, h.0), All-weaken low mid ys b h.1)

insert_id-IsSorted : (x : ℕ) (ys : List ℕ) → IsSorted ys → IsSorted (insert_id x ys)
unfolding insert_id
insert_id-IsSorted x [] h = (tt, tt)
insert_id-IsSorted x (y ∷ ys) h = elim (Bool-cases (leb x y)) [
  | inl e ↦ rw e ((ground arith, All-weaken x y ys (ground arith) h.0), h)
  | inr e ↦ rw e (All-insert_id y x ys (ground arith) h.0, insert_id-IsSorted x ys h.1)
]

sort_ids-IsSorted : (ids : List ℕ) → IsSorted (sort_ids ids)
unfolding sort_ids
sort_ids-IsSorted [] = tt
sort_ids-IsSorted (x ∷ xs) = insert_id-IsSorted x (sort_ids xs) (sort_ids-IsSorted xs)

-- Below the first of a sorted list there is nothing of it.
contains_below : (x m : ℕ) (ys : List ℕ) → x < m → All (λ y. m ≤ y) ys → contains x ys ≡ false
unfolding contains
contains_below x m [] b h = refl
contains_below x m (y ∷ ys) b h = ground (arith, contains_below x m ys b h.1)

All-around :
    (low m : ℕ) (left right : List ℕ)
    → All (λ y. low ≤ y) (left ++ (m ∷ right))
    → All (λ y. low ≤ y) left × (low ≤ m)
All-around low m [] right h = (tt, h.0)
All-around low m (y ∷ left) right h =
    let (above, at) = All-around low m left right h.1 in ((h.0, above), at)

-- Two sorted parts around an element.
contains_around :
    (x m : ℕ) (left right : List ℕ)
    → IsSorted (left ++ (m ∷ right))
    → IsSorted left
      × IsSorted right
      × (x < m → contains x right ≡ false)
      × (m < x → contains x left ≡ false)
unfolding contains
contains_around x m [] right h = (tt, h.1, λ b. contains_below x m right b h.0, λ b. refl)
contains_around x m (y ∷ left) right h =
    let (sorted_left, sorted_right, right_of, left_of) = contains_around x m left right h.1 in
    let (above, at) = All-around y m left right h.0 in
    ((above, sorted_left), sorted_right, right_of, λ b. ground (arith, b, left_of, at))

halves :
    (x m : ℕ) (ids right : List ℕ)
    → 1 ≤ length ids
    → drop (length ids / 2) ids ≡ m ∷ right
    → IsSorted ids
    → let left = take (length ids / 2) ids in
      IsSorted left
      × IsSorted right
      × (x < m → contains x right ≡ false)
      × (m < x → contains x left ≡ false)
      × (contains x ids ≡ (contains x left || (m == x || contains x right)))
      × (length left + length right + 1 ≡ length ids)
unfolding contains
halves x m ids right n e h =
    let left = take (length ids / 2) ids in
    let split : left ++ (m ∷ right) ≡ ids =
      ap (◌++◌ left) (sym e) ∙ take-append-drop (length ids / 2) ids in
    let whole = ap length split in
    let (a, b, c, d) = contains_around x m left right (subst IsSorted (sym split) h) in
    (
      a,
      b,
      c,
      d,
      sym (ap (contains x) split) ∙ contains-append x left (m ∷ right),
      omega (arith, whole, length-append left (m ∷ right)),
    )

not_at_end : (ids : List ℕ) → 1 ≤ length ids → drop (length ids / 2) ids ≢ []
not_at_end ids n e =
    let left = take (length ids / 2) ids in
    let whole = ap length (ap (◌++◌ left) (sym e) ∙ take-append-drop (length ids / 2) ids) in
    omega (arith, whole, length-append left [], length-take (length ids / 2) ids)

binary_search_lem :
    (fuel x : ℕ) (ids : List ℕ)
    → length ids ≤ fuel
    → IsSorted ids
    → binary_search fuel x ids ≡ contains x ids
unfolding binary_search contains
binary_search_lem zero x [] b h = refl
binary_search_lem zero x (y ∷ ys) b h = absurd (omega arith)
binary_search_lem (suc fuel) x [] b h = refl
binary_search_lem (suc fuel) x (y ∷ ys) b h =
    let ids = y ∷ ys in
    elim (List-cases (drop (length ids / 2) ids)) [
      | inl e ↦ absurd (not_at_end ids (omega arith) e)
      | inr (m, right, e) ↦
          let (a, d, none_right, none_left, whole, sizes) =
            halves x m ids right (omega arith) e h in
          let left = take (length ids / 2) ids in
          let at_left = binary_search_lem fuel x left (omega (arith, sizes, b)) a in
          let at_right = binary_search_lem fuel x right (omega (arith, sizes, b)) d in
          rw (binary_search, e) (ground (arith, at_left, at_right, none_right, none_left, whole))
    ]

-- Whichever of its two forms the index has, an id is excluded exactly if it is in the list.
pub excludes-exclusions :
    (except : List ℕ) (recipients id : ℕ)
    → excludes (exclusions except recipients) id ≡ contains id except
unfolding exclusions excludes
excludes-exclusions except recipients id =
    elim (Bool-cases
      (leb 32 (length except) && leb 64 recipients && leb (length except) recipients)) [
        | inl e ↦
            rw (exclusions, e)
              (binary_search_lem (length (sort_ids except)) id (sort_ids except) (omega arith)
                  (sort_ids-IsSorted except)
                ∙ contains-sort_ids id except)
        | inr e ↦ rw (exclusions, e) refl
      ]
