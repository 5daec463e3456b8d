-- ===== src/Core/Limits/Slots/Effects.antt =====
-- limits.rs: what each step of the limiter does to the count and the zero of an address.
use beam_socket.Prelude.{
  ◌+◌, ◌-◌, ◌≤◌, ◌≡◌, refl, sym, ap, Bool, true, false, not, ◌&&◌, ◌||◌, List, [], ◌∷◌, ◌++◌, leb,
  ◌==◌, if◌then◌else◌, arith, Bool-cases, Option-cases, inl, inr,
}
use beam_socket.Prelude.Keys.{bytes_key, same, contains}
use beam_socket.Core.Limits.{Ip, IpLimiter, current, try_admit, decrement, reap, count_of}
use beam_socket.Core.Limits.Slots.{held, is_zero, reap_if, take_slot}

held-append : (ip : Ip) (xs ys : List Ip) → held ip (xs ++ ys) ≡ held ip xs + held ip ys
unfolding held
held-append ip [] ys = omega arith
held-append ip (x ∷ xs) ys = ground (arith, held-append ip xs ys)

contains-append :
    (ip : Ip) (xs ys : List Ip) → contains ip (xs ++ ys) ≡ (contains ip xs || contains ip ys)
unfolding contains
contains-append ip [] ys = refl
contains-append ip (x ∷ xs) ys = ground (arith, contains-append ip xs ys)

counts_at : (l : IpLimiter) (ip other : Ip) → same ip other ≡ true → l.counts other ≡ l.counts ip
counts_at l ip other e = ap l.counts (sym (bytes_key.same→eq ip other e))

-- What each access to the map does to the count and the zero of an address.
pub admit-view :
    (ip other : Ip) (l : IpLimiter) (guards : List Ip)
    → 1 ≤ l.max_per_ip
    → let (after, slot) = try_admit ip l in
      (held other (take_slot slot ip guards) + current l other
        ≡ held other guards + current after other)
      × (current l other ≤ l.max_per_ip → current after other ≤ l.max_per_ip)
      × (is_zero after other ≡ true → is_zero l other ≡ true)
      × (after.max_per_ip ≡ l.max_per_ip)
unfolding try_admit current is_zero held
admit-view ip other l guards m =
    let limited : (l.max_per_ip == 0) ≡ false = ground arith in
    elim (Bool-cases (leb l.max_per_ip (count_of (l.counts ip)))) [
      | inl f ↦ elim (Bool-cases (same ip other)) [
        | inl e ↦
            let at = counts_at l ip other e in
            rw (try_admit, limited, f, e, is_zero, at)
              (ground arith, ground arith, ground arith, refl)
        | inr e ↦ rw (try_admit, limited, f, is_zero, e) (refl, λ b. b, λ z. z, refl)
      ]
      | inr f ↦ elim (Bool-cases (same ip other)) [
        | inl e ↦
            let at = counts_at l ip other e in
            rw (try_admit, limited, f, e, is_zero, at)
              (ground arith, ground arith, ground arith, refl)
        | inr e ↦ rw (try_admit, limited, f, is_zero, e) (refl, λ b. b, λ z. z, refl)
      ]
    ]

pub decrement-view :
    (ip other : Ip) (l : IpLimiter)
    → let (after, zeroed) = decrement ip l in
      (current after other ≡ (if same ip other then current l other - 1 else current l other))
      × (is_zero after other ≡ true → (zeroed && same ip other || is_zero l other) ≡ true)
      × (after.max_per_ip ≡ l.max_per_ip)
unfolding decrement current is_zero
decrement-view ip other l = elim (Option-cases (l.counts ip)) [
  | inl n ↦ elim (Bool-cases (same ip other)) [
    | inl e ↦
        let at = counts_at l ip other e in
        rw (decrement, n, e, is_zero, at, n) (ground arith, ground arith, refl)
    | inr e ↦ rw (decrement, n, e, is_zero) (ground arith, ground arith, refl)
  ]
  | inr (c, n) ↦ elim (Bool-cases (same ip other)) [
    | inl e ↦
        let at = counts_at l ip other e in
        rw (decrement, n, e, is_zero, at, n) (refl, λ z. ground (arith, z), refl)
    | inr e ↦ rw (decrement, n, is_zero, e) (refl, λ z. ground (arith, z), refl)
  ]
]

pub reap-view :
    (ip other : Ip) (l : IpLimiter)
    → (current (reap ip l) other ≡ current l other)
      × (is_zero (reap ip l) other ≡ true → (not (same ip other) && is_zero l other) ≡ true)
      × ((reap ip l).max_per_ip ≡ l.max_per_ip)
unfolding reap current is_zero
reap-view ip other l = elim (Option-cases (l.counts ip)) [
  | inl n ↦ elim (Bool-cases (same ip other)) [
    | inl e ↦
        let at = counts_at l ip other e in
        rw (reap, n, e, is_zero, at, n) (ground arith, ground arith, refl)
    | inr e ↦ rw (reap, n, e, is_zero) (ground arith, ground arith, refl)
  ]
  | inr (c, n) ↦ elim (Bool-cases (same ip other)) [
    | inl e ↦
        let at = counts_at l ip other e in
        elim (Bool-cases (c == 0)) [
          | inl z ↦
              rw (reap, n, z, e, is_zero, at, n) (ground (arith, z), λ y. ground (arith, y), refl)
          | inr z ↦ rw (reap, n, z, is_zero, at, n, e) (refl, λ y. ground (arith, y, z), refl)
        ]
    | inr e ↦ elim (Bool-cases (c == 0)) [
      | inl z ↦ rw (reap, n, z, is_zero, e) (refl, λ y. y, refl)
      | inr z ↦ rw (reap, n, z, is_zero, e) (refl, λ y. y, refl)
    ]
  ]
]

pub middle :
    (ip other : Ip) (before after : List Ip)
    → (held other (before ++ (ip ∷ after))
        ≡ (if same ip other then 1 else 0) + held other (before ++ after))
      × (contains other (before ++ (ip ∷ after))
          ≡ (same ip other || contains other (before ++ after)))
unfolding held contains
middle ip other before after = (
  ground (arith, held-append other before (ip ∷ after), held-append other before after),
  ground (arith, contains-append other before (ip ∷ after), contains-append other before after),
)

pub contains-reap_if :
    (zeroed : Bool) (ip other : Ip) (reaps : List Ip)
    → contains other (reap_if zeroed ip reaps) ≡ (zeroed && same ip other || contains other reaps)
unfolding contains
contains-reap_if true ip other reaps = refl
contains-reap_if false ip other reaps = refl
