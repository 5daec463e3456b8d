-- ===== src/Prelude/Bytes.antt =====
-- Rust's `to_le_bytes`, `from_le_bytes` and the checked reads `buf.get(off..off + n)?`. A byte is a
-- number below 256. The readers of the source carry a buffer and an offset; here the state of a
-- reader is the unread rest of the buffer, `&buf[off..]`.
use Prim.Native.Nat.{ℕ, zero, suc, ◌+◌, ◌*◌, ◌/◌, ◌%◌, ◌^◌, ◌<◌}
use mathlib.Core.Path.{◌≡◌, refl, ap, ◌∙◌}
use mathlib.Core.List.{append_assoc, List, [], ◌∷◌, ◌++◌}
use mathlib.Core.Option.{Option, none, some}
use native.Mathlib.Omega.{arith}
use native.Mathlib.Nat.{pow-suc}
use beam_socket.Prelude.Lists.{length, All}

abbrev pub IsByte : ℕ → Type 0
IsByte b = b < 256

abbrev pub Bytes : Type 0
Bytes = List ℕ

-- The `n` low bytes of `v`, lowest first.
abbrev pub le_bytes : ℕ → ℕ → Bytes
le_bytes zero v = []
le_bytes (suc n) v = (v % 256) ∷ le_bytes n (v / 256)

abbrev pub of_le_bytes : Bytes → ℕ
of_le_bytes [] = 0
of_le_bytes (b ∷ bs) = b + 256 * of_le_bytes bs

pub length-le_bytes : (n v : ℕ) → length (le_bytes n v) ≡ n
length-le_bytes zero v = refl
length-le_bytes (suc n) v = ap suc (length-le_bytes n (v / 256))

pub le_bytes-IsByte : (n v : ℕ) → All IsByte (le_bytes n v)
le_bytes-IsByte zero v = tt
le_bytes-IsByte (suc n) v = (omega arith, le_bytes-IsByte n (v / 256))

pub of_le_bytes-le_bytes : (n v : ℕ) → v < 256 ^ n → of_le_bytes (le_bytes n v) ≡ v
of_le_bytes-le_bytes zero v h = omega arith
of_le_bytes-le_bytes (suc n) v h =
    omega (arith, of_le_bytes-le_bytes n (v / 256) (omega (arith, pow-suc 256 n)))

-- The other way round, on bytes.
pub le_bytes-of_le_bytes : (bs : Bytes) → All IsByte bs → le_bytes (length bs) (of_le_bytes bs) ≡ bs
le_bytes-of_le_bytes [] h = refl
le_bytes-of_le_bytes (b ∷ bs) h =
    let low : (b + 256 * of_le_bytes bs) % 256 ≡ b = omega arith in
    let high : (b + 256 * of_le_bytes bs) / 256 ≡ of_le_bytes bs = omega arith in
    rw (low, high) (ap (◌∷◌ b) (le_bytes-of_le_bytes bs h.1))

abbrev pub Reader : Type 0 → Type 0
Reader A = Bytes → Option (A × Bytes)

infixl 5 ◌>>=◌
abbrev pub ◌>>=◌ : {A B : Type 0} → Reader A → (A → Reader B) → Reader B
◌>>=◌ m f r = elim (m r) [ none ↦ none | some (a, r') ↦ f a r' ]

abbrev pub pure : {A : Type 0} → A → Reader A
pure a r = some (a, r)

abbrev pub fail : {A : Type 0} → Reader A
fail r = none

-- `*buf.get(*off)?`, and the offset moves on by one.
abbrev pub get_u8 : Reader ℕ
get_u8 [] = none
get_u8 (b ∷ r) = some (b, r)

-- `buf.get(*off..*off + n)?`, and the offset moves on by `n`.
unfoldable pub get_bytes : ℕ → Reader Bytes
get_bytes zero r = some ([], r)
get_bytes (suc n) [] = none
get_bytes (suc n) (b ∷ r) = elim (get_bytes n r) [ none ↦ none | some (bs, r') ↦ some (b ∷ bs, r') ]

-- `uN::from_le_bytes(buf.get(*off..*off + n)?.try_into().ok()?)`.
pub get_le : ℕ → Reader ℕ
get_le n = do bs ← get_bytes n; pure (of_le_bytes bs)

-- `for _ in 0..count { v.push(read(buf, off)?); }`
unfoldable pub get_many : {A : Type 0} → ℕ → Reader A → Reader (List A)
get_many zero read = pure []
get_many (suc count) read = do a ← read; rest ← get_many count read; pure (a ∷ rest)

-- `for a in items { write(buf, a); }`
unfoldable pub put_many : {A : Type 0} → (A → Bytes) → List A → Bytes
put_many write [] = []
put_many write (a ∷ items) = write a ++ put_many write items

-- One step of a reader that reads: what a `do` block goes on with.
pub >>=-eq_some :
    {A B : Type 0} (m : Reader A) (f : A → Reader B) (r : Bytes) (a : A) (r' : Bytes)
    → m r ≡ some (a, r')
    → {res : Option (B × Bytes)} → f a r' ≡ res
    → (m >>= f) r ≡ res
>>=-eq_some m f r a r' e k = rw (e, ◌>>=◌) k

-- And of one that fails.
pub >>=-eq_none :
    {A B : Type 0} (m : Reader A) (f : A → Reader B) (r : Bytes) → m r ≡ none → (m >>= f) r ≡ none
>>=-eq_none m f r e = rw (e, ◌>>=◌)

pub get_bytes-append : (xs r : Bytes) → get_bytes (length xs) (xs ++ r) ≡ some (xs, r)
unfolding get_bytes
get_bytes-append [] r = refl
get_bytes-append (x ∷ xs) r = rw (get_bytes-append xs r)

pub get_bytes_exact : (n : ℕ) (xs r : Bytes) → length xs ≡ n → get_bytes n (xs ++ r) ≡ some (xs, r)
get_bytes_exact n xs r e = rw (← e) (get_bytes-append xs r)

pub get_le-append : (n v : ℕ) (r : Bytes) → v < 256 ^ n → get_le n (le_bytes n v ++ r) ≡ some (v, r)
unfolding get_le
get_le-append n v r h =
    >>=-eq_some (get_bytes n) _ _ (le_bytes n v) r
      (get_bytes_exact n (le_bytes n v) r (length-le_bytes n v))
      (ap (λ t. some (t, r)) (of_le_bytes-le_bytes n v h))

-- Items that can be read back one by one can be read back together.
pub get_many-put_many :
    {A : Type 0} (P : A → Type 0) (write : A → Bytes) (read : Reader A)
    → ((a : A) (r : Bytes) → P a → read (write a ++ r) ≡ some (a, r))
    → (items : List A) (r : Bytes) → All P items
    → get_many (length items) read (put_many write items ++ r) ≡ some (items, r)
unfolding get_many put_many
get_many-put_many P write read back [] r h = refl
get_many-put_many P write read back (a ∷ items) r h =
    ap (get_many (suc (length items)) read) (append_assoc (write a) (put_many write items) r)
    ∙ >>=-eq_some read _ _ a (put_many write items ++ r) (back a (put_many write items ++ r) h.0) (
        >>=-eq_some (get_many (length items) read) _ _ items r
          (get_many-put_many P write read back items r h.1) refl)
