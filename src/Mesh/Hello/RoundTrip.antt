-- ===== src/Mesh/Hello/RoundTrip.antt =====
-- hello.rs: a HELLO is read back from its body, also from one that a later version has made longer.
use beam_socket.Prelude.{
  zero, ◌*◌, ◌/◌, ℕ, suc, ◌+◌, ◌%◌, ◌^◌, ◌≤◌, ◌<◌, ◌≡◌, ◌∙◌, refl, ap, true, [], ◌∷◌, ◌++◌, length,
  take, drop, take-length, drop-length, length-append, arith,
}
use mathlib.Core.List.{append_assoc}
use beam_socket.Prelude.Bytes.{Bytes, of_le_bytes-le_bytes}
use beam_socket.Prelude.Utf8.{is_utf8}
use beam_socket.Prelude.Results.{ok}
use beam_socket.Mesh.Hello.{Hello, encode, decode, max_cluster_name_len}

-- The fields fit their widths, and the name is a string of at most 255 bytes.
pub record IsHello (h : Hello) : Type 0 where
  pub version : h.protocol_version < 2 ^ 16
  pub id : h.node_id < 2 ^ 16
  pub inc : h.incarnation < 2 ^ 64
  pub frame : h.max_frame < 2 ^ 32
  pub feature_bits : h.features < 2 ^ 32
  pub nonce : length h.fresh ≡ 32
  pub name : length h.cluster_name ≤ max_cluster_name_len
  pub text : is_utf8 h.cluster_name ≡ true

take_exact : (n : ℕ) (xs r : Bytes) → length xs ≡ n → take n (xs ++ r) ≡ xs
take_exact n xs r e = rw (← e) (take-length xs r)

drop_exact : (n : ℕ) (xs r : Bytes) → length xs ≡ n → drop n (xs ++ r) ≡ r
drop_exact n xs r e = rw (← e) (drop-length xs r)

-- The part of a body behind its numbers: the fresh bytes, the name's length, the name, the extra.
abbrev variable_part : Bytes → ℕ → ℕ → Bytes → Bytes → Bytes
variable_part fresh n₀ n₁ name extra = (fresh ++ (n₀ ∷ n₁ ∷ name)) ++ extra

variable_drop :
    (fresh : Bytes) (n₀ n₁ : ℕ) (name extra : Bytes)
    → length fresh ≡ 32
    → drop 32 (variable_part fresh n₀ n₁ name extra) ≡ n₀ ∷ n₁ ∷ (name ++ extra)
variable_drop fresh n₀ n₁ name extra e =
    ap (drop 32) (append_assoc fresh (n₀ ∷ n₁ ∷ name) extra)
    ∙ drop_exact 32 fresh (n₀ ∷ n₁ ∷ (name ++ extra)) e

variable_take :
    (fresh : Bytes) (n₀ n₁ : ℕ) (name extra : Bytes)
    → length fresh ≡ 32
    → take 32 (variable_part fresh n₀ n₁ name extra) ≡ fresh
variable_take fresh n₀ n₁ name extra e =
    ap (take 32) (append_assoc fresh (n₀ ∷ n₁ ∷ name) extra)
    ∙ take_exact 32 fresh (n₀ ∷ n₁ ∷ (name ++ extra)) e

drop_empty : (n : ℕ) (xs : Bytes) → xs ≡ [] → drop n xs ≡ []
drop_empty zero xs e = e
drop_empty (suc n) [] e = refl
drop_empty (suc n) (x ∷ xs) e = absurd (cc e)

drop-drop : (n k : ℕ) (xs : Bytes) → drop n (drop k xs) ≡ drop (k + n) xs
drop-drop n zero xs = let e : 0 + n ≡ n = omega arith in rw e
drop-drop n (suc k) [] =
    let e : suc k + n ≡ suc (k + n) = omega arith in rw e (drop_empty n [] refl)
drop-drop n (suc k) (x ∷ xs) =
    let e : suc k + n ≡ suc (k + n) = omega arith in rw e (drop-drop n k xs)

-- A HELLO whose fields fit their widths and whose name is UTF-8 within its bound is read back from
-- its body, and from the body with any bytes appended.
pub decode-encode_hello :
    (h : Hello) (extra : Bytes) → IsHello h → decode (encode h ++ extra) ≡ ok h
unfolding decode encode
decode-encode_hello h extra v =
    let n : ℕ = length h.cluster_name % 2 ^ 16 in
    let T : Bytes = variable_part h.fresh (n % 256) (n / 256 % 256) h.cluster_name extra in
    ground (
      arith,
      variable_drop h.fresh (n % 256) (n / 256 % 256) h.cluster_name extra v.nonce,
      variable_take h.fresh (n % 256) (n / 256 % 256) h.cluster_name extra v.nonce,
      drop-drop 2 32 T,
      take_exact (n % 256 + 256 * (n / 256 % 256 + 256 * 0)) h.cluster_name extra (omega arith),
      of_le_bytes-le_bytes 2 h.protocol_version v.version,
      of_le_bytes-le_bytes 2 h.node_id v.id,
      of_le_bytes-le_bytes 8 h.incarnation v.inc,
      of_le_bytes-le_bytes 4 h.max_frame v.frame,
      of_le_bytes-le_bytes 4 h.features v.feature_bits,
      length-append (h.fresh ++ (n % 256 ∷ n / 256 % 256 ∷ h.cluster_name)) extra,
      length-append h.fresh (n % 256 ∷ n / 256 % 256 ∷ h.cluster_name),
    )
