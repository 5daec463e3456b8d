-- ===== src/Mesh/Interest/Codec/Laws.antt =====
-- interest.rs: the updates and the digest are read back from their bytes.
use mathlib.Core.List.{append_assoc}
use beam_socket.Prelude.{
  ℕ, ◌%◌, ◌^◌, ◌<◌, ◌≡◌, refl, Bool, true, false, some, List, ◌∷◌, ◌++◌, length, All, arith, not,
  ◌==◌,
}
use beam_socket.Prelude.Bytes.{
  Bytes, get_le, put_many, le_bytes, get_le-append, get_bytes_exact, >>=-eq_some, get_many-put_many,
}
use beam_socket.Prelude.Utf8.{is_utf8}
use beam_socket.Mesh.Interest.{Target, room, user}
use beam_socket.Mesh.Interest.Codec.{
  of_bool, put_str, get_str, put_target, get_target, put_strs, get_strs, InterestUpdate, edge,
  snapshot, edge_bytes, snapshot_bytes, encode, decode_rest, decode_body, decode, put_entry,
  get_entry, encode_digest, decode_digest,
}

-- UTF-8 that fits its length's two bytes.
abbrev pub IsStr : Bytes → Type 0
IsStr s = (length s < 2 ^ 16) × (is_utf8 s ≡ true)

abbrev pub IsTarget : Target → Type 0
IsTarget (room r) = IsStr r
IsTarget (user u) = IsStr u

abbrev pub IsUpdate : InterestUpdate → Type 0
IsUpdate (edge e) = (e.origin < 2 ^ 16) × (e.seq < 2 ^ 64) × IsTarget e.target
IsUpdate (snapshot s) =
    (s.origin < 2 ^ 16)
    × (s.seq < 2 ^ 64)
    × (length s.rooms < 2 ^ 16)
    × All IsStr s.rooms
    × (length s.users < 2 ^ 16)
    × All IsStr s.users

abbrev pub IsEntry : ℕ × ℕ × ℕ → Type 0
IsEntry e = (e.0 < 2 ^ 16) × (e.1 < 2 ^ 64) × (e.2 < 2 ^ 64)

get_str-put_str : (s r : Bytes) → IsStr s → get_str (put_str s ++ r) ≡ some (s, r)
unfolding get_str put_str
get_str-put_str s r h =
    let small : length s % 2 ^ 16 ≡ length s = omega arith in
    ground (
      arith,
      small,
      append_assoc (le_bytes 2 (length s)) s r,
      get_le-append 2 (length s) (s ++ r) h.0,
      get_bytes_exact (length s) s r refl,
      h.1,
    )

get_target-put_target :
    (t : Target) (r : Bytes) → IsTarget t → get_target (put_target t ++ r) ≡ some (t, r)
unfolding get_target put_target
get_target-put_target (room s) r h = ground (arith, get_str-put_str s r h)
get_target-put_target (user s) r h = ground (arith, get_str-put_str s r h)

get_strs-put_strs :
    (items : List Bytes) (r : Bytes)
    → length items < 2 ^ 16
    → All IsStr items
    → get_strs (put_strs items ++ r) ≡ some (items, r)
unfolding get_strs put_strs
get_strs-put_strs items r n h =
    let small : length items % 2 ^ 16 ≡ length items = omega arith in
    ground (
      arith,
      small,
      append_assoc (le_bytes 2 (length items)) (put_many put_str items) r,
      get_le-append 2 (length items) (put_many put_str items ++ r) n,
      get_many-put_many IsStr put_str get_str get_str-put_str items r h,
    )

get_entry-put_entry :
    (e : ℕ × ℕ × ℕ) (r : Bytes) → IsEntry e → get_entry (put_entry e ++ r) ≡ some (e, r)
unfolding get_entry put_entry
get_entry-put_entry (origin, seq, h) r b = ground (
  arith,
  append_assoc (le_bytes 2 origin) (le_bytes 8 seq ++ le_bytes 8 h) r,
  get_le-append 2 origin (le_bytes 8 seq ++ (le_bytes 8 h ++ r)) b.0,
  append_assoc (le_bytes 8 seq) (le_bytes 8 h) r,
  get_le-append 8 seq (le_bytes 8 h ++ r) b.1,
  get_le-append 8 h r b.2,
)

is_of_bool : (b : Bool) → not (of_bool b == 0) ≡ b
is_of_bool true = refl
is_of_bool false = refl

decode_head :
    (sub origin seq : ℕ) (r : Bytes)
    → origin < 2 ^ 16
    → seq < 2 ^ 64
    → decode_body (sub ∷ (le_bytes 2 origin ++ (le_bytes 8 seq ++ r)))
      ≡ decode_rest sub origin seq r
unfolding decode_body
decode_head sub origin seq r b c =
    >>=-eq_some (get_le 2) _ _ origin (le_bytes 8 seq ++ r)
      (get_le-append 2 origin (le_bytes 8 seq ++ r) b)
      (>>=-eq_some (get_le 8) _ _ seq r (get_le-append 8 seq r c) refl)

-- An edge or a snapshot whose fields, counts and strings fit the wire is read back from its bytes,
-- whatever follows them.
pub decode-encode_update :
    (u : InterestUpdate) (r : Bytes) → IsUpdate u → decode (encode u ++ r) ≡ some u
unfolding decode encode decode_rest edge_bytes snapshot_bytes
decode-encode_update (edge e) r h = ground (
  arith,
  decode_head 1 e.origin e.seq (of_bool e.add ∷ (put_target e.target ++ r)) h.0 h.1,
  get_target-put_target e.target r h.2,
  is_of_bool e.add,
)
decode-encode_update (snapshot s) r h = ground (
  arith,
  append_assoc (put_strs s.rooms) (put_strs s.users) r,
  decode_head 2 s.origin s.seq (put_strs s.rooms ++ (put_strs s.users ++ r)) h.0 h.1,
  get_strs-put_strs s.rooms (put_strs s.users ++ r) h.2 h.3,
  get_strs-put_strs s.users r h.4 h.5,
)

-- A digest is read back from its bytes, whatever follows them, if it has less than 2 ^ 16 entries and
-- each fits the wire.
pub decode_digest-encode_digest :
    (entries : List (ℕ × ℕ × ℕ)) (r : Bytes)
    → length entries < 2 ^ 16
    → All IsEntry entries
    → decode_digest (encode_digest entries ++ r) ≡ some entries
unfolding decode_digest encode_digest
decode_digest-encode_digest entries r n h =
    let small : length entries % 2 ^ 16 ≡ length entries = omega arith in
    ground (
      arith,
      small,
      append_assoc (le_bytes 2 (length entries)) (put_many put_entry entries) r,
      get_le-append 2 (length entries) (put_many put_entry entries ++ r) n,
      get_many-put_many IsEntry put_entry get_entry get_entry-put_entry entries r h,
    )
