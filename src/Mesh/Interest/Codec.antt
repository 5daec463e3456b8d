-- ===== src/Mesh/Interest/Codec.antt =====
-- interest.rs: the bytes of the INTEREST and INTEREST_DIGEST frames. An encoder's `buf` is the bytes that
-- it appends; a decoder's buffer and offset are the unread rest.
pub mod Laws
use beam_socket.Prelude.{
  ℕ, ◌%◌, ◌^◌, Bool, true, false, not, Option, none, some, List, [], ◌∷◌, ◌++◌, ◌==◌, if◌then◌else◌,
  length,
}
use beam_socket.Prelude.Bytes.{
  Bytes, Reader, ◌>>=◌, pure, fail, get_u8, get_bytes, get_le, get_many, put_many, le_bytes,
}
use beam_socket.Prelude.Utf8.{is_utf8}
use beam_socket.Mesh.Interest.{Target, room, user, InterestEdge, InterestSnapshot}

pub put_str : Bytes → Bytes
put_str s = le_bytes 2 (length s % 2 ^ 16) ++ s

pub get_str : Reader Bytes
get_str = do len ← get_le 2; s ← get_bytes len; if is_utf8 s then pure s else fail

put_target : Target → Bytes
put_target (room r) = 1 ∷ put_str r
put_target (user u) = 2 ∷ put_str u

get_target : Reader Target
get_target = do
  kind ← get_u8
  s ← get_str
  if kind == 1 then pure (room s) else if kind == 2 then pure (user s) else fail

put_strs : List Bytes → Bytes
put_strs items = le_bytes 2 (length items % 2 ^ 16) ++ put_many put_str items

get_strs : Reader (List Bytes)
get_strs = do n ← get_le 2; get_many n get_str

pub data InterestUpdate : Type 0 where
  edge : InterestEdge → InterestUpdate
  snapshot : InterestSnapshot → InterestUpdate

abbrev of_bool : Bool → ℕ
of_bool true = 1
of_bool false = 0

edge_bytes : InterestEdge → Bytes
edge_bytes e = le_bytes 2 e.origin ++ (le_bytes 8 e.seq ++ (of_bool e.add ∷ put_target e.target))

snapshot_bytes : InterestSnapshot → Bytes
snapshot_bytes s =
    le_bytes 2 s.origin ++ (le_bytes 8 s.seq ++ (put_strs s.rooms ++ put_strs s.users))

pub encode : InterestUpdate → Bytes
unfolding edge_bytes snapshot_bytes
encode (edge e) = 1 ∷ edge_bytes e
encode (snapshot s) = 2 ∷ snapshot_bytes s

-- What follows the origin and the sequence number.
decode_rest : ℕ → ℕ → ℕ → Reader InterestUpdate
decode_rest sub origin seq =
    if sub == 1
    then (do
      add ← get_u8
      target ← get_target
      pure (edge (record { origin = origin; seq = seq; add = not (add == 0); target = target })))
    else if sub == 2
    then (do
      rooms ← get_strs
      users ← get_strs
      pure (snapshot (record { origin = origin; seq = seq; rooms = rooms; users = users })))
    else fail

decode_body : Reader InterestUpdate
decode_body = do sub ← get_u8; origin ← get_le 2; seq ← get_le 8; decode_rest sub origin seq

abbrev value : {A : Type 0} → Option (A × Bytes) → Option A
value none = none
value (some (a, r)) = some a

-- Bytes behind a whole update are ignored.
pub decode : Bytes → Option InterestUpdate
unfolding decode_body
decode body = value (decode_body body)

put_entry : ℕ × ℕ × ℕ → Bytes
put_entry (origin, seq, h) = le_bytes 2 origin ++ (le_bytes 8 seq ++ le_bytes 8 h)

get_entry : Reader (ℕ × ℕ × ℕ)
get_entry = do origin ← get_le 2; seq ← get_le 8; h ← get_le 8; pure (origin, seq, h)

pub encode_digest : List (ℕ × ℕ × ℕ) → Bytes
encode_digest entries = le_bytes 2 (length entries % 2 ^ 16) ++ put_many put_entry entries

pub decode_digest : Bytes → Option (List (ℕ × ℕ × ℕ))
decode_digest body = value ((do n ← get_le 2; get_many n get_entry) body)
