-- ===== src/Mesh/Sync/Codec.antt =====
-- membership_sync.rs: the messages are read back from their bytes.
use mathlib.Core.List.{append_assoc}
use beam_socket.Prelude.{
  ℕ, ◌%◌, ◌^◌, ◌<◌, ◌≡◌, refl, true, false, some, List, ◌∷◌, ◌++◌, length, All, arith,
}
use beam_socket.Prelude.Bytes.{Bytes, put_many, le_bytes, get_le-append, get_many-put_many}
use beam_socket.Mesh.Addr.{put_addr, IsAddr, get_addr-put_addr}
use beam_socket.Mesh.Swim.Types.{MState, alive, suspect, dead, Update}
use beam_socket.Mesh.Sync.{
  MembershipMsg, sync, gossip, digest, state_u8, u8_state, put_update, get_update, put_updates,
  get_updates, put_entry, get_entry, encode, decode, decode_sync, decode_gossip, decode_digest,
}

-- The fields fit their widths on the wire.
abbrev pub IsUpdate : Update → Type 0
IsUpdate u = (u.id < 2 ^ 16) × (u.inc < 2 ^ 32) × IsAddr u.addr

abbrev pub IsEntry : ℕ × ℕ → Type 0
IsEntry e = (e.0 < 2 ^ 16) × (e.1 < 2 ^ 32)

-- The counts do too.
abbrev pub IsMsg : MembershipMsg → Type 0
IsMsg (sync reply us) = (length us < 2 ^ 16) × All IsUpdate us
IsMsg (gossip us) = (length us < 2 ^ 16) × All IsUpdate us
IsMsg (digest es) = (length es < 2 ^ 16) × All IsEntry es

u8_state-state_u8 : (s : MState) → u8_state (state_u8 s) ≡ some s
unfolding u8_state state_u8
u8_state-state_u8 alive = refl
u8_state-state_u8 suspect = refl
u8_state-state_u8 dead = refl

get_update-put_update :
    (u : Update) (r : Bytes) → IsUpdate u → get_update (put_update u ++ r) ≡ some (u, r)
unfolding get_update put_update
get_update-put_update u r h = ground (
  arith,
  append_assoc (le_bytes 2 u.id) (state_u8 u.state ∷ (le_bytes 4 u.inc ++ put_addr u.addr)) r,
  get_le-append 2 u.id (state_u8 u.state ∷ (le_bytes 4 u.inc ++ put_addr u.addr) ++ r) h.0,
  u8_state-state_u8 u.state,
  append_assoc (le_bytes 4 u.inc) (put_addr u.addr) r,
  get_le-append 4 u.inc (put_addr u.addr ++ r) h.1,
  get_addr-put_addr u.addr r h.2,
)

get_entry-put_entry :
    (e : ℕ × ℕ) (r : Bytes) → IsEntry e → get_entry (put_entry e ++ r) ≡ some (e, r)
unfolding get_entry put_entry
get_entry-put_entry (id, inc) r h = ground (
  arith,
  append_assoc (le_bytes 2 id) (le_bytes 4 inc) r,
  get_le-append 2 id (le_bytes 4 inc ++ r) h.0,
  get_le-append 4 inc r h.1,
)

-- A counted list of items, read back.
get_updates-put_updates :
    (us : List Update) (r : Bytes)
    → length us < 2 ^ 16
    → All IsUpdate us
    → get_updates (put_updates us ++ r) ≡ some (us, r)
unfolding get_updates put_updates
get_updates-put_updates us r n h = ground (
  arith,
  append_assoc (le_bytes 2 (length us % 2 ^ 16)) (put_many put_update us) r,
  get_le-append 2 (length us % 2 ^ 16) (put_many put_update us ++ r) (omega arith),
  get_many-put_many IsUpdate put_update get_update get_update-put_update us r h,
)

-- Every message whose fields and counts fit the wire is read back from its bytes, whatever follows
-- them.
pub decode-encode_msg :
    (msg : MembershipMsg) (r : Bytes) → IsMsg msg → decode (encode msg ++ r) ≡ some msg
unfolding decode encode decode_sync decode_gossip decode_digest
decode-encode_msg (sync true us) r h = ground (arith, get_updates-put_updates us r h.0 h.1)
decode-encode_msg (sync false us) r h = ground (arith, get_updates-put_updates us r h.0 h.1)
decode-encode_msg (gossip us) r h = ground (arith, get_updates-put_updates us r h.0 h.1)
decode-encode_msg (digest es) r h = ground (
  arith,
  append_assoc (le_bytes 2 (length es % 2 ^ 16)) (put_many put_entry es) r,
  get_le-append 2 (length es % 2 ^ 16) (put_many put_entry es ++ r) (omega arith),
  get_many-put_many IsEntry put_entry get_entry get_entry-put_entry es r h.1,
)
