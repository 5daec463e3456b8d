-- ===== src/Core/Relay/RoundTrip.antt =====
-- cluster.rs: a relay reaches at the receiver what the sender addressed.
use mathlib.Core.List.{append_assoc}
use beam_socket.Prelude.{
  ℕ, ◌+◌, ◌%◌, ◌^◌, ◌<◌, ◌≡◌, refl, Bool, true, some, List, ◌++◌, length, All, arith,
}
use beam_socket.Prelude.Bytes.{
  Bytes, put_many, le_bytes, get_le-append, get_bytes_exact, get_many-put_many,
}
use beam_socket.Prelude.Utf8.{is_utf8}
use beam_socket.Core.Mailbox.{BackpressurePolicy}
use beam_socket.Core.Registry.{Registry}
use beam_socket.Core.Rooms.{RoomMap}
use beam_socket.Core.Identity.{UserMap}
use beam_socket.Core.Broadcast.{Handles, FanoutTarget, to_room, to_user, to_all}
use beam_socket.Core.Relay.{
  NodeConnId, put_str, get_str, put_except, get_except, put_excepts, get_excepts, relay_kind,
  relay_meta, get_addressed, fan_local, fan_in, deliver_local,
}

-- UTF-8 that fits its length's two bytes.
abbrev pub IsName : Bytes → Type 0
IsName s = (length s < 2 ^ 16) × (is_utf8 s ≡ true)

abbrev pub IsTarget : FanoutTarget → Type 0
IsTarget (to_room room) = IsName room
IsTarget (to_user user) = IsName user
IsTarget to_all = Unit

abbrev pub IsExcept : NodeConnId → Type 0
IsExcept e = (e.node < 2 ^ 16) × (e.conn < 2 ^ 64)

get_str-put_str : (s r : Bytes) → IsName s → get_str (put_str s ++ r) ≡ some (s, r)
unfolding get_str put_str
get_str-put_str s r h =
    let small : length s % 2 ^ 16 ≡ length s = omega arith in
    ground (
      arith,
      small,
      append_assoc (le_bytes 2 (length s)) s r,
      get_le-append 2 (length s) (s ++ r) h.0,
      get_bytes_exact (length s) s r refl,
      h.1,
    )

get_except-put_except :
    (e : NodeConnId) (r : Bytes) → IsExcept e → get_except (put_except e ++ r) ≡ some (e, r)
unfolding get_except put_except
get_except-put_except e r h = ground (
  arith,
  append_assoc (le_bytes 2 e.node) (le_bytes 8 e.conn) r,
  get_le-append 2 e.node (le_bytes 8 e.conn ++ r) h.0,
  get_le-append 8 e.conn r h.1,
)

get_excepts-put_excepts :
    (excepts : List NodeConnId) (r : Bytes)
    → length excepts < 2 ^ 16
    → All IsExcept excepts
    → get_excepts (put_excepts excepts ++ r) ≡ some (excepts, r)
unfolding get_excepts put_excepts
get_excepts-put_excepts excepts r n h =
    let small : length excepts % 2 ^ 16 ≡ length excepts = omega arith in
    ground (
      arith,
      small,
      append_assoc (le_bytes 2 (length excepts)) (put_many put_except excepts) r,
      get_le-append 2 (length excepts) (put_many put_except excepts ++ r) n,
      get_many-put_many IsExcept put_except get_except get_except-put_except excepts r h,
    )

get_addressed_lem :
    (name : Bytes) (excepts : List NodeConnId) (r : Bytes)
    → IsName name
    → length excepts < 2 ^ 16
    → All IsExcept excepts
    → get_addressed ((put_str name ++ put_excepts excepts) ++ r) ≡ some ((name, excepts), r)
get_addressed_lem name excepts r k n h = ground (
  arith,
  append_assoc (put_str name) (put_excepts excepts) r,
  get_str-put_str name (put_excepts excepts ++ r) k,
  get_excepts-put_excepts excepts r n h,
)

-- A message relayed to a room, a user or all, with a name that fits its two bytes of length and fewer than
-- 65536 exceptions, is fanned out by the node that receives it to its own connections of that target, with
-- the message's bytes as they were and without the exceptions that name this node.
pub deliver_local-relay_meta :
    (policy : BackpressurePolicy) (hwm self_node : ℕ) (conns : Registry) (rooms : RoomMap)
    (users : UserMap) (hs : Handles) (target : FanoutTarget) (except : List NodeConnId)
    (relay_in : ℕ) (is_binary : Bool) (payload : Bytes)
    → IsTarget target
    → length except < 2 ^ 16
    → All IsExcept except
    → deliver_local policy hwm self_node conns rooms users hs relay_in
        (relay_kind target)
        is_binary
        (relay_meta target except ++ payload)
      ≡ (
        (relay_in + 1) % 2 ^ 64,
        fan_local policy hwm self_node conns rooms users hs target except is_binary payload,
      )
unfolding deliver_local fan_in relay_meta
deliver_local-relay_meta policy hwm self_node conns rooms users hs (to_room room) except c b payload
      k n h =
    rw (deliver_local, fan_in, relay_meta, get_addressed_lem room except payload k n h) refl
deliver_local-relay_meta policy hwm self_node conns rooms users hs (to_user user) except c b payload
      k n h =
    rw (deliver_local, fan_in, relay_meta, get_addressed_lem user except payload k n h) refl
deliver_local-relay_meta policy hwm self_node conns rooms users hs to_all except c b payload k n h =
    rw (deliver_local, fan_in, relay_meta, get_excepts-put_excepts except payload n h) refl
