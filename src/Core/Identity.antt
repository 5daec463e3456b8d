-- ===== src/Core/Identity.antt =====
-- crates/core/src/identity.rs: the connections of each user. The `DashMap` is a function, a `HashSet` a list
-- of distinct values.
use beam_socket.Prelude.{
  ℕ, Bool, true, false, Option, none, some, List, [], ◌∷◌, if◌then◌else◌, length,
}
use beam_socket.Prelude.Bytes.{Bytes}
use beam_socket.Prelude.Keys.{nat_key, bytes_key, add, del, write}

abbrev pub UserMap : Type 0
UserMap = Bytes → Option (List ℕ)

unfoldable pub new : UserMap
new user = none

abbrev pub or_default : Option (List ℕ) → List ℕ
or_default none = []
or_default (some ids) = ids

unfoldable pub bind : Bytes → ℕ → UserMap → UserMap
bind user id users = write user (some (add id (or_default (users user)))) users

abbrev pub is_empty : List ℕ → Bool
is_empty [] = true
is_empty (id ∷ ids) = false

-- The entry goes with its last connection.
unfoldable pub unbind : Bytes → ℕ → UserMap → UserMap
unbind user id users = elim (users user) [
  | none ↦ users
  | some ids ↦
      (let rest = del id ids in
        if is_empty rest then write user none users else write user (some rest) users)
]

unfoldable pub connections : Bytes → UserMap → Option (List ℕ)
connections user users = users user

unfoldable pub device_count : Bytes → UserMap → ℕ
device_count user users = elim (users user) [ none ↦ 0 | some ids ↦ length ids ]
