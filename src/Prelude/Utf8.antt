-- ===== src/Prelude/Utf8.antt =====
-- `std::str::from_utf8`: which byte lists are the bytes of a string (Unicode, table 3-7).
use Prim.Native.Nat.{ℕ, zero, suc}
use mathlib.Core.Bool.{Bool, true, false, ◌&&◌}
use mathlib.Core.Option.{Option, none, some}
use mathlib.Core.List.{List, [], ◌∷◌}
use beam_socket.Prelude.Tests.{ltb, leb, ◌==◌, if◌then◌else◌}

-- Of a leading byte: how many bytes follow, and the range of the first that does.
utf8_lead : ℕ → Option (ℕ × ℕ × ℕ)
utf8_lead b =
    if ltb b 0x80
    then some (0, 0x80, 0xbf)
    else if ltb b 0xc2
    then none
    else if ltb b 0xe0
    then some (1, 0x80, 0xbf)
    else if b == 0xe0
    then some (2, 0xa0, 0xbf)
    else if b == 0xed
    then some (2, 0x80, 0x9f)
    else if ltb b 0xf0
    then some (2, 0x80, 0xbf)
    else if b == 0xf0
    then some (3, 0x90, 0xbf)
    else if ltb b 0xf4
    then some (3, 0x80, 0xbf)
    else if b == 0xf4
    then some (3, 0x80, 0x8f)
    else none

-- `pending` bytes of a character are still to come, the next one within `lo` and `hi`.
utf8_from : ℕ → ℕ → ℕ → List ℕ → Bool
unfolding utf8_lead
utf8_from zero lo hi [] = true
utf8_from (suc pending) lo hi [] = false
utf8_from zero lo hi (b ∷ bs) = elim (utf8_lead b) [
  | none ↦ false
  | some (n, lo', hi') ↦ utf8_from n lo' hi' bs
]
utf8_from (suc pending) lo hi (b ∷ bs) = leb lo b && leb b hi && utf8_from pending 0x80 0xbf bs

unfoldable pub is_utf8 : List ℕ → Bool
unfolding utf8_from
is_utf8 bs = utf8_from 0 0 0 bs
