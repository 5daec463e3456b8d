-- ===== src/Core/Rooms/Tests.antt =====
-- Concrete runs of the registry and the rooms.
use beam_socket.Prelude.{ℕ, ◌^◌, ◌<◌, ◌≡◌, refl, false, none, [], ◌∷◌, arith}
use beam_socket.Prelude.Bytes.{Bytes}
use beam_socket.Prelude.Maps
use beam_socket.Prelude.Keys
use beam_socket.Core.Ids
use beam_socket.Core.Registry
use beam_socket.Core.Registry.{Registry, Entry, register, find}
use beam_socket.Core.Rooms
use beam_socket.Core.Rooms.{Hub, join, reap}
use beam_socket.Core.Rooms.View.{in_room, joined, hollow}
use beam_socket.Core.Rooms.Steps
use beam_socket.Core.Rooms.Steps.{
  begin_leave, Reach, here, next, on_register, on_join, on_leave, on_reap, on_broadcast, start,
}
use beam_socket.Core.Rooms.Steps.Invariant.{Reach-settled}

abbrev lobby : Bytes
lobby = 108 ∷ []

abbrev connected : Hub
connected = record Rooms.new { conns = (register 0 7 none Registry.new).0 }

abbrev inside : Hub
inside = (join 0 lobby 4 connected).0

abbrev left : Hub
left = record (begin_leave 0 lobby inside).0 {
  rooms = reap lobby (begin_leave 0 lobby inside).0.rooms;
}

-- A connection comes, joins the lobby and leaves it, and the lobby is removed.
left-Reach : Reach 4 start (record { hub = left; tasks = [] })
unfolding Rooms.new Registry.new Maps.lookup Maps.insert Registry.register Registry.next_generation
    Ids.new Ids.shard Ids.key Ids.generation Registry.find Registry.with_rooms Registry.put_entry
    Rooms.join Rooms.join_set Rooms.insert_member Rooms.unlink Steps.begin_leave Steps.unlink_set
    Steps.pending_unlink Keys.contains Keys.add Keys.del
left-Reach = next _ _ _ (on_register 0 7 none Rooms.new [] (omega arith, refl) (λ room. refl)) (
    next _ _ _ (on_join 0 lobby connected [] (omega arith)) (
      next _ _ _ (on_leave 0 lobby inside [] (omega arith))
        (next _ _ _ (on_reap lobby (begin_leave 0 lobby inside).0 [] []) (here _))))

Reach-settled_example :
    ((id : ℕ) (room : Bytes) → id < 2 ^ 64 → in_room left.rooms room id ≡ joined left.conns id room)
    × ((room : Bytes) → hollow left.rooms room ≡ false)
Reach-settled_example = Reach-settled 4 left left-Reach
