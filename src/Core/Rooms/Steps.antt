-- ===== src/Core/Rooms/Steps.antt =====
-- rooms.rs: what the connection tasks and the JS thread do to a hub at the same time. Each step is one
-- critical section; a task is a critical section that a method has still to come to. The rooms of a
-- connection that has gone are unlinked in any order.
pub mod Effects
pub mod Comings
pub mod Invariant
use beam_socket.Prelude.{
  ℕ, ◌^◌, ◌<◌, ◌≡◌, Bool, true, false, ◌&&◌, ◌||◌, Option, none, some, List, [], ◌∷◌, ◌++◌, ◌==◌,
  if◌then◌else◌,
}
use beam_socket.Prelude.Bytes.{Bytes}
use beam_socket.Prelude.Keys.{bytes_key, same, contains, del}
use beam_socket.Core.Registry.{Registry, register, remove_full, with_rooms, find}
use beam_socket.Core.Registry.Laws.{IsVacant}
use beam_socket.Core.Rooms.{Hub, RoomMap, join, unlink, reap, record_and_members, new}
use beam_socket.Core.Rooms.View.{in_room, joined, hollow}

pub data Task : Type 0 where
  unlink_task : Bytes → ℕ → Task
  reap_task : Bytes → Task

pub record World : Type 0 where
  pub hub : Hub
  pub tasks : List Task

unfoldable pub pending_unlink : Bytes → ℕ → List Task → Bool
pending_unlink room id [] = false
pending_unlink room id (unlink_task r i ∷ ts) = same r room && i == id || pending_unlink room id ts
pending_unlink room id (reap_task r ∷ ts) = pending_unlink room id ts

unfoldable pub pending_reap : Bytes → List Task → Bool
pending_reap room [] = false
pending_reap room (unlink_task r i ∷ ts) = pending_reap room ts
pending_reap room (reap_task r ∷ ts) = same r room || pending_reap room ts

abbrev pub reap_if : Bool → Bytes → List Task → List Task
reap_if emptied room ts = if emptied then reap_task room ∷ ts else ts

-- `leave` as far as the drop of the room's guard, and whether it found the room empty.
unfoldable pub unlink_set : Bytes → ℕ → RoomMap → List Bytes → List Bytes × (RoomMap × Bool)
unfolding unlink
unlink_set room id rooms set =
    if contains room set then (del room set, unlink room id rooms) else (set, (rooms, false))

abbrev pub settle_leave : Registry × Option (RoomMap × Bool) → RoomMap → Hub × Bool
settle_leave (conns, none) rooms = (record { conns = conns; rooms = rooms }, false)
settle_leave (conns, some (after, emptied)) rooms =
    (record { conns = conns; rooms = after }, emptied)

unfoldable pub begin_leave : ℕ → Bytes → Hub → Hub × Bool
unfolding unlink_set
begin_leave id room h = settle_leave (with_rooms id (unlink_set room id h.rooms) h.conns) h.rooms

unfoldable pub unlink_all : ℕ → List Bytes → List Task
unlink_all id [] = []
unlink_all id (room ∷ rooms) = unlink_task room id ∷ unlink_all id rooms

-- `remove_full`, and the cleanup of the rooms that it handed back.
unfoldable pub begin_disconnect : ℕ → Hub → Hub × List Task
unfolding unlink_all
begin_disconnect id h =
    let (conns, taken) = remove_full id h.conns in
    elim taken [
      | none ↦ (h, [])
      | some (handle, rooms) ↦ (record h { conns = conns }, unlink_all id rooms)
    ]

-- An id is handed out again only after the cleanup of the connection that had it: its slot has 2^24
-- generations.
abbrev pub IsFresh : ℕ → List Task → Type 0
IsFresh id ts = (room : Bytes) → pending_unlink room id ts ≡ false

pub data Step (max_rooms : ℕ) : World → World → Type 0 where
  on_register :
      (vacant handle : ℕ) (user : Option Bytes) (h : Hub) (ts : List Task)
      → IsVacant vacant h.conns
      → IsFresh (register vacant handle user h.conns).1 ts
      → Step max_rooms
          (record { hub = h; tasks = ts })
          (record {
            hub = record h { conns = (register vacant handle user h.conns).0 };
            tasks = ts;
          })
  on_join :
      (id : ℕ) (room : Bytes) (h : Hub) (ts : List Task)
      → id < 2 ^ 64
      → Step max_rooms
          (record { hub = h; tasks = ts })
          (record { hub = (join id room max_rooms h).0; tasks = ts })
  on_leave :
      (id : ℕ) (room : Bytes) (h : Hub) (ts : List Task)
      → id < 2 ^ 64
      → Step max_rooms
          (record { hub = h; tasks = ts })
          (record {
            hub = (begin_leave id room h).0;
            tasks = reap_if (begin_leave id room h).1 room ts;
          })
  on_disconnect :
      (id : ℕ) (h : Hub) (ts : List Task)
      → id < 2 ^ 64
      → Step max_rooms
          (record { hub = h; tasks = ts })
          (record { hub = (begin_disconnect id h).0; tasks = (begin_disconnect id h).1 ++ ts })
  on_unlink :
      (id : ℕ) (room : Bytes) (h : Hub) (before after : List Task)
      → Step max_rooms
          (record { hub = h; tasks = before ++ (unlink_task room id ∷ after) })
          (record {
            hub = record h { rooms = (unlink room id h.rooms).0 };
            tasks = reap_if (unlink room id h.rooms).1 room (before ++ after);
          })
  on_reap :
      (room : Bytes) (h : Hub) (before after : List Task)
      → Step max_rooms
          (record { hub = h; tasks = before ++ (reap_task room ∷ after) })
          (record { hub = record h { rooms = reap room h.rooms }; tasks = before ++ after })
  on_broadcast :
      (room : Bytes) (h : Hub) (ts : List Task)
      → Step max_rooms
          (record { hub = h; tasks = ts })
          (record { hub = record h { rooms = (record_and_members room h.rooms).0 }; tasks = ts })

pub data Reach (max_rooms : ℕ) : World → World → Type 0 where
  here : (w : World) → Reach max_rooms w w
  next : (w v u : World) → Step max_rooms w v → Reach max_rooms v u → Reach max_rooms w u

abbrev pub start : World
start = record { hub = new; tasks = [] }

-- What holds between any two steps.
pub record IsConsistent (w : World) : Type 0 where
  pub into :
      (id : ℕ) (room : Bytes)
      → id < 2 ^ 64
      → joined w.hub.conns id room ≡ true
      → in_room w.hub.rooms room id ≡ true
  pub back :
      (id : ℕ) (room : Bytes)
      → id < 2 ^ 64
      → in_room w.hub.rooms room id ≡ true
      → (joined w.hub.conns id room || pending_unlink room id w.tasks) ≡ true
  pub gone :
      (id : ℕ) (room : Bytes)
      → id < 2 ^ 64
      → pending_unlink room id w.tasks ≡ true
      → find w.hub.conns id ≡ none
  pub full : (room : Bytes) → hollow w.hub.rooms room ≡ true → pending_reap room w.tasks ≡ true
