-- ===== src/Core/Broadcast.antt =====
-- crates/core/src/broadcast.rs: the fan-out of a frame; `ConnHandle` and `CloseSignal` of connection/mod.rs.
-- The shared parts of a connection are found by the number that the registry holds of them. The channel to
-- the writer task is the list of what is in it. A report counts fewer recipients than 2^64.
pub mod Exclusion
pub mod Delivery
mod Tests
use beam_socket.Prelude.{
  ℕ, zero, suc, ◌+◌, ◌/◌, Bool, true, false, not, ◌&&◌, Option, none, some, List, [], ◌∷◌, ◌++◌,
  ltb, leb, ◌==◌, if◌then◌else◌, length, take, drop,
}
use beam_socket.Prelude.Bytes.{Bytes}
use beam_socket.Prelude.Keys.{nat_key, contains, write}
use beam_socket.Core.Mailbox
use beam_socket.Core.Mailbox.{
  Mailbox, OutboundFrame, BackpressurePolicy, PushOutcome, queued, dropped_newest, dropped_oldest,
  disconnected, refused_closed,
}
use beam_socket.Core.Registry.{Registry, get, handles}
use beam_socket.Core.Rooms.{RoomMap, record_and_members}
use beam_socket.Core.Identity.{UserMap, connections}

abbrev pub close_backpressure : ℕ
close_backpressure = 1013

abbrev pub control_queue_capacity : ℕ
control_queue_capacity = 4

pub record CloseCmd : Type 0 where
  pub code : ℕ
  pub graceful : Bool

pub data Control : Type 0 where
  ping_control : Bytes → Control
  close_control : ℕ → Control

pub record ConnHandle : Type 0 where
  pub mailbox : Mailbox
  pub close : Option CloseCmd
  pub control : List Control

-- `CloseSignal::signal`: the first one stays.
abbrev pub latch : CloseCmd → Option CloseCmd → Option CloseCmd
latch cmd none = some cmd
latch cmd (some first) = some first

abbrev pub try_send : Control → List Control → List Control
try_send c queue = if ltb (length queue) control_queue_capacity then queue ++ (c ∷ []) else queue

unfoldable pub initiate_close : ℕ → Bool → ConnHandle → ConnHandle
initiate_close code graceful h = record h {
  close = latch (record { code = code; graceful = graceful }) h.close;
  control = try_send (close_control code) h.control;
}

abbrev pub is_disconnect : PushOutcome → Bool
is_disconnect queued = false
is_disconnect dropped_newest = false
is_disconnect dropped_oldest = false
is_disconnect disconnected = true
is_disconnect refused_closed = false

unfoldable pub push : BackpressurePolicy → ℕ → OutboundFrame → ConnHandle → ConnHandle × PushOutcome
unfolding initiate_close
push policy hwm frame h =
    let (mailbox, outcome, drops) = Mailbox.push policy hwm frame h.mailbox in
    let pushed : ConnHandle = record h { mailbox = mailbox } in
    (
      if is_disconnect outcome then initiate_close close_backpressure true pushed else pushed,
      outcome,
    )

pub record FanoutReport : Type 0 where
  pub attempted : ℕ
  pub queued_count : ℕ
  pub backpressured : ℕ
  pub missing : ℕ

abbrev pub empty_report : FanoutReport
empty_report = record { attempted = 0; queued_count = 0; backpressured = 0; missing = 0 }

-- `sort_unstable_by_key(|id| id.0)`.
unfoldable pub insert_id : ℕ → List ℕ → List ℕ
insert_id x [] = x ∷ []
insert_id x (y ∷ ys) = let rest = insert_id x ys in if leb x y then x ∷ y ∷ ys else y ∷ rest

unfoldable pub sort_ids : List ℕ → List ℕ
unfolding insert_id
sort_ids [] = []
sort_ids (x ∷ xs) = insert_id x (sort_ids xs)

-- `binary_search_by_key(..).is_ok()`, with the length as fuel.
unfoldable pub binary_search : ℕ → ℕ → List ℕ → Bool
binary_search zero x ids = false
binary_search (suc fuel) x ids =
    let mid = length ids / 2 in
    elim (drop mid ids) [
      | [] ↦ false
      | m ∷ right ↦
          (let found_left = binary_search fuel x (take mid ids) in
            let found_right = binary_search fuel x right in
            if m == x then true else if ltb x m then found_left else found_right)
    ]

pub data Exclusions : Type 0 where
  linear sorted : List ℕ → Exclusions

unfoldable pub exclusions : List ℕ → ℕ → Exclusions
unfolding sort_ids
exclusions except recipients =
    if leb 32 (length except) && leb 64 recipients && leb (length except) recipients
    then sorted (sort_ids except)
    else linear except

unfoldable pub excludes : Exclusions → ℕ → Bool
unfolding binary_search
excludes (linear except) id = contains id except
excludes (sorted except) id = binary_search (length except) id except

abbrev pub count_outcome : PushOutcome → FanoutReport → FanoutReport
count_outcome queued r = record r { queued_count = r.queued_count + 1 }
count_outcome dropped_newest r = record r { backpressured = r.backpressured + 1 }
count_outcome dropped_oldest r = record r { backpressured = r.backpressured + 1 }
count_outcome disconnected r = record r { backpressured = r.backpressured + 1 }
count_outcome refused_closed r = record r { missing = r.missing + 1 }

abbrev pub Handles : Type 0
Handles = ℕ → ConnHandle

pub data FanoutTarget : Type 0 where
  to_room to_user : Bytes → FanoutTarget
  to_all : FanoutTarget

module _ (policy : BackpressurePolicy) (hwm : ℕ) (frame : OutboundFrame) where
  unfoldable pub push_one : ℕ → Handles → FanoutReport → Handles × FanoutReport
  unfolding push
  push_one handle hs r =
      let (after, outcome) = push policy hwm frame (hs handle) in
      (write handle after hs, count_outcome outcome r)

  -- The loop of `fan_out_ids`.
  unfoldable pub fan_out :
      Exclusions → Registry → List ℕ → Handles → FanoutReport → Handles × FanoutReport
  unfolding push_one excludes
  fan_out except conns [] hs r = (hs, r)
  fan_out except conns (id ∷ ids) hs r =
      if excludes except id then fan_out except conns ids hs r else elim (get conns id) [
        | none ↦
            fan_out except conns ids hs
              (record r { missing = r.missing + 1; attempted = r.attempted + 1 })
        | some handle ↦
            (let (after, told) = push_one handle hs r in
              fan_out except conns ids after (record told { attempted = told.attempted + 1 }))
      ]

  unfoldable pub fan_out_ids :
      Registry → List ℕ → List ℕ → Handles → FanoutReport → Handles × FanoutReport
  unfolding fan_out exclusions
  fan_out_ids conns ids except hs r = fan_out (exclusions except (length ids)) conns ids hs r

  -- The loop of `broadcast` to all.
  unfoldable pub fan_out_handles :
      Exclusions → List (ℕ × ℕ) → Handles → FanoutReport → Handles × FanoutReport
  unfolding push_one excludes
  fan_out_handles except [] hs r = (hs, r)
  fan_out_handles except ((id, handle) ∷ rest) hs r =
      if excludes except id
      then fan_out_handles except rest hs r
      else (let (after, told) = push_one handle hs r in
          fan_out_handles except rest after (record told { attempted = told.attempted + 1 }))

  unfoldable pub broadcast :
      Registry
      → RoomMap
      → UserMap
      → FanoutTarget
      → List ℕ
      → Handles
      → Handles × RoomMap × FanoutReport
  unfolding fan_out_ids fan_out_handles exclusions
  broadcast conns rooms users to_all except hs =
      let live = handles conns in
      let (after, report) =
        fan_out_handles (exclusions except (length live)) live hs empty_report in
      (after, rooms, report)
  broadcast conns rooms users (to_room room) except hs =
      let (counted, members) = record_and_members room rooms in
      elim members [
        | none ↦ (hs, counted, empty_report)
        | some ids ↦
            (let (after, report) = fan_out_ids conns ids except hs empty_report in
              (after, counted, report))
      ]
  broadcast conns rooms users (to_user user) except hs = elim (connections user users) [
    | none ↦ (hs, rooms, empty_report)
    | some ids ↦
        (let (after, report) = fan_out_ids conns ids except hs empty_report in
          (after, rooms, report))
  ]
