-- ===== src/Core/Broadcast/Tests.antt =====
-- A concrete fan-out.
use beam_socket.Prelude.{◌^◌, ℕ, ◌+◌, ◌≡◌, true, none, List, [], ◌∷◌}
use beam_socket.Core.Mailbox
use beam_socket.Core.Mailbox.{OutboundFrame, drop_newest}
use beam_socket.Core.Registry
use beam_socket.Core.Registry.{Registry, register}
use beam_socket.Core.Broadcast.{Handles, empty_report, fan_out_ids}
use beam_socket.Core.Broadcast.Delivery.{addressed, recipients, pushed, total, fan_out_ids_lem}

abbrev frame : OutboundFrame
frame = record { body = 1 ∷ 2 ∷ []; is_binary = true }

-- Two connections, whose handles are 7 and 8.
abbrev two : Registry
two = (register 0 8 none (register 0 7 none Registry.new).0).0

abbrev idle : Handles
idle handle = record { mailbox = Mailbox.new; close = none; control = [] }

abbrev listed : List ℕ
listed = 0 ∷ 2 ^ 56 ∷ 5 ∷ []

fan_out_ids_lem_example :
    ((h : ℕ)
      → (fan_out_ids drop_newest 64 frame two listed (2 ^ 56 ∷ []) idle empty_report).0 h
        ≡ pushed drop_newest 64 frame (addressed (2 ^ 56 ∷ []) two h listed) (idle h))
    × ((fan_out_ids drop_newest 64 frame two listed (2 ^ 56 ∷ []) idle empty_report).1.attempted
        ≡ 0 + recipients (2 ^ 56 ∷ []) listed)
    × (total drop_newest 64 frame
          (fan_out_ids drop_newest 64 frame two listed (2 ^ 56 ∷ []) idle empty_report).1
        ≡ 0 + recipients (2 ^ 56 ∷ []) listed)
fan_out_ids_lem_example =
    fan_out_ids_lem drop_newest 64 frame two listed (2 ^ 56 ∷ []) idle empty_report
