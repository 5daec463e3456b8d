-- ===== src/Core/Verbs/Tests.antt =====
-- Concrete calls.
use beam_socket.Prelude.{◌^◌, ◌≡◌, true, none, some, [], ◌∷◌, length}
use beam_socket.Prelude.Bytes.{Bytes}
use beam_socket.Prelude.Keys.{nat_key, contains}
use beam_socket.Prelude.Words.{add64}
use beam_socket.Core.Mailbox
use beam_socket.Core.Registry
use beam_socket.Core.Registry.{Registry, register}
use beam_socket.Core.Identity
use beam_socket.Core.Identity.{connections}
use beam_socket.Core.Broadcast.{Handles}
use beam_socket.Core.Verbs.{Engine, or_none, admin_disconnect_user}
use beam_socket.Core.Verbs.Disconnect.{live_handles, IsLeft, admin_disconnect_user_lem}

abbrev anna : Bytes
anna = 97 ∷ []

abbrev one : Registry
one = (register 0 7 (some anna) Registry.new).0

abbrev idle : Handles
idle handle = record { mailbox = Mailbox.new; close = none; control = [] }

-- Two connections are bound to the user, of which one is still live.
abbrev serving : Engine
serving = record {
  conns = one;
  rooms = λ room. none;
  users = Identity.bind anna (2 ^ 56) (Identity.bind anna 0 Identity.new);
  shared = idle;
  admin_disconnects = 4;
  cluster = none;
}

admin_disconnect_user_lem_example :
    let devices = live_handles (or_none (connections anna serving.users)) serving.conns in
    let (after, closed) = admin_disconnect_user anna 1008 serving in
    (closed ≡ length devices)
    × (after.conns ≡ serving.conns)
    × (after.admin_disconnects ≡ add64 serving.admin_disconnects (length devices))
    × IsLeft
        (contains 7 devices)
        (record { code = 1008; graceful = true })
        (serving.shared 7)
        (after.shared 7)
admin_disconnect_user_lem_example = admin_disconnect_user_lem anna 1008 7 serving
