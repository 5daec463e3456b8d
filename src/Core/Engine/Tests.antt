-- ===== src/Core/Engine/Tests.antt =====
-- Concrete runs of a node's calls.
use beam_socket.Prelude.{◌^◌, none, some, List, [], ◌∷◌}
use beam_socket.Prelude.Bytes.{Bytes}
use beam_socket.Mesh.Interest
use beam_socket.Core.Engine.{Node, new}
use beam_socket.Core.Engine.Hosting.{IsHosting}
use beam_socket.Core.Engine.Calls.{Call, connects, joins, leaves, goes, calls, calls-IsHosting}
use beam_socket.Core.Engine.Closing.{new-IsHosting}

abbrev lobby : Bytes
lobby = 108 ∷ []

abbrev alice : Bytes
alice = 97 ∷ []

abbrev fresh : Node
fresh = new (some (Interest.new 1 Interest.interest)) 4

abbrev history : List Call
history =
    connects 0 7 (some alice)
    ∷ joins 0 lobby
    ∷ connects 0 8 none
    ∷ joins (2 ^ 56) lobby
    ∷ leaves 0 lobby
    ∷ goes (2 ^ 56) none
    ∷ []

calls-IsHosting_example : IsHosting (calls history fresh)
calls-IsHosting_example = calls-IsHosting history fresh (new-IsHosting 1 4 Interest.interest)
