-- ===== src/Core/Mailbox/Tests.antt =====
-- Concrete runs of the mailbox.
use beam_socket.Prelude.{ℕ, ◌≡◌, true, List, [], ◌∷◌}
use beam_socket.Core.Mailbox.{
  drop_oldest, drop_newest, OutboundFrame, Call, pushes, pops, closes, calls, fresh,
}
use beam_socket.Core.Mailbox.Bound.{IsBounded, calls-fresh-IsBounded}
use beam_socket.Core.Mailbox.Account.{accounted, offered, calls-fresh_count}

abbrev frame : ℕ → OutboundFrame
frame b = record { body = b ∷ b ∷ []; is_binary = true }

-- Three frames of two bytes, of which two fit.
abbrev history : List Call
history =
    pushes (frame 1) ∷ pushes (frame 2) ∷ pushes (frame 3) ∷ pops ∷ closes ∷ pushes (frame 4) ∷ []

calls-fresh_count_example :
    accounted (calls drop_oldest 4 history fresh) ≡ offered drop_oldest 4 history fresh
calls-fresh_count_example = calls-fresh_count drop_oldest 4 history

calls-fresh-IsBounded_example : IsBounded 4 (calls drop_newest 4 history fresh).mailbox
calls-fresh-IsBounded_example = calls-fresh-IsBounded drop_newest 4 history
