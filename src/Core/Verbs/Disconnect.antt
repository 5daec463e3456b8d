-- ===== src/Core/Verbs/Disconnect.antt =====
-- engine.rs: whom an administrator's disconnect closes.
use mathlib.Core.List.{append_assoc, append-nil}
use mathlib.Core.Path.{ap₂, subst}
use beam_socket.Prelude.{
  zero, suc, sym, ltb, ◌++◌, ◌<◌, ◌≤◌, ℕ, ◌+◌, ◌≡◌, ◌∙◌, refl, ap, Bool, true, false, Option, none,
  some, List, [], ◌∷◌, length, arith, if◌then◌else◌, Option-cases, ◌||◌, inl, inr, Bool-cases,
  ==→eq, ◌==◌,
}
use beam_socket.Prelude.Bytes.{Bytes}
use beam_socket.Prelude.Words.{add64}
use beam_socket.Prelude.Keys.{nat_key, contains, write}
use beam_socket.Core.Registry.{Registry, get}
use beam_socket.Core.Identity.{connections}
use beam_socket.Core.Broadcast.{
  Handles, ConnHandle, CloseCmd, Control, close_control, control_queue_capacity, latch,
  initiate_close,
}
use beam_socket.Core.Verbs.{Engine, close_handle, close_devices, admin_disconnect_user, or_none}

-- The connections among these that are live.
unfoldable pub live_handles : List ℕ → Registry → List ℕ
live_handles [] conns = []
live_handles (id ∷ ids) conns =
    let rest = live_handles ids conns in
    elim (get conns id) [ none ↦ rest | some handle ↦ handle ∷ rest ]

unfoldable pub closes : ℕ → ℕ → List Control
closes zero code = []
closes (suc n) code = close_control code ∷ closes n code

-- A connection as a close with this command leaves it: the close that was first asked of it stays and this one
-- stands if there was none, the mailbox is the same, and the control channel has what it had and then only
-- Closes with this code, at least one of them if there was room.
pub record IsClosed (cmd : CloseCmd) (before after : ConnHandle) : Type 0 where
  pub close : after.close ≡ (elim before.close [ none ↦ some cmd | some first ↦ some first ])
  pub mailbox : after.mailbox ≡ before.mailbox
  pub nudges : ℕ
  pub control : after.control ≡ before.control ++ closes nudges cmd.code
  pub nudged : length before.control < control_queue_capacity → 1 ≤ nudges

-- A connection that was asked to close is closed, and one that was not is the same.
abbrev pub IsLeft : Bool → CloseCmd → ConnHandle → ConnHandle → Type 0
IsLeft true cmd before after = IsClosed cmd before after
IsLeft false cmd before after = after ≡ before

latch-latch :
    (cmd : CloseCmd) (first : Option CloseCmd) → latch cmd (latch cmd first) ≡ latch cmd first
latch-latch cmd none = refl
latch-latch cmd (some c) = refl

-- A close on top of what an earlier one left.
initiate_close-IsClosed :
    (code : ℕ) (before : ConnHandle)
    → IsClosed (record { code = code; graceful = true }) before (initiate_close code true before)
unfolding initiate_close closes
initiate_close-IsClosed code before =
    elim (Bool-cases (ltb (length before.control) control_queue_capacity)) [
      | inl e ↦ record {
        close = ground arith;
        mailbox = refl;
        nudges = 1;
        control = ground (arith, e);
        nudged = λ u. ground arith;
      }
      | inr e ↦ record {
        close = ground arith;
        mailbox = refl;
        nudges = 0;
        control = ground (arith, e, append-nil before.control);
        nudged = λ u. ground (arith, e, u);
      }
    ]

closes-append : (m n code : ℕ) → closes m code ++ closes n code ≡ closes (m + n) code
unfolding closes
closes-append zero n code = let e : n ≡ zero + n = omega arith in ap (λ k. closes k code) e
closes-append (suc m) n code =
    let e : suc (m + n) ≡ suc m + n = omega arith in
    ap (close_control code ∷◌) (closes-append m n code) ∙ ap (λ k. closes k code) e

IsClosed-twice :
    (cmd : CloseCmd) (before mid after : ConnHandle)
    → IsClosed cmd before mid
    → IsClosed cmd mid after
    → IsClosed cmd before after
IsClosed-twice cmd before mid after h k = record {
  close = ground (arith, h.close, k.close);
  mailbox = k.mailbox ∙ h.mailbox;
  nudges = h.nudges + k.nudges;
  control =
      k.control
      ∙ ap (◌++ closes k.nudges cmd.code) h.control
      ∙ append_assoc before.control (closes h.nudges cmd.code) (closes k.nudges cmd.code)
      ∙ ap (before.control ++◌) (closes-append h.nudges k.nudges cmd.code);
  nudged = λ u. omega (arith, h.nudged u);
}

IsLeft-again :
    (here asked : Bool) (code : ℕ) (before after : ConnHandle)
    → let cmd : CloseCmd = record { code = code; graceful = true } in
      IsLeft asked cmd (if here then initiate_close code true before else before) after
      → IsLeft (here || asked) cmd before after
IsLeft-again true true code before after h =
    IsClosed-twice _ before (initiate_close code true before) after
      (initiate_close-IsClosed code before) h
IsLeft-again true false code before after h =
    subst (IsClosed _ before) (sym h) (initiate_close-IsClosed code before)
IsLeft-again false asked code before after h = h

write-same :
    (f : ConnHandle → ConnHandle) (found handle : ℕ) (hs : Handles)
    → write found (f (hs found)) hs handle ≡ (if found == handle then f (hs handle) else hs handle)
write-same f found handle hs = elim (Bool-cases (found == handle)) [
  | inl h ↦ rw (h, if◌then◌else◌) (ap (λ c. f (hs c)) (==→eq found handle h))
  | inr h ↦ rw (h, if◌then◌else◌) refl
]

close_devices_lem :
    (devices : List ℕ) (code : ℕ) (e : Engine) (closed handle : ℕ)
    → let (after, told) = close_devices devices code e closed in
      (told ≡ closed + length (live_handles devices e.conns))
      × (after.conns ≡ e.conns)
      × (after.admin_disconnects ≡ e.admin_disconnects)
      × IsLeft
          (contains handle (live_handles devices e.conns))
          (record { code = code; graceful = true })
          (e.shared handle)
          (after.shared handle)
unfolding close_devices live_handles contains initiate_close
close_devices_lem [] code e closed handle = (omega arith, refl, refl, refl)
close_devices_lem (id ∷ devices) code e closed handle = elim (Option-cases (get e.conns id)) [
  | inl h ↦ rw (close_devices, live_handles, h) (close_devices_lem devices code e closed handle)
  | inr (found, h) ↦
      (let k =
          close_devices_lem devices code (close_handle found code true e) (closed + 1) handle in
        rw (close_devices, live_handles, h)
          (
            omega (arith, k.0),
            k.1,
            k.2,
            IsLeft-again (found == handle) (contains handle (live_handles devices e.conns)) code
                (e.shared handle)
                ((close_devices devices code (close_handle found code true e) (closed + 1)).0.shared
                  handle)
                (subst
                  (λ c.
                    IsLeft (contains handle (live_handles devices e.conns))
                      (record { code = code; graceful = true }) c
                      ((close_devices devices code (close_handle found code true e)
                          (closed + 1)).0.shared
                        handle))
                  (write-same (initiate_close code true) found handle e.shared) k.3),
          ))
]

-- `disconnectUser` returns how many of the user's connections are live and adds that number to the counter,
-- modulo 2 ^ 64. A connection that is one of them is left with the close that was first asked of it, which
-- is this one if there was none, with its mailbox as it was, and with Closes of this code behind what its
-- control channel had, at least one of them if there was room. Any other connection is left exactly as it
-- was.
pub admin_disconnect_user_lem :
    (user_id : Bytes) (code handle : ℕ) (e : Engine)
    → let devices = live_handles (or_none (connections user_id e.users)) e.conns in
      let (after, closed) = admin_disconnect_user user_id code e in
      (closed ≡ length devices)
      × (after.conns ≡ e.conns)
      × (after.admin_disconnects ≡ add64 e.admin_disconnects (length devices))
      × IsLeft
          (contains handle devices)
          (record { code = code; graceful = true })
          (e.shared handle)
          (after.shared handle)
unfolding admin_disconnect_user
admin_disconnect_user_lem user_id code handle e =
    let k = close_devices_lem (or_none (connections user_id e.users)) code e 0 handle in
    let counted = k.0 ∙ omega arith in (counted, k.1, ap₂ add64 k.2 counted, k.3)
