-- ===== src/Core/Authorize.antt =====
-- crates/core/src/identity.rs: the authorize round trip. The `pending` table is a list of the request ids
-- that have a sender in it; an event that is emitted is an id of `emitted`. A call of `authorize` is a task, whose
-- steps are its accesses to the slots and to the table. A sender is not dropped while it is in the table.
pub mod Counts
pub mod Bound
mod Tests
use beam_socket.Prelude.{
  ℕ, ◌+◌, ◌^◌, ◌<◌, Bool, true, false, Option, none, some, List, [], ◌∷◌, ◌++◌, leb, ◌==◌,
  if◌then◌else◌, length,
}
use beam_socket.Prelude.Bytes.{Bytes}
use beam_socket.Prelude.Keys.{nat_key, contains, add, del}
use beam_socket.Prelude.Words.{add64, sub64}

abbrev pub close_auth_unavailable : ℕ
close_auth_unavailable = 1013

pub data AuthorizeOutcome : Type 0 where
  accept : Option Bytes → AuthorizeOutcome
  reject : ℕ → AuthorizeOutcome

pub data AuthorizeResolution : Type 0 where
  accepted : Option Bytes → ℕ → AuthorizeResolution
  rejected : ℕ → AuthorizeResolution

-- `Authorizer`, with the counters of `Metrics` that it writes.
pub record Authorizer : Type 0 where
  pub pending : List ℕ
  pub next_id : ℕ
  pub in_flight : ℕ
  pub max_pending : ℕ
  pub emitted : List ℕ
  pub pending_overflow : ℕ
  pub authorize_rejected : ℕ
  pub authorize_timed_out : ℕ

unfoldable pub new : ℕ → Authorizer
new max_pending = record {
  pending = [];
  next_id = 1;
  in_flight = 0;
  max_pending = max_pending;
  emitted = [];
  pending_overflow = 0;
  authorize_rejected = 0;
  authorize_timed_out = 0;
}

-- The slot is taken before its number is looked at; `false` where the call is shed.
unfoldable pub reserve : Authorizer → Authorizer × Bool
reserve a =
    let occupancy = a.in_flight in
    let after : Authorizer = record a { in_flight = add64 occupancy 1 } in
    if leb a.max_pending occupancy then (after, false) else (after, true)

unfoldable pub shed : Authorizer → Authorizer × AuthorizeResolution
shed a = (
  record a { in_flight = sub64 a.in_flight 1; pending_overflow = add64 a.pending_overflow 1 },
  rejected close_auth_unavailable,
)

-- The id, its entry in the table and the event, from which on others know the id.
unfoldable pub enter : Authorizer → Authorizer × ℕ
enter a = (
  record a {
    next_id = add64 a.next_id 1;
    pending = add a.next_id a.pending;
    emitted = a.emitted ++ (a.next_id ∷ []);
  },
  a.next_id,
)

-- How the wait ends: by an answer, or by the timeout where there is none.
unfoldable pub conclude :
    ℕ → Option AuthorizeOutcome → Authorizer → Authorizer × AuthorizeResolution
conclude id (some (accept user_id)) a = (a, accepted user_id id)
conclude id (some (reject code)) a =
    (record a { authorize_rejected = add64 a.authorize_rejected 1 }, rejected code)
conclude id none a = (
  record a { authorize_timed_out = add64 a.authorize_timed_out 1 },
  rejected close_auth_unavailable,
)

-- The clean-up, and the drop of the permit.
unfoldable pub clean_up : ℕ → Authorizer → Authorizer
clean_up id a = record a { pending = del id a.pending }

unfoldable pub drop_permit : Authorizer → Authorizer
drop_permit a = record a { in_flight = sub64 a.in_flight 1 }

-- Whether there is a sender to send with.
unfoldable pub resolve : ℕ → Authorizer → Authorizer × Bool
resolve id a =
    if contains id a.pending then (record a { pending = del id a.pending }, true) else (a, false)

-- Where a call of `authorize` stands.
pub data Task : Type 0 where
  shedding entering : Task
  waiting : ℕ → Option AuthorizeOutcome → Task
  concluded : ℕ → AuthorizeResolution → Task
  cleaned : AuthorizeResolution → Task

-- `tx.send(outcome)`: a receiver that is gone hears nothing.
unfoldable pub tell : ℕ → AuthorizeOutcome → List Task → List Task
tell id outcome [] = []
tell id outcome (waiting other none ∷ ts) =
    waiting other (if other == id then some outcome else none) ∷ tell id outcome ts
tell id outcome (t ∷ ts) = t ∷ tell id outcome ts

abbrev pub tell_if : Bool → ℕ → AuthorizeOutcome → List Task → List Task
tell_if sent id outcome ts = if sent then tell id outcome ts else ts

abbrev pub admitted_as : Bool → Task
admitted_as admitted = if admitted then entering else shedding

pub record World : Type 0 where
  pub authorizer : Authorizer
  pub tasks : List Task

-- Fewer than 2^64 calls stand at once, and fewer ids than that are handed out.
pub data Step : World → World → Type 0 where
  on_reserve :
      (a : Authorizer) (ts : List Task)
      → length ts + 1 < 2 ^ 64
      → Step
          (record { authorizer = a; tasks = ts })
          (record { authorizer = (reserve a).0; tasks = admitted_as (reserve a).1 ∷ ts })
  on_shed :
      (a : Authorizer) (before after : List Task)
      → Step
          (record { authorizer = a; tasks = before ++ (shedding ∷ after) })
          (record { authorizer = (shed a).0; tasks = before ++ after })
  on_enter :
      (a : Authorizer) (before after : List Task)
      → a.next_id + 1 < 2 ^ 64
      → Step
          (record { authorizer = a; tasks = before ++ (entering ∷ after) })
          (record {
            authorizer = (enter a).0;
            tasks = before ++ (waiting (enter a).1 none ∷ after);
          })
  on_resolve :
      (id : ℕ) (outcome : AuthorizeOutcome) (a : Authorizer) (ts : List Task)
      → Step
          (record { authorizer = a; tasks = ts })
          (record { authorizer = (resolve id a).0; tasks = tell_if (resolve id a).1 id outcome ts })
  on_conclude :
      (id : ℕ) (answer : Option AuthorizeOutcome) (a : Authorizer) (before after : List Task)
      → Step
          (record { authorizer = a; tasks = before ++ (waiting id answer ∷ after) })
          (record {
            authorizer = (conclude id answer a).0;
            tasks = before ++ (concluded id (conclude id answer a).1 ∷ after);
          })
  on_clean_up :
      (id : ℕ) (r : AuthorizeResolution) (a : Authorizer) (before after : List Task)
      → Step
          (record { authorizer = a; tasks = before ++ (concluded id r ∷ after) })
          (record { authorizer = clean_up id a; tasks = before ++ (cleaned r ∷ after) })
  on_drop_permit :
      (r : AuthorizeResolution) (a : Authorizer) (before after : List Task)
      → Step
          (record { authorizer = a; tasks = before ++ (cleaned r ∷ after) })
          (record { authorizer = drop_permit a; tasks = before ++ after })

pub data Reach : World → World → Type 0 where
  here : (w : World) → Reach w w
  next : (w v u : World) → Step w v → Reach v u → Reach w u

abbrev pub start : ℕ → World
start max_pending = record { authorizer = new max_pending; tasks = [] }
