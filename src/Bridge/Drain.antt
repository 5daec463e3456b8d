-- ===== src/Bridge/Drain.antt =====
-- crates/node/src/bridge.rs, `drain_loop`: how the events of the channel are put into batches. What the loop
-- meets is a list of ticks: an event, a channel found empty, the timer of the batch, the channel's end.
pub mod Order
use beam_socket.Prelude.{
  ℕ, suc, ◌+◌, ◌<◌, ◌≤◌, ◌≡◌, ◌∙◌, refl, sym, ap, Bool, true, false, List, [], ◌∷◌, ◌++◌, leb, ltb,
  if◌then◌else◌, length, length-append, All, All-append, arith,
}
use mathlib.Core.List.{append_assoc, append-nil}

abbrev pub bridge_batch : ℕ
bridge_batch = 256

abbrev pub low_load_threshold : ℕ
low_load_threshold = 16

pub data Tick (E : Type 0) : Type 0 where
  arrives : E → Tick E
  quiet expires hangs_up : Tick E

-- Where the loop waits: for the first event of a batch, while it takes what is there, until the timer.
pub data Phase : Type 0 where
  waiting greedy filling ended : Phase

pub record Draining (E : Type 0) : Type 0 where
  pub phase : Phase
  pub batch : List E
  pub delivered : List (List E)

module _ {E : Type 0} where
  abbrev pub flushed : List E → List (List E)
  flushed [] = []
  flushed (e ∷ es) = (e ∷ es) ∷ []

  -- `flush`, and where the loop goes on.
  abbrev pub flush : Phase → Draining E → Draining E
  flush phase d = record { phase = phase; batch = []; delivered = d.delivered ++ flushed d.batch }

  -- An event comes to the batch, which is delivered when it is full.
  unfoldable pub take_event : Phase → E → Draining E → Draining E
  take_event phase e d =
      let more : Draining E = record d { phase = phase; batch = d.batch ++ (e ∷ []) } in
      if ltb (length more.batch) bridge_batch then more else flush waiting more

  unfoldable pub step_in : Phase → Tick E → Draining E → Draining E
  unfolding take_event
  step_in waiting (arrives e) d = take_event greedy e d
  step_in waiting quiet d = d
  step_in waiting expires d = d
  step_in waiting hangs_up d = flush ended d
  step_in greedy (arrives e) d = take_event greedy e d
  step_in greedy quiet d =
      if ltb (length d.batch) low_load_threshold
      then flush waiting d
      else record d { phase = filling }
  step_in greedy expires d = d
  step_in greedy hangs_up d = flush ended d
  step_in filling (arrives e) d = take_event filling e d
  step_in filling quiet d = d
  step_in filling expires d = flush waiting d
  step_in filling hangs_up d = flush ended d
  step_in ended tick d = d

  unfoldable pub drain_loop : List (Tick E) → Draining E → Draining E
  unfolding step_in
  drain_loop [] d = d
  drain_loop (t ∷ ts) d = drain_loop ts (step_in d.phase t d)

  abbrev pub start : Draining E
  start = record { phase = waiting; batch = []; delivered = [] }

  -- The events that come before the end of the channel.
  abbrev pub events : List (Tick E) → List E
  events [] = []
  events (arrives e ∷ ts) = e ∷ events ts
  events (quiet ∷ ts) = events ts
  events (expires ∷ ts) = events ts
  events (hangs_up ∷ ts) = []

  abbrev pub concat : List (List E) → List E
  concat [] = []
  concat (es ∷ ess) = es ++ concat ess

  -- The size of a batch that is delivered.
  abbrev pub IsBatch : List E → Type 0
  IsBatch es = (1 ≤ length es) × (length es ≤ bridge_batch)
