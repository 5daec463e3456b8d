-- ===== src/Bridge/Drain/Order.antt =====
-- bridge.rs, `drain_loop`: the batches that are delivered hold the events, each once and in order.
use mathlib.Core.Path.{subst}
use beam_socket.Prelude.{
  ◌+◌, ◌<◌, ◌≤◌, ◌≡◌, ◌∙◌, refl, sym, ap, List, [], ◌∷◌, ◌++◌, ltb, ltb→lt, Bool-cases,
  if◌then◌else◌, inl, inr, length, length-append, All, All-append, arith,
}
use mathlib.Core.List.{append_assoc, append-nil}
use beam_socket.Bridge.Drain.{
  bridge_batch, low_load_threshold, Tick, arrives, quiet, expires, hangs_up, Phase, waiting, greedy,
  filling, ended, Draining, flushed, flush, take_event, step_in, drain_loop, start, events, concat,
  IsBatch,
}

module _ {E : Type 0} where
  concat-append : (a b : List (List E)) → concat (a ++ b) ≡ concat a ++ concat b
  concat-append [] b = refl
  concat-append (es ∷ a) b =
      ap (es ++◌) (concat-append a b) ∙ sym (append_assoc es (concat a) (concat b))

  concat-flushed : (es : List E) → concat (flushed es) ≡ es
  concat-flushed [] = refl
  concat-flushed (e ∷ es) = append-nil (e ∷ es)

  -- What was taken from the channel, in the order it goes to the application.
  taken : Draining E → List E
  taken d = concat d.delivered ++ d.batch

  IsDraining : Draining E → Type 0
  IsDraining d = (length d.batch < bridge_batch) × All IsBatch d.delivered

  -- From `d` to `d'`, `more` is taken from the channel.
  Takes : List E → Draining E → Draining E → Type 0
  Takes more d d' = (taken d' ≡ taken d ++ more) × IsDraining d'

  flush_lem :
      (phase : Phase) (d : Draining E)
      → length d.batch ≤ bridge_batch
      → All IsBatch d.delivered
      → (taken (flush phase d) ≡ taken d) × IsDraining (flush phase d)
  unfolding taken IsDraining
  flush_lem phase d n ok = (
    append-nil _
        ∙ concat-append d.delivered (flushed d.batch)
        ∙ ap (concat d.delivered ++◌) (concat-flushed d.batch),
    (omega arith, All-append IsBatch d.delivered (flushed d.batch) ok (sized d.batch n)),
  )
    where
      sized : (es : List E) → length es ≤ bridge_batch → All IsBatch (flushed es)
      sized [] n = tt
      sized (e ∷ es) n = ((omega arith, n), tt)

  take_event_lem :
      (phase : Phase) (e : E) (d : Draining E)
      → IsDraining d
      → Takes (e ∷ []) d (take_event phase e d)
  unfolding take_event Takes taken IsDraining
  take_event_lem phase e d ok =
      let more : Draining E = record d { phase = phase; batch = d.batch ++ (e ∷ []) } in
      let joined : taken more ≡ taken d ++ (e ∷ []) =
        sym (append_assoc (concat d.delivered) d.batch (e ∷ [])) in
      let n : length more.batch ≡ length d.batch + 1 = length-append d.batch (e ∷ []) in
      let out = flush_lem waiting more (omega (arith, ok.0, n)) ok.1 in
      elim (Bool-cases (ltb (length more.batch) bridge_batch)) [
        | inl h ↦ rw (h, if◌then◌else◌) (joined, (ltb→lt _ _ h, ok.1))
        | inr h ↦ rw (h, if◌then◌else◌) (out.0 ∙ joined, out.1)
      ]

  -- What is taken from the channel until it ends, in a phase.
  after : Phase → List (Tick E) → List E
  after waiting ts = events ts
  after greedy ts = events ts
  after filling ts = events ts
  after ended ts = []

  -- A step and the ones after it take what was to be taken.
  Steps : Phase → Tick E → Draining E → Draining E → Type 0
  Steps phase t d d' =
      (more : List E) × Takes more d d'
      × ((ts : List (Tick E)) → after phase (t ∷ ts) ≡ more ++ after d'.phase ts)

  stay :
      (phase : Phase) (t : Tick E) (d d' : Draining E)
      → (taken d' ≡ taken d) × IsDraining d'
      → ((ts : List (Tick E)) → after phase (t ∷ ts) ≡ after d'.phase ts)
      → Steps phase t d d'
  unfolding Steps Takes
  stay phase t d d' k h = ([], (k.0 ∙ sym (append-nil (taken d)), k.1), h)

  same :
      (phase : Phase) (t : Tick E) (d : Draining E)
      → d.phase ≡ phase
      → IsDraining d
      → ((ts : List (Tick E)) → after phase (t ∷ ts) ≡ after phase ts)
      → Steps phase t d d
  same phase t d e ok h = stay phase t d d (refl, ok) (λ ts. h ts ∙ ap (λ p. after p ts) (sym e))

  goes_on :
      (phase : Phase) (e : E) (d : Draining E) (ts : List (Tick E))
      → after phase ts ≡ events ts
      → after (take_event phase e d).phase ts ≡ events ts
  unfolding after take_event
  goes_on phase e d ts h = elim (Bool-cases (ltb (length (d.batch ++ (e ∷ []))) bridge_batch)) [
    | inl k ↦ rw (k, if◌then◌else◌) h
    | inr k ↦ rw (k, if◌then◌else◌) refl
  ]

  step_in_lem :
      (phase : Phase) (t : Tick E) (d : Draining E)
      → d.phase ≡ phase
      → IsDraining d
      → Steps phase t d (step_in phase t d)
  unfolding step_in after Steps IsDraining taken
  step_in_lem waiting (arrives e) d at_phase ok =
      (e ∷ [], take_event_lem greedy e d ok, λ ts. ap (e ∷◌) (sym (goes_on greedy e d ts refl)))
  step_in_lem waiting quiet d at_phase ok = same waiting quiet d at_phase ok (λ ts. refl)
  step_in_lem waiting expires d at_phase ok = same waiting expires d at_phase ok (λ ts. refl)
  step_in_lem waiting hangs_up d at_phase ok =
      stay waiting hangs_up d _ (flush_lem ended d (omega (arith, ok.0)) ok.1) (λ ts. refl)
  step_in_lem greedy (arrives e) d at_phase ok =
      (e ∷ [], take_event_lem greedy e d ok, λ ts. ap (e ∷◌) (sym (goes_on greedy e d ts refl)))
  step_in_lem greedy quiet d at_phase ok =
      elim (Bool-cases (ltb (length d.batch) low_load_threshold)) [
        | inl h ↦
            rw (h, if◌then◌else◌)
              (stay greedy quiet d _ (flush_lem waiting d (omega (arith, ok.0)) ok.1) (λ ts. refl))
        | inr h ↦
            rw (h, if◌then◌else◌)
              (stay greedy quiet d (record d { phase = filling }) (refl, ok) (λ ts. refl))
      ]
  step_in_lem greedy expires d at_phase ok = same greedy expires d at_phase ok (λ ts. refl)
  step_in_lem greedy hangs_up d at_phase ok =
      stay greedy hangs_up d _ (flush_lem ended d (omega (arith, ok.0)) ok.1) (λ ts. refl)
  step_in_lem filling (arrives e) d at_phase ok =
      (e ∷ [], take_event_lem filling e d ok, λ ts. ap (e ∷◌) (sym (goes_on filling e d ts refl)))
  step_in_lem filling quiet d at_phase ok = same filling quiet d at_phase ok (λ ts. refl)
  step_in_lem filling expires d at_phase ok =
      stay filling expires d _ (flush_lem waiting d (omega (arith, ok.0)) ok.1) (λ ts. refl)
  step_in_lem filling hangs_up d at_phase ok =
      stay filling hangs_up d _ (flush_lem ended d (omega (arith, ok.0)) ok.1) (λ ts. refl)
  step_in_lem ended t d at_phase ok = same ended t d at_phase ok (λ ts. refl)

  after_none : (phase : Phase) → after phase [] ≡ []
  unfolding after
  after_none waiting = refl
  after_none greedy = refl
  after_none filling = refl
  after_none ended = refl

  drain_loop_lem :
      (ts : List (Tick E)) (d : Draining E)
      → IsDraining d
      → Takes (after d.phase ts) d (drain_loop ts d)
  unfolding drain_loop Takes Steps
  drain_loop_lem [] d ok =
      (sym (append-nil (taken d)) ∙ ap (taken d ++◌) (sym (after_none d.phase)), ok)
  drain_loop_lem (t ∷ ts) d ok =
      let k = step_in_lem d.phase t d refl ok in
      let rest = drain_loop_lem ts (step_in d.phase t d) k.1.1 in
      (
        rest.0
            ∙ ap (◌++ after (step_in d.phase t d).phase ts) k.1.0
            ∙ append_assoc (taken d) k.0 (after (step_in d.phase t d).phase ts)
            ∙ ap (taken d ++◌) (sym (k.2 ts)),
        rest.1,
      )

  -- A loop that has ended holds nothing back.
  Rest : Phase → List E → Type 0
  Rest waiting es = Unit
  Rest greedy es = Unit
  Rest filling es = Unit
  Rest ended es = es ≡ []

  Settles : Draining E → Type 0
  Settles d = Rest d.phase d.batch

  take_event-Settles :
      (phase : Phase) (e : E) (d : Draining E)
      → ((es : List E) → Rest phase es)
      → Settles (take_event phase e d)
  unfolding take_event Settles Rest
  take_event-Settles phase e d h =
      elim (Bool-cases (ltb (length (d.batch ++ (e ∷ []))) bridge_batch)) [
        | inl k ↦ rw (k, if◌then◌else◌) (h _)
        | inr k ↦ rw (k, if◌then◌else◌) tt
      ]

  step_in-Settles :
      (phase : Phase) (t : Tick E) (d : Draining E) → Settles d → Settles (step_in phase t d)
  unfolding step_in Settles Rest
  step_in-Settles waiting (arrives e) d h = take_event-Settles greedy e d (λ es. tt)
  step_in-Settles waiting quiet d h = h
  step_in-Settles waiting expires d h = h
  step_in-Settles waiting hangs_up d h = refl
  step_in-Settles greedy (arrives e) d h = take_event-Settles greedy e d (λ es. tt)
  step_in-Settles greedy quiet d h = elim (Bool-cases (ltb (length d.batch) low_load_threshold)) [
    | inl k ↦ rw (k, if◌then◌else◌) tt
    | inr k ↦ rw (k, if◌then◌else◌) tt
  ]
  step_in-Settles greedy expires d h = h
  step_in-Settles greedy hangs_up d h = refl
  step_in-Settles filling (arrives e) d h = take_event-Settles filling e d (λ es. tt)
  step_in-Settles filling quiet d h = h
  step_in-Settles filling expires d h = tt
  step_in-Settles filling hangs_up d h = refl
  step_in-Settles ended t d h = h

  drain_loop-Settles : (ts : List (Tick E)) (d : Draining E) → Settles d → Settles (drain_loop ts d)
  unfolding drain_loop
  drain_loop-Settles [] d h = h
  drain_loop-Settles (t ∷ ts) d h =
      drain_loop-Settles ts (step_in d.phase t d) (step_in-Settles d.phase t d h)

  -- Whatever the loop meets, the batches that it delivers, in order, and then what it holds are the events
  -- that come before the end of the channel, each once and in order. A batch has between 1 and 256 events,
  -- and the loop holds fewer than 256, none once it has ended.
  pub drain_loop-events :
      (ts : List (Tick E))
      → (concat (drain_loop ts start).delivered ++ (drain_loop ts start).batch ≡ events ts)
        × (length (drain_loop ts start).batch < bridge_batch)
        × All IsBatch (drain_loop ts start).delivered
        × ((drain_loop ts start).phase ≡ ended → (drain_loop ts start).batch ≡ [])
  unfolding Takes IsDraining taken after Settles Rest
  drain_loop-events ts =
      let k = drain_loop_lem ts start (omega arith, tt) in
      let held : Rest (drain_loop ts start).phase (drain_loop ts start).batch =
        drain_loop-Settles ts start tt in
      (k.0, k.1.0, k.1.1, λ e. subst (λ p. Rest p (drain_loop ts start).batch) e held)
