-- ===== src/Bridge/Delivery.antt =====
-- bridge.rs: what the application reads of the buffers that `drain_loop` hands to `deliver`.
use mathlib.Core.List.{append-nil}
use beam_socket.Prelude.{
  ◌≡◌, ◌∙◌, refl, sym, ap, Option, none, some, List, [], ◌∷◌, ◌++◌, map, All, arith,
}
use beam_socket.Prelude.Bytes.{Bytes}
use beam_socket.Bridge.Flat.{EngineEvent, DecodedEvent, encode_batch, decode}
use beam_socket.Bridge.Flat.RoundTrip.{view, IsEvent, decode-encode_batch}
use beam_socket.Bridge.Drain.{Tick, ended, drain_loop, start, events, concat, IsBatch}
use beam_socket.Bridge.Drain.Order.{drain_loop-events}

-- The calls of `deliver`.
abbrev pub buffers : List (List EngineEvent) → List Bytes
buffers ess = map encode_batch ess

-- The application, which decodes every buffer.
unfoldable pub read_all : List Bytes → Option (List DecodedEvent)
read_all [] = some []
read_all (b ∷ bs) = elim (decode b) [
  | none ↦ none
  | some ds ↦ elim (read_all bs) [ none ↦ none | some rest ↦ some (ds ++ rest) ]
]

map-append : (es fs : List EngineEvent) → map view (es ++ fs) ≡ map view es ++ map view fs
map-append [] fs = refl
map-append (e ∷ es) fs = ap (view e ∷◌) (map-append es fs)

All-split : (es fs : List EngineEvent) → All IsEvent (es ++ fs) → All IsEvent es × All IsEvent fs
All-split [] fs h = (tt, h)
All-split (e ∷ es) fs h = ((h.0, (All-split es fs h.1).0), (All-split es fs h.1).1)

read_all-buffers :
    (ess : List (List EngineEvent))
    → All IsBatch ess
    → All IsEvent (concat ess)
    → read_all (buffers ess) ≡ some (map view (concat ess))
unfolding read_all
read_all-buffers [] n h = refl
read_all-buffers (es ∷ ess) n h =
    let k = All-split es (concat ess) h in
    rw
      (
        read_all,
        decode-encode_batch es (omega (arith, n.0.1)) k.0,
        read_all-buffers ess n.1 k.1,
        map-append es (concat ess),
      )
      refl

-- When the channel has ended, the application has read, of all the buffers it was handed, exactly the
-- events that came before the end, each once and in their order, if their numbers have the width of their
-- types and their payloads fit four bytes of length.
pub read_all-drain_loop :
    (ts : List (Tick EngineEvent))
    → All IsEvent (events ts)
    → (drain_loop ts start).phase ≡ ended
    → read_all (buffers (drain_loop ts start).delivered) ≡ some (map view (events ts))
read_all-drain_loop ts h e =
    let k = drain_loop-events ts in
    let all_out : concat (drain_loop ts start).delivered ≡ events ts =
      sym (append-nil _) ∙ ap (concat (drain_loop ts start).delivered ++◌) (sym (k.3 e)) ∙ k.0 in
    rw (← all_out) (read_all-buffers (drain_loop ts start).delivered k.2 (rw all_out h))
