-- ===== src/Bridge/Flat.antt =====
-- crates/node/src/bridge.rs, the module `flat`: the bytes of a batch of engine events, and EngineEvent of
-- crates/core/src/events.rs. A slice out of range and an unknown kind panic: `decode` then returns `none`.
-- Sums of sizes are below 2^64.
pub mod RoundTrip
use beam_socket.Prelude.{
  ℕ, ◌+◌, ◌%◌, ◌^◌, Bool, true, false, Option, none, some, List, [], ◌∷◌, ◌++◌, ◌==◌, ltb,
  if◌then◌else◌, length,
}
use beam_socket.Prelude.Bytes.{
  Bytes, Reader, ◌>>=◌, pure, fail, get_u8, get_bytes, get_le, get_many, put_many, le_bytes,
}

abbrev pub header : ℕ
header = 4

abbrev pub per_event_overhead : ℕ
per_event_overhead = 8 + 1 + 4

abbrev pub kind_text : ℕ
kind_text = 0

abbrev pub kind_binary : ℕ
kind_binary = 1

abbrev pub kind_open : ℕ
kind_open = 2

abbrev pub kind_close : ℕ
kind_close = 3

abbrev pub kind_authorize : ℕ
kind_authorize = 4

pub data EngineEvent : Type 0 where
  authorize : ℕ → Bytes → Bytes → List (Bytes × Bytes) → EngineEvent
  connection_opened : ℕ → Option ℕ → EngineEvent
  message : ℕ → Bytes → Bool → EngineEvent
  connection_closed : ℕ → ℕ → Bytes → EngineEvent

abbrev pub lp_len : ℕ → ℕ
lp_len bytes = 4 + bytes

unfoldable pub headers_len : List (Bytes × Bytes) → ℕ
headers_len [] = 0
headers_len ((k, v) ∷ hs) = lp_len (length k) + lp_len (length v) + headers_len hs

unfoldable pub authorize_payload_len : Bytes → Bytes → List (Bytes × Bytes) → ℕ
unfolding headers_len
authorize_payload_len client_ip url headers =
    lp_len (length client_ip) + lp_len (length url) + 4 + headers_len headers

unfoldable pub event_payload_len : EngineEvent → ℕ
unfolding authorize_payload_len
event_payload_len (message id payload is_binary) = length payload
event_payload_len (connection_opened id none) = 0
event_payload_len (connection_opened id (some request)) = 8
event_payload_len (connection_closed id code reason) = 2 + length reason
event_payload_len (authorize request client_ip url headers) =
    authorize_payload_len client_ip url headers

unfoldable pub events_len : List EngineEvent → ℕ
unfolding event_payload_len
events_len [] = 0
events_len (e ∷ es) = per_event_overhead + event_payload_len e + events_len es

unfoldable pub encoded_len : List EngineEvent → ℕ
unfolding events_len
encoded_len batch = header + events_len batch

unfoldable pub write_lp : Bytes → Bytes
write_lp bytes = le_bytes 4 (length bytes % 2 ^ 32) ++ bytes

unfoldable pub write_header : Bytes × Bytes → Bytes
unfolding write_lp
write_header (k, v) = write_lp k ++ write_lp v

abbrev pub kind_of : Bool → ℕ
kind_of true = kind_binary
kind_of false = kind_text

unfoldable pub authorize_payload : Bytes → Bytes → List (Bytes × Bytes) → Bytes
unfolding write_lp write_header
authorize_payload client_ip url headers =
    write_lp client_ip
    ++ (write_lp url ++ (le_bytes 4 (length headers % 2 ^ 32) ++ put_many write_header headers))

-- What one event appends to the buffer.
unfoldable pub encode_event : EngineEvent → Bytes
unfolding authorize_payload authorize_payload_len
encode_event (message id payload is_binary) =
    le_bytes 8 id ++ (kind_of is_binary ∷ (le_bytes 4 (length payload % 2 ^ 32) ++ payload))
encode_event (connection_opened id none) = le_bytes 8 id ++ (kind_open ∷ le_bytes 4 0)
encode_event (connection_opened id (some request)) =
    le_bytes 8 id ++ (kind_open ∷ (le_bytes 4 8 ++ le_bytes 8 request))
encode_event (connection_closed id code reason) =
    le_bytes 8 id
    ++ (kind_close ∷ (le_bytes 4 ((2 + length reason) % 2 ^ 32) ++ (le_bytes 2 code ++ reason)))
encode_event (authorize request client_ip url headers) =
    le_bytes 8 request
    ++ (kind_authorize
        ∷ (le_bytes 4 (authorize_payload_len client_ip url headers % 2 ^ 32)
            ++ authorize_payload client_ip url headers))

unfoldable pub encode_batch : List EngineEvent → Bytes
unfolding encode_event
encode_batch batch = le_bytes 4 (length batch % 2 ^ 32) ++ put_many encode_event batch

unfoldable pub read_lp : Reader Bytes
read_lp = do len ← get_le 4; get_bytes len

unfoldable pub read_header : Reader (Bytes × Bytes)
unfolding read_lp
read_header = do k ← read_lp; v ← read_lp; pure (k, v)

pub data DecodedEvent : Type 0 where
  decoded_message : ℕ → Bool → Bytes → DecodedEvent
  opened : ℕ → Option ℕ → DecodedEvent
  closed : ℕ → ℕ → Bytes → DecodedEvent
  authorize_request : ℕ → Bytes → Bytes → List (Bytes × Bytes) → DecodedEvent

-- `&payload[2..]`, after the code.
abbrev pub rest_of : Reader Bytes
rest_of r = some (r, [])

unfoldable pub read_open : ℕ → ℕ → Reader DecodedEvent
read_open id len =
    if len == 8
    then (do request ← get_le 8; pure (opened id (some request)))
    else pure (opened id none)

unfoldable pub read_close : ℕ → Reader DecodedEvent
read_close id = do code ← get_le 2; reason ← rest_of; pure (closed id code reason)

unfoldable pub read_authorize : ℕ → Reader DecodedEvent
unfolding read_lp read_header
read_authorize request = do
  client_ip ← read_lp
  url ← read_lp
  hcount ← get_le 4
  headers ← get_many hcount read_header
  pure (authorize_request request client_ip url headers)

-- The `match` on the kind, on the payload.
unfoldable pub read_payload : ℕ → ℕ → ℕ → Reader DecodedEvent
unfolding read_open read_close read_authorize
read_payload id kind len =
    if kind == kind_text
    then (do payload ← rest_of; pure (decoded_message id false payload))
    else if kind == kind_binary
    then (do payload ← rest_of; pure (decoded_message id true payload))
    else if kind == kind_open
    then read_open id len
    else if kind == kind_close
    then read_close id
    else if kind == kind_authorize
    then read_authorize id
    else fail

-- What is left of a payload is ignored.
abbrev pub within : {A : Type 0} → Reader A → Bytes → Reader A
within read payload r = elim (read payload) [ none ↦ none | some (a, left) ↦ some (a, r) ]

unfoldable pub read_event : Reader DecodedEvent
unfolding read_payload
read_event = do
  id ← get_le 8
  kind ← get_u8
  len ← get_le 4
  payload ← get_bytes len
  within (read_payload id kind len) payload

abbrev pub value : {A : Type 0} → Option (A × Bytes) → Option A
value none = none
value (some (a, r)) = some a

unfoldable pub decode : Bytes → Option (List DecodedEvent)
unfolding read_event
decode buf =
    if ltb (length buf) header
    then some []
    else value ((do count ← get_le 4; get_many count read_event) buf)
