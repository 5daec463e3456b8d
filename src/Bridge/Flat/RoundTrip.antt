-- ===== src/Bridge/Flat/RoundTrip.antt =====
-- bridge.rs: a batch is read back, and takes the bytes that were counted for it.
use beam_socket.Prelude.Bytes.{
  >>=-eq_some, Bytes, get_le, get_many, put_many, le_bytes, get_le-append, get_bytes_exact,
  get_many-put_many,
}
use beam_socket.Bridge.Flat.{
  kind_text, kind_binary, EngineEvent, authorize, connection_opened, message, connection_closed,
  headers_len, authorize_payload_len, event_payload_len, events_len, encoded_len, write_lp,
  write_header, kind_open, kind_close, kind_authorize, authorize_payload, encode_event,
  encode_batch, read_lp, read_header, DecodedEvent, decoded_message, opened, closed,
  authorize_request, read_payload, read_open, read_close, read_authorize, read_event, decode,
}
use mathlib.Core.List.{append-nil, append_assoc}
use beam_socket.Prelude.{
  ℕ, ◌+◌, ◌%◌, ◌^◌, ◌<◌, ◌≤◌, ◌≡◌, refl, sym, true, false, none, some, List, [], ◌∷◌, ◌++◌, length,
  length-append, All, arith, map,
}

length-write_lp : (b : Bytes) → length (write_lp b) ≡ 4 + length b
unfolding write_lp
length-write_lp b = omega arith

length-write_headers :
    (hs : List (Bytes × Bytes)) → length (put_many write_header hs) ≡ headers_len hs
unfolding put_many write_header headers_len
length-write_headers [] = refl
length-write_headers ((k, v) ∷ hs) = omega (
  arith,
  length-append (write_lp k ++ write_lp v) (put_many write_header hs),
  length-append (write_lp k) (write_lp v),
  length-write_lp k,
  length-write_lp v,
  length-write_headers hs,
)

length-authorize_payload :
    (client_ip url : Bytes) (hs : List (Bytes × Bytes))
    → length (authorize_payload client_ip url hs) ≡ authorize_payload_len client_ip url hs
unfolding authorize_payload authorize_payload_len
length-authorize_payload client_ip url hs =
    let counted : Bytes = le_bytes 4 (length hs % 2 ^ 32) ++ put_many write_header hs in
    omega (
      arith,
      length-append (write_lp client_ip) (write_lp url ++ counted),
      length-append (write_lp url) counted,
      length-write_lp client_ip,
      length-write_lp url,
      length-write_headers hs,
    )

length-encode_event : (e : EngineEvent) → length (encode_event e) ≡ 13 + event_payload_len e
unfolding encode_event event_payload_len
length-encode_event (message id payload is_binary) = omega arith
length-encode_event (connection_opened id none) = omega arith
length-encode_event (connection_opened id (some request)) = omega arith
length-encode_event (connection_closed id code reason) = omega arith
length-encode_event (authorize request client_ip url hs) =
    omega (arith, length-authorize_payload client_ip url hs)

length-encode_events : (es : List EngineEvent) → length (put_many encode_event es) ≡ events_len es
unfolding put_many events_len
length-encode_events [] = refl
length-encode_events (e ∷ es) = omega (
  arith,
  length-append (encode_event e) (put_many encode_event es),
  length-encode_event e,
  length-encode_events es,
)

-- A batch takes exactly the bytes that `encoded_len` counts.
pub length-encode_batch : (es : List EngineEvent) → length (encode_batch es) ≡ encoded_len es
unfolding encode_batch encoded_len
length-encode_batch es = omega (arith, length-encode_events es)

read_lp-write_lp : (b r : Bytes) → length b < 2 ^ 32 → read_lp (write_lp b ++ r) ≡ some (b, r)
unfolding read_lp write_lp
read_lp-write_lp b r h =
    let small : length b % 2 ^ 32 ≡ length b = omega arith in
    ground (
      arith,
      small,
      append_assoc (le_bytes 4 (length b)) b r,
      get_le-append 4 (length b) (b ++ r) h,
      get_bytes_exact (length b) b r refl,
    )

abbrev IsHeader : Bytes × Bytes → Type 0
IsHeader h = (length h.0 < 2 ^ 32) × (length h.1 < 2 ^ 32)

read_header-write_header :
    (h : Bytes × Bytes) (r : Bytes) → IsHeader h → read_header (write_header h ++ r) ≡ some (h, r)
unfolding read_header write_header
read_header-write_header (k, v) r ok = ground (
  arith,
  append_assoc (write_lp k) (write_lp v) r,
  read_lp-write_lp k (write_lp v ++ r) ok.0,
  read_lp-write_lp v r ok.1,
)

headers_fit :
    (hs : List (Bytes × Bytes)) → headers_len hs < 2 ^ 32 → (length hs < 2 ^ 32) × All IsHeader hs
unfolding headers_len
headers_fit hs h = (omega (arith, few hs), each hs h)
  where
    few : (hs : List (Bytes × Bytes)) → length hs ≤ headers_len hs
    few [] = omega arith
    few ((k, v) ∷ hs) = omega (arith, few hs)

    each : (hs : List (Bytes × Bytes)) → headers_len hs < 2 ^ 32 → All IsHeader hs
    each [] h = tt
    each ((k, v) ∷ hs) h = ((omega arith, omega arith), each hs (omega arith))

read_authorize_lem :
    (request : ℕ) (client_ip url : Bytes) (hs : List (Bytes × Bytes))
    → authorize_payload_len client_ip url hs < 2 ^ 32
    → read_authorize request (authorize_payload client_ip url hs)
      ≡ some (authorize_request request client_ip url hs, [])
unfolding read_authorize authorize_payload authorize_payload_len
read_authorize_lem request client_ip url hs h =
    let fits : (length hs < 2 ^ 32) × All IsHeader hs = headers_fit hs (omega arith) in
    let small : length hs % 2 ^ 32 ≡ length hs = omega (arith, fits.0) in
    let written : Bytes = put_many write_header hs in
    let none_left : get_many (length hs) read_header written ≡ some (hs, []) =
      rw (sym (append-nil written)) (
        get_many-put_many IsHeader write_header read_header read_header-write_header hs []
          fits.1) in
    ground (
      arith,
      small,
      read_lp-write_lp client_ip (write_lp url ++ (le_bytes 4 (length hs) ++ written))
          (omega arith),
      read_lp-write_lp url (le_bytes 4 (length hs) ++ written) (omega arith),
      get_le-append 4 (length hs) written fits.0,
      none_left,
    )

-- What an event is read back as.
abbrev pub view : EngineEvent → DecodedEvent
view (message id payload is_binary) = decoded_message id is_binary payload
view (connection_opened id request) = opened id request
view (connection_closed id code reason) = closed id code reason
view (authorize request client_ip url hs) = authorize_request request client_ip url hs

abbrev pub id_of : EngineEvent → ℕ
id_of (message id payload is_binary) = id
id_of (connection_opened id request) = id
id_of (connection_closed id code reason) = id
id_of (authorize request client_ip url hs) = request

-- The numbers that are neither an id nor a length.
abbrev pub Fields : EngineEvent → Type 0
Fields (message id payload is_binary) = Unit
Fields (connection_opened id none) = Unit
Fields (connection_opened id (some request)) = request < 2 ^ 64
Fields (connection_closed id code reason) = code < 2 ^ 16
Fields (authorize request client_ip url hs) = Unit

-- An event whose numbers have the width of their types, and whose payload's length fits its four bytes.
abbrev pub IsEvent : EngineEvent → Type 0
IsEvent e = (id_of e < 2 ^ 64) × (event_payload_len e < 2 ^ 32) × Fields e

read_frame :
    (id kind : ℕ) (payload left rest : Bytes) (d : DecodedEvent)
    → id < 2 ^ 64
    → length payload < 2 ^ 32
    → read_payload id kind (length payload) payload ≡ some (d, left)
    → read_event
        ((le_bytes 8 id ++ (kind ∷ (le_bytes 4 (length payload % 2 ^ 32) ++ payload))) ++ rest)
      ≡ some (d, rest)
unfolding read_event
read_frame id kind payload left rest d i n back =
    let small : length payload % 2 ^ 32 ≡ length payload = omega arith in
    ground (
      arith,
      small,
      append_assoc (le_bytes 8 id) (kind ∷ (le_bytes 4 (length payload) ++ payload)) rest,
      append_assoc (le_bytes 4 (length payload)) payload rest,
      get_le-append 8 id (kind ∷ (le_bytes 4 (length payload) ++ (payload ++ rest))) i,
      get_le-append 4 (length payload) (payload ++ rest) n,
      get_bytes_exact (length payload) payload rest refl,
      back,
    )

read_event-encode_event :
    (e : EngineEvent) (rest : Bytes)
    → IsEvent e
    → read_event (encode_event e ++ rest) ≡ some (view e, rest)
unfolding encode_event event_payload_len read_payload read_open read_close
read_event-encode_event (message id payload true) rest h =
    read_frame id kind_binary payload [] rest _ h.0 h.1 refl
read_event-encode_event (message id payload false) rest h =
    read_frame id kind_text payload [] rest _ h.0 h.1 refl
read_event-encode_event (connection_opened id none) rest h =
    read_frame id kind_open [] [] rest _ h.0 (omega arith) refl
read_event-encode_event (connection_opened id (some request)) rest h =
    read_frame id kind_open (le_bytes 8 request) [] rest _ h.0 (omega arith)
      (>>=-eq_some (get_le 8) _ _ request [] (get_le-append 8 request [] h.2) refl)
read_event-encode_event (connection_closed id code reason) rest h =
    let n : length (le_bytes 2 code ++ reason) ≡ 2 + length reason = omega arith in
    rw (sym n) (
      read_frame id kind_close (le_bytes 2 code ++ reason) [] rest _ h.0 (omega (arith, h.1))
        (>>=-eq_some (get_le 2) _ _ code reason (get_le-append 2 code reason h.2) refl))
read_event-encode_event (authorize request client_ip url hs) rest h =
    let n = length-authorize_payload client_ip url hs in
    rw (sym n) (
      read_frame request kind_authorize (authorize_payload client_ip url hs) [] rest _ h.0
        (omega (arith, n, h.1)) (read_authorize_lem request client_ip url hs h.1))

read_events-encode_events :
    (es : List EngineEvent)
    → All IsEvent es
    → get_many (length es) read_event (put_many encode_event es) ≡ some (map view es, [])
unfolding get_many put_many
read_events-encode_events [] h = refl
read_events-encode_events (e ∷ es) h =
    >>=-eq_some read_event _ _ (view e) (put_many encode_event es)
      (read_event-encode_event e (put_many encode_event es) h.0)
      (>>=-eq_some (get_many (length es) read_event) _ _ (map view es) []
        (read_events-encode_events es h.1) refl)

-- A batch of fewer than 2 ^ 32 events, with numbers of their types' widths and payloads below 2 ^ 32 bytes,
-- is decoded from its bytes as the same events in the same order: no event is lost, and each has the
-- connection's id, the kind and the data it was sent with.
pub decode-encode_batch :
    (es : List EngineEvent)
    → length es < 2 ^ 32
    → All IsEvent es
    → decode (encode_batch es) ≡ some (map view es)
unfolding decode encode_batch
decode-encode_batch es n h =
    let small : length es % 2 ^ 32 ≡ length es = omega arith in
    ground (
      arith,
      small,
      get_le-append 4 (length es) (put_many encode_event es) n,
      read_events-encode_events es h,
    )
