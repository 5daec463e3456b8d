-- ===== src/Mesh/Probe/Replay.antt =====
-- probe.rs: which datagrams are acted on, and in which order.
use beam_socket.Prelude.Words.{add64}
use mathlib.Core.Path.{subst}
use beam_socket.Prelude.{
  ltb, ◌<◌, ◌||◌, ◌⊎◌, ℕ, ◌≤◌, ◌≡◌, ◌∙◌, refl, sym, ap, Bool, true, false, not, ◌&&◌, Option, none,
  some, List, [], ◌∷◌, ◌==◌, ==→eq, ==_refl, if◌then◌else◌, All, arith, Bool-cases, Option-cases,
  inl, inr,
}
use beam_socket.Prelude.Bytes.{Bytes, IsByte}
use beam_socket.Prelude.Results.{Result-cases}
use beam_socket.Prelude.Maps.{Map, lookup, lookup-insert}
use beam_socket.Prelude.Keys.{nat_key, contains}
use beam_socket.Mesh.Addr.{SocketAddr}
use beam_socket.Mesh.Probe.{ProbePacket, ping, ack, ping_req, header, stamp, decode, with_tag}
use beam_socket.Mesh.Probe.Packets.{IsMac, decode-authentic}
use beam_socket.Mesh.Probe.Plane.{
  ProbePlane, stamp_leb, accept_stamp, handle, dispatch, receive, is_originated,
}

Stamp : Type 0
Stamp = ℕ × ℕ × ℕ

-- The stamps that the guard lets through, of senders and stamps in the order of their arrival.
unfoldable pub accepted : List (ℕ × (ℕ × ℕ)) → Map (ℕ × ℕ) → List (ℕ × (ℕ × ℕ))
unfolding accept_stamp
accepted [] replay = []
accepted ((from, st) ∷ arrivals) replay =
    let (next, fresh) = accept_stamp from st replay in
    let rest = accepted arrivals next in if fresh then (from, st) ∷ rest else rest

abbrev pub above : Option (ℕ × ℕ) → ℕ × ℕ → Bool
above none st = true
above (some last) st = not (stamp_leb st last)

-- A stamp comes after another by its incarnation, or at one incarnation by its sequence number.
abbrev pub IsLater : ℕ × ℕ → ℕ × ℕ → Type 0
IsLater (inc, seq) (last_inc, last_seq) = (last_inc < inc) ⊎ ((last_inc ≡ inc) × (last_seq < seq))

abbrev pub IsNews : Option (ℕ × ℕ) → ℕ × ℕ → Type 0
IsNews none st = Unit {0}
IsNews (some last) st = IsLater st last

abbrev pub is_news : Option (ℕ × ℕ) → ℕ × ℕ → Bool
is_news none st = true
is_news (some (last_inc, last_seq)) (inc, seq) =
    ltb last_inc inc || ((last_inc == inc) && ltb last_seq seq)

-- Each comes after the one before it, and the first after the one given.
abbrev pub Rises : Option (ℕ × ℕ) → List (ℕ × ℕ) → Type 0
Rises last [] = Unit {0}
Rises last (st ∷ sts) = IsNews last st × Rises (some st) sts

-- The stamps of one sender.
unfoldable pub stamps_of : ℕ → List (ℕ × (ℕ × ℕ)) → List (ℕ × ℕ)
stamps_of who [] = []
stamps_of who ((from, st) ∷ arrivals) =
    let rest = stamps_of who arrivals in if from == who then st ∷ rest else rest

-- Those that come after all that were kept before them.
unfoldable pub records : Option (ℕ × ℕ) → List (ℕ × ℕ) → List (ℕ × ℕ)
records last [] = []
records last (st ∷ sts) = elim (is_news last st) [
  | true ↦ st ∷ records (some st) sts
  | false ↦ records last sts
]

news_lem : (last : Option (ℕ × ℕ)) (st : ℕ × ℕ) → is_news last st ≡ true → IsNews last st
news_lem none st e = tt
news_lem (some (i, s)) (inc, seq) e = ground arith

records-Rises : (last : Option (ℕ × ℕ)) (sts : List (ℕ × ℕ)) → Rises last (records last sts)
unfolding records
records-Rises last [] = tt
records-Rises last (st ∷ sts) = elim (Bool-cases (is_news last st)) [
  | inl e ↦ rw (records, e) (news_lem last st e, records-Rises (some st) sts)
  | inr e ↦ rw (records, e) (records-Rises last sts)
]

above-is_news : (last : Option (ℕ × ℕ)) (st : ℕ × ℕ) → above last st ≡ is_news last st
above-is_news none st = refl
above-is_news (some (i, s)) (inc, seq) = ground arith

-- The guard is that the stamp is above the sender's last, and keeps it then.
pub accept_stamp_lem :
    (from who : ℕ) (st : ℕ × ℕ) (replay : Map (ℕ × ℕ))
    → ((accept_stamp from st replay).1 ≡ above (lookup from replay) st)
      × (lookup who (accept_stamp from st replay).0
          ≡ (if (accept_stamp from st replay).1 && from == who then some st else lookup who replay))
unfolding accept_stamp
accept_stamp_lem from who st replay = elim (Option-cases (lookup from replay)) [
  | inl n ↦ rw (accept_stamp, n) (refl, lookup-insert from who st replay)
  | inr (last, n) ↦ elim (Bool-cases (stamp_leb st last)) [
    | inl e ↦ rw (accept_stamp, n, e) (refl, refl)
    | inr e ↦ rw (accept_stamp, n, e) (refl, lookup-insert from who st replay)
  ]
]

accepted-records :
    (who : ℕ) (arrivals : List (ℕ × (ℕ × ℕ))) (replay : Map (ℕ × ℕ))
    → stamps_of who (accepted arrivals replay)
      ≡ records (lookup who replay) (stamps_of who arrivals)
unfolding accepted records stamps_of
accepted-records who [] replay = refl
accepted-records who ((from, st) ∷ arrivals) replay =
    let next = (accept_stamp from st replay).0 in
    let ih = accepted-records who arrivals next in
    let (fresh, kept) = accept_stamp_lem from who st replay in
    let news : (accept_stamp from st replay).1 ≡ is_news (lookup from replay) st =
      fresh ∙ above-is_news (lookup from replay) st in
    elim (Bool-cases (from == who)) [
      | inr d ↦
          let same : lookup who next ≡ lookup who replay = ground (arith, kept, d) in
          let rest : stamps_of who (accepted arrivals next)
              ≡ records (lookup who replay) (stamps_of who arrivals) =
            ih ∙ ap (λ o. records o (stamps_of who arrivals)) same in
          elim (Bool-cases (accept_stamp from st replay).1) [
            | inl e ↦ rw (accepted, e, stamps_of, d) rest
            | inr e ↦ rw (accepted, e, stamps_of, d) rest
          ]
      | inl d ↦
          let me : lookup from replay ≡ lookup who replay =
            ap (λ k. lookup k replay) (==→eq from who d) in
          elim (Bool-cases (accept_stamp from st replay).1) [
            | inl e ↦
                let is : is_news (lookup who replay) st ≡ true =
                  ap (λ o. is_news o st) (sym me) ∙ sym news ∙ e in
                let same : lookup who next ≡ some st = kept ∙ rw (e, d) refl in
                rw (accepted, e, stamps_of, d, records, is)
                  (ap (st ∷◌) (ih ∙ ap (λ o. records o (stamps_of who arrivals)) same))
            | inr e ↦
                let is : is_news (lookup who replay) st ≡ false =
                  ap (λ o. is_news o st) (sym me) ∙ sym news ∙ e in
                let same : lookup who next ≡ lookup who replay = kept ∙ rw e refl in
                rw (accepted, e, stamps_of, d, records, is)
                  (ih ∙ ap (λ o. records o (stamps_of who arrivals)) same)
          ]
    ]

-- Whatever arrives in whatever order: of a sender's originated packets the guard lets exactly those through
-- whose stamp comes after all that it let through before, a newer incarnation before any sequence number and
-- at one incarnation a higher sequence number; so that the stamps that are let through rise strictly, and
-- none is let through twice.
pub accepted-rising :
    (who : ℕ) (arrivals : List (ℕ × (ℕ × ℕ))) (replay : Map (ℕ × ℕ))
    → let through = stamps_of who (accepted arrivals replay) in
      (through ≡ records (lookup who replay) (stamps_of who arrivals))
      × Rises (lookup who replay) through
accepted-rising who arrivals replay =
    let exact = accepted-records who arrivals replay in
    (
      exact,
      subst (Rises (lookup who replay)) (sym exact)
          (records-Rises (lookup who replay) (stamps_of who arrivals)),
    )

pub stamp_leb_trans :
    (inc seq low : ℕ) (last : ℕ × ℕ)
    → low ≤ seq
    → stamp_leb (inc, seq) last ≡ true
    → stamp_leb (inc, low) last ≡ true
stamp_leb_trans inc seq low (i, s) h e = ground arith

stamp_leb_refl : (st : ℕ × ℕ) → stamp_leb st st ≡ true
stamp_leb_refl (inc, seq) = ground arith

pub accept_stamp-last :
    (from : ℕ) (st : ℕ × ℕ) (replay : Map (ℕ × ℕ))
    → (last : ℕ × ℕ) × (lookup from (accept_stamp from st replay).0 ≡ some last)
      × (stamp_leb st last ≡ true)
accept_stamp-last from st replay =
    let (fresh, kept) = accept_stamp_lem from from st replay in
    elim (Bool-cases (accept_stamp from st replay).1) [
      | inl e ↦ (st, kept ∙ rw (e, ==_refl from) refl, stamp_leb_refl st)
      | inr e ↦ elim (Option-cases (lookup from replay)) [
        | inl n ↦ absurd (cc (fresh, e, ap (λ o. above o st) n))
        | inr (last, n) ↦ (last, kept ∙ rw e n, ground (arith, fresh, e, ap (λ o. above o st) n))
      ]
    ]

pub dispatch_denied :
    (p : ProbePacket) (src : SocketAddr) (now : ℕ) (pl : ProbePlane)
    → contains (header p).from pl.deny ≡ true
    → dispatch p src now pl ≡ (pl, [])
unfolding dispatch
dispatch_denied p src now pl d = rw (dispatch, d) refl

pub dispatch_guarded :
    (p : ProbePacket) (src : SocketAddr) (now : ℕ) (pl : ProbePlane)
    → is_originated p ≡ true
    → contains (header p).from pl.deny ≡ false
    → let (replay, fresh) = accept_stamp (header p).from (stamp p) pl.replay in
      dispatch p src now pl ≡ (
        if fresh then handle p src now (record pl { replay = replay }) else (
          record pl { counters = record (pl.counters) { replayed = add64 pl.counters.replayed 1 } },
          [],
        ))
unfolding dispatch accept_stamp
dispatch_guarded p src now pl o d = rw (dispatch, d, o) refl

pub handle-replay :
    (p : ProbePacket) (src : SocketAddr) (now : ℕ) (pl : ProbePlane)
    → ((handle p src now pl).0.replay ≡ pl.replay) × ((handle p src now pl).0.deny ≡ pl.deny)
unfolding handle
handle-replay (ping h r) src now pl = (refl, refl)
handle-replay (ack h) src now pl = ground arith
handle-replay (ping_req h f t a) src now pl = (refl, refl)

-- An originated packet of a sender leaves its last stamp at that packet's or above.
pub dispatch-last :
    (p : ProbePacket) (src : SocketAddr) (now : ℕ) (pl : ProbePlane)
    → is_originated p ≡ true
    → contains (header p).from pl.deny ≡ false
    → ((last : ℕ × ℕ) × (lookup (header p).from (dispatch p src now pl).0.replay ≡ some last)
        × (stamp_leb (stamp p) last ≡ true))
      × ((dispatch p src now pl).0.deny ≡ pl.deny)
dispatch-last p src now pl o d =
    let (fresh, kept) = accept_stamp_lem (header p).from (header p).from (stamp p) pl.replay in
    let (last, at, below) = accept_stamp-last (header p).from (stamp p) pl.replay in
    let next = (accept_stamp (header p).from (stamp p) pl.replay).0 in
    let (same, deny) = handle-replay p src now (record pl { replay = next }) in
    elim (Bool-cases (accept_stamp (header p).from (stamp p) pl.replay).1) [
      | inl e ↦
          rw (dispatch_guarded p src now pl o d, e)
            ((last, ap (lookup (header p).from) same ∙ at, below), deny)
      | inr e ↦
          rw (dispatch_guarded p src now pl o d, e)
            ((last, sym (kept ∙ rw e refl) ∙ at, below), refl)
    ]

-- With a MAC of 32 bytes, a datagram of bytes is a body with its MAC under the plane's secret behind it, or
-- nothing is sent for it and nothing of the plane changes but the counters.
pub receive-authentic :
    (hmac_sha256 : Bytes → Bytes → Bytes) (buf : Bytes) (src : SocketAddr) (now : ℕ)
    (pl : ProbePlane)
    → IsMac hmac_sha256
    → All IsByte buf
    → let (after, sends) = receive hmac_sha256 buf src now pl in
      ((body : Bytes) × (buf ≡ with_tag hmac_sha256 pl.secret body))
      ⊎ ((sends ≡ []) × (after ≡ record pl { counters = after.counters }))
unfolding receive
receive-authentic hmac buf src now pl mac bytes = elim (Result-cases (decode hmac buf pl.secret)) [
  | inl (p, e) ↦
      let (body, tagged, long, reads) = decode-authentic hmac buf pl.secret p mac bytes e in
      inl (body, tagged)
  | inr (d, e) ↦ inr (rw (receive, e) refl, rw (receive, e) refl)
]
