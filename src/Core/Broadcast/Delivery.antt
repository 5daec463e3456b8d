-- ===== src/Core/Broadcast/Delivery.antt =====
-- broadcast.rs: which mailboxes a fan-out reaches, and what its report says.
use beam_socket.Prelude.{
  ℕ, zero, suc, ◌+◌, ◌≡◌, ◌∙◌, refl, ap, Bool, false, not, ◌&&◌, Option, none, some, List, [], ◌∷◌,
  ◌==◌, ==→eq, if◌then◌else◌, length, arith, Bool-cases, Option-cases, inl, inr,
}
use beam_socket.Prelude.Keys.{nat_key, contains, write}
use beam_socket.Core.Mailbox.{
  OutboundFrame, BackpressurePolicy, PushOutcome, queued, dropped_newest, dropped_oldest,
  disconnected, refused_closed,
}
use beam_socket.Core.Registry.{Registry, get}
use beam_socket.Core.Broadcast.{
  ConnHandle, Handles, FanoutReport, Exclusions, exclusions, excludes, push, push_one, fan_out,
  fan_out_ids, count_outcome,
}
use beam_socket.Core.Broadcast.Exclusion.{excludes-exclusions}

abbrev is_handle : Option ℕ → ℕ → Bool
is_handle none handle = false
is_handle (some h) handle = h == handle

-- How many of the ids are not excepted and belong to a live connection with the given handle, and how many
-- are not excepted at all.
unfoldable pub addressed : List ℕ → Registry → ℕ → List ℕ → ℕ
addressed except conns handle [] = 0
addressed except conns handle (id ∷ ids) =
    let rest = addressed except conns handle ids in
    if not (contains id except) && is_handle (get conns id) handle then suc rest else rest

unfoldable pub recipients : List ℕ → List ℕ → ℕ
recipients except [] = 0
recipients except (id ∷ ids) =
    let rest = recipients except ids in if contains id except then rest else suc rest

module _ (policy : BackpressurePolicy) (hwm : ℕ) (frame : OutboundFrame) where
  -- The frame is pushed so many times.
  unfoldable pub pushed : ℕ → ConnHandle → ConnHandle
  unfolding push
  pushed zero h = h
  pushed (suc n) h = pushed n (push policy hwm frame h).0

  abbrev pub total : FanoutReport → ℕ
  total r = r.queued_count + r.backpressured + r.missing

  total-count_outcome :
      (o : PushOutcome) (r : FanoutReport)
      → (total (count_outcome o r) ≡ total r + 1) × ((count_outcome o r).attempted ≡ r.attempted)
  total-count_outcome queued r = (omega arith, refl)
  total-count_outcome dropped_newest r = (omega arith, refl)
  total-count_outcome dropped_oldest r = (omega arith, refl)
  total-count_outcome disconnected r = (omega arith, refl)
  total-count_outcome refused_closed r = (omega arith, refl)

  pushed-write :
      (n handle h : ℕ) (hs : Handles)
      → pushed n (write handle (push policy hwm frame (hs handle)).0 hs h)
        ≡ pushed (if handle == h then suc n else n) (hs h)
  unfolding pushed
  pushed-write n handle h hs = elim (Bool-cases (handle == h)) [
    | inl d ↦ rw d (ap (λ k. pushed n (push policy hwm frame (hs k)).0) (==→eq handle h d))
    | inr d ↦ rw d refl
  ]

  fan_out_lem :
      (ex : Exclusions) (except : List ℕ) (conns : Registry) (ids : List ℕ) (hs : Handles)
      (r : FanoutReport)
      → ((id : ℕ) → excludes ex id ≡ contains id except)
      → let (after, report) = fan_out policy hwm frame ex conns ids hs r in
        ((h : ℕ) → after h ≡ pushed (addressed except conns h ids) (hs h))
        × (report.attempted ≡ r.attempted + recipients except ids)
        × (total report ≡ total r + recipients except ids)
  unfolding fan_out addressed recipients pushed push_one
  fan_out_lem ex except conns [] hs r same_as = (λ h. refl, omega arith, omega arith)
  fan_out_lem ex except conns (id ∷ ids) hs r same_as = elim (Bool-cases (contains id except)) [
    | inl e ↦
        rw (fan_out, addressed, recipients, same_as id ∙ e, e)
          (fan_out_lem ex except conns ids hs r same_as)
    | inr e ↦ elim (Option-cases (get conns id)) [
      | inl n ↦
          let next : FanoutReport = record r {
            missing = r.missing + 1;
            attempted = r.attempted + 1;
          } in
          let (boxes, tried, told) = fan_out_lem ex except conns ids hs next same_as in
          rw (fan_out, addressed, recipients, same_as id ∙ e, e, n)
            (boxes, omega (arith, tried), omega (arith, told))
      | inr (handle, n) ↦
          let told_one = push_one policy hwm frame handle hs r in
          let next : FanoutReport = record told_one.1 { attempted = told_one.1.attempted + 1 } in
          let (boxes, tried, told) = fan_out_lem ex except conns ids told_one.0 next same_as in
          let (one, kept) = total-count_outcome (push policy hwm frame (hs handle)).1 r in
          rw (fan_out, addressed, recipients, same_as id ∙ e, e, n)
            (
              λ h. boxes h ∙ pushed-write (addressed except conns h ids) handle h hs,
              omega (arith, tried, kept),
              omega (arith, told, one),
            )
    ]
  ]

  -- A fan-out pushes the frame to each connection once for each time that it is listed, is live and is not
  -- excepted, and touches no other mailbox. Its report counts the ids that are not excepted as attempted,
  -- and each of those as queued, backpressured or missing.
  pub fan_out_ids_lem :
      (conns : Registry) (ids except : List ℕ) (hs : Handles) (r : FanoutReport)
      → let (after, report) = fan_out_ids policy hwm frame conns ids except hs r in
        ((h : ℕ) → after h ≡ pushed (addressed except conns h ids) (hs h))
        × (report.attempted ≡ r.attempted + recipients except ids)
        × (total report ≡ total r + recipients except ids)
  unfolding fan_out_ids
  fan_out_ids_lem conns ids except hs r =
      fan_out_lem (exclusions except (length ids)) except conns ids hs r
        (excludes-exclusions except (length ids))
