-- ===== src/Core/Authorize/Bound.antt =====
-- identity.rs: the bound of the pending table, however the calls and the answers interleave.
use beam_socket.Prelude.{
  ==_refl, ℕ, ◌+◌, ◌^◌, ◌<◌, ◌≤◌, ◌≡◌, ◌∙◌, refl, sym, ap, true, false, Option, none, some, List,
  [], ◌∷◌, ◌++◌, length, arith, leb, Bool-cases, inl, inr,
}
use beam_socket.Core.Authorize.{
  admitted_as, AuthorizeOutcome, accept, reject, Authorizer, new, reserve, shed, enter, conclude,
  clean_up, drop_permit, resolve, Task, shedding, entering, waiting, concluded, cleaned, tell_if,
  World, Step, on_reserve, on_shed, on_enter, on_resolve, on_conclude, on_clean_up, on_drop_permit,
  Reach, here, next, start,
}
use beam_socket.Prelude.Keys.{nat_key, contains, contains-add, contains-del}
use beam_socket.Prelude.Words.{sub64}
use beam_socket.Core.Authorize.Counts.{
  weight, is_of, admitted, has_task, admitted-middle, length-middle, has_task-middle, tell-Kept,
  admitted-length,
}

-- With a table of `m` at most: the slots taken are those of the calls, no more than `m` calls are admitted,
-- and an entry of the table is of one of them, which will clean it up.
pub record IsBounded (m : ℕ) (w : World) : Type 0 where
  pub limit : w.authorizer.max_pending ≡ m
  pub few : length w.tasks < 2 ^ 64
  pub slots : w.authorizer.in_flight ≡ length w.tasks
  pub bounded : admitted w.tasks ≤ m
  pub owned : (id : ℕ) → contains id w.authorizer.pending ≡ true → has_task id w.tasks ≡ true

-- A step that moves one task on.
moved-IsBounded :
    (m : ℕ) (a a' : Authorizer) (t u : Task) (before after : List Task)
    → IsBounded m (record { authorizer = a; tasks = before ++ (t ∷ after) })
    → a'.max_pending ≡ a.max_pending
    → a'.in_flight ≡ a.in_flight
    → weight u ≡ weight t
    → ((id : ℕ) → contains id a'.pending ≡ true → has_task id (before ++ (u ∷ after)) ≡ true)
    → IsBounded m (record { authorizer = a'; tasks = before ++ (u ∷ after) })
moved-IsBounded m a a' t u before after k l f w h = record {
  limit = l ∙ k.limit;
  few = omega (arith, k.few, length-middle t before after, length-middle u before after);
  slots = f ∙ omega (arith, k.slots, length-middle t before after, length-middle u before after);
  bounded =
      omega (arith, k.bounded, w, admitted-middle t before after, admitted-middle u before after);
  owned = h;
}

-- And one that ends a task, which has no entry.
ended-IsBounded :
    (m : ℕ) (a a' : Authorizer) (t : Task) (before after : List Task)
    → IsBounded m (record { authorizer = a; tasks = before ++ (t ∷ after) })
    → a'.max_pending ≡ a.max_pending
    → a'.in_flight ≡ sub64 a.in_flight 1
    → a'.pending ≡ a.pending
    → ((id : ℕ) → is_of id t ≡ false)
    → IsBounded m (record { authorizer = a'; tasks = before ++ after })
ended-IsBounded m a a' t before after k l f p h = record {
  limit = l ∙ k.limit;
  few = omega (arith, k.few, length-middle t before after);
  slots = f ∙ omega (arith, k.slots, k.few, length-middle t before after);
  bounded = omega (arith, k.bounded, admitted-middle t before after);
  owned = λ id e.
      ground
        (arith, k.owned id (ap (contains id) (sym p) ∙ e), has_task-middle id t before after, h id);
}

reserve-IsBounded :
    (m : ℕ) (a : Authorizer) (ts : List Task)
    → length ts + 1 < 2 ^ 64
    → IsBounded m (record { authorizer = a; tasks = ts })
    → IsBounded m (record { authorizer = (reserve a).0; tasks = admitted_as (reserve a).1 ∷ ts })
unfolding reserve admitted has_task is_of
reserve-IsBounded m a ts more k = elim (Bool-cases (leb a.max_pending a.in_flight)) [
  | inl e ↦
      rw (reserve, e)
        (record {
          limit = k.limit;
          few = omega arith;
          slots = omega (arith, k.slots);
          bounded = omega (arith, k.bounded);
          owned = k.owned;
        })
  | inr e ↦
      rw (reserve, e)
        (record {
          limit = k.limit;
          few = omega arith;
          slots = omega (arith, k.slots);
          bounded = ground (arith, k.slots, k.limit, e, admitted-length ts);
          owned = k.owned;
        })
]

told-IsBounded :
    (m id : ℕ) (outcome : AuthorizeOutcome) (a : Authorizer) (ts : List Task)
    → IsBounded m (record { authorizer = a; tasks = ts })
    → IsBounded m
        (record { authorizer = (resolve id a).0; tasks = tell_if (resolve id a).1 id outcome ts })
unfolding resolve
told-IsBounded m id outcome a ts k =
    let t = tell-Kept id outcome ts in
    elim (Bool-cases (contains id a.pending)) [
      | inl e ↦
          rw (resolve, e)
            (record {
              limit = k.limit;
              few = omega (arith, k.few, t.many);
              slots = k.slots ∙ sym t.many;
              bounded = omega (arith, k.bounded, t.counted);
              owned = λ other h.
                  t.owned other
                  ∙ k.owned other (ground (arith, contains-del id other a.pending, h));
            })
      | inr e ↦ rw (resolve, e) k
    ]

conclude-keeps :
    (id : ℕ) (answer : Option AuthorizeOutcome) (a : Authorizer)
    → ((conclude id answer a).0.max_pending ≡ a.max_pending)
      × ((conclude id answer a).0.in_flight ≡ a.in_flight)
      × ((conclude id answer a).0.pending ≡ a.pending)
unfolding conclude
conclude-keeps id (some (accept user_id)) a = (refl, refl, refl)
conclude-keeps id (some (reject code)) a = (refl, refl, refl)
conclude-keeps id none a = (refl, refl, refl)

Step-IsBounded : (m : ℕ) (w v : World) → Step w v → IsBounded m w → IsBounded m v
unfolding shed enter clean_up drop_permit is_of
Step-IsBounded m _ _ (on_reserve a ts more) k = reserve-IsBounded m a ts more k
Step-IsBounded m _ _ (on_shed a before after) k =
    ended-IsBounded m a (shed a).0 shedding before after k refl refl refl (λ id. refl)
Step-IsBounded m _ _ (on_enter a before after more) k =
    moved-IsBounded m a (enter a).0 entering (waiting (enter a).1 none) before after k refl refl
      refl
      (λ id h. ground (
        arith,
        k.owned id,
        h,
        contains-add a.next_id id a.pending,
        has_task-middle id entering before after,
        has_task-middle id (waiting a.next_id none) before after,
      ))
Step-IsBounded m _ _ (on_resolve id outcome a ts) k = told-IsBounded m id outcome a ts k
Step-IsBounded m _ _ (on_conclude id answer a before after) k =
    let c = conclude-keeps id answer a in
    moved-IsBounded m a (conclude id answer a).0 (waiting id answer)
      (concluded id (conclude id answer a).1) before after k c.0 c.1 refl
      (λ other h.
        has_task-middle other (concluded id (conclude id answer a).1) before after
        ∙ sym (has_task-middle other (waiting id answer) before after)
        ∙ k.owned other (ap (contains other) (sym c.2) ∙ h))
Step-IsBounded m _ _ (on_clean_up id r a before after) k =
    moved-IsBounded m a (clean_up id a) (concluded id r) (cleaned r) before after k refl refl refl
      (λ other h. ground (
        arith,
        k.owned other,
        h,
        contains-del id other a.pending,
        has_task-middle other (concluded id r) before after,
        has_task-middle other (cleaned r) before after,
      ))
Step-IsBounded m _ _ (on_drop_permit r a before after) k =
    ended-IsBounded m a (drop_permit a) (cleaned r) before after k refl refl refl (λ id. refl)

Reach-IsBounded : (m : ℕ) (w v : World) → Reach w v → IsBounded m w → IsBounded m v
Reach-IsBounded m _ _ (here w) k = k
Reach-IsBounded m _ _ (next w v u s r) k = Reach-IsBounded m v u r (Step-IsBounded m w v s k)

nothing_left :
    (pending : List ℕ)
    → ((id : ℕ) → contains id pending ≡ true → has_task id [] ≡ true)
    → pending ≡ []
unfolding contains has_task
nothing_left [] h = refl
nothing_left (p ∷ ps) h = absurd (cc (h p (ground (arith, ==_refl p))))

-- However calls of `authorize`, answers and timeouts interleave: every slot that is counted is held by a call
-- that still runs, at most `max_pending` calls are past the door, and each entry of the pending table is of
-- such a call, which will clean it up. When no call runs, the count is 0 and the table is empty.
pub Reach-bounded :
    (max_pending : ℕ) (w : World)
    → Reach (start max_pending) w
    → (w.authorizer.in_flight ≡ length w.tasks)
      × (admitted w.tasks ≤ max_pending)
      × ((id : ℕ) → contains id w.authorizer.pending ≡ true → has_task id w.tasks ≡ true)
      × (w.tasks ≡ [] → w.authorizer.pending ≡ [])
unfolding new admitted contains has_task
Reach-bounded m w r =
    let k = Reach-IsBounded m (start m) w r (record {
      limit = refl;
      few = omega arith;
      slots = refl;
      bounded = omega arith;
      owned = λ id h. h;
    }) in
    (
      k.slots,
      k.bounded,
      k.owned,
      λ e. nothing_left w.authorizer.pending (λ id h. ap (has_task id) (sym e) ∙ k.owned id h),
    )
