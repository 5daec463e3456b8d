-- ===== src/Mesh/Interest/Hosting.antt =====
-- interest.rs: what a node hosts after `local_set`.
use beam_socket.Prelude.{
  ◌≡◌, ◌∙◌, refl, sym, ap, Bool, true, false, not, ◌&&◌, List, [], ◌∷◌, if◌then◌else◌, arith,
  Bool-cases, inl, inr, bytes_eq,
}
use beam_socket.Prelude.Bytes.{Bytes}
use beam_socket.Prelude.Keys.{bytes_key, same}
use beam_socket.Mesh.Interest.{
  room, user, InterestState, hosts, local_set, put_target, mem, set_remove, differs,
}
use beam_socket.Mesh.Interest.Repair.Snapshots.{mem-set_insert}

bytes_eq_comm : (a b : Bytes) → bytes_eq a b ≡ bytes_eq b a
bytes_eq_comm a b = elim (Bool-cases (bytes_eq a b)) [
  | inl e ↦ elim (Bool-cases (bytes_eq b a)) [
    | inl d ↦ rw (e, d) refl
    | inr d ↦
        ap (bytes_eq a) (sym (bytes_key.same→eq a b e))
        ∙ ap (λ x. bytes_eq x a) (bytes_key.same→eq a b e)
  ]
  | inr e ↦ elim (Bool-cases (bytes_eq b a)) [
    | inl d ↦
        ap (bytes_eq a) (bytes_key.same→eq b a d)
        ∙ ap (λ x. bytes_eq x a) (sym (bytes_key.same→eq b a d))
    | inr d ↦ rw (e, d) refl
  ]
]

mem-set_remove :
    (s t : Bytes) (ts : List Bytes) → mem s (set_remove t ts) ≡ (not (bytes_eq s t) && mem s ts)
unfolding mem set_remove
mem-set_remove s t [] = ground arith
mem-set_remove s t (u ∷ us) =
    let ih = mem-set_remove s t us in
    elim (Bool-cases (bytes_eq t u)) [
      | inl e ↦ rw e (ground (arith, ih, ap (bytes_eq s) (bytes_key.same→eq t u e)))
      | inr e ↦ rw e (elim (Bool-cases (bytes_eq s t)) [
        | inl d ↦ ground (arith, ih, d, e, ap (λ x. bytes_eq x u) (bytes_key.same→eq s t d))
        | inr d ↦ ground (arith, ih, d)
      ])
    ]

mem_at : (a b : Bytes) (ts : List Bytes) → bytes_eq a b ≡ true → mem a ts ≡ mem b ts
mem_at a b ts e = ap (λ x. mem x ts) (bytes_key.same→eq a b e)

-- A node hosts the room that it sets as it sets it, and the others as before.
pub hosts-local_set :
    (a b : Bytes) (on : Bool) (s : InterestState)
    → hosts (local_set (room a) on s).0.own (room b)
      ≡ (if same a b then on else hosts s.own (room b))
unfolding local_set hosts put_target
hosts-local_set a b true s = elim (Bool-cases (mem a s.own.rooms)) [
  | inl m ↦ rw (local_set, m) (ground (arith, m, mem_at a b s.own.rooms))
  | inr m ↦
      rw (local_set, m) (mem-set_insert b a s.own.rooms ∙ rw (bytes_eq_comm b a) (ground arith))
]
hosts-local_set a b false s = elim (Bool-cases (mem a s.own.rooms)) [
  | inl m ↦
      rw (local_set, m) (mem-set_remove b a s.own.rooms ∙ rw (bytes_eq_comm b a) (ground arith))
  | inr m ↦ rw (local_set, m) (ground (arith, m, mem_at a b s.own.rooms))
]

-- A user has nothing to do with the rooms.
pub hosts-local_set_user :
    (a b : Bytes) (on : Bool) (s : InterestState)
    → hosts (local_set (user a) on s).0.own (room b) ≡ hosts s.own (room b)
unfolding local_set hosts put_target
hosts-local_set_user a b on s = elim (Bool-cases (differs on (mem a s.own.users))) [
  | inl e ↦ rw (local_set, e) refl
  | inr e ↦ rw (local_set, e) refl
]
