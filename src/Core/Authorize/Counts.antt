-- ===== src/Core/Authorize/Counts.antt =====
-- identity.rs: the calls of `authorize` that were admitted, and those that have an entry of the table.
use beam_socket.Prelude.{
  ℕ, suc, ◌+◌, ◌≤◌, ◌≡◌, refl, ap, Bool, false, ◌||◌, none, some, List, [], ◌∷◌, ◌++◌, length,
  arith, ◌==◌,
}
use beam_socket.Core.Authorize.{
  AuthorizeOutcome, Task, shedding, entering, waiting, concluded, cleaned, tell,
}
use beam_socket.Prelude.Keys.{nat_key}

-- Whether a task was admitted, and the id whose entry in the table it will clean up.
abbrev pub weight : Task → ℕ
weight shedding = 0
weight t = 1

unfoldable pub is_of : ℕ → Task → Bool
is_of id (waiting other answer) = other == id
is_of id (concluded other r) = other == id
is_of id t = false

unfoldable pub admitted : List Task → ℕ
admitted [] = 0
admitted (t ∷ ts) = weight t + admitted ts

unfoldable pub has_task : ℕ → List Task → Bool
unfolding is_of
has_task id [] = false
has_task id (t ∷ ts) = is_of id t || has_task id ts

pub admitted-middle :
    (t : Task) (before after : List Task)
    → admitted (before ++ (t ∷ after)) ≡ weight t + admitted (before ++ after)
unfolding admitted
admitted-middle t [] after = refl
admitted-middle t (b ∷ before) after = omega (arith, admitted-middle t before after)

pub length-middle :
    (t : Task) (before after : List Task)
    → length (before ++ (t ∷ after)) ≡ suc (length (before ++ after))
length-middle t [] after = refl
length-middle t (b ∷ before) after = ap suc (length-middle t before after)

pub has_task-middle :
    (id : ℕ) (t : Task) (before after : List Task)
    → has_task id (before ++ (t ∷ after)) ≡ (is_of id t || has_task id (before ++ after))
unfolding has_task
has_task-middle id t [] after = refl
has_task-middle id t (b ∷ before) after = ground (arith, has_task-middle id t before after)

-- Telling an answer keeps every task where it is.
pub record Kept (ts us : List Task) : Type 0 where
  pub counted : admitted us ≡ admitted ts
  pub many : length us ≡ length ts
  pub owned : (id : ℕ) → has_task id us ≡ has_task id ts

Kept-cons :
    (t u : Task) (ts us : List Task)
    → weight u ≡ weight t
    → ((id : ℕ) → is_of id u ≡ is_of id t)
    → Kept ts us
    → Kept (t ∷ ts) (u ∷ us)
unfolding admitted has_task
Kept-cons t u ts us w i k = record {
  counted = omega (arith, k.counted, w);
  many = omega (arith, k.many);
  owned = λ id. rw (i id, k.owned id) refl;
}

pub tell-Kept :
    (id : ℕ) (outcome : AuthorizeOutcome) (ts : List Task) → Kept ts (tell id outcome ts)
unfolding tell is_of
tell-Kept id outcome [] = record { counted = refl; many = refl; owned = λ other. refl }
tell-Kept id outcome (waiting other none ∷ ts) =
    Kept-cons _ _ ts _ refl (λ i. refl) (tell-Kept id outcome ts)
tell-Kept id outcome (waiting other (some o) ∷ ts) =
    Kept-cons _ _ ts _ refl (λ i. refl) (tell-Kept id outcome ts)
tell-Kept id outcome (shedding ∷ ts) = Kept-cons _ _ ts _ refl (λ i. refl) (tell-Kept id outcome ts)
tell-Kept id outcome (entering ∷ ts) = Kept-cons _ _ ts _ refl (λ i. refl) (tell-Kept id outcome ts)
tell-Kept id outcome (concluded other r ∷ ts) =
    Kept-cons _ _ ts _ refl (λ i. refl) (tell-Kept id outcome ts)
tell-Kept id outcome (cleaned r ∷ ts) =
    Kept-cons _ _ ts _ refl (λ i. refl) (tell-Kept id outcome ts)

pub admitted-length : (ts : List Task) → admitted ts ≤ length ts
unfolding admitted
admitted-length [] = omega arith
admitted-length (shedding ∷ ts) = omega (arith, admitted-length ts)
admitted-length (t ∷ ts) = omega (arith, admitted-length ts)
