-- ===== src/Relay/RateLimit/Window.antt =====
-- The stamps that lie in a window, and those that the limiter takes for them.
use kamune.Prelude.{
  ℕ, ◌+◌, ◌≤◌, ◌<◌, ◌≡◌, refl, inl, inr, arith, Bool-cases, if◌then◌else◌, ltb, leb, List, [], ◌∷◌,
  ◌++◌, All, All-append, length,
}
use kamune.Relay.RateLimit.{fresh}

-- The times of the list that lie in the window that ends at `now`.
abbrev pub recent : ℕ → ℕ → List ℕ → List ℕ
recent w now [] = []
recent w now (t ∷ ts) = if ltb now (t + w) then t ∷ recent w now ts else recent w now ts

abbrev pub IsSorted : List ℕ → Type 0
IsSorted [] = Unit
IsSorted (t ∷ ts) = All (λ u. t ≤ u) ts × IsSorted ts

pub recent_whole :
    (w now t : ℕ) (ts : List ℕ) → now < t + w → All (λ u. t ≤ u) ts → recent w now ts ≡ ts
recent_whole w now t [] h v = refl
recent_whole w now t (u ∷ us) h v = ground (arith, recent_whole w now t us h v.1, v.0)

pub fresh-recent : (w now : ℕ) (ts : List ℕ) → IsSorted ts → fresh w now ts ≡ recent w now ts
unfolding fresh
fresh-recent w now [] v = refl
fresh-recent w now (t ∷ ts) v = elim (Bool-cases (leb (t + w) now)) [
  | inl e ↦ ground (arith, fresh-recent w now ts v.1)
  | inr e ↦ ground (arith, recent_whole w now t ts (ground arith) v.0)
]

pub recent-recent :
    (w now later : ℕ) (ts : List ℕ)
    → now ≤ later
    → recent w later (recent w now ts) ≡ recent w later ts
recent-recent w now later [] h = refl
recent-recent w now later (t ∷ ts) h = ground (arith, recent-recent w now later ts h)

pub recent-append :
    (w now : ℕ) (ts us : List ℕ) → recent w now (ts ++ us) ≡ recent w now ts ++ recent w now us
recent-append w now [] us = refl
recent-append w now (t ∷ ts) us = ground (arith, recent-append w now ts us)

pub recent_empty :
    (w now at : ℕ) (ts : List ℕ) → All (λ u. u ≤ at) ts → at + w ≤ now → recent w now ts ≡ []
recent_empty w now at [] v h = refl
recent_empty w now at (t ∷ ts) v h = ground (arith, recent_empty w now at ts v.1 h, v.0)

pub recent-All {ℓ} : (P : ℕ → Type ℓ) (w now : ℕ) (ts : List ℕ) → All P ts → All P (recent w now ts)
recent-All P w now [] v = tt
recent-All P w now (t ∷ ts) v = elim (Bool-cases (ltb now (t + w))) [
  | inl e ↦ rw e (v.0, recent-All P w now ts v.1)
  | inr e ↦ rw e (recent-All P w now ts v.1)
]

pub recent-IsSorted : (w now : ℕ) (ts : List ℕ) → IsSorted ts → IsSorted (recent w now ts)
recent-IsSorted w now [] v = tt
recent-IsSorted w now (t ∷ ts) v = elim (Bool-cases (ltb now (t + w))) [
  | inl e ↦ rw e (recent-All (λ u. t ≤ u) w now ts v.0, recent-IsSorted w now ts v.1)
  | inr e ↦ rw e (recent-IsSorted w now ts v.1)
]

pub append-IsSorted :
    (ts : List ℕ) (now : ℕ) → IsSorted ts → All (λ u. u ≤ now) ts → IsSorted (ts ++ now ∷ [])
append-IsSorted [] now v h = (tt, tt)
append-IsSorted (t ∷ ts) now v h =
    (All-append (λ u. t ≤ u) ts (now ∷ []) v.0 (h.0, tt), append-IsSorted ts now v.1 h.1)

pub All-later : (at now : ℕ) (ts : List ℕ) → at ≤ now → All (λ u. u ≤ at) ts → All (λ u. u ≤ now) ts
All-later at now [] h v = tt
All-later at now (t ∷ ts) h v = (omega (arith, v.0), All-later at now ts h v.1)

pub length-recent_later :
    (w now later : ℕ) (ts : List ℕ)
    → now ≤ later
    → length (recent w later ts) ≤ length (recent w now ts)
length-recent_later w now later [] h = omega arith
length-recent_later w now later (t ∷ ts) h = ground (arith, length-recent_later w now later ts h)
