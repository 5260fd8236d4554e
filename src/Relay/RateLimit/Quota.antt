-- ===== src/Relay/RateLimit/Quota.antt =====
-- Allow of the rate limiter against its quota.
use kamune.Prelude.{
  ℕ, ◌≤◌, ◌<◌, ◌≡◌, refl, inl, inr, arith, Bool-cases, none, leb, List, [], ◌∷◌, ◌++◌, Bytes, All,
  length, length-append,
}
use mathlib.Core.List.{append_assoc, append-nil}
use kamune.Relay.RateLimit.{Cache, RateLimiter}
use kamune.Relay.RateLimit.Window.{recent, IsSorted, recent-append, length-recent_later}
use kamune.Relay.RateLimit.Tracking.{IsCache, granted, ideal, granted-ideal}

-- One more grant keeps the quota, if the window had room for it.
one_more :
    (quota w now later : ℕ) (history : List ℕ)
    → length (recent w now history) < quota
    → now ≤ later
    → length (recent w later (history ++ now ∷ [])) ≤ quota
one_more quota w now later history room h = rw (recent-append w later history (now ∷ [])) (
    omega (
      arith,
      length-append (recent w later history) (recent w later (now ∷ [])),
      length-recent_later w now later history h,
      single,
    ))
  where
    single : length (recent w later (now ∷ [])) ≤ 1
    single = ground arith

ideal_from :
    (quota w : ℕ) (history : List ℕ) (last : ℕ) (times : List ℕ) (end : ℕ)
    → ((now : ℕ) → last ≤ now → length (recent w now history) ≤ quota)
    → All (λ u. last ≤ u) times
    → IsSorted times
    → All (λ u. u ≤ end) times
    → last ≤ end
    → length (recent w end (history ++ ideal quota w history times)) ≤ quota
unfolding ideal
ideal_from quota w history last [] end bound v o u h = rw append-nil (bound end h)
ideal_from quota w history last (now ∷ later) end bound v o u h =
    elim (Bool-cases (leb quota (length (recent w now history)))) [
      | inl q ↦ rw q (
          ideal_from quota w history now later end (λ t g. bound t (omega (arith, v.0))) o.0 o.1 u.1
            u.0)
      | inr q ↦ rw q (
          rw (← append_assoc history (now ∷ []) (ideal quota w (history ++ now ∷ []) later)) (
            ideal_from quota w (history ++ now ∷ []) now later end
              (λ t g. one_more quota w now t history (ground arith) g) o.0 o.1 u.1 u.0))
    ]

-- However often a key asks, in the order of time, the limiter lets it in at most `quota` times in any
-- window, if it has no entry at first and the cache keeps its entry, which no other key displaces, for
-- at least a window.
pub granted_bounded {ℓ} :
    {S : Type ℓ} (cache : Cache S) (ttl : ℕ) (key : Bytes) (law : IsCache cache ttl key)
    (rl : RateLimiter S) (times : List ℕ) (end : ℕ)
    → rl.window ≤ ttl
    → law.peek rl.lru ≡ none
    → IsSorted times
    → All (λ u. u ≤ end) times
    → length (recent rl.window end (granted cache key rl times)) ≤ rl.quota
granted_bounded cache ttl key law rl times end long p o u =
    rw (granted-ideal cache ttl rl.window key law long rl times refl p o) (
      ideal_from rl.quota rl.window [] 0 times end (λ now h. omega arith) (non_negative times) o u
        (omega arith))
  where
    non_negative : (ts : List ℕ) → All (λ u. 0 ≤ u) ts
    non_negative [] = tt
    non_negative (t ∷ ts) = (omega arith, non_negative ts)
