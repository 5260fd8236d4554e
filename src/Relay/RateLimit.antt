-- ===== src/Relay/RateLimit.antt =====
-- cmd/relay/internal/ratelimit/ratelimit.go: a sliding window of stamps for each key. The LRU cache is
-- golang-lru's: `Cache` has the two calls that the limiter makes of it, each at a time.
pub mod Window
pub mod Tracking
pub mod Quota
use kamune.Prelude.{
  ℕ, ◌+◌, Bool, true, false, if◌then◌else◌, leb, Option, none, some, List, [], ◌∷◌, ◌++◌, Bytes,
  length,
}

pub record Cache {ℓ} (S : Type ℓ) : Type ℓ where
  -- Get may move the entry to the front, or drop one that is stale.
  pub get : ℕ → Bytes → S → S × Option (List ℕ)
  pub add : ℕ → Bytes → List ℕ → S → S

pub record RateLimiter {ℓ} (S : Type ℓ) : Type ℓ where
  pub lru : S
  pub quota : ℕ
  pub window : ℕ

-- The loop that skips the stamps which are not after the cutoff, `now - window`. Time does not run
-- below zero, so the test is written `stamp + window <= now`.
unfoldable pub fresh : ℕ → ℕ → List ℕ → List ℕ
fresh window now [] = []
fresh window now (t ∷ ts) =
    let rest = fresh window now ts in if leb (t + window) now then rest else t ∷ ts

abbrev pub or_empty : Option (List ℕ) → List ℕ
or_empty none = []
or_empty (some stamps) = stamps

module _ {ℓ} {S : Type ℓ} (cache : Cache S) where
  unfoldable pub allow : RateLimiter S → ℕ → Bytes → RateLimiter S × Bool
  allow rl now key =
      let (lru, found) = cache.get now key rl.lru in
      let stamps = fresh rl.window now (or_empty found) in
      if leb rl.quota (length stamps)
      then (record rl { lru = lru }, false)
      else (record rl { lru = cache.add now key (stamps ++ now ∷ []) lru }, true)
