-- ===== src/Examples/RateLimit.antt =====
-- A limiter of two calls in ten ticks, over a cache of one entry.
use kamune.Prelude.{
  ℕ, ◌+◌, ◌≤◌, ◌≡◌, refl, arith, if◌then◌else◌, ltb, lt→ltb, le→ltb, Option, none, some, List, [],
  ◌∷◌, Bytes, length,
}
use kamune.Relay.RateLimit.{Cache, RateLimiter}
use kamune.Relay.RateLimit.Window.{recent}
use kamune.Relay.RateLimit.Tracking.{IsCache, granted, ideal, granted-ideal}
use kamune.Relay.RateLimit.Quota.{granted_bounded}

abbrev Entry : Type 0
Entry = Option (ℕ × List ℕ)

abbrev get_entry : ℕ → Entry → Entry × Option (List ℕ)
get_entry now none = (none, none)
get_entry now (some (at, stamps)) =
    if ltb now (at + 20) then (some (at, stamps), some stamps) else (none, none)

abbrev one_entry : Cache Entry
one_entry = record {
  get = λ now key s. get_entry now s;
  add = λ now key stamps s. some (now, stamps);
}

abbrev client : Bytes
client = 49 ∷ []

abbrev one_entry-IsCache : IsCache one_entry 20 client
one_entry-IsCache = record {
  peek = λ s. s;
  get_absent = λ s now p. rw (p, get_entry) (refl, refl);
  get_live = λ s now at ts p h. rw (p, get_entry) (rw (lt→ltb now (at + 20) h) (refl, refl));
  get_stale = λ s now at ts p h. rw (p, get_entry) (rw (le→ltb now (at + 20) h) (refl, refl));
  peek-add = λ s now ts. refl;
}

abbrev limiter : RateLimiter Entry
limiter = record { lru = none; quota = 2; window = 10 }

-- The third call comes too early, the fourth when the first is out of the window.
abbrev calls : List ℕ
calls = 100 ∷ 105 ∷ 107 ∷ 110 ∷ 111 ∷ []

granted-ideal_example : granted one_entry client limiter calls ≡ ideal 2 10 [] calls
granted-ideal_example =
    granted-ideal one_entry 20 10 client one_entry-IsCache (omega arith) limiter calls refl refl
      (omega arith)

granted-calls : granted one_entry client limiter calls ≡ 100 ∷ 105 ∷ 110 ∷ []
unfolding granted kamune.Relay.RateLimit.allow kamune.Relay.RateLimit.fresh
granted-calls = refl

granted_bounded_example : length (recent 10 111 (granted one_entry client limiter calls)) ≤ 2
granted_bounded_example =
    granted_bounded one_entry 20 client one_entry-IsCache limiter calls 111 (omega arith) refl
      (omega arith) (omega arith)
