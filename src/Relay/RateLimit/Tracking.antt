-- ===== src/Relay/RateLimit/Tracking.antt =====
-- Allow of the rate limiter against a limiter that keeps every stamp.
use kamune.Prelude.{
  ℕ, ◌+◌, ◌≤◌, ◌<◌, ◌≡◌, refl, sym, ap, ◌∙◌, ◌⊎◌, inl, inr, arith, true, false, Bool-cases,
  if◌then◌else◌, ltb, leb, Option, none, some, List, [], ◌∷◌, ◌++◌, Bytes, All, All-append, length,
}
use kamune.Relay.RateLimit.Window.{
  recent, IsSorted, fresh-recent, recent-recent, recent-append, recent_empty, recent-All,
  recent-IsSorted, append-IsSorted, All-later,
}
use kamune.Relay.RateLimit.{Cache, RateLimiter, or_empty, allow}

-- What golang-lru documents, seen from one key that no other key displaces: an entry is there until
-- `ttl` after it was added.
pub record IsCache {ℓ} {S : Type ℓ} (cache : Cache S) (ttl : ℕ) (key : Bytes) : Type ℓ where
  pub peek : S → Option (ℕ × List ℕ)
  pub get_absent :
      (s : S) (now : ℕ)
      → peek s ≡ none
      → ((cache.get now key s).1 ≡ none) × (peek (cache.get now key s).0 ≡ none)
  pub get_live :
      (s : S) (now at : ℕ) (ts : List ℕ)
      → peek s ≡ some (at, ts)
      → now < at + ttl
      → ((cache.get now key s).1 ≡ some ts) × (peek (cache.get now key s).0 ≡ some (at, ts))
  pub get_stale :
      (s : S) (now at : ℕ) (ts : List ℕ)
      → peek s ≡ some (at, ts)
      → at + ttl ≤ now
      → ((cache.get now key s).1 ≡ none) × (peek (cache.get now key s).0 ≡ none)
  pub peek-add : (s : S) (now : ℕ) (ts : List ℕ) → peek (cache.add now key ts s) ≡ some (now, ts)

-- The times at which the limiter lets the key in, out of those at which it asks.
unfoldable pub granted {ℓ} : {S : Type ℓ} → Cache S → Bytes → RateLimiter S → List ℕ → List ℕ
granted cache key rl [] = []
granted cache key rl (now ∷ later) =
    let rest = granted cache key (allow cache rl now key).0 later in
    if (allow cache rl now key).1 then now ∷ rest else rest

-- The limiter that keeps the whole history.
unfoldable pub ideal : ℕ → ℕ → List ℕ → List ℕ → List ℕ
ideal quota w history [] = []
ideal quota w history (now ∷ later) =
    let allowed = ideal quota w (history ++ now ∷ []) later in
    let refused = ideal quota w history later in
    if leb quota (length (recent w now history)) then refused else now ∷ allowed

module _ {ℓ} {S : Type ℓ} (cache : Cache S) (ttl w : ℕ) (key : Bytes) (law : IsCache cache ttl key)
    (long : w ≤ ttl) where
  -- What the cache holds of a history of grants, up to the given time: all that can still matter.
  record IsTracking (s : S) (history : List ℕ) (last : ℕ) : Type ℓ where
    stamps : List ℕ
    at : ℕ
    held : (law.peek s ≡ some (at, stamps)) ⊎ ((law.peek s ≡ none) × (stamps ≡ []))
    past : at ≤ last
    before : All (λ u. u ≤ at) stamps
    sorted : IsSorted stamps
    same : (now : ℕ) → last ≤ now → recent w now history ≡ recent w now stamps

  -- What a Get at the given time answers, and leaves.
  record IsRead (s : S) (history : List ℕ) (now : ℕ) (found : Option (List ℕ)) : Type ℓ where
    sorted : IsSorted (or_empty found)
    before : All (λ u. u ≤ now) (or_empty found)
    same : recent w now history ≡ recent w now (or_empty found)
    tracks : IsTracking s history now

  nothing :
      (s : S) (history : List ℕ) (now : ℕ)
      → law.peek s ≡ none
      → ((later : ℕ) → now ≤ later → recent w later history ≡ [])
      → IsRead s history now none
  nothing s history now p e = record {
    sorted = tt;
    before = tt;
    same = e now (omega arith);
    tracks = record {
      stamps = [];
      at = 0;
      held = inr (p, refl);
      past = omega arith;
      before = tt;
      sorted = tt;
      same = e;
    };
  }

  get-IsRead :
      (s : S) (history : List ℕ) (last now : ℕ)
      → IsTracking s history last
      → last ≤ now
      → IsRead (cache.get now key s).0 history now (cache.get now key s).1
  get-IsRead s history last now t h = elim t.held [
    | inr (p, e) ↦
        let (got, left) = law.get_absent s now p in
        rw got (
          nothing (cache.get now key s).0 history now left
            (λ later o. t.same later (omega arith) ∙ rw e refl))
    | inl p ↦ elim (Bool-cases (ltb now (t.at + ttl))) [
      | inl q ↦
          let (got, left) = law.get_live s now t.at t.stamps p (ground arith) in
          rw got (record {
            sorted = t.sorted;
            before = All-later t.at now t.stamps (omega (arith, t.past)) t.before;
            same = t.same now h;
            tracks = record {
              stamps = t.stamps;
              at = t.at;
              held = inl left;
              past = omega (arith, t.past);
              before = t.before;
              sorted = t.sorted;
              same = λ later o. t.same later (omega arith);
            };
          })
      | inr q ↦
          let (got, left) = law.get_stale s now t.at t.stamps p (ground arith) in
          rw got (
            nothing (cache.get now key s).0 history now left (λ later o.
              t.same later (omega arith)
              ∙ recent_empty w later t.at t.stamps t.before (ground arith)))
    ]
  ]

  add-IsTracking :
      (s : S) (history : List ℕ) (now : ℕ) (found : Option (List ℕ))
      → IsRead s history now found
      → IsTracking
          (cache.add now key (recent w now (or_empty found) ++ now ∷ []) s)
          (history ++ now ∷ [])
          now
  add-IsTracking s history now found r =
      let kept = recent w now (or_empty found) in
      let early = recent-All (λ u. u ≤ now) w now (or_empty found) r.before in
      record {
        stamps = kept ++ now ∷ [];
        at = now;
        held = inl (law.peek-add s now (kept ++ now ∷ []));
        past = omega arith;
        before = All-append (λ u. u ≤ now) kept (now ∷ []) early (omega arith, tt);
        sorted = append-IsSorted kept now (recent-IsSorted w now (or_empty found) r.sorted) early;
        same = λ later o.
            recent-append w later history (now ∷ [])
            ∙ ap (λ (l : List ℕ). l ++ recent w later (now ∷ []))
                (sym (recent-recent w now later history o) ∙ ap (recent w later) r.same)
            ∙ sym (recent-append w later kept (now ∷ []));
      }

  allow-recent :
      (rl : RateLimiter S) (history : List ℕ) (now : ℕ)
      → rl.window ≡ w
      → IsRead (cache.get now key rl.lru).0 history now (cache.get now key rl.lru).1
      → let (lru, found) = cache.get now key rl.lru in
        let kept = recent w now (or_empty found) in
        allow cache rl now key ≡ (
          if leb rl.quota (length (recent w now history))
          then (record rl { lru = lru }, false)
          else (record rl { lru = cache.add now key (kept ++ now ∷ []) lru }, true))
  unfolding allow
  allow-recent rl history now e r =
      rw e (rw (fresh-recent w now (or_empty (cache.get now key rl.lru).1) r.sorted) (rw (r.same)))

  granted_from :
      (rl : RateLimiter S) (history : List ℕ) (last : ℕ) (times : List ℕ)
      → rl.window ≡ w
      → IsTracking rl.lru history last
      → All (λ u. last ≤ u) times
      → IsSorted times
      → granted cache key rl times ≡ ideal rl.quota w history times
  unfolding granted ideal
  granted_from rl history last [] e t v o = refl
  granted_from rl history last (now ∷ later) e t v o =
      let r = get-IsRead rl.lru history last now t v.0 in
      let step = allow-recent rl history now e r in
      elim (Bool-cases (leb rl.quota (length (recent w now history)))) [
        | inl q ↦
            let refuses = rw q at step in
            rw q (
              rw (refuses, granted)
                (granted_from (record rl { lru = (cache.get now key rl.lru).0 }) history now later e
                  r.tracks o.0 o.1))
        | inr q ↦
            let (lru, found) = cache.get now key rl.lru in
            let grants = rw q at step in
            rw q (
              rw (grants, granted)
                (ap (◌∷◌ now) (
                  granted_from
                    (record rl {
                      lru = cache.add now key (recent w now (or_empty found) ++ now ∷ []) lru;
                    })
                    (history ++ now ∷ []) now later e (add-IsTracking lru history now found r) o.0
                    o.1)))
      ]

  -- Where the cache keeps the key's entry for its ttl, so that no other key displaces it, and the window
  -- is not longer than the ttl: a limiter with no entry for the key lets it in at exactly the times at
  -- which the limiter that keeps the whole history does, for calls in the order of time.
  pub granted-ideal :
      (rl : RateLimiter S) (times : List ℕ)
      → rl.window ≡ w
      → law.peek rl.lru ≡ none
      → IsSorted times
      → granted cache key rl times ≡ ideal rl.quota w [] times
  granted-ideal rl times e p o =
      granted_from rl [] 0 times e
        (record {
          stamps = [];
          at = 0;
          held = inr (p, refl);
          past = omega arith;
          before = tt;
          sorted = tt;
          same = λ now h. refl;
        })
        (non_negative times) o
    where
      non_negative : (ts : List ℕ) → All (λ u. 0 ≤ u) ts
      non_negative [] = tt
      non_negative (t ∷ ts) = (omega arith, non_negative ts)
