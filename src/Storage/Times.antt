-- ===== src/Storage/Times.antt =====
-- Points in time, as pkg/storage keeps them: nanoseconds since Go's zero time (the year 1), which is 0.
use kamune.Prelude.{
  ℕ, ◌+◌, ◌-◌, ◌%◌, ◌≤◌, ◌<◌, ◌≡◌, arith, if◌then◌else◌, ltb, put_uint64, uint64, uint64-put_uint64,
  ◌∙◌, ap,
}

-- 1970.
abbrev pub unix_epoch : ℕ
unix_epoch = 62135596800000000000

-- uint64(t.UnixNano()), which is t - unix_epoch in 64 bits; 4 * 2^64 is above unix_epoch.
abbrev pub unix_nano : ℕ → ℕ
unix_nano t = (t + (73786976294838206464 - 62135596800000000000)) % 18446744073709551616

-- time.Unix(0, int64(n))
abbrev pub from_unix_nano : ℕ → ℕ
from_unix_nano n =
    if ltb n 9223372036854775808
    then 62135596800000000000 + n
    else (62135596800000000000 + n) - 18446744073709551616

-- The times that a signed count of nanoseconds reaches, from 1677 to 2262.
abbrev pub InReach : ℕ → Type 0
InReach t =
    (62135596800000000000 ≤ t + 9223372036854775808)
    × (t < 62135596800000000000 + 9223372036854775808)

pub from_unix_nano-unix_nano : (t : ℕ) → InReach t → from_unix_nano (unix_nano t) ≡ t
from_unix_nano-unix_nano t h = ground arith

pub from_unix_nano-uint64 :
    (t : ℕ) → InReach t → from_unix_nano (uint64 (put_uint64 (unix_nano t))) ≡ t
from_unix_nano-uint64 t h =
    ap from_unix_nano (uint64-put_uint64 (unix_nano t))
    ∙ ap from_unix_nano (omega arith)
    ∙ from_unix_nano-unix_nano t h
