-- ===== src/Protocol/Padding.antt =====
-- serde.go and kamune.go: the bucketed padding of a signed envelope. Only sizes matter here, so the
-- model computes the length of the padding; the random bytes themselves are free.
pub mod Size
use kamune.Prelude.{
  ℕ, zero, suc, ◌+◌, ◌-◌, ◌/◌, Bool, true, false, if◌then◌else◌, ltb, leb, ◌==◌, List, [], ◌∷◌,
  length, get_or,
}

abbrev pub max_uint16 : ℕ
max_uint16 = 65535

abbrev pub encryption_overhead : ℕ
encryption_overhead = 40

abbrev pub frame_target_size : ℕ
frame_target_size = 65495

abbrev pub padding_buckets : List ℕ
padding_buckets = 512 ∷ 1024 ∷ 4096 ∷ 16384 ∷ 32768 ∷ frame_target_size ∷ []

abbrev pub bump_probabilities : List ℕ
bump_probabilities = 80 ∷ 15 ∷ 4 ∷ 1 ∷ []

-- The loop of varintSize; an int has 63 bits, which are at most nine rounds.
unfoldable pub varint_loop : ℕ → ℕ → ℕ → ℕ
varint_loop zero n size = size
varint_loop (suc fuel) n size =
    let rest = varint_loop fuel (n / 128) (size + 1) in if leb 128 n then rest else size

abbrev pub varint_size : ℕ → ℕ
varint_size n = varint_loop 9 n 1

-- The index of the first bucket that holds `base`, counted from `i`, or the last index.
unfoldable pub bucket_loop : List ℕ → ℕ → ℕ → ℕ
bucket_loop [] i base = length padding_buckets - 1
bucket_loop (size ∷ rest) i base =
    let later = bucket_loop rest (i + 1) base in if leb base size then i else later

unfoldable pub natural_bucket_index : ℕ → ℕ
unfolding bucket_loop
natural_bucket_index base = bucket_loop padding_buckets 0 base

-- The loop of selectBump on the number drawn below the sum of the probabilities.
unfoldable pub bump_loop : List ℕ → ℕ → ℕ → ℕ
bump_loop [] i n = length bump_probabilities - 1
bump_loop (p ∷ rest) i n =
    let later = bump_loop rest (i + 1) (n - p) in if ltb n p then i else later

unfoldable pub select_bump : ℕ → ℕ
unfolding bump_loop
select_bump draw = bump_loop bump_probabilities 0 draw

unfoldable pub select_bucket_size : ℕ → ℕ → ℕ
select_bucket_size base draw =
    let idx = natural_bucket_index base + select_bump draw in
    get_or padding_buckets
      (if leb (length padding_buckets) idx then length padding_buckets - 1 else idx) 0

-- The loop that settles the length of the padding. Go's `max(x, 0)` is truncated subtraction.
unfoldable pub pad_loop : ℕ → ℕ → ℕ → ℕ
pad_loop zero room pad_len = pad_len
pad_loop (suc rounds) room pad_len =
    let new_pad_len = room - (1 + varint_size pad_len) in
    let rest = pad_loop rounds room new_pad_len in if new_pad_len == pad_len then pad_len else rest

-- The length of the padding for an unpadded size and a bucket.
unfoldable pub pad_len_for : ℕ → ℕ → ℕ
pad_len_for base_size target =
    if leb target base_size then 0 else pad_loop 4 (target - base_size) (target - base_size - 4)

-- padSignedTransport: the length of the padding that it adds.
unfoldable pub pad_signed_transport : ℕ → ℕ → ℕ
pad_signed_transport base_size draw = pad_len_for base_size (select_bucket_size base_size draw)
