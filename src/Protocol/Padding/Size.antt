-- ===== src/Protocol/Padding/Size.antt =====
-- The size of an envelope that padSignedTransport padded (serde.go).
use kamune.Prelude.{
  ℕ, zero, suc, ◌^◌, ◌+◌, ◌-◌, ◌≤◌, ◌<◌, ◌≡◌, ◌⊎◌, inl, inr, refl, subst, leb→le, arith, ==_refl,
  Bool-cases, dec_lt, leb, ◌==◌,
}
use kamune.Protocol.Padding.{
  frame_target_size, max_uint16, encryption_overhead, varint_loop, varint_size,
  natural_bucket_index, select_bump, select_bucket_size, pad_loop, pad_len_for,
  pad_signed_transport,
}

-- The size of a varint below 2 ^ 21, by its range.
varint_size_small :
    (n : ℕ)
    → n < 2097152
    → ((n < 128) × (varint_size n ≡ 1))
      ⊎ (((128 ≤ n) × (n < 16384) × (varint_size n ≡ 2)) ⊎ ((16384 ≤ n) × (varint_size n ≡ 3)))
unfolding varint_loop
varint_size_small n h = ground arith

-- What protobuf documents of the size of an envelope whose field 4 holds so many bytes: nothing for
-- an empty field, else a tag byte, the length as a varint, which has a byte for each seven bits, and the
-- bytes. Lengths of 2 ^ 21 and more are larger than every frame.
pub record IsProtoSize (base : ℕ) (size : ℕ → ℕ) : Type 0 where
  pub empty : size 0 ≡ base
  pub one : (p : ℕ) → 0 < p → p < 2 ^ 7 → size p ≡ base + 1 + 1 + p
  pub two : (p : ℕ) → 2 ^ 7 ≤ p → p < 2 ^ 14 → size p ≡ base + 1 + 2 + p
  pub three : (p : ℕ) → 2 ^ 14 ≤ p → p < 2 ^ 21 → size p ≡ base + 1 + 3 + p

pad_loop_fixed : (rounds room p : ℕ) → room - (1 + varint_size p) ≡ p → pad_loop rounds room p ≡ p
unfolding pad_loop
pad_loop_fixed zero room p h = refl
pad_loop_fixed (suc rounds) room p h = rw h (rw (==_refl p))

-- Where the first guess and the next one need the same varint, that is the answer.
pad_loop_regular :
    (room p v : ℕ)
    → varint_size p ≡ v
    → varint_size (room - (1 + v)) ≡ v
    → pad_loop 4 room p ≡ room - (1 + v)
unfolding pad_loop
pad_loop_regular room p v hp hq =
    let q : ℕ = room - (1 + v) in
    rw hp (elim (Bool-cases (q == p)) [
      | inl e ↦ rw e (let same : p ≡ room - (1 + v) = ground arith in same)
      | inr e ↦ rw e (pad_loop_fixed 3 room (room - (1 + v)) (rw hq))
    ])

-- How much of the room a field with so much padding takes.
abbrev field_size : ℕ → ℕ
field_size zero = 0
field_size (suc p) = 1 + varint_size (suc p) + suc p

-- The padding fits the room, and leaves at most two bytes of it.
abbrev Settles : ℕ → ℕ → Type 0
Settles room p = (field_size p ≤ room) × (room ≤ field_size p + 2)

regular_Settles :
    (room v : ℕ)
    → 1 ≤ v
    → v + 2 ≤ room
    → varint_size (room - 4) ≡ v
    → varint_size (room - (1 + v)) ≡ v
    → Settles room (pad_loop 4 room (room - 4))
regular_Settles room v hv hr h0 h1 =
    rw (pad_loop_regular room (room - 4) v h0 h1) (exact (room - (1 + v)) refl)
  where
    exact : (q : ℕ) → q ≡ room - (1 + v) → Settles room q
    exact zero e = absurd (omega arith)
    exact (suc q) e = let size : varint_size (suc q) ≡ v = rw e h1 in omega arith

varint_one : (n : ℕ) → n < 128 → varint_size n ≡ 1
varint_one n h = omega (arith, varint_size_small n (omega arith))

varint_two : (n : ℕ) → 128 ≤ n → n < 16384 → varint_size n ≡ 2
varint_two n h k = omega (arith, varint_size_small n (omega arith))

varint_three : (n : ℕ) → 16384 ≤ n → n < 2097152 → varint_size n ≡ 3
varint_three n h k = omega (arith, varint_size_small n (omega arith))

-- At the edges of the varint ranges the loop may swing until its rounds end.
edge_1 : Settles 1 (pad_loop 4 1 0)
unfolding pad_loop varint_loop
edge_1 = omega arith

edge_2 : Settles 2 (pad_loop 4 2 0)
unfolding pad_loop varint_loop
edge_2 = omega arith

edge_130 : Settles 130 (pad_loop 4 130 126)
unfolding pad_loop varint_loop
edge_130 = omega arith

edge_131 : Settles 131 (pad_loop 4 131 127)
unfolding pad_loop varint_loop
edge_131 = omega arith

edge_16386 : Settles 16386 (pad_loop 4 16386 16382)
unfolding pad_loop varint_loop
edge_16386 = omega arith

edge_16387 : Settles 16387 (pad_loop 4 16387 16383)
unfolding pad_loop varint_loop
edge_16387 = omega arith

at_room :
    (k room : ℕ)
    → k ≡ room
    → Settles k (pad_loop 4 k (k - 4))
    → Settles room (pad_loop 4 room (room - 4))
at_room k room e h = subst (λ (r : ℕ). Settles r (pad_loop 4 r (r - 4))) e h

either :
    (k room : ℕ)
    → (k ≡ room) ⊎ (k + 1 ≡ room)
    → Settles k (pad_loop 4 k (k - 4))
    → Settles (k + 1) (pad_loop 4 (k + 1) (k + 1 - 4))
    → Settles room (pad_loop 4 room (room - 4))
either k room (inl e) a b = at_room k room e a
either k room (inr e) a b = at_room (k + 1) room e b

pad_loop-Settles : (room : ℕ) → 0 < room → room ≤ 65495 → Settles room (pad_loop 4 room (room - 4))
pad_loop-Settles room pos small = elim (dec_lt room 3) [
  | yes a ↦ either 1 room (omega arith) edge_1 edge_2
  | no a ↦ elim (dec_lt room 130) [
    | yes b ↦
        regular_Settles room 1 (omega arith) (omega arith) (varint_one _ (omega arith))
          (varint_one _ (omega arith))
    | no b ↦ elim (dec_lt room 132) [
      | yes c ↦ either 130 room (omega arith) edge_130 edge_131
      | no c ↦ elim (dec_lt room 16386) [
        | yes d ↦
            regular_Settles room 2 (omega arith) (omega arith)
              (varint_two _ (omega arith) (omega arith)) (varint_two _ (omega arith) (omega arith))
        | no d ↦ elim (dec_lt room 16388) [
          | yes e ↦ either 16386 room (omega arith) edge_16386 edge_16387
          | no e ↦
              regular_Settles room 3 (omega arith) (omega arith)
                (varint_three _ (omega arith) (omega arith))
                (varint_three _ (omega arith) (omega arith))
        ]
      ]
    ]
  ]
]

size-field_size :
    (base : ℕ) (size : ℕ → ℕ)
    → IsProtoSize base size
    → (p : ℕ) → p < 2097152
    → size p ≡ base + field_size p
size-field_size base size h zero k = omega (arith, h.empty)
size-field_size base size h (suc p) k = elim (varint_size_small (suc p) k) [
  | inl (a, v) ↦ omega (arith, h.one (suc p) (omega arith) a)
  | inr (inl (a, b, v)) ↦ omega (arith, h.two (suc p) a b)
  | inr (inr (a, v)) ↦ omega (arith, h.three (suc p) a k)
]

field_size_bound : (p : ℕ) → p ≤ field_size p
field_size_bound zero = omega arith
field_size_bound (suc p) = omega arith

-- The bucket that is chosen holds the envelope, whatever bump is drawn, if any bucket does.
pub le-select_bucket_size :
    (base draw : ℕ)
    → base ≤ frame_target_size
    → (base ≤ select_bucket_size base draw) × (select_bucket_size base draw ≤ frame_target_size)
unfolding select_bucket_size natural_bucket_index select_bump
le-select_bucket_size base draw h = ground arith

select_bucket_size_bound : (base draw : ℕ) → select_bucket_size base draw ≤ frame_target_size
unfolding select_bucket_size natural_bucket_index select_bump
select_bucket_size_bound base draw = ground arith

pad_len_for_fills :
    (base target : ℕ)
    → base ≤ target
    → target ≤ 65495
    → let p = pad_len_for base target in
      (base + field_size p ≤ target) × (target ≤ base + field_size p + 2)
unfolding pad_len_for
pad_len_for_fills base target h small = elim (Bool-cases (leb target base)) [
  | inl e ↦ rw e (omega (arith, leb→le target base e))
  | inr e ↦ rw e (omega (arith, pad_loop-Settles (target - base) (ground arith) (omega arith)))
]

-- An envelope that fits a frame is padded up to the bucket chosen for it: it never passes the bucket,
-- so its encryption fits a two-byte length, and at most two bytes of the bucket stay unused.
pub pad_signed_transport_fills :
    (base draw : ℕ) (size : ℕ → ℕ)
    → IsProtoSize base size
    → base ≤ frame_target_size
    → let padded = size (pad_signed_transport base draw) in
      let bucket = select_bucket_size base draw in
      (padded ≤ bucket) × (bucket ≤ padded + 2) × (padded + encryption_overhead ≤ max_uint16)
unfolding pad_signed_transport
pad_signed_transport_fills base draw size h fits =
    let (lo, hi) = le-select_bucket_size base draw fits in
    let fills = pad_len_for_fills base (select_bucket_size base draw) lo hi in
    let pad = pad_len_for base (select_bucket_size base draw) in
    let same = size-field_size base size h pad (omega (arith, field_size_bound pad)) in
    omega (arith, lo, hi, same, fills)

-- An envelope that is larger than every bucket is left as it is.
pub pad_signed_transport_large :
    (base draw : ℕ) → frame_target_size ≤ base → pad_signed_transport base draw ≡ 0
unfolding pad_signed_transport pad_len_for
pad_signed_transport_large base draw h = ground (arith, select_bucket_size_bound base draw)
