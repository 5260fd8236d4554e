-- ===== src/Examples/Protocol.antt =====
-- Routes, versions, frames and padding on concrete numbers.
use kamune.Prelude.{
  ℕ, ◌+◌, ◌%◌, length, take, drop, ltb, ◌==◌, if◌then◌else◌, ◌≤◌, ◌≡◌, refl, inr, arith, [], ◌∷◌,
  ◌++◌, Bytes, replicate, length-replicate, ok,
}
use kamune.Protocol.Version.{pos, Semver}
use kamune.Protocol.Framing.{read_bytes, write_bytes}
use kamune.Protocol.Framing.RoundTrip.{write_all, read_all, read_all-write_all, write_bytes_wraps}
use kamune.Protocol.Padding.{
  select_bucket_size, encryption_overhead, max_uint16, pad_signed_transport,
}
use kamune.Protocol.Padding.Size.{IsProtoSize, pad_signed_transport_fills}
use kamune.Protocol.Serde.Signing.{signing_input_injective}

abbrev version : ℕ → ℕ → ℕ → Semver
version a b c = record { major = pos a; minor = pos b; patch = pos c }

read_all-write_all_example :
    read_all 4 2 (write_all ((1 ∷ 2 ∷ []) ∷ (3 ∷ []) ∷ []) ++ 9 ∷ [])
    ≡ ok ((1 ∷ 2 ∷ []) ∷ (3 ∷ []) ∷ [], 9 ∷ [])
read_all-write_all_example =
    read_all-write_all 4 ((1 ∷ 2 ∷ []) ∷ (3 ∷ []) ∷ []) (9 ∷ [])
      ((omega arith, inr (omega arith)), ((omega arith, inr (omega arith)), tt))

-- One byte too many, and the next frame behind it.
write_bytes_wraps_example :
    let payload : Bytes = replicate 65537 7 in
    let n = length payload % 65536 in
    (read_bytes 4096 (write_bytes payload ++ write_bytes (8 ∷ []))
      ≡ ok (take n payload, drop n payload ++ write_bytes (8 ∷ [])))
    × (length (take n payload) ≡ n)
    × (65536 ≤ length (drop n payload))
write_bytes_wraps_example =
    write_bytes_wraps 4096 (replicate 65537 7) (write_bytes (8 ∷ []))
      (omega (arith, length-replicate {A = ℕ} 65537 7))
      (inr (omega (arith, length-replicate {A = ℕ} 65537 7)))

-- The size of an envelope of 200 bytes, by protobuf's encoding of its field 4.
abbrev proto_size : ℕ → ℕ
proto_size p =
    if p == 0
    then 200
    else (if ltb p 128 then 202 + p else (if ltb p 16384 then 203 + p else 204 + p))

proto_size-IsProtoSize : IsProtoSize 200 proto_size
proto_size-IsProtoSize = record {
  empty = refl;
  one = λ p h k. ground arith;
  two = λ p h k. ground arith;
  three = λ p h k. ground arith;
}

pad_signed_transport_fills_example :
    let padded = proto_size (pad_signed_transport 200 7) in
    let bucket = select_bucket_size 200 7 in
    (padded ≤ bucket) × (bucket ≤ padded + 2) × (padded + encryption_overhead ≤ max_uint16)
pad_signed_transport_fills_example =
    pad_signed_transport_fills 200 7 proto_size proto_size-IsProtoSize (omega arith)

signing_input_injective_example :
    (◌≡◌ {A = Bytes} (1 ∷ 2 ∷ []) (1 ∷ 2 ∷ [])) × (◌≡◌ {A = Bytes} (3 ∷ []) (3 ∷ []))
signing_input_injective_example =
    signing_input_injective (1 ∷ 2 ∷ []) (1 ∷ 2 ∷ []) (3 ∷ []) (3 ∷ []) (omega arith) (omega arith)
      refl
