-- ===== src/Protocol/Serde/Signing.antt =====
-- signingInput, and serialize and Encrypt against deserialize and Decrypt (serde.go, internal/enigma).
use kamune.Prelude.{
  ℕ, zero, suc, ◌/◌, ◌^◌, ◌≤◌, ◌<◌, ◌≡◌, refl, ap, inl, inr, arith, Bool-cases, ltb, le→ltb, ltb→lt,
  some, [], ◌∷◌, ◌++◌, Bytes, length, drop, length-append, take-append, drop-append, ok,
}
use native.Mathlib.Nat.{pow-suc}
use kamune.Protocol.Serde.{
  SignedTransport, Externals, IsLawful, Draws, uvarint_loop, signing_input, metadata_for, serialize,
  deserialize, encrypt, decrypt, pad_and_marshal, max_transport_size,
}

abbrev head_or : Bytes → ℕ
head_or [] = 0
head_or (x ∷ xs) = x

abbrev pub rest_of : Bytes → Bytes
rest_of [] = []
rest_of (x ∷ xs) = xs

-- A uvarint is a prefix code: what follows it does not change what it says.
uvarint_loop_injective :
    (fuel n m : ℕ) (xs ys : Bytes)
    → n < 128 ^ fuel
    → m < 128 ^ fuel
    → uvarint_loop fuel n ++ xs ≡ uvarint_loop fuel m ++ ys
    → (n ≡ m) × (xs ≡ ys)
unfolding uvarint_loop
uvarint_loop_injective zero n m xs ys hn hm e = (omega arith, e)
uvarint_loop_injective (suc fuel) n m xs ys hn hm e =
    let ih : uvarint_loop fuel (n / 128) ++ xs ≡ uvarint_loop fuel (m / 128) ++ ys
        → (n / 128 ≡ m / 128) × (xs ≡ ys) =
      uvarint_loop_injective fuel (n / 128) (m / 128) xs ys (omega (arith, pow-suc 128 fuel))
        (omega (arith, pow-suc 128 fuel)) in
    elim (Bool-cases (ltb n 128)) [
      | inl a ↦ elim (Bool-cases (ltb m 128)) [
        | inl b ↦ let both = rw (a, b) at e in (ap head_or both, ap rest_of both)
        | inr b ↦
            let both = rw (a, b) at e in absurd (omega (arith, ltb→lt n 128 a, ap head_or both))
      ]
      | inr a ↦ elim (Bool-cases (ltb m 128)) [
        | inl b ↦
            let both = rw (a, b) at e in absurd (omega (arith, ltb→lt m 128 b, ap head_or both))
        | inr b ↦
            let both = rw (a, b) at e in
            let (quotients, rests) = ih (ap rest_of both) in
            (omega (arith, ap head_or both, quotients), rests)
      ]
    ]

pub append_injective :
    (xs ys zs ws : Bytes) → length xs ≡ length ys → xs ++ zs ≡ ys ++ ws → (xs ≡ ys) × (zs ≡ ws)
append_injective [] [] zs ws l e = (refl, e)
append_injective [] (y ∷ ys) zs ws l e = absurd (omega arith)
append_injective (x ∷ xs) [] zs ws l e = absurd (omega arith)
append_injective (x ∷ xs) (y ∷ ys) zs ws l e =
    let (tails, rests) = append_injective xs ys zs ws (omega arith) (ap rest_of e) in
    (λ i. head_or (e i) ∷ tails i, rests)

-- Two pairs of metadata and message are signed over the same bytes only if they are the same pair,
-- so a signature cannot be moved to another split of the bytes.
pub signing_input_injective :
    (md md' m m' : Bytes)
    → length md < 2 ^ 64
    → length md' < 2 ^ 64
    → signing_input md m ≡ signing_input md' m'
    → (md ≡ md') × (m ≡ m')
unfolding signing_input
signing_input_injective md md' m m' h h' e =
    let (lengths, rests) =
      uvarint_loop_injective 10 (length md) (length md') (md ++ m) (md' ++ m') (omega arith)
        (omega arith) (ap (drop 24) e) in
    append_injective md md' m m' lengths rests

module _ {M : Type 0} (x : Externals M) (IsKeyPair : Bytes → Bytes → Type 0)
    (law : IsLawful x IsKeyPair) where
  -- What is encrypted under a 24-byte nonce decrypts.
  pub decrypt-encrypt :
      (key nonce plain : Bytes)
      → length nonce ≡ 24
      → decrypt x key (encrypt x key nonce plain) ≡ ok plain
  unfolding decrypt encrypt
  decrypt-encrypt key nonce plain h =
      rw
        (le→ltb (length (nonce ++ x.seal key nonce plain)) 24
          (omega (arith, length-append nonce (x.seal key nonce plain))))
        (rw
          (
            take-append 24 nonce (x.seal key nonce plain) h,
            drop-append 24 nonce (x.seal key nonce plain) h,
          )
          (rw (law.unseal-seal key nonce plain)))

  -- The envelope of a message, before padding.
  pub envelope : Bytes → Bytes → ℕ → ℕ → Draws → SignedTransport
  envelope private_key message r sequence draws = record {
    payload = message;
    signature =
        x.sign private_key
          (signing_input (x.marshal_metadata (metadata_for x r sequence draws)) message);
    metadata = x.marshal_metadata (metadata_for x r sequence draws);
    padding = [];
  }

  serialize_ok :
      (private_key : Bytes) (m : M) (message : Bytes) (r sequence : ℕ) (draws : Draws)
      → x.marshal_message m ≡ some message
      → length message ≤ max_transport_size
      → serialize x private_key m r sequence draws
        ≡ ok (
          pad_and_marshal x (envelope private_key message r sequence draws) draws,
          metadata_for x r sequence draws,
        )
  unfolding serialize envelope
  serialize_ok private_key m message r sequence draws e h =
      rw e (rw (le→ltb max_transport_size (length message) h))

  deserialize_ok :
      (private_key public_key : Bytes) (m : M) (message : Bytes) (r sequence : ℕ) (draws : Draws)
      → IsKeyPair private_key public_key
      → x.marshal_message m ≡ some message
      → deserialize x public_key
          (pad_and_marshal x (envelope private_key message r sequence draws) draws)
        ≡ ok (m, metadata_for x r sequence draws)
  unfolding deserialize pad_and_marshal envelope
  deserialize_ok private_key public_key m message r sequence draws k e = rw (law.envelope_back _) (
      rw (law.verify-sign private_key public_key _ k)
        (rw (law.metadata_back (metadata_for x r sequence draws), law.message_back m message e)))

  -- What one peer serializes the other deserializes to the same message and metadata, under any
  -- padding.
  pub deserialize-serialize :
      (private_key public_key : Bytes) (m : M) (message : Bytes) (r sequence : ℕ) (draws : Draws)
      → IsKeyPair private_key public_key
      → x.marshal_message m ≡ some message
      → length message ≤ max_transport_size
      → (payload : Bytes) × (serialize x private_key m r sequence draws
          ≡ ok (payload, metadata_for x r sequence draws))
        × (deserialize x public_key payload ≡ ok (m, metadata_for x r sequence draws))
  deserialize-serialize private_key public_key m message r sequence draws k e h = (
    pad_and_marshal x (envelope private_key message r sequence draws) draws,
    serialize_ok private_key m message r sequence draws e h,
    deserialize_ok private_key public_key m message r sequence draws k e,
  )
