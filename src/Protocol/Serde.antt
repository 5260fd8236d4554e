-- ===== src/Protocol/Serde.antt =====
-- serde.go, with pkg/attest and internal/enigma: the signed envelope and its encryption. Protobuf,
-- Ed25519 and XChaCha20-Poly1305 are the fields of `Externals`, and what is documented of them is
-- `IsLawful`. What a call draws at random, and the clock, are its argument `Draws`. Ed25519 does not fail
-- to sign, and protobuf does not fail on the metadata and the envelope that the code itself builds.
pub mod Signing
use kamune.Prelude.{
  ℕ, zero, suc, ◌+◌, ◌/◌, ◌%◌, ◌≤◌, ◌≡◌, Bool, true, false, not, if◌then◌else◌, ltb, Option, none,
  some, List, [], ◌∷◌, ◌++◌, Bytes, length, take, drop, Result, ok, err, ◌>>=◌, ◌>>◌, guard,
}
use kamune.Protocol.Route.{PbRoute, to_proto, route_from_proto}
use kamune.Protocol.Padding.{pad_signed_transport}

-- pb.SignedTransport and pb.Metadata.
pub record SignedTransport : Type 0 where
  pub payload : Bytes
  pub signature : Bytes
  pub metadata : Bytes
  pub padding : Bytes

pub record Metadata : Type 0 where
  pub id : Bytes
  pub timestamp : ℕ
  pub sequence : ℕ
  pub pb_route : PbRoute

-- Metadata.Route
abbrev pub route : Metadata → ℕ
route md = route_from_proto md.pb_route

pub record Externals (M : Type 0) : Type 0 where
  pub marshal_message : M → Option Bytes
  pub unmarshal_message : Bytes → Option M
  pub marshal_metadata : Metadata → Bytes
  pub unmarshal_metadata : Bytes → Option Metadata
  pub marshal_envelope : SignedTransport → Bytes
  pub unmarshal_envelope : Bytes → Option SignedTransport
  -- Ed25519: sign with a private key; verify with a public key in its PKIX form.
  pub sign : Bytes → Bytes → Bytes
  pub verify : Bytes → Bytes → Bytes → Bool
  -- XChaCha20-Poly1305 without additional data: key, nonce, text.
  pub seal : Bytes → Bytes → Bytes → Bytes
  pub unseal : Bytes → Bytes → Bytes → Option Bytes

pub record IsLawful {M : Type 0} (x : Externals M) (IsKeyPair : Bytes → Bytes → Type 0)
    : Type 0 where
  pub message_back :
      (m : M) (b : Bytes) → x.marshal_message m ≡ some b → x.unmarshal_message b ≡ some m
  pub metadata_back : (md : Metadata) → x.unmarshal_metadata (x.marshal_metadata md) ≡ some md
  pub envelope_back :
      (st : SignedTransport) → x.unmarshal_envelope (x.marshal_envelope st) ≡ some st
  pub verify-sign :
      (private_key public_key m : Bytes)
      → IsKeyPair private_key public_key
      → x.verify public_key m (x.sign private_key m) ≡ true
  pub unseal-seal :
      (key nonce plain : Bytes) → x.unseal key nonce (x.seal key nonce plain) ≡ some plain

-- proto.Marshal and proto.Unmarshal for another type of messages, with the rest of `x`.
pub record Codec (N : Type 0) : Type 0 where
  pub marshal : N → Option Bytes
  pub unmarshal : Bytes → Option N

abbrev pub speak : {M N : Type 0} → Codec N → Externals M → Externals N
speak c x = record {
  marshal_message = c.marshal;
  unmarshal_message = c.unmarshal;
  marshal_metadata = x.marshal_metadata;
  unmarshal_metadata = x.unmarshal_metadata;
  marshal_envelope = x.marshal_envelope;
  unmarshal_envelope = x.unmarshal_envelope;
  sign = x.sign;
  verify = x.verify;
  seal = x.seal;
  unseal = x.unseal;
}

pub speak-IsLawful :
    {M N : Type 0} (c : Codec N) (x : Externals M) (IsKeyPair : Bytes → Bytes → Type 0)
    → IsLawful x IsKeyPair
    → ((n : N) (b : Bytes) → c.marshal n ≡ some b → c.unmarshal b ≡ some n)
    → IsLawful (speak c x) IsKeyPair
speak-IsLawful c x IsKeyPair law back = record {
  message_back = back;
  metadata_back = law.metadata_back;
  envelope_back = law.envelope_back;
  verify-sign = law.verify-sign;
  unseal-seal = law.unseal-seal;
}

pub record Draws : Type 0 where
  pub id : Bytes
  pub timestamp : ℕ
  pub bump : ℕ
  pub random : ℕ → Bytes
  pub nonce : Bytes

abbrev pub max_transport_size : ℕ
max_transport_size = 61439

abbrev pub nonce_size : ℕ
nonce_size = 24

-- The bytes of "kamune/transport-sign/v1".
abbrev pub transport_sign_info : Bytes
transport_sign_info =
    107 ∷ 97 ∷ 109 ∷ 117 ∷ 110 ∷ 101 ∷ 47 ∷ 116 ∷ 114 ∷ 97 ∷ 110 ∷ 115 ∷ 112 ∷ 111 ∷ 114 ∷ 116 ∷ 45
    ∷ 115 ∷ 105 ∷ 103 ∷ 110 ∷ 47 ∷ 118 ∷ 49 ∷ []

-- binary.AppendUvarint onto an empty slice; ten bytes hold every uint64.
unfoldable pub uvarint_loop : ℕ → ℕ → Bytes
uvarint_loop zero n = []
uvarint_loop (suc fuel) n =
    let rest = uvarint_loop fuel (n / 128) in if ltb n 128 then n ∷ [] else (n % 128 + 128) ∷ rest

unfoldable pub signing_input : Bytes → Bytes → Bytes
signing_input metadata_bytes message =
    transport_sign_info ++ (uvarint_loop 10 (length metadata_bytes) ++ (metadata_bytes ++ message))

pub data SerdeError : Type 0 where
  marshal_failed message_too_large unmarshal_failed invalid_signature invalid_ciphertext
        open_failed :
      SerdeError

abbrev pub or_error {ℓ} : {A : Type ℓ} → Option A → SerdeError → Result SerdeError A
or_error none e = err e
or_error (some a) e = ok a

module _ {M : Type 0} (x : Externals M) where
  -- padSignedTransport, then proto.Marshal.
  unfoldable pub pad_and_marshal : SignedTransport → Draws → Bytes
  pad_and_marshal st draws =
      let base = length (x.marshal_envelope (record st { padding = [] })) in
      x.marshal_envelope
        (record st { padding = draws.random (pad_signed_transport base draws.bump) })

  abbrev pub metadata_for : ℕ → ℕ → Draws → Metadata
  metadata_for r sequence draws = record {
    id = draws.id;
    timestamp = draws.timestamp;
    sequence = sequence;
    pb_route = to_proto r;
  }

  -- signedSerde.serialize with the private key of its attest.
  unfoldable pub serialize : Bytes → M → ℕ → ℕ → Draws → Result SerdeError (Bytes × Metadata)
  serialize private_key m r sequence draws = do
    message ← or_error (x.marshal_message m) marshal_failed
    guard (not (ltb max_transport_size (length message))) message_too_large
    ok (
      pad_and_marshal
          (record {
            payload = message;
            signature =
                x.sign private_key
                  (signing_input (x.marshal_metadata (metadata_for r sequence draws)) message);
            metadata = x.marshal_metadata (metadata_for r sequence draws);
            padding = [];
          })
          draws,
      metadata_for r sequence draws,
    )

  -- signedSerde.deserialize with the public key of the remote peer.
  unfoldable pub deserialize : Bytes → Bytes → Result SerdeError (M × Metadata)
  deserialize remote payload = do
    st ← or_error (x.unmarshal_envelope payload) unmarshal_failed
    guard (x.verify remote (signing_input st.metadata st.payload) st.signature) invalid_signature
    md ← or_error (x.unmarshal_metadata st.metadata) unmarshal_failed
    m ← or_error (x.unmarshal_message st.payload) unmarshal_failed
    ok (m, md)

  -- Enigma.Encrypt and Enigma.Decrypt: the nonce stands in front of the sealed text.
  unfoldable pub encrypt : Bytes → Bytes → Bytes → Bytes
  encrypt key nonce plain = nonce ++ x.seal key nonce plain

  unfoldable pub decrypt : Bytes → Bytes → Result SerdeError Bytes
  decrypt key ciphertext = do
    guard (not (ltb (length ciphertext) nonce_size)) invalid_ciphertext
    or_error (x.unseal key (take nonce_size ciphertext) (drop nonce_size ciphertext)) open_failed
