-- ===== src/Protocol/Endpoint/Messages.antt =====
-- A signed message in front of a handshake (intro.go, resume.go), as the other end reads it.
use kamune.Prelude.{ℕ, ◌≡◌, ap, true, some, [], Bytes, length, ok}
use kamune.Protocol.Route.{to_proto, route_from_proto}
use kamune.Protocol.Padding.{pad_signed_transport}
use kamune.Protocol.Serde.{
  Externals, IsLawful, Codec, SignedTransport, Draws, signing_input, pad_and_marshal,
}
use kamune.Protocol.Introduction.{
  Attest, Codecs, signed_payload, plain_metadata, route_from_st, is_signed_by, route_of_metadata,
}

-- Protobuf takes the message, and reads it back.
pub record IsReadBack {N : Type 0} (k : Codec N) (m : N) : Type 0 where
  pub bytes : Bytes
  pub marshals : k.marshal m ≡ some bytes
  pub unmarshals : k.unmarshal bytes ≡ some m

module _ (x : Externals Bytes) (c : Codecs) (IsKeyPair : Bytes → Bytes → Type 0)
    (law : IsLawful x IsKeyPair) where
  -- The envelope that the three kinds of messages are sent in.
  abbrev pub sent_st : Attest → ℕ → ℕ → Bytes → Draws → SignedTransport
  sent_st at timestamp r message draws =
      let st : SignedTransport = record {
        payload = message;
        signature =
            x.sign at.private_key
              (signing_input (x.marshal_metadata (plain_metadata x c timestamp r)) message);
        metadata = x.marshal_metadata (plain_metadata x c timestamp r);
        padding = [];
      } in
      record st {
        padding = draws.random (pad_signed_transport (length (x.marshal_envelope st)) draws.bump);
      }

  pub signed_payload_back :
      (at : Attest) (timestamp r : ℕ) (message : Bytes) (draws : Draws)
      → x.unmarshal_envelope (signed_payload x c at (plain_metadata x c timestamp r) message draws)
        ≡ some (sent_st at timestamp r message draws)
  unfolding signed_payload pad_and_marshal
  signed_payload_back at timestamp r message draws =
      law.envelope_back (sent_st at timestamp r message draws)

  pub route_from_st-sent :
      (at : Attest) (timestamp r : ℕ) (message : Bytes) (draws : Draws)
      → route_from_st x c (sent_st at timestamp r message draws)
        ≡ ok (route_from_proto (to_proto r))
  unfolding route_from_st
  route_from_st-sent at timestamp r message draws =
      ap (route_of_metadata x c) (law.metadata_back (plain_metadata x c timestamp r))

  pub is_signed_by-sent :
      (at : Attest) (remote : Bytes) (timestamp r : ℕ) (message : Bytes) (draws : Draws)
      → IsKeyPair at.private_key remote
      → is_signed_by x c remote (sent_st at timestamp r message draws) ≡ true
  unfolding is_signed_by
  is_signed_by-sent at remote timestamp r message draws k =
      law.verify-sign at.private_key remote _ k
