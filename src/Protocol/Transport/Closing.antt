-- ===== src/Protocol/Transport/Closing.antt =====
-- What the peer of a transport sees of its Close (transport.go).
use kamune.Prelude.{ℕ, ◌≤◌, ◌≡◌, refl, true, some, Bytes, length, ok, err}
use kamune.Protocol.Route.{to_proto, route_from_proto, is_valid, route_close_transport}
use kamune.Protocol.Serde.{
  Externals, IsLawful, Draws, max_transport_size, metadata_for, serialize, deserialize, encrypt,
}
use kamune.Protocol.Serde.Signing.{deserialize-serialize, decrypt-encrypt}
use kamune.Protocol.Transport.{
  Transport, Keys, read, peer_disconnected, next_sequence, send, send_serialized, close, receive,
  receive_decrypted, receive_decoded,
}

module _ {M : Type 0} (x : Externals M) (IsKeyPair : Bytes → Bytes → Type 0)
    (law : IsLawful x IsKeyPair) (alice bob : Keys) (signs : IsKeyPair alice.private_key bob.remote)
    (shared : alice.encoder ≡ bob.decoder) where
  close_ok :
      (a : Transport) (empty : M) (draws : Draws) (payload : Bytes)
      → serialize x alice.private_key empty route_close_transport
          (next_sequence a.send_sequence)
          draws
        ≡ ok (payload, metadata_for x route_close_transport (next_sequence a.send_sequence) draws)
      → close x alice a empty draws (λ w. true) ≡ (
        record a { send_sequence = next_sequence a.send_sequence },
        some (encrypt x alice.encoder draws.nonce payload),
      )
  unfolding close send send_serialized is_valid
  close_ok a empty draws payload s = rw s refl

  closing_received :
      (b : Transport) (empty : M) (seq : ℕ) (draws : Draws) (payload : Bytes)
      → length draws.nonce ≡ 24
      → deserialize x bob.remote payload
        ≡ ok (empty, metadata_for x route_close_transport seq draws)
      → receive x bob b (read (encrypt x alice.encoder draws.nonce payload))
        ≡ (b, err peer_disconnected)
  unfolding receive receive_decrypted receive_decoded to_proto route_from_proto
  closing_received b empty seq draws payload n d =
      rw shared (rw (decrypt-encrypt x IsKeyPair law bob.decoder draws.nonce payload n) (rw d refl))

  -- Close over a connection that takes its bytes sends them under the next number, and the peer's Receive
  -- of them reports that the peer has disconnected, wherever its own counter stands, and changes nothing.
  pub receive-close :
      (a b : Transport) (empty : M) (bytes : Bytes) (draws : Draws)
      → x.marshal_message empty ≡ some bytes
      → length bytes ≤ max_transport_size
      → length draws.nonce ≡ 24
      → (wire : Bytes) × (close x alice a empty draws (λ w. true)
          ≡ (record a { send_sequence = next_sequence a.send_sequence }, some wire))
        × (receive x bob b (read wire) ≡ (b, err peer_disconnected))
  receive-close a b empty bytes draws m f n =
      let seq = next_sequence a.send_sequence in
      let (payload, s, d) =
        deserialize-serialize x IsKeyPair law alice.private_key bob.remote empty bytes
          route_close_transport seq draws signs m f in
      (
        encrypt x alice.encoder draws.nonce payload,
        close_ok a empty draws payload s,
        closing_received b empty seq draws payload n d,
      )
