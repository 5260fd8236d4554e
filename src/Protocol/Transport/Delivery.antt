-- ===== src/Protocol/Transport/Delivery.antt =====
-- Send of one transport and Receive of its peer (transport.go).
use kamune.Prelude.{
  ℕ, ◌+◌, ◌^◌, ◌≤◌, ◌<◌, ◌≡◌, ◌≢◌, refl, ◌∙◌, arith, true, if◌then◌else◌, ltb, ==_refl, some, List,
  [], ◌∷◌, map, Bytes, All, length, Result, ok, err,
}
use kamune.Protocol.Route.{
  is_valid, route_close_transport, to_proto, route_from_proto, route_from_proto-to_proto,
}
use kamune.Protocol.Serde.{
  Externals, IsLawful, Metadata, Draws, route, serialize, deserialize, encrypt, metadata_for,
  max_transport_size,
}
use kamune.Protocol.Serde.Signing.{decrypt-encrypt, deserialize-serialize}
use kamune.Protocol.Transport.{
  Transport, Keys, read, TransportError, duplicate, missing, next_sequence, accept, receive_decoded,
  receive_decrypted, receive, send_serialized, send,
}

-- A message to be sent on a route that is not the closing one, with what the call draws.
pub record Letter (M : Type 0) : Type 0 where
  pub message : M
  pub route : ℕ
  pub draws : Draws

-- What makes a letter sendable: a valid route, a message that protobuf takes and that is not too
-- large, and a full nonce.
pub record IsSendable {M : Type 0} (x : Externals M) (l : Letter M) : Type 0 where
  pub valid : is_valid l.route ≡ true
  pub open_route : l.route ≢ route_close_transport
  pub bytes : Bytes
  pub marshals : x.marshal_message l.message ≡ some bytes
  pub fits : length bytes ≤ max_transport_size
  pub nonce : length l.draws.nonce ≡ 24

-- One call on the state after another, up to the first error.
abbrev pub after : {S A B E : Type 0} → S × Result E A → (S → A → S × Result E B) → S × Result E B
after (s, err e) k = (s, err e)
after (s, ok a) k = k s a

module _ {M : Type 0} (x : Externals M) (keys : Keys) where
  -- Send for each letter in turn, over a connection that takes every write: the bytes written.
  unfoldable pub send_all :
      Transport → List (Letter M) → Transport × Result TransportError (List Bytes)
  send_all t [] = (t, ok [])
  send_all t (l ∷ ls) =
      after (send x keys t l.message l.route l.draws (λ w. true))
        (λ t' out. after (send_all t' ls) (λ t'' wires. (t'', ok (out.0 ∷ wires))))

  -- Receive for each of the byte strings in turn: the messages.
  unfoldable pub receive_all : Transport → List Bytes → Transport × Result TransportError (List M)
  receive_all t [] = (t, ok [])
  receive_all t (w ∷ ws) =
      after (receive x keys t (read w))
        (λ t' out. after (receive_all t' ws) (λ t'' messages. (t'', ok (out.0 ∷ messages))))

module _ {M : Type 0} (x : Externals M) (IsKeyPair : Bytes → Bytes → Type 0)
    (law : IsLawful x IsKeyPair) (alice bob : Keys) (signs : IsKeyPair alice.private_key bob.remote)
    (shared : alice.encoder ≡ bob.decoder) where
  route_back : (l : Letter M) → IsSendable x l → route_from_proto (to_proto l.route) ≡ l.route
  route_back l v = rw (route_from_proto-to_proto l.route) (rw v.valid)

  send_ok :
      (a : Transport) (l : Letter M) (payload : Bytes)
      → is_valid l.route ≡ true
      → serialize x alice.private_key l.message l.route (next_sequence a.send_sequence) l.draws
        ≡ ok (payload, metadata_for x l.route (next_sequence a.send_sequence) l.draws)
      → send x alice a l.message l.route l.draws (λ w. true) ≡ (
        record a { send_sequence = next_sequence a.send_sequence },
        ok (
          encrypt x alice.encoder l.draws.nonce payload,
          metadata_for x l.route (next_sequence a.send_sequence) l.draws,
        ),
      )
  unfolding send send_serialized
  send_ok a l payload v s = rw v (rw s)

  receive_ok :
      (b : Transport) (nonce payload : Bytes) (m : M) (md : Metadata)
      → length nonce ≡ 24
      → route md ≢ route_close_transport
      → deserialize x bob.remote payload ≡ ok (m, md)
      → receive x bob b (read (encrypt x alice.encoder nonce payload)) ≡ accept x bob b m md
  unfolding receive receive_decrypted receive_decoded
  receive_ok b nonce payload m md n c d =
      rw shared
        (rw (decrypt-encrypt x IsKeyPair law bob.decoder nonce payload n) (rw d (ground arith)))

  -- The wire bytes of a letter, and what Receive makes of them in any state.
  pub receive-send :
      (a b : Transport) (l : Letter M)
      → IsSendable x l
      → let seq = next_sequence a.send_sequence in
        (wire : Bytes) × (send x alice a l.message l.route l.draws (λ w. true)
          ≡ (record a { send_sequence = seq }, ok (wire, metadata_for x l.route seq l.draws)))
        × (receive x bob b (read wire)
            ≡ accept x bob b l.message (metadata_for x l.route seq l.draws))
  receive-send a b l v =
      let seq = next_sequence a.send_sequence in
      let (payload, s, d) =
        deserialize-serialize x IsKeyPair law alice.private_key bob.remote l.message v.bytes l.route
          seq l.draws signs v.marshals v.fits in
      (
        encrypt x alice.encoder l.draws.nonce payload,
        send_ok a l payload v.valid s,
        receive_ok b l.draws.nonce payload l.message (metadata_for x l.route seq l.draws) v.nonce
            (rw (route_back l v) v.open_route) d,
      )

  pub accept_next :
      (b : Transport) (m : M) (md : Metadata)
      → md.sequence ≡ next_sequence b.recv_sequence
      → accept x bob b m md ≡ (record b { recv_sequence = md.sequence }, ok (m, md))
  unfolding accept
  accept_next b m md h = rw (h, ==_refl (next_sequence b.recv_sequence))

  -- Whatever letters one peer sends, the other receives their messages, all of them and in the order
  -- of sending, if its counter was the sender's. Then the counters agree again, also when they
  -- passed 2^64.
  pub receive_all-send_all :
      (a b : Transport) (ls : List (Letter M))
      → All (IsSendable x) ls
      → a.send_sequence ≡ b.recv_sequence
      → (wires : List Bytes) × ((send_all x alice a ls).1 ≡ ok wires)
        × ((receive_all x bob b wires).1 ≡ ok (map (λ l. l.message) ls))
        × ((send_all x alice a ls).0.send_sequence ≡ (receive_all x bob b wires).0.recv_sequence)
  unfolding send_all receive_all
  receive_all-send_all a b [] v same = ([], refl, refl, same)
  receive_all-send_all a b (l ∷ ls) v same =
      let seq = next_sequence a.send_sequence in
      let md = metadata_for x l.route seq l.draws in
      let (wire, s, r) = receive-send a b l v.0 in
      let (wires, ss, rs, agree) =
        receive_all-send_all (record a { send_sequence = seq }) (record b { recv_sequence = seq })
          ls v.1 refl in
      let r' = r ∙ accept_next b l.message md (rw same) in
      (wire ∷ wires, rw s (rw ss), rw r' (rw rs), rw (s, r') (rw (ss, rs) agree))

  -- The bytes of a letter sent out of step are refused and change nothing: as a duplicate where the
  -- receiver is ahead of the sender, as a replay is, and as a gap where it is behind.
  pub receive_out_of_order :
      (a b : Transport) (l : Letter M)
      → IsSendable x l
      → a.send_sequence + 1 < 2 ^ 64
      → b.recv_sequence + 1 < 2 ^ 64
      → a.send_sequence ≢ b.recv_sequence
      → (wire : Bytes) × ((send x alice a l.message l.route l.draws (λ w. true)).1
          ≡ ok (wire, metadata_for x l.route (a.send_sequence + 1) l.draws))
        × (receive x bob b (read wire) ≡ (
          b,
          err (
              if ltb a.send_sequence b.recv_sequence
              then duplicate (a.send_sequence + 1) (b.recv_sequence + 1)
              else missing (a.send_sequence + 1) (b.recv_sequence + 1)),
        ))
  unfolding accept
  receive_out_of_order a b l v ha hb n =
      let (wire, s, r) = receive-send a b l v in
      let sent : next_sequence a.send_sequence ≡ a.send_sequence + 1 = omega arith in
      let expected : next_sequence b.recv_sequence ≡ b.recv_sequence + 1 = omega arith in
      (wire, rw s (rw sent), r ∙ rw (sent, expected) (ground arith))
