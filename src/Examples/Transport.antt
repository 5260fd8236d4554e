-- ===== src/Examples/Transport.antt =====
-- Two transports over toy primitives that have the documented laws. A toy signature is the key in front
-- of the text, and so is a toy ciphertext.
use kamune.Prelude.{
  ℕ, ◌+◌, ◌-◌, ◌^◌, ◌≡◌, refl, sym, arith, true, ltb, ◌==◌, if◌then◌else◌, Option, none, some, List,
  [], ◌∷◌, ◌++◌, map, Bytes, bytes_equal, bytes_equal_refl, length, take, drop, take-append,
  drop-append, replicate, ok, err,
}
use kamune.Protocol.Route.{PbRoute, is_valid, route_from_proto}
use kamune.Protocol.Serde.{
  SignedTransport, Metadata, Externals, IsLawful, Draws, serialize, deserialize, encrypt, decrypt,
  metadata_for, signing_input, uvarint_loop,
}
use kamune.Protocol.Serde.Signing.{deserialize-serialize}
use kamune.Protocol.Transport.{
  Transport, Keys, read, close, next_sequence, peer_disconnected, duplicate, missing, accept,
  receive_decoded, receive_decrypted, receive, send,
}
use kamune.Protocol.Transport.Sequence.{IsStep, IsSigned, receive-IsStep, receive-IsSigned}
use kamune.Protocol.Transport.Closing.{receive-close}
use kamune.Protocol.Transport.Delivery.{
  Letter, IsSendable, send_all, receive_all, receive_all-send_all, receive_out_of_order,
}

abbrev route_code : PbRoute → ℕ
route_code PbRoute.invalid = 0
route_code PbRoute.identity = 1
route_code PbRoute.request_handshake = 2
route_code PbRoute.accept_handshake = 3
route_code PbRoute.finalize_handshake = 4
route_code PbRoute.send_challenge = 5
route_code PbRoute.verify_challenge = 6
route_code PbRoute.exchange_messages = 7
route_code PbRoute.close_transport = 8
route_code PbRoute.ping = 9
route_code PbRoute.pong = 10
route_code PbRoute.resume_request = 11
route_code PbRoute.resume_accept = 12
route_code PbRoute.session_data = 13
route_code (PbRoute.unknown n) = n + 14

abbrev decode_route : ℕ → PbRoute
decode_route n =
    if n == 0
    then PbRoute.invalid
    else (if n == 1
        then PbRoute.identity
        else (if n == 2
            then PbRoute.request_handshake
            else (if n == 3
                then PbRoute.accept_handshake
                else (if n == 4
                    then PbRoute.finalize_handshake
                    else (if n == 5
                        then PbRoute.send_challenge
                        else (if n == 6
                            then PbRoute.verify_challenge
                            else (if n == 7
                                then PbRoute.exchange_messages
                                else (if n == 8
                                    then PbRoute.close_transport
                                    else (if n == 9
                                        then PbRoute.ping
                                        else (if n == 10
                                            then PbRoute.pong
                                            else (if n == 11
                                                then PbRoute.resume_request
                                                else (if n == 12
                                                    then PbRoute.resume_accept
                                                    else (if n == 13
                                                        then PbRoute.session_data
                                                        else PbRoute.unknown (n - 14))))))))))))))

decode_route-route_code : (r : PbRoute) → decode_route (route_code r) ≡ r
decode_route-route_code r = ground arith

abbrev marshal_metadata : Metadata → Bytes
marshal_metadata md = md.timestamp ∷ md.sequence ∷ route_code md.pb_route ∷ md.id

abbrev unmarshal_metadata : Bytes → Option Metadata
unmarshal_metadata [] = none
unmarshal_metadata (t ∷ []) = none
unmarshal_metadata (t ∷ s ∷ []) = none
unmarshal_metadata (t ∷ s ∷ r ∷ id) =
    some (record { id = id; timestamp = t; sequence = s; pb_route = decode_route r })

abbrev marshal_envelope : SignedTransport → Bytes
marshal_envelope st =
    length st.payload
    ∷ length st.signature
    ∷ length st.metadata
    ∷ (st.payload ++ (st.signature ++ (st.metadata ++ st.padding)))

abbrev unmarshal_envelope : Bytes → Option SignedTransport
unmarshal_envelope [] = none
unmarshal_envelope (p ∷ []) = none
unmarshal_envelope (p ∷ s ∷ []) = none
unmarshal_envelope (p ∷ s ∷ m ∷ b) = some (record {
  payload = take p b;
  signature = take s (drop p b);
  metadata = take m (drop s (drop p b));
  padding = drop m (drop s (drop p b));
})

abbrev pub toy_crypto : Externals Bytes
toy_crypto = record {
  marshal_message = λ m. some m;
  unmarshal_message = λ b. some b;
  marshal_metadata = marshal_metadata;
  unmarshal_metadata = unmarshal_metadata;
  marshal_envelope = marshal_envelope;
  unmarshal_envelope = unmarshal_envelope;
  sign = λ key m. key ++ m;
  verify = λ key m s. bytes_equal s (key ++ m);
  seal = λ key nonce plain. key ++ plain;
  unseal = λ key nonce c.
      if bytes_equal (take (length key) c) key then some (drop (length key) c) else none;
}

abbrev pub IsKeyPair : Bytes → Bytes → Type 0
IsKeyPair private_key public_key = private_key ≡ public_key

pub toy_crypto-IsLawful : IsLawful toy_crypto IsKeyPair
toy_crypto-IsLawful = record {
  message_back = λ m b e. sym e;
  metadata_back = λ md. rw (decode_route-route_code md.pb_route);
  envelope_back = envelope_back;
  verify-sign = λ private_key public_key m e. rw e (bytes_equal_refl (public_key ++ m));
  unseal-seal = λ key nonce plain.
      rw (take-append (length key) key plain refl, drop-append (length key) key plain refl)
        (rw (bytes_equal_refl key));
}
  where
    envelope_back : (st : SignedTransport) → unmarshal_envelope (marshal_envelope st) ≡ some st
    envelope_back st = rw (
      drop-append (length st.payload) st.payload (st.signature ++ (st.metadata ++ st.padding)) refl,
      drop-append (length st.signature) st.signature (st.metadata ++ st.padding) refl,
      drop-append (length st.metadata) st.metadata st.padding refl,
      take-append (length st.payload) st.payload (st.signature ++ (st.metadata ++ st.padding)) refl,
      take-append (length st.signature) st.signature (st.metadata ++ st.padding) refl,
      take-append (length st.metadata) st.metadata st.padding refl,
    )

abbrev draws : Draws
draws = record {
  id = 5 ∷ 6 ∷ [];
  timestamp = 1000;
  bump = 3;
  random = λ n. replicate n 0;
  nonce = replicate 24 9;
}

deserialize-serialize_example :
    (payload : Bytes) × (serialize toy_crypto (1 ∷ []) (65 ∷ 66 ∷ []) 7 1 draws
      ≡ ok (payload, metadata_for toy_crypto 7 1 draws))
    × (deserialize toy_crypto (1 ∷ []) payload
        ≡ ok (65 ∷ 66 ∷ [], metadata_for toy_crypto 7 1 draws))
deserialize-serialize_example =
    deserialize-serialize toy_crypto IsKeyPair toy_crypto-IsLawful (1 ∷ []) (1 ∷ []) (65 ∷ 66 ∷ [])
      (65 ∷ 66 ∷ []) 7 1 draws refl refl (omega arith)

-- The keys of the two ends of one session.
abbrev alice : Keys
alice = record {
  private_key = 1 ∷ [];
  remote = 2 ∷ [];
  encoder = 10 ∷ 11 ∷ [];
  decoder = 12 ∷ 13 ∷ [];
}

abbrev bob : Keys
bob = record {
  private_key = 2 ∷ [];
  remote = 1 ∷ [];
  encoder = 12 ∷ 13 ∷ [];
  decoder = 10 ∷ 11 ∷ [];
}

abbrev at : ℕ → ℕ → Transport
at recv sent = record { recv_sequence = recv; send_sequence = sent }

abbrev letter : Bytes → ℕ → Letter Bytes
letter m r = record { message = m; route = r; draws = draws }

hello-IsSendable : IsSendable toy_crypto (letter (65 ∷ 66 ∷ []) 7)
unfolding is_valid
hello-IsSendable = record {
  valid = refl;
  open_route = λ e. absurd (omega arith);
  bytes = 65 ∷ 66 ∷ [];
  marshals = refl;
  fits = omega arith;
  nonce = refl;
}

ping-IsSendable : IsSendable toy_crypto (letter [] 9)
unfolding is_valid
ping-IsSendable = record {
  valid = refl;
  open_route = λ e. absurd (omega arith);
  bytes = [];
  marshals = refl;
  fits = omega arith;
  nonce = refl;
}

-- The counters pass 2^64 between the two letters.
receive_all-send_all_example :
    let letters = letter (65 ∷ 66 ∷ []) 7 ∷ letter [] 9 ∷ [] in
    let a = at 0 (2 ^ 64 - 2) in
    let b = at (2 ^ 64 - 2) 0 in
    (wires : List Bytes) × ((send_all toy_crypto alice a letters).1 ≡ ok wires)
    × ((receive_all toy_crypto bob b wires).1 ≡ ok (map (λ l. l.message) letters))
    × ((send_all toy_crypto alice a letters).0.send_sequence
        ≡ (receive_all toy_crypto bob b wires).0.recv_sequence)
receive_all-send_all_example =
    receive_all-send_all toy_crypto IsKeyPair toy_crypto-IsLawful alice bob refl refl
      (at 0 (2 ^ 64 - 2)) (at (2 ^ 64 - 2) 0) (letter (65 ∷ 66 ∷ []) 7 ∷ letter [] 9 ∷ [])
      (hello-IsSendable, (ping-IsSendable, tt)) refl

-- The third letter comes before the second.
receive_out_of_order_example :
    (wire : Bytes) × ((send toy_crypto alice (at 0 2) (65 ∷ 66 ∷ []) 7 draws (λ w. true)).1
      ≡ ok (wire, metadata_for toy_crypto 7 3 draws))
    × (receive toy_crypto bob (at 1 0) (read wire)
        ≡ (at 1 0, err (if ltb 2 1 then duplicate 3 2 else missing 3 2)))
receive_out_of_order_example =
    receive_out_of_order toy_crypto IsKeyPair toy_crypto-IsLawful alice bob refl refl (at 0 2)
      (at 1 0) (letter (65 ∷ 66 ∷ []) 7) hello-IsSendable (omega arith) (omega arith)
      (λ e. absurd (omega arith))

receive-close_example :
    (wire : Bytes) × (close toy_crypto alice (at 0 2) [] draws (λ w. true)
      ≡ (record (at 0 2) { send_sequence = next_sequence 2 }, some wire))
    × (receive toy_crypto bob (at 1 0) (read wire) ≡ (at 1 0, err peer_disconnected))
receive-close_example =
    receive-close toy_crypto IsKeyPair toy_crypto-IsLawful alice bob refl refl (at 0 2) (at 1 0) []
      [] draws refl (omega arith) refl

-- The bytes of an envelope without padding, signed by alice and encrypted for bob.
abbrev md : Metadata
md = record { id = []; timestamp = 1000; sequence = 1; pb_route = PbRoute.exchange_messages }

abbrev signed : SignedTransport
signed = record {
  payload = 65 ∷ [];
  signature = 1 ∷ signing_input (marshal_metadata md) (65 ∷ []);
  metadata = marshal_metadata md;
  padding = [];
}

abbrev wire : Bytes
wire = encrypt toy_crypto alice.encoder (replicate 24 9) (marshal_envelope signed)

receive-IsStep_example :
    IsStep toy_crypto bob (at 0 0) (receive toy_crypto bob (at 0 0) (read wire))
receive-IsStep_example = receive-IsStep toy_crypto bob (at 0 0) (read wire)

wire_received : (receive toy_crypto bob (at 0 0) (read wire)).1 ≡ ok (65 ∷ [], md)
unfolding receive receive_decrypted receive_decoded accept decrypt encrypt deserialize signing_input
    uvarint_loop bytes_equal route_from_proto
wire_received = refl

receive-IsSigned_example : IsSigned toy_crypto bob wire (65 ∷ []) md
receive-IsSigned_example = receive-IsSigned toy_crypto bob (at 0 0) wire (65 ∷ []) md wire_received
