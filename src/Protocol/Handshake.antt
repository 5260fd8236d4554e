-- ===== src/Protocol/Handshake.antt =====
-- handshake.go: the key agreement of two peers, over a connection. The two transports' keys, the counters
-- and the resumption root are a `Session`. What a call draws at random is its argument `HandshakeDraws`.
pub mod Transcript
pub mod Agreement
pub mod Steps
pub mod Outcome
pub mod Established
pub mod Safety
pub mod Initiator
pub mod Responder
use kamune.Prelude.{
  ℕ, ◌+◌, ◌/◌, ◌≤◌, ◌≡◌, Bool, true, false, not, ◌&&◌, ◌||◌, if◌then◌else◌, ltb, ◌==◌, Option, none,
  some, List, [], ◌∷◌, ◌++◌, Bytes, bytes_equal, length, put_uint32, Result, ok, err,
}
use kamune.Protocol.Route.{
  route_request_handshake, route_accept_handshake, route_send_challenge, route_verify_challenge,
}
use kamune.Protocol.Serde.{
  Externals, Codec, speak, Metadata, Draws, SerdeError, route, serialize, deserialize,
}
use kamune.Protocol.Transport.{
  Transport, Keys, TransportError, new_transport, send, receive, ReadResult,
}
use kamune.Protocol.Network.{Io, ◌>>=◌, ◌>>◌, pure, wrap, lift, or_fail, require, write_or, read_or}
use kamune.Protocol.Exchange.{
  Primitives, Mlkem, text, new_mlkem, decapsulate, encapsulate_mlkem, derive, new_enigma,
}
use kamune.Protocol.Challenge.{
  Session, ChallengeError, send_challenge, accept_challenge, set_resumption_root,
}

-- pb.Handshake
pub record Handshake : Type 0 where
  pub key : Bytes
  pub salt : Bytes
  pub session_key : Bytes

-- The signedSerde: the own signing key, and the public key of the peer.
pub record SignedSerde : Type 0 where
  pub private_key : Bytes
  pub remote : Bytes

pub record HandshakeDraws : Type 0 where
  -- For the key pair, or the encapsulation.
  pub seed : Bytes
  pub salt : Bytes
  pub text : Bytes
  -- For the envelope of the handshake message, of the challenge and of the echo.
  pub envelope : Draws
  pub challenge : Draws
  pub verify : Draws

pub data FieldError : Type 0 where
  salt_length session_key_length : ℕ → FieldError

pub data HandshakeError : Type 0 where
  creating_keys writing reading decapsulating encapsulating creating_encrypter creating_decrypter :
      HandshakeError
  serializing deserializing : SerdeError → HandshakeError
  unexpected_route : ℕ → ℕ → HandshakeError
  invalid_fields : FieldError → HandshakeError
  sending_challenge accepting_challenge : ChallengeError → HandshakeError

abbrev pub session_id_length : ℕ
session_id_length = 24

abbrev pub handshake_salt_size : ℕ
handshake_salt_size = 16

-- The bytes of "kamune/handshake/v1".
abbrev pub handshake_info : Bytes
handshake_info =
    107 ∷ 97 ∷ 109 ∷ 117 ∷ 110 ∷ 101 ∷ 47 ∷ 104 ∷ 97 ∷ 110 ∷ 100 ∷ 115 ∷ 104 ∷ 97 ∷ 107 ∷ 101 ∷ 47
    ∷ 118 ∷ 49 ∷ []

-- The bytes of "kamune/handshake/client-to-server/v1/".
abbrev pub handshake_c2s_info : Bytes
handshake_c2s_info =
    107 ∷ 97 ∷ 109 ∷ 117 ∷ 110 ∷ 101 ∷ 47 ∷ 104 ∷ 97 ∷ 110 ∷ 100 ∷ 115 ∷ 104 ∷ 97 ∷ 107 ∷ 101 ∷ 47
    ∷ 99 ∷ 108 ∷ 105 ∷ 101 ∷ 110 ∷ 116 ∷ 45 ∷ 116 ∷ 111 ∷ 45 ∷ 115 ∷ 101 ∷ 114 ∷ 118 ∷ 101 ∷ 114
    ∷ 47 ∷ 118 ∷ 49 ∷ 47 ∷ []

-- The bytes of "kamune/handshake/server-to-client/v1/".
abbrev pub handshake_s2c_info : Bytes
handshake_s2c_info =
    107 ∷ 97 ∷ 109 ∷ 117 ∷ 110 ∷ 101 ∷ 47 ∷ 104 ∷ 97 ∷ 110 ∷ 100 ∷ 115 ∷ 104 ∷ 97 ∷ 107 ∷ 101 ∷ 47
    ∷ 115 ∷ 101 ∷ 114 ∷ 118 ∷ 101 ∷ 114 ∷ 45 ∷ 116 ∷ 111 ∷ 45 ∷ 99 ∷ 108 ∷ 105 ∷ 101 ∷ 110 ∷ 116
    ∷ 47 ∷ 118 ∷ 49 ∷ 47 ∷ []

abbrev pub is_empty : Bytes → Bool
is_empty [] = true
is_empty (b ∷ bs) = false

unfoldable pub validate_handshake_fields : Bytes → Bytes → Result FieldError (Unit {0})
validate_handshake_fields salt session_key =
    let l = length session_key in
    if not (length salt == handshake_salt_size)
    then err (salt_length (length salt))
    else (if not (l == session_id_length / 2) && not (l == session_id_length)
        then err (session_key_length l)
        else ok tt)

-- A field with its length in front, as it is written into the hash.
unfoldable pub hash_field : Bytes → Bytes
hash_field b = put_uint32 (length b) ++ b

-- What handshakeTranscriptHash hashes.
unfoldable pub transcript : Handshake → Handshake → Bytes
transcript req resp =
    handshake_info
    ++ (hash_field req.key
        ++ (hash_field req.salt
            ++ (hash_field req.session_key
                ++ (hash_field resp.key ++ (hash_field resp.salt ++ hash_field resp.session_key)))))

unfoldable pub derive_challenge_info : Bytes → Bytes → Bytes → Bytes
derive_challenge_info session_id direction hash = session_id ++ (124 ∷ direction ++ (124 ∷ hash))

abbrev pub session_key_for : Bytes → HandshakeDraws → Bytes
session_key_for opts d = if is_empty opts then text d.text else opts

abbrev pub request_for : Bytes → HandshakeDraws → Mlkem → Handshake
request_for opts d ml = record {
  key = ml.public_key;
  salt = d.salt;
  session_key = session_key_for opts d;
}

abbrev pub response_for : Bytes → HandshakeDraws → Bytes → Handshake
response_for opts d ct = record { key = ct; salt = d.salt; session_key = session_key_for opts d }

module _ (x : Externals Bytes) (c : Codec Handshake) (p : Primitives) where
  unfoldable pub handshake_transcript_hash : Handshake → Handshake → Bytes
  handshake_transcript_hash req resp = p.sha256 (transcript req resp)

  -- The two ciphers and newTransport. The labels are those of the own and of the peer's direction.
  unfoldable pub create_transport :
      SignedSerde → Bytes → Bytes → Bytes → Bytes → Bytes → Bytes → Io HandshakeError Session
  create_transport serde secret session_id local_salt local_info remote_salt remote_info = do
    encoder ←
        or_fail (new_enigma p secret local_salt (local_info ++ session_id))
          HandshakeError.creating_encrypter
    decoder ←
        or_fail (new_enigma p secret remote_salt (remote_info ++ session_id))
          HandshakeError.creating_decrypter
    pure (record {
      session_id = session_id;
      keys = record {
        private_key = serde.private_key;
        remote = serde.remote;
        encoder = encoder;
        decoder = decoder;
      };
      counters = new_transport;
      resumption_root = none;
    })

  -- Steps 4 and 5 of requestHandshake.
  unfoldable pub confirm_request :
      SignedSerde
      → HandshakeDraws
      → Bytes
      → Handshake
      → Handshake
      → Bytes
      → Io HandshakeError Session
  confirm_request serde d session_id req resp secret = do
    s ←
        create_transport serde secret session_id req.salt handshake_c2s_info resp.salt
          handshake_s2c_info
    s ← wrap HandshakeError.sending_challenge (
        send_challenge x p s secret
          (derive_challenge_info session_id handshake_c2s_info (handshake_transcript_hash req resp))
          d.challenge)
    s ←
        wrap HandshakeError.accepting_challenge
          (accept_challenge x p s route_send_challenge d.verify)
    pure (set_resumption_root p s secret)

  -- Steps 2 and 3 of requestHandshake, with the session ID of the options, and with the request that
  -- was sent.
  unfoldable pub await_response :
      SignedSerde → Bytes → HandshakeDraws → Mlkem → Handshake → Io HandshakeError Session
  await_response serde opts d ml req = do
    resp_bytes ← read_or HandshakeError.reading
    (resp, md) ← lift HandshakeError.deserializing (deserialize (speak c x) serde.remote resp_bytes)
    require (route md == route_accept_handshake)
        (HandshakeError.unexpected_route route_accept_handshake (route md))
    lift HandshakeError.invalid_fields (validate_handshake_fields resp.salt resp.session_key)
    secret ← or_fail (decapsulate p ml resp.key) HandshakeError.decapsulating
    confirm_request serde d (if is_empty opts then req.session_key ++ resp.session_key else opts)
        req resp secret

  unfoldable pub request_handshake :
      SignedSerde → Bytes → HandshakeDraws → Io HandshakeError Session
  request_handshake serde opts d = do
    ml ← or_fail (new_mlkem p d.seed) HandshakeError.creating_keys
    (req_bytes, md) ← lift HandshakeError.serializing (
        serialize (speak c x) serde.private_key (request_for opts d ml) route_request_handshake 0
          d.envelope)
    write_or req_bytes HandshakeError.writing
    await_response serde opts d ml (request_for opts d ml)

  -- Steps 3 and 4 of acceptHandshake.
  unfoldable pub confirm_accept :
      SignedSerde
      → HandshakeDraws
      → Bytes
      → Handshake
      → Handshake
      → Bytes
      → Io HandshakeError Session
  confirm_accept serde d session_id req resp secret = do
    s ←
        create_transport serde secret session_id resp.salt handshake_s2c_info req.salt
          handshake_c2s_info
    s ←
        wrap HandshakeError.accepting_challenge
          (accept_challenge x p s route_send_challenge d.verify)
    s ← wrap HandshakeError.sending_challenge (
        send_challenge x p s secret
          (derive_challenge_info session_id handshake_s2c_info (handshake_transcript_hash req resp))
          d.challenge)
    pure (set_resumption_root p s secret)

  -- Step 2 of acceptHandshake, behind the encapsulation.
  unfoldable pub answer_request :
      SignedSerde → Bytes → HandshakeDraws → Handshake → Bytes × Bytes → Io HandshakeError Session
  answer_request serde opts d req (secret, ct) = do
    (resp_bytes, md) ← lift HandshakeError.serializing (
        serialize (speak c x) serde.private_key (response_for opts d ct) route_accept_handshake 0
          d.envelope)
    write_or resp_bytes HandshakeError.writing
    confirm_accept serde d
        (if is_empty opts then req.session_key ++ session_key_for opts d else opts) req
        (response_for opts d ct) secret

  unfoldable pub accept_handshake : SignedSerde → Bytes → HandshakeDraws → Io HandshakeError Session
  accept_handshake serde opts d = do
    req_bytes ← read_or HandshakeError.reading
    (req, md) ← lift HandshakeError.deserializing (deserialize (speak c x) serde.remote req_bytes)
    require (route md == route_request_handshake)
        (HandshakeError.unexpected_route route_request_handshake (route md))
    lift HandshakeError.invalid_fields (validate_handshake_fields req.salt req.session_key)
    pair ← or_fail (encapsulate_mlkem p req.key d.seed) HandshakeError.encapsulating
    answer_request serde opts d req pair
