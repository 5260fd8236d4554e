-- ===== src/Protocol/Handshake/Agreement.antt =====
-- requestHandshake at one end of a connection and acceptHandshake at the other (handshake.go).
use kamune.Prelude.{◌≤◌, ◌≡◌, refl, arith, none, some, [], ◌++◌, Bytes, All, length, ok}
use kamune.Protocol.Route.{is_valid, route_send_challenge, route_verify_challenge}
use kamune.Protocol.Serde.{Externals, IsLawful, Draws, Codec, max_transport_size}
use kamune.Protocol.Transport.{new_transport}
use kamune.Protocol.Transport.Delivery.{IsSendable}
use kamune.Protocol.Network.{Io, network, ◌>>=◌, pure, wrap, Steps}
use kamune.Protocol.Network.Interleaving.{Steps-append, Steps-swap}
use kamune.Protocol.Exchange.{
  Primitives, IsDocumented, IsAscii, new_enigma, new_enigma-some, derive-some,
}
use kamune.Protocol.Handshake.{
  Handshake, SignedSerde, HandshakeDraws, HandshakeError, create_transport, confirm_request,
  confirm_accept, handshake_c2s_info, handshake_s2c_info, derive_challenge_info,
  handshake_transcript_hash,
}
use kamune.Protocol.Challenge.{
  Session, send_challenge, accept_challenge, set_resumption_root, resumption_root_info,
}
use kamune.Protocol.Challenge.Exchanges.{IsPaired, challenge-Steps, has_sent, has_received}

-- Protobuf takes the messages of a handshake, and they are not too large.
pub record IsCarried (x : Externals Bytes) (c : Codec Handshake) : Type 0 where
  pub challenge :
      (b : Bytes)
      → length b ≡ 32
      → (out : Bytes) × (x.marshal_message b ≡ some out) × (length out ≤ max_transport_size)
  pub handshake :
      (h : Handshake)
      → length h.key ≤ 1184
      → length h.salt ≤ 16
      → length h.session_key ≤ 24
      → All IsAscii h.session_key
      → (out : Bytes) × (c.marshal h ≡ some out) × (length out ≤ max_transport_size)
  pub handshake_back : (h : Handshake) (b : Bytes) → c.marshal h ≡ some b → c.unmarshal b ≡ some h

-- What is drawn has the size that was asked for.
pub record IsDrawn (d : HandshakeDraws) : Type 0 where
  pub salt : length d.salt ≡ 16
  pub text : length d.text ≡ 12
  pub challenge : length d.challenge.nonce ≡ 24
  pub verify : length d.verify.nonce ≡ 24

-- The two sides have the same session, with the same resumption root, and each has sent and received
-- two messages on it.
pub record IsAgreed (IsKeyPair : Bytes → Bytes → Type 0) (session_id : Bytes) (a b : Session)
    : Type 0 where
  pub paired : IsPaired IsKeyPair a b
  pub left_id : a.session_id ≡ session_id
  pub right_id : b.session_id ≡ session_id
  pub root : Bytes
  pub left_root : a.resumption_root ≡ some root
  pub right_root : b.resumption_root ≡ some root
  pub left_counters : a.counters ≡ record { recv_sequence = 2; send_sequence = 2 }
  pub right_counters : b.counters ≡ record { recv_sequence = 2; send_sequence = 2 }

abbrev session_of : SignedSerde → Bytes → Bytes → Bytes → Session
session_of serde session_id encoder decoder = record {
  session_id = session_id;
  keys = record {
    private_key = serde.private_key;
    remote = serde.remote;
    encoder = encoder;
    decoder = decoder;
  };
  counters = record { recv_sequence = 0; send_sequence = 0 };
  resumption_root = none;
}

module _ (x : Externals Bytes) (c : Codec Handshake) (p : Primitives)
    (IsKeyPair : Bytes → Bytes → Type 0) (law : IsLawful x IsKeyPair) (documented : IsDocumented p)
    (carried : IsCarried x c) where
  challenge-IsSendable :
      (b : Bytes) (d : Draws)
      → length b ≡ 32
      → length d.nonce ≡ 24
      → IsSendable x (record { message = b; route = route_send_challenge; draws = d })
  unfolding is_valid
  challenge-IsSendable b d l n =
      let (out, m, f) = carried.challenge b l in
      record {
        valid = refl;
        open_route = λ e. absurd (omega arith);
        bytes = out;
        marshals = m;
        fits = f;
        nonce = n;
      }

  echo-IsSendable :
      (b : Bytes) (d : Draws)
      → length b ≡ 32
      → length d.nonce ≡ 24
      → IsSendable x (record { message = b; route = route_verify_challenge; draws = d })
  unfolding is_valid
  echo-IsSendable b d l n =
      let (out, m, f) = carried.challenge b l in
      record {
        valid = refl;
        open_route = λ e. absurd (omega arith);
        bytes = out;
        marshals = m;
        fits = f;
        nonce = n;
      }

  create_transport-pure :
      (serde : SignedSerde)
      (secret session_id local_salt local_info remote_salt remote_info encoder decoder : Bytes)
      → new_enigma p secret local_salt (local_info ++ session_id) ≡ some encoder
      → new_enigma p secret remote_salt (remote_info ++ session_id) ≡ some decoder
      → create_transport x c p serde secret session_id local_salt local_info remote_salt remote_info
        ≡ pure (session_of serde session_id encoder decoder)
  unfolding create_transport new_transport
  create_transport-pure serde secret session_id local_salt local_info remote_salt remote_info
        encoder decoder he hd =
      rw he (rw hd refl)

  module _ (alice bob : SignedSerde) (signs : IsKeyPair alice.private_key bob.remote)
      (signs_back : IsKeyPair bob.private_key alice.remote) (da db : HandshakeDraws)
      (drawn_a : IsDrawn da) (drawn_b : IsDrawn db) where
    -- The two challenges, and the sessions that they end in.
    pub confirm-Steps :
        (session_id secret : Bytes) (req resp : Handshake)
        → (a b : Session) × Steps 8
            (network
              (confirm_request x c p alice da session_id req resp secret)
              (confirm_accept x c p bob db session_id req resp secret)
              []
              [])
            (network (Io.done (ok a)) (Io.done (ok b)) [] [])
          × IsAgreed IsKeyPair session_id a b
    unfolding confirm_request confirm_accept set_resumption_root
    confirm-Steps session_id secret req resp =
        let (k1, e1) =
          new_enigma-some p documented secret req.salt (handshake_c2s_info ++ session_id) in
        let (k2, e2) =
          new_enigma-some p documented secret resp.salt (handshake_s2c_info ++ session_id) in
        let hash = handshake_transcript_hash x c p req resp in
        let (ch1, d1, l1) =
          derive-some p documented secret []
            (derive_challenge_info session_id handshake_c2s_info hash) 32 (omega arith) in
        let (ch2, d2, l2) =
          derive-some p documented secret []
            (derive_challenge_info session_id handshake_s2c_info hash) 32 (omega arith) in
        let (root, dr, lr) =
          derive-some p documented secret session_id resumption_root_info 32 (omega arith) in
        let a = session_of alice session_id k1 k2 in
        let b = session_of bob session_id k2 k1 in
        let h : IsPaired IsKeyPair a b = record {
          out = refl;
          back = refl;
          signs = signs;
          signs_back = signs_back;
          sent = refl;
          sent_back = refl;
        } in
        let a2 = has_received (has_sent a) in
        let b2 = has_sent (has_received b) in
        let h2 : IsPaired IsKeyPair b2 a2 = record {
          out = refl;
          back = refl;
          signs = signs_back;
          signs_back = signs;
          sent = refl;
          sent_back = refl;
        } in
        let a4 = set_resumption_root p (has_sent (has_received a2)) secret in
        let b4 = set_resumption_root p (has_received (has_sent b2)) secret in
        let finish : Session → Io HandshakeError Session =
          λ s. pure (set_resumption_root p s secret) in
        let first =
          challenge-Steps x p IsKeyPair law HandshakeError.sending_challenge
            HandshakeError.accepting_challenge
            (λ s.
              wrap HandshakeError.accepting_challenge
                (accept_challenge x p s route_send_challenge da.verify)
              >>= finish)
            (λ s.
              wrap HandshakeError.sending_challenge (
                send_challenge x p s secret
                  (derive_challenge_info session_id handshake_s2c_info hash) db.challenge)
              >>= finish)
            a b secret (derive_challenge_info session_id handshake_c2s_info hash) ch1 da.challenge
            db.verify h d1 (challenge-IsSendable ch1 da.challenge l1 drawn_a.challenge)
            (echo-IsSendable ch1 db.verify l1 drawn_b.verify) in
        let second =
          challenge-Steps x p IsKeyPair law HandshakeError.sending_challenge
            HandshakeError.accepting_challenge finish finish b2 a2 secret
            (derive_challenge_info session_id handshake_s2c_info hash) ch2 db.challenge da.verify h2
            d2 (challenge-IsSendable ch2 db.challenge l2 drawn_b.challenge)
            (echo-IsSendable ch2 da.verify l2 drawn_a.verify) in
        (
          a4,
          b4,
          rw
              (
                create_transport-pure alice secret session_id req.salt handshake_c2s_info resp.salt
                    handshake_s2c_info k1 k2 e1 e2,
                create_transport-pure bob secret session_id resp.salt handshake_s2c_info req.salt
                    handshake_c2s_info k2 k1 e2 e1,
              )
              (Steps-append first (Steps-swap second)),
          record {
            paired = record {
              out = refl;
              back = refl;
              signs = signs;
              signs_back = signs_back;
              sent = refl;
              sent_back = refl;
            };
            left_id = refl;
            right_id = refl;
            root = root;
            left_root = dr;
            right_root = dr;
            left_counters = refl;
            right_counters = refl;
          },
        )
