-- ===== src/Protocol/Challenge.antt =====
-- sendChallenge and acceptChallenge (handshake.go), and the session that they run on: the fields of
-- Transport (transport.go) that the handshake sets. The connection stays outside of it.
pub mod Exchanges
pub mod Safety
use kamune.Prelude.{
  ℕ, zero, suc, ◌+◌, ◌/◌, ◌≤◌, ◌≡◌, Bool, true, false, not, ◌&&◌, ◌||◌, if◌then◌else◌, ltb, ◌==◌,
  Option, none, some, List, [], ◌∷◌, ◌++◌, Bytes, bytes_equal, length, put_uint32, Result, ok, err,
}
use kamune.Protocol.Route.{
  route_request_handshake, route_accept_handshake, route_send_challenge, route_verify_challenge,
}
use kamune.Protocol.Serde.{
  Externals, Codec, speak, Metadata, Draws, SerdeError, route, serialize, deserialize,
}
use kamune.Protocol.Transport.{
  Transport, Keys, TransportError, new_transport, send, receive, ReadResult,
}
use kamune.Protocol.Network.{Io, ◌>>=◌, ◌>>◌, pure, wrap, or_fail, require, write_or, read_or}
use kamune.Protocol.Exchange.{
  Primitives, Mlkem, text, new_mlkem, decapsulate, encapsulate_mlkem, derive, new_enigma,
}

-- The fields of Transport that the handshake sets.
pub record Session : Type 0 where
  pub session_id : Bytes
  pub keys : Keys
  pub counters : Transport
  pub resumption_root : Option Bytes

pub data ChallengeError : Type 0 where
  deriving_challenge verification_failed : ChallengeError
  sending receiving : TransportError → ChallengeError
  -- The route that was expected, and the one that came.
  unexpected_route : ℕ → ℕ → ChallengeError

abbrev pub handshake_challenge_size : ℕ
handshake_challenge_size = 32

abbrev pub resumption_token_size : ℕ
resumption_token_size = 32

-- The bytes of "kamune/resumption-root/v1".
abbrev pub resumption_root_info : Bytes
resumption_root_info =
    107 ∷ 97 ∷ 109 ∷ 117 ∷ 110 ∷ 101 ∷ 47 ∷ 114 ∷ 101 ∷ 115 ∷ 117 ∷ 109 ∷ 112 ∷ 116 ∷ 105 ∷ 111
    ∷ 110 ∷ 45 ∷ 114 ∷ 111 ∷ 111 ∷ 116 ∷ 47 ∷ 118 ∷ 49 ∷ []

-- The bytes of "kamune/resumption/token/v1/".
abbrev pub resumption_token_info : Bytes
resumption_token_info =
    107 ∷ 97 ∷ 109 ∷ 117 ∷ 110 ∷ 101 ∷ 47 ∷ 114 ∷ 101 ∷ 115 ∷ 117 ∷ 109 ∷ 112 ∷ 116 ∷ 105 ∷ 111
    ∷ 110 ∷ 47 ∷ 116 ∷ 111 ∷ 107 ∷ 101 ∷ 110 ∷ 47 ∷ 118 ∷ 49 ∷ 47 ∷ []

abbrev pub resumption_token_count : ℕ
resumption_token_count = 20

abbrev both_some : {A : Type 0} → Option A → Option (List A) → Option (List A)
both_some none ts = none
both_some (some t) none = none
both_some (some t) (some ts) = some (t ∷ ts)

abbrev or_empty : {A : Type 0} → Option (List A) → List A
or_empty none = []
or_empty (some ts) = ts

module _ (p : Primitives) where
  -- Transport.setResumptionRoot, which leaves the root unset when the derivation fails.
  unfoldable pub set_resumption_root : Session → Bytes → Session
  set_resumption_root s shared_secret = record s {
    resumption_root =
        derive p shared_secret s.session_id resumption_root_info resumption_token_size;
  }

  unfoldable pub resumption_token : Bytes → ℕ → Option Bytes
  resumption_token root i =
      derive p root [] (resumption_token_info ++ put_uint32 i) resumption_token_size

  -- The loop for so many tokens, from the token with the number on. One failure drops them all.
  unfoldable pub token_loop : Bytes → ℕ → ℕ → Option (List Bytes)
  token_loop root zero i = some []
  token_loop root (suc n) i = both_some (resumption_token root i) (token_loop root n (i + 1))

  abbrev pub tokens_of_root : Option Bytes → List Bytes
  tokens_of_root none = []
  tokens_of_root (some root) = or_empty (token_loop root resumption_token_count 0)

  -- Transport.deriveResumptionTokens: no tokens without a root.
  unfoldable pub derive_resumption_tokens : Session → List Bytes
  derive_resumption_tokens s = tokens_of_root s.resumption_root

module _ (x : Externals Bytes) (p : Primitives) where
  -- What Send hands to the connection, and the session afterwards.
  abbrev pub transmit :
      Session → Transport × Result TransportError (Bytes × Metadata) → Io TransportError Session
  transmit s (t, err e) = Io.done (err e)
  transmit s (t, ok (wire, md)) = do
    write_or wire TransportError.writing
    pure (record s { counters = t })

  unfoldable pub send_message : Session → Bytes → ℕ → Draws → Io TransportError Session
  send_message s m r draws = transmit s (send x s.keys s.counters m r draws (λ w. true))

  abbrev pub take_received :
      Session
      → Transport × Result TransportError (Bytes × Metadata)
      → Io TransportError (Session × Bytes × Metadata)
  take_received s (t, err e) = Io.done (err e)
  take_received s (t, ok (m, md)) = pure (record s { counters = t }, m, md)

  unfoldable pub receive_message : Session → Io TransportError (Session × Bytes × Metadata)
  receive_message s = Io.read_bytes (λ r. take_received s (receive x s.keys s.counters r))

  -- The half of sendChallenge behind the write.
  unfoldable pub verify_echo : Session → Bytes → Io ChallengeError Session
  verify_echo s challenge = do
    (s, r, md) ← wrap ChallengeError.receiving (receive_message s)
    require (route md == route_verify_challenge)
        (ChallengeError.unexpected_route route_verify_challenge (route md))
    require (bytes_equal r challenge) ChallengeError.verification_failed
    pure s

  unfoldable pub send_challenge : Session → Bytes → Bytes → Draws → Io ChallengeError Session
  send_challenge s secret info draws = do
    challenge ←
        or_fail (derive p secret [] info handshake_challenge_size) ChallengeError.deriving_challenge
    s ← wrap ChallengeError.sending (send_message s challenge route_send_challenge draws)
    verify_echo s challenge

  unfoldable pub accept_challenge : Session → ℕ → Draws → Io ChallengeError Session
  accept_challenge s expected_route draws = do
    (s, r, md) ← wrap ChallengeError.receiving (receive_message s)
    require (route md == expected_route) (ChallengeError.unexpected_route expected_route (route md))
    wrap ChallengeError.sending (send_message s r route_verify_challenge draws)
