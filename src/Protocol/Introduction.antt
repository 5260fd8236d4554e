-- ===== src/Protocol/Introduction.antt =====
-- intro.go and resume.go: the messages in front of a handshake, which are signed but not encrypted by
-- the session, with readSignedTransport and routeFromST of serde.go. A message without a timestamp has
-- the timestamp 0.
pub mod Checked
use kamune.Prelude.{
  ℕ, ◌≡◌, Bool, true, false, not, if◌then◌else◌, ◌==◌, Option, none, some, List, [], ◌∷◌, Bytes,
  Result, ok, err, guard,
}
use kamune.Protocol.Route.{to_proto, route_identity, route_resume_request, route_resume_accept}
use kamune.Protocol.Serde.{
  Externals, Codec, SignedTransport, Metadata, Draws, route, signing_input, pad_and_marshal,
}
use kamune.Protocol.Network.{Io, ◌>>=◌, ◌>>◌, pure, lift, or_fail, require, write_or, read_or}
use kamune.Storage.Peers.{Peer}

-- pb.Introduce, pb.ResumeRequest and pb.ResumeAccept.
pub record Introduce : Type 0 where
  pub name : Bytes
  pub public_key : Bytes
  pub app_version : Bytes

pub record ResumeRequest : Type 0 where
  pub session_id : Bytes
  pub token : Bytes

pub record ResumeAccept : Type 0 where
  pub accepted : Bool
  pub reason : Bytes

pub record Codecs : Type 0 where
  pub introduce : Codec Introduce
  pub resume_request : Codec ResumeRequest
  pub resume_accept : Codec ResumeAccept

pub data MessageError : Type 0 where
  marshalling writing reading unmarshalling extracting_route deserializing invalid_signature :
      MessageError
  unexpected_route : ℕ → ℕ → MessageError

-- The identity of an attest: its private key, and its public key in PKIX form.
pub record Attest : Type 0 where
  pub private_key : Bytes
  pub public_key : Bytes

-- The bytes of "resumption not available".
abbrev pub resumption_not_available : Bytes
resumption_not_available =
    114 ∷ 101 ∷ 115 ∷ 117 ∷ 109 ∷ 112 ∷ 116 ∷ 105 ∷ 111 ∷ 110 ∷ 32 ∷ 110 ∷ 111 ∷ 116 ∷ 32 ∷ 97 ∷ 118
    ∷ 97 ∷ 105 ∷ 108 ∷ 97 ∷ 98 ∷ 108 ∷ 101 ∷ []

module _ (x : Externals Bytes) (c : Codecs) where
  -- The envelope that all three messages have.
  unfoldable pub signed_payload : Attest → Metadata → Bytes → Draws → Bytes
  signed_payload at md message draws =
      pad_and_marshal x
        (record {
          payload = message;
          signature = x.sign at.private_key (signing_input (x.marshal_metadata md) message);
          metadata = x.marshal_metadata md;
          padding = [];
        })
        draws

  abbrev pub plain_metadata : ℕ → ℕ → Metadata
  plain_metadata timestamp r = record {
    id = [];
    timestamp = timestamp;
    sequence = 0;
    pb_route = to_proto r;
  }

  unfoldable pub send_introduction : Attest → Bytes → Bytes → Draws → Io MessageError (Unit {0})
  send_introduction at name version draws = do
    message ←
        or_fail
          (c.introduce.marshal
            (record { name = name; public_key = at.public_key; app_version = version }))
          marshalling
    write_or (signed_payload at (plain_metadata draws.timestamp route_identity) message draws)
        writing

  unfoldable pub read_signed_transport : Io MessageError SignedTransport
  read_signed_transport = do
    payload ← read_or reading
    or_fail (x.unmarshal_envelope payload) unmarshalling

  abbrev pub route_of_metadata : Option Metadata → Result MessageError ℕ
  route_of_metadata none = err extracting_route
  route_of_metadata (some md) = ok (route md)

  unfoldable pub route_from_st : SignedTransport → Result MessageError ℕ
  route_from_st st = route_of_metadata (x.unmarshal_metadata st.metadata)

  unfoldable pub is_signed_by : Bytes → SignedTransport → Bool
  is_signed_by remote st = x.verify remote (signing_input st.metadata st.payload) st.signature

  -- The peer has no times.
  unfoldable pub receive_introduction : SignedTransport → Io MessageError Peer
  receive_introduction st = do
    r ← lift (λ e. e) (route_from_st st)
    require (r == route_identity) (unexpected_route route_identity r)
    introduce ← or_fail (c.introduce.unmarshal st.payload) deserializing
    require (is_signed_by introduce.public_key st) invalid_signature
    pure (record {
      first_seen = 0;
      last_seen = 0;
      name = introduce.name;
      app_version = introduce.app_version;
      public_key = introduce.public_key;
    })

  unfoldable pub send_resume_request : Attest → Bytes → Bytes → Draws → Io MessageError (Unit {0})
  send_resume_request at session_id token draws = do
    message ←
        or_fail (c.resume_request.marshal (record { session_id = session_id; token = token }))
          marshalling
    write_or (signed_payload at (plain_metadata 0 route_resume_request) message draws) writing

  unfoldable pub receive_resume_accept : Bytes → Io MessageError ResumeAccept
  receive_resume_accept remote = do
    st ← read_signed_transport
    r ← lift (λ e. e) (route_from_st st)
    require (r == route_resume_accept) (unexpected_route route_resume_accept r)
    require (is_signed_by remote st) invalid_signature
    or_fail (c.resume_accept.unmarshal st.payload) deserializing

  unfoldable pub send_resume_accept : Attest → Bool → Draws → Io MessageError (Unit {0})
  send_resume_accept at accepted draws = do
    message ←
        or_fail
          (c.resume_accept.marshal (record {
            accepted = accepted;
            reason = if accepted then [] else resumption_not_available;
          }))
          marshalling
    write_or (signed_payload at (plain_metadata 0 route_resume_accept) message draws) writing
