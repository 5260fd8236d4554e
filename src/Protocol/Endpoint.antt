-- ===== src/Protocol/Endpoint.antt =====
-- server.go and dial.go: what a server does with a connection, and a dialer with its own, from the first
-- message to the session. The connection is the tunnel of pkg/exchange that the handshake runs in. The
-- storage is passed along, also out of an error. Of the options, the attest, the name, the version and
-- the remote verifier are the record `Endpoint`; the verifier, which an application supplies, may change
-- the storage. The handler that a server calls at the end is left out.
pub mod Resumption
pub mod Introduced
pub mod Messages
pub mod Resumed
pub mod Met
use kamune.Prelude.{
  ℕ, ◌+◌, ◌≡◌, Bool, true, false, not, if◌then◌else◌, ltb, ◌==◌, Option, none, some, List, [], ◌∷◌,
  Bytes, Result, ok, err,
}
use kamune.Protocol.Route.{route_identity, route_resume_request}
use kamune.Protocol.Serde.{Externals, Codec, SignedTransport, Draws}
use kamune.Protocol.Version.{Semver, VersionError, check_version}
use kamune.Protocol.Network.{Io, ◌>>=◌, ◌>>◌, pure, wrap, lift, or_fail, require}
use kamune.Protocol.Exchange.{Primitives}
use kamune.Protocol.Challenge.{Session, derive_resumption_tokens}
use kamune.Protocol.Handshake.{
  Handshake, SignedSerde, HandshakeDraws, HandshakeError, is_empty, request_handshake,
  accept_handshake,
}
use kamune.Protocol.Introduction.{
  Attest, Codecs, MessageError, ResumeRequest, ResumeAccept, send_introduction,
  read_signed_transport, route_from_st, is_signed_by, receive_introduction, send_resume_request,
  receive_resume_accept, send_resume_accept,
}
use kamune.Storage.Engine.{Engine}
use kamune.Storage.Session.{
  Storage, StorageError, new_byte_slices_meta, set_meta, pop_list, remove_list_item,
}
use kamune.Storage.Peers.{Peer, PeerStore}
use kamune.Storage.Records.{RecordError, resumption_tokens_key, get_peer, get_established_at}

pub record Endpoint : Type 0 where
  pub attest : Attest
  pub name : Bytes
  pub app_version : Bytes
  pub version : Semver
  pub verifier : Storage → Peer → Storage × Bool

-- What the calls draw: the envelopes of the introduction or of the messages of a resumption, the
-- handshake, and the nonces of the writes to the storage.
pub record EndpointDraws : Type 0 where
  pub introduction : Draws
  pub resumption : Draws
  pub handshake : HandshakeDraws
  pub removal : ℕ
  pub tokens : ℕ

pub data EndpointError : Type 0 where
  not_verified token_invalid invalid_signature session_expired deserializing resumption_rejected :
      EndpointError
  message : MessageError → EndpointError
  version_check : VersionError → EndpointError
  handshaking : HandshakeError → EndpointError
  getting_session : RecordError → EndpointError
  getting_token : StorageError → EndpointError
  unexpected_route : ℕ → ℕ → EndpointError

-- 24 hours.
abbrev pub resumption_grace_period : ℕ
resumption_grace_period = 86400000000000

-- A session, with the storage and the peer.
pub record Established : Type 0 where
  pub storage : Storage
  pub session : Session
  pub peer : Peer

-- A procedure that ends with the storage.
abbrev pub Served : Type 0 → Type 0
Served A = Io (Storage × EndpointError) A

-- The storage and the result of an operation on it, as a step of a procedure.
abbrev pub stored :
    {E A : Type 0} → (E → EndpointError) → Storage × Result E A → Served (Storage × A)
stored f (s, err x) = Io.done (err (s, f x))
stored f (s, ok a) = pure (s, a)

module _ (x : Externals Bytes) (c : Codecs) (hc : Codec Handshake) (p : Primitives) (e : Engine)
    (ps : PeerStore) (me : Endpoint) where
  -- The resumption tokens of a new session go into its metadata; an error is ignored.
  unfoldable pub store_tokens : Storage → Session → ℕ → Storage
  store_tokens s t draw =
      (set_meta e s t.session_id
        (new_byte_slices_meta resumption_tokens_key (derive_resumption_tokens p t)) draw).0

  abbrev pub serde_for : Peer → SignedSerde
  serde_for peer = record { private_key = me.attest.private_key; remote = peer.public_key }

  abbrev pub finish : Storage → Peer → ℕ → Session → Served Established
  finish s peer draw t = pure (record { storage = store_tokens s t draw; session = t; peer = peer })

  -- The checks on an introduction: its signature, its version, and the remote verifier.
  unfoldable pub admit : Storage → SignedTransport → Served (Storage × Peer)
  admit s st = do
    peer ← wrap (λ m. (s, message m)) (receive_introduction x c st)
    v ← lift (λ m. (s, version_check m)) (check_version me.version peer.app_version)
    require (me.verifier s peer).1 ((me.verifier s peer).0, not_verified)
    pure ((me.verifier s peer).0, peer)

  unfoldable pub handle_new_connection :
      Storage → SignedTransport → EndpointDraws → Served Established
  handle_new_connection s st d = do
    (s1, peer) ← admit s st
    wrap (λ m. (s1, message m))
        (send_introduction x c me.attest me.name me.app_version d.introduction)
    t ← wrap (λ m. (s1, handshaking m)) (accept_handshake x hc p (serde_for peer) [] d.handshake)
    finish s1 peer d.tokens t

  -- A rejection is sent, and then returned as an error.
  unfoldable pub reject : {A : Type 0} → Storage → EndpointError → Draws → Served A
  reject s why draws = do
    wrap (λ m. (s, message m)) (send_resume_accept x c me.attest false draws)
    Io.done (err (s, why))

  abbrev pub reject_unless : Bool → Storage → EndpointError → Draws → Served (Unit {0})
  reject_unless true s why draws = pure tt
  reject_unless false s why draws = reject s why draws

  abbrev pub take_token : Draws → Storage × Result StorageError (Unit {0}) → Served Storage
  take_token draws (s, ok u) = pure s
  take_token draws (s, err y) = reject s token_invalid draws

  abbrev pub established_time : Storage → Result RecordError ℕ → Served ℕ
  established_time s r = lift (λ y. (s, getting_session y)) r

  -- handleResume from the answer that it accepts.
  unfoldable pub resume_accepted : Storage → Peer → Bytes → EndpointDraws → Served Established
  resume_accepted s peer session_id d = do
    wrap (λ m. (s, message m)) (send_resume_accept x c me.attest true d.resumption)
    t ←
        wrap (λ m. (s, handshaking m))
          (accept_handshake x hc p (serde_for peer) session_id d.handshake)
    finish s peer d.tokens t

  -- Its checks of the signature and of the time.
  unfoldable pub resume_checked :
      Storage → SignedTransport → ℕ → EndpointDraws → Peer → Bytes → ℕ → Served Established
  resume_checked s st now d peer session_id established_at = do
    reject_unless (is_signed_by x c peer.public_key st) s invalid_signature d.resumption
    reject_unless (not (ltb (established_at + resumption_grace_period) now)) s session_expired
        d.resumption
    resume_accepted s peer session_id d

  unfoldable pub resume_timed :
      Storage → SignedTransport → ℕ → EndpointDraws → Bytes → Storage × Peer → Served Established
  resume_timed s st now d session_id (s2, peer) = do
    established_at ← established_time s2 (get_established_at e ps s2 session_id)
    resume_checked s2 st now d peer session_id established_at

  unfoldable pub resume_taken :
      SignedTransport → ℕ → EndpointDraws → Bytes → Storage → Served Established
  resume_taken st now d session_id s = do
    found ← stored getting_session (get_peer e ps s session_id now)
    resume_timed s st now d session_id found

  unfoldable pub resume_asked :
      Storage → SignedTransport → ℕ → EndpointDraws → ResumeRequest → Served Established
  resume_asked s st now d req = do
    s1 ←
        take_token d.resumption
          (remove_list_item e s req.session_id resumption_tokens_key req.token d.removal)
    resume_taken st now d req.session_id s1

  unfoldable pub handle_resume : Storage → SignedTransport → ℕ → EndpointDraws → Served Established
  handle_resume s st now d = do
    req ← or_fail (c.resume_request.unmarshal st.payload) (s, deserializing)
    resume_asked s st now d req

  abbrev pub dispatch_first :
      Bool → Storage → SignedTransport → ℕ → ℕ → EndpointDraws → Served Established
  dispatch_first resume_enabled s st r now d =
      if r == route_identity
      then handle_new_connection s st d
      else (if r == route_resume_request
          then (if resume_enabled
              then handle_resume s st now d
              else Io.done (err (s, unexpected_route route_identity r)))
          else Io.done (err (s, unexpected_route route_identity r)))

  -- Server.serve behind exchange.Accept.
  unfoldable pub serve : Bool → Storage → ℕ → EndpointDraws → Served Established
  serve resume_enabled s now d = do
    st ← wrap (λ m. (s, message m)) (read_signed_transport x c)
    r ← lift (λ m. (s, message m)) (route_from_st x c st)
    dispatch_first resume_enabled s st r now d

  unfoldable pub attempt_resume : Storage → Bytes → ℕ → EndpointDraws → Served Established
  attempt_resume s session_id now d = do
    (s1, token) ← stored getting_token (pop_list e s session_id resumption_tokens_key d.removal)
    (s2, peer) ← stored getting_session (get_peer e ps s1 session_id now)
    wrap (λ m. (s2, message m)) (send_resume_request x c me.attest session_id token d.resumption)
    answer ← wrap (λ m. (s2, message m)) (receive_resume_accept x c peer.public_key)
    require answer.accepted (s2, resumption_rejected)
    t ←
        wrap (λ m. (s2, handshaking m))
          (request_handshake x hc p (serde_for peer) session_id d.handshake)
    finish s2 peer d.tokens t

  unfoldable pub introduce : Storage → EndpointDraws → Served Established
  introduce s d = do
    wrap (λ m. (s, message m))
        (send_introduction x c me.attest me.name me.app_version d.introduction)
    st ← wrap (λ m. (s, message m)) (read_signed_transport x c)
    r ← lift (λ m. (s, message m)) (route_from_st x c st)
    require (r == route_identity) (s, unexpected_route route_identity r)
    (s1, peer) ← admit s st
    t ← wrap (λ m. (s1, handshaking m)) (request_handshake x hc p (serde_for peer) [] d.handshake)
    finish s1 peer d.tokens t

  -- Dialer.handshake behind exchange.Initiate: a resumption if a session ID was given.
  unfoldable pub dial : Storage → Bytes → ℕ → EndpointDraws → Served Established
  dial s session_id now d =
      if is_empty session_id then introduce s d else attempt_resume s session_id now d
