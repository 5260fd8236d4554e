-- ===== src/Protocol/Handshake/Responder.antt =====
-- What acceptHandshake (handshake.go) has met when it returns a session, whatever the other end of the
-- connection sends.
use kamune.Prelude.{
  ◌≡◌, sym, subst, Bool, ==_iff, if◌then◌else◌, some, List, [], ◌∷◌, ◌++◌, Bytes, ok,
}
use kamune.Protocol.Route.{
  route_request_handshake, route_accept_handshake, route_send_challenge, route_verify_challenge,
}
use kamune.Protocol.Serde.{Externals, Codec, speak, Metadata, route, serialize, deserialize}
use kamune.Protocol.Transport.{ReadResult, read}
use kamune.Protocol.Network.{wrap, play}
use kamune.Protocol.Network.Play.{
  Ends, play-bind, play-wrap, play-or_fail, play-require, play-lift, play-pure, play-read_or,
  play-write_or,
}
use kamune.Protocol.Exchange.{Primitives, encapsulate_mlkem, derive}
use kamune.Protocol.Challenge.{Session, send_challenge, accept_challenge, handshake_challenge_size}
use kamune.Protocol.Challenge.Safety.{
  IsSame, IsSame-trans, IsSame-sym, IsAnswer, IsAnswer-IsSame, send_challenge-Ends,
  accept_challenge-Ends,
}
use kamune.Protocol.Handshake.{
  Handshake, SignedSerde, HandshakeDraws, HandshakeError, handshake_transcript_hash,
  derive_challenge_info, handshake_c2s_info, handshake_s2c_info, create_transport, confirm_accept,
  answer_request, accept_handshake, response_for, session_key_for, is_empty,
}
use kamune.Protocol.Handshake.Safety.{
  IsFit, validate_handshake_fields_ok, IsKeyed, IsKeyed-IsSame, create_transport-Ends,
  set_resumption_root-IsSame,
}

module _ (x : Externals Bytes) (c : Codec Handshake) (p : Primitives) where
  -- Of the session that the responder gets: the peer has sent a challenge, and then echoed the one that
  -- is derived from the secret and the transcript.
  pub record IsEchoed (serde : SignedSerde) (session_id : Bytes) (req resp : Handshake)
      (secret : Bytes) (s : Session) (rs rs2 : List ReadResult) : Type 0 where
    pub keyed :
        IsKeyed x c p serde session_id secret resp.salt handshake_s2c_info req.salt
          handshake_c2s_info s
    pub challenge : Bytes
    pub derived :
        derive p secret []
          (derive_challenge_info session_id handshake_s2c_info
            (handshake_transcript_hash x c p req resp))
          handshake_challenge_size
        ≡ some challenge
    pub between : List ReadResult
    pub theirs : Bytes
    pub challenged : IsAnswer x p s theirs route_send_challenge rs between
    pub echoed : IsAnswer x p s challenge route_verify_challenge between rs2

  confirm_accept-Ends :
      (serde : SignedSerde) (d : HandshakeDraws) (session_id : Bytes) (req resp : Handshake)
      (secret : Bytes) (rs : List ReadResult) (ws : List Bool) (s : Session) (rs2 : List ReadResult)
      (ws2 : List Bool)
      → Ends (confirm_accept x c p serde d session_id req resp secret) rs ws s rs2 ws2
      → IsEchoed serde session_id req resp secret s rs rs2
  unfolding confirm_accept
  confirm_accept-Ends serde d session_id req resp secret rs ws s rs2 ws2 h =
      let (s1, rs1, ws1, created, h1) =
        play-bind
          (create_transport x c p serde secret session_id resp.salt handshake_s2c_info req.salt
            handshake_c2s_info)
          _ rs ws s rs2 ws2 h in
      let (e1, keyed) =
        create_transport-Ends x c p serde secret session_id resp.salt handshake_s2c_info req.salt
          handshake_c2s_info rs ws s1 rs1 ws1 created in
      let info =
        derive_challenge_info session_id handshake_s2c_info
          (handshake_transcript_hash x c p req resp) in
      let (s3, rs3, ws3, took, h3) =
        play-bind
          (wrap HandshakeError.accepting_challenge
            (accept_challenge x p s1 route_send_challenge d.verify))
          _ rs1 ws1 s rs2 ws2 h1 in
      let (theirs, challenged, same3) =
        accept_challenge-Ends x p s1 route_send_challenge d.verify rs1 ws1 s3 rs3 ws3
          (play-wrap _ _ rs1 ws1 s3 rs3 ws3 took) in
      let (s4, rs4, ws4, sent, h4) =
        play-bind
          (wrap HandshakeError.sending_challenge (send_challenge x p s3 secret info d.challenge)) _
          rs3 ws3 s rs2 ws2 h3 in
      let (challenge, derived, echoed, same4) =
        send_challenge-Ends x p s3 secret info d.challenge rs3 ws3 s4 rs4 ws4
          (play-wrap _ _ rs3 ws3 s4 rs4 ws4 sent) in
      let (last, e5) = play-pure rs4 ws4 s rs2 ws2 _ h4 in
      let root : IsSame s4 s =
        subst (IsSame s4) last (set_resumption_root-IsSame x c p s4 secret) in
      let same3s : IsSame s3 s = IsSame-trans x p s3 s4 s same4 root in
      let same1s : IsSame s1 s = IsSame-trans x p s1 s3 s same3 same3s in
      record {
        keyed =
            IsKeyed-IsSame x c p serde session_id secret resp.salt handshake_s2c_info req.salt
              handshake_c2s_info s1 s same1s keyed;
        challenge = challenge;
        derived = derived;
        between = rs3;
        theirs = theirs;
        challenged =
            subst (λ l. IsAnswer x p s theirs route_send_challenge l rs3) e1
              (IsAnswer-IsSame x p s s1 theirs route_send_challenge rs1 rs3
                (IsSame-sym x p s1 s same1s) challenged);
        echoed =
            subst (λ l. IsAnswer x p s challenge route_verify_challenge rs3 l) (sym e5)
              (IsAnswer-IsSame x p s s3 challenge route_verify_challenge rs3 rs4
                (IsSame-sym x p s3 s same3s) echoed);
      }

  -- The request that the responder has taken.
  pub record IsAsked (serde : SignedSerde) (opts : Bytes) (d : HandshakeDraws) (s : Session)
      (rs rs2 : List ReadResult) : Type 0 where
    pub bytes : Bytes
    pub rest : List ReadResult
    pub came : rs ≡ read bytes ∷ rest
    pub req : Handshake
    pub md : Metadata
    pub signed : deserialize (speak c x) serde.remote bytes ≡ ok (req, md)
    pub on_route : route md ≡ route_request_handshake
    pub fit : IsFit req
    pub secret : Bytes
    pub ct : Bytes
    pub encapsulated : encapsulate_mlkem p req.key d.seed ≡ some (secret, ct)
    pub confirmed :
        IsEchoed serde
          (if is_empty opts then req.session_key ++ session_key_for opts d else opts)
          req
          (response_for opts d ct)
          secret
          s
          rest
          rs2

  -- A session from acceptHandshake: the first message of the peer was a request with fields of the
  -- allowed sizes, signed by the peer and on the route of requests, the secret was encapsulated for the
  -- request's key, and the two messages behind it were the peer's challenge, and the echo of the
  -- challenge that is bound to the secret, the session and the transcript, both signed by the peer and
  -- encrypted with the key of its direction.
  pub accept_handshake-Ends :
      (serde : SignedSerde) (opts : Bytes) (d : HandshakeDraws) (rs : List ReadResult)
      (ws : List Bool) (s : Session) (rs2 : List ReadResult) (ws2 : List Bool)
      → play (accept_handshake x c p serde opts d) rs ws ≡ some (ok s, rs2, ws2)
      → IsAsked serde opts d s rs rs2
  unfolding accept_handshake answer_request
  accept_handshake-Ends serde opts d rs ws s rs2 ws2 h =
      let (bytes, rest, came, h1) = play-read_or _ _ rs ws s rs2 ws2 h in
      let ((req, md), signed, h2) = play-lift rest ws s rs2 ws2 _ _ _ h1 in
      let (on_route, h3) = play-require rest ws s rs2 ws2 _ _ _ h2 in
      let (u, valid, h4) = play-lift rest ws s rs2 ws2 _ _ _ h3 in
      let ((secret, ct), encapsulated, h5) = play-or_fail rest ws s rs2 ws2 _ _ _ h4 in
      let ((out, _), _, h6) =
        play-lift rest ws s rs2 ws2 HandshakeError.serializing
          (serialize (speak c x) serde.private_key (response_for opts d ct) route_accept_handshake 0
            d.envelope)
          _ h5 in
      let (ws1, _, h7) = play-write_or out HandshakeError.writing _ rest ws s rs2 ws2 h6 in
      record {
        bytes = bytes;
        rest = rest;
        came = came;
        req = req;
        md = md;
        signed = signed;
        on_route = (==_iff (route md) route_request_handshake).0 on_route;
        fit = validate_handshake_fields_ok req.salt req.session_key u valid;
        secret = secret;
        ct = ct;
        encapsulated = encapsulated;
        confirmed =
            confirm_accept-Ends serde d _ req (response_for opts d ct) secret rest ws1 s rs2 ws2 h7;
      }
