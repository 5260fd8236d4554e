-- ===== src/Protocol/Handshake/Initiator.antt =====
-- What requestHandshake (handshake.go) has met when it returns a session, whatever the other end of the
-- connection sends.
use kamune.Prelude.{
  ◌≡◌, sym, subst, Bool, ==_iff, if◌then◌else◌, some, List, [], ◌∷◌, ◌++◌, Bytes, ok,
}
use kamune.Protocol.Route.{
  route_request_handshake, route_accept_handshake, route_send_challenge, route_verify_challenge,
}
use kamune.Protocol.Serde.{Externals, Codec, speak, Metadata, route, serialize, deserialize}
use kamune.Protocol.Transport.{ReadResult, read}
use kamune.Protocol.Network.{wrap, play}
use kamune.Protocol.Network.Play.{
  Ends, play-bind, play-wrap, play-or_fail, play-require, play-lift, play-pure, play-read_or,
  play-write_or,
}
use kamune.Protocol.Exchange.{Primitives, Mlkem, new_mlkem, decapsulate, derive}
use kamune.Protocol.Challenge.{Session, send_challenge, accept_challenge, handshake_challenge_size}
use kamune.Protocol.Challenge.Safety.{
  IsSame, IsSame-trans, IsSame-sym, IsAnswer, IsAnswer-IsSame, send_challenge-Ends,
  accept_challenge-Ends,
}
use kamune.Protocol.Handshake.{
  Handshake, SignedSerde, HandshakeDraws, HandshakeError, handshake_transcript_hash,
  derive_challenge_info, handshake_c2s_info, handshake_s2c_info, create_transport, confirm_request,
  await_response, request_handshake, request_for, is_empty,
}
use kamune.Protocol.Handshake.Safety.{
  IsFit, validate_handshake_fields_ok, IsKeyed, IsKeyed-IsSame, create_transport-Ends,
  set_resumption_root-IsSame,
}

module _ (x : Externals Bytes) (c : Codec Handshake) (p : Primitives) where
  -- Of the session that the initiator gets: the peer has echoed the challenge that is derived from the
  -- secret and the transcript, and then sent its own.
  pub record IsConfirmed (serde : SignedSerde) (session_id : Bytes) (req resp : Handshake)
      (secret : Bytes) (s : Session) (rs rs2 : List ReadResult) : Type 0 where
    pub keyed :
        IsKeyed x c p serde session_id secret req.salt handshake_c2s_info resp.salt
          handshake_s2c_info s
    pub challenge : Bytes
    pub derived :
        derive p secret []
          (derive_challenge_info session_id handshake_c2s_info
            (handshake_transcript_hash x c p req resp))
          handshake_challenge_size
        ≡ some challenge
    pub between : List ReadResult
    pub echoed : IsAnswer x p s challenge route_verify_challenge rs between
    pub theirs : Bytes
    pub challenged : IsAnswer x p s theirs route_send_challenge between rs2

  confirm_request-Ends :
      (serde : SignedSerde) (d : HandshakeDraws) (session_id : Bytes) (req resp : Handshake)
      (secret : Bytes) (rs : List ReadResult) (ws : List Bool) (s : Session) (rs2 : List ReadResult)
      (ws2 : List Bool)
      → Ends (confirm_request x c p serde d session_id req resp secret) rs ws s rs2 ws2
      → IsConfirmed serde session_id req resp secret s rs rs2
  unfolding confirm_request
  confirm_request-Ends serde d session_id req resp secret rs ws s rs2 ws2 h =
      let (s1, rs1, ws1, created, h1) =
        play-bind
          (create_transport x c p serde secret session_id req.salt handshake_c2s_info resp.salt
            handshake_s2c_info)
          _ rs ws s rs2 ws2 h in
      let (e1, keyed) =
        create_transport-Ends x c p serde secret session_id req.salt handshake_c2s_info resp.salt
          handshake_s2c_info rs ws s1 rs1 ws1 created in
      let info =
        derive_challenge_info session_id handshake_c2s_info
          (handshake_transcript_hash x c p req resp) in
      let (s3, rs3, ws3, sent, h3) =
        play-bind
          (wrap HandshakeError.sending_challenge (send_challenge x p s1 secret info d.challenge)) _
          rs1 ws1 s rs2 ws2 h1 in
      let (challenge, derived, echoed, same3) =
        send_challenge-Ends x p s1 secret info d.challenge rs1 ws1 s3 rs3 ws3
          (play-wrap _ _ rs1 ws1 s3 rs3 ws3 sent) in
      let (s4, rs4, ws4, took, h4) =
        play-bind
          (wrap HandshakeError.accepting_challenge
            (accept_challenge x p s3 route_send_challenge d.verify))
          _ rs3 ws3 s rs2 ws2 h3 in
      let (theirs, challenged, same4) =
        accept_challenge-Ends x p s3 route_send_challenge d.verify rs3 ws3 s4 rs4 ws4
          (play-wrap _ _ rs3 ws3 s4 rs4 ws4 took) in
      let (last, e5) = play-pure rs4 ws4 s rs2 ws2 _ h4 in
      let root : IsSame s4 s =
        subst (IsSame s4) last (set_resumption_root-IsSame x c p s4 secret) in
      let same3s : IsSame s3 s = IsSame-trans x p s3 s4 s same4 root in
      let same1s : IsSame s1 s = IsSame-trans x p s1 s3 s same3 same3s in
      record {
        keyed =
            IsKeyed-IsSame x c p serde session_id secret req.salt handshake_c2s_info resp.salt
              handshake_s2c_info s1 s same1s keyed;
        challenge = challenge;
        derived = derived;
        between = rs3;
        echoed =
            subst (λ l. IsAnswer x p s challenge route_verify_challenge l rs3) e1
              (IsAnswer-IsSame x p s s1 challenge route_verify_challenge rs1 rs3
                (IsSame-sym x p s1 s same1s) echoed);
        theirs = theirs;
        challenged =
            subst (λ l. IsAnswer x p s theirs route_send_challenge rs3 l) (sym e5)
              (IsAnswer-IsSame x p s s3 theirs route_send_challenge rs3 rs4
                (IsSame-sym x p s3 s same3s) challenged);
      }

  -- The response that the initiator has taken.
  pub record IsAnswered (serde : SignedSerde) (opts : Bytes) (ml : Mlkem) (req : Handshake)
      (s : Session) (rs rs2 : List ReadResult) : Type 0 where
    pub bytes : Bytes
    pub rest : List ReadResult
    pub came : rs ≡ read bytes ∷ rest
    pub resp : Handshake
    pub md : Metadata
    pub signed : deserialize (speak c x) serde.remote bytes ≡ ok (resp, md)
    pub on_route : route md ≡ route_accept_handshake
    pub fit : IsFit resp
    pub secret : Bytes
    pub agreed : decapsulate p ml resp.key ≡ some secret
    pub confirmed :
        IsConfirmed serde
          (if is_empty opts then req.session_key ++ resp.session_key else opts)
          req
          resp
          secret
          s
          rest
          rs2

  await_response-Ends :
      (serde : SignedSerde) (opts : Bytes) (d : HandshakeDraws) (ml : Mlkem) (req : Handshake)
      (rs : List ReadResult) (ws : List Bool) (s : Session) (rs2 : List ReadResult)
      (ws2 : List Bool)
      → Ends (await_response x c p serde opts d ml req) rs ws s rs2 ws2
      → IsAnswered serde opts ml req s rs rs2
  unfolding await_response
  await_response-Ends serde opts d ml req rs ws s rs2 ws2 h =
      let (bytes, rest, came, h1) = play-read_or _ _ rs ws s rs2 ws2 h in
      let ((resp, md), signed, h2) = play-lift rest ws s rs2 ws2 _ _ _ h1 in
      let (on_route, h3) = play-require rest ws s rs2 ws2 _ _ _ h2 in
      let (u, valid, h4) = play-lift rest ws s rs2 ws2 _ _ _ h3 in
      let (secret, agreed, h5) = play-or_fail rest ws s rs2 ws2 _ _ _ h4 in
      record {
        bytes = bytes;
        rest = rest;
        came = came;
        resp = resp;
        md = md;
        signed = signed;
        on_route = (==_iff (route md) route_accept_handshake).0 on_route;
        fit = validate_handshake_fields_ok resp.salt resp.session_key u valid;
        secret = secret;
        agreed = agreed;
        confirmed = confirm_request-Ends serde d _ req resp secret rest ws s rs2 ws2 h5;
      }

  -- A session from requestHandshake: the own key pair was generated, the first message of the peer was a
  -- response with fields of the allowed sizes, signed by the peer and on the route of responses, its
  -- ciphertext was decapsulated to the secret, and the two messages behind it were the echo of the
  -- challenge that is bound to the secret, the session and the transcript, and the peer's challenge,
  -- both signed by the peer and encrypted with the key of its direction.
  pub request_handshake-Ends :
      (serde : SignedSerde) (opts : Bytes) (d : HandshakeDraws) (rs : List ReadResult)
      (ws : List Bool) (s : Session) (rs2 : List ReadResult) (ws2 : List Bool)
      → play (request_handshake x c p serde opts d) rs ws ≡ some (ok s, rs2, ws2)
      → (ml : Mlkem) × (new_mlkem p d.seed ≡ some ml)
        × IsAnswered serde opts ml (request_for opts d ml) s rs rs2
  unfolding request_handshake
  request_handshake-Ends serde opts d rs ws s rs2 ws2 h =
      let (ml, generated, h1) = play-or_fail rs ws s rs2 ws2 _ _ _ h in
      let ((bytes, md), _, h2) =
        play-lift rs ws s rs2 ws2 HandshakeError.serializing
          (serialize (speak c x) serde.private_key (request_for opts d ml) route_request_handshake 0
            d.envelope)
          _ h1 in
      let (ws1, _, h3) = play-write_or bytes HandshakeError.writing _ rs ws s rs2 ws2 h2 in
      (
        ml,
        generated,
        await_response-Ends serde opts d ml (request_for opts d ml) rs ws1 s rs2 ws2 h3,
      )
