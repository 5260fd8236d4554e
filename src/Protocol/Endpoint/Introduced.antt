-- ===== src/Protocol/Endpoint/Introduced.antt =====
-- What a server has checked when it takes a new connection (handleNewConnection, server.go).
use kamune.Prelude.{◌≡◌, sym, ap, subst, ◌∙◌, Bool, true, some, List, [], Bytes, ok}
use kamune.Protocol.Serde.{Externals, Codec, SignedTransport}
use kamune.Protocol.Transport.{ReadResult}
use kamune.Protocol.Version.{check_version}
use kamune.Protocol.Network.{wrap, play}
use kamune.Protocol.Network.Play.{Ends, play-bind, play-wrap, play-lift, play-require, play-pure}
use kamune.Protocol.Exchange.{Primitives}
use kamune.Protocol.Handshake.{Handshake, accept_handshake}
use kamune.Protocol.Handshake.Responder.{IsAsked, accept_handshake-Ends}
use kamune.Protocol.Introduction.{Codecs, receive_introduction, send_introduction}
use kamune.Protocol.Introduction.Checked.{
  IsIntroduced, receive_introduction-Ends, send_introduction-Ends,
}
use kamune.Storage.Engine.{Engine}
use kamune.Storage.Session.{Storage}
use kamune.Storage.Peers.{Peer, PeerStore}
use kamune.Protocol.Endpoint.{
  Endpoint, EndpointDraws, Established, store_tokens, serde_for, admit, handle_new_connection,
  message, version_check, handshaking,
}

module _ (x : Externals Bytes) (c : Codecs) (hc : Codec Handshake) (p : Primitives) (e : Engine)
    (ps : PeerStore) (me : Endpoint) where
  -- The introduction is signed by the peer that it names, its version passes the version check, and the
  -- remote verifier has let the peer in.
  pub record IsAdmitted (s : Storage) (st : SignedTransport) (s1 : Storage) (peer : Peer)
      : Type 0 where
    pub introduced : IsIntroduced x c st peer
    pub compatible : Bool
    pub version : check_version me.version peer.app_version ≡ ok compatible
    pub verified : (me.verifier s peer).1 ≡ true
    pub storage : s1 ≡ (me.verifier s peer).0

  pub admit-Ends :
      (s : Storage) (st : SignedTransport) (rs : List ReadResult) (ws : List Bool) (s1 : Storage)
      (peer : Peer) (rs2 : List ReadResult) (ws2 : List Bool)
      → Ends (admit x c hc p e ps me s st) rs ws (s1, peer) rs2 ws2
      → (rs2 ≡ rs) × IsAdmitted s st s1 peer
  unfolding admit
  admit-Ends s st rs ws s1 peer rs2 ws2 h =
      let (q, rs3, ws3, received, h1) =
        play-bind (wrap (λ m. (s, message m)) (receive_introduction x c st)) _ rs ws (s1, peer) rs2
          ws2 h in
      let (e3, introduced) =
        receive_introduction-Ends x c st rs ws q rs3 ws3 (play-wrap _ _ rs ws q rs3 ws3 received) in
      let (compatible, version, h2) =
        play-lift rs3 ws3 (s1, peer) rs2 ws2 (λ m. (s, version_check m))
          (check_version me.version q.app_version) _ h1 in
      let (verified, h3) = play-require rs3 ws3 (s1, peer) rs2 ws2 _ _ _ h2 in
      let (last, e4) = play-pure rs3 ws3 (s1, peer) rs2 ws2 ((me.verifier s q).0, q) h3 in
      let same : q ≡ peer = ap (λ f. f.1) last in
      (
        e4 ∙ e3,
        record {
          introduced = subst (IsIntroduced x c st) same introduced;
          compatible = compatible;
          version =
              subst (λ f. check_version me.version f.app_version ≡ ok compatible) same version;
          verified = subst (λ f. (me.verifier s f).1 ≡ true) same verified;
          storage = ap (λ f. f.0) (sym last) ∙ ap (λ f. (me.verifier s f).0) same;
        },
      )

  -- A session from handleNewConnection, whatever the other end sends: the first message was an
  -- introduction on its route, signed with the key that it names; the version that it names passed the
  -- check; the remote verifier let the peer in; and the handshake was accepted from that peer, without an
  -- old session ID.
  pub handle_new_connection-Ends :
      (s : Storage) (st : SignedTransport) (d : EndpointDraws) (rs : List ReadResult)
      (ws : List Bool) (est : Established) (rs2 : List ReadResult) (ws2 : List Bool)
      → play (handle_new_connection x c hc p e ps me s st d) rs ws ≡ some (ok est, rs2, ws2)
      → (s1 : Storage) × IsAdmitted s st s1 est.peer
        × IsAsked x hc p (serde_for x c hc p e ps me est.peer) [] d.handshake est.session rs rs2
        × (est.storage ≡ store_tokens x c hc p e ps me s1 est.session d.tokens)
  unfolding handle_new_connection
  handle_new_connection-Ends s st d rs ws est rs2 ws2 h =
      let ((s1, peer), rs1, ws1, admitted, h1) =
        play-bind (admit x c hc p e ps me s st) _ rs ws est rs2 ws2 h in
      let (e1, is_admitted) = admit-Ends s st rs ws s1 peer rs1 ws1 admitted in
      let (u, rs3, ws3, sent, h2) =
        play-bind
          (wrap (λ m. (s1, message m))
            (send_introduction x c me.attest me.name me.app_version d.introduction))
          _ rs1 ws1 est rs2 ws2 h1 in
      let e3 =
        send_introduction-Ends x c me.attest me.name me.app_version d.introduction rs1 ws1 u rs3 ws3
          (play-wrap _ _ rs1 ws1 u rs3 ws3 sent) in
      let serde = serde_for x c hc p e ps me peer in
      let (t, rs4, ws4, accepted, h3) =
        play-bind (wrap (λ m. (s1, handshaking m)) (accept_handshake x hc p serde [] d.handshake)) _
          rs3 ws3 est rs2 ws2 h2 in
      let asked =
        accept_handshake-Ends x hc p serde [] d.handshake rs3 ws3 t rs4 ws4
          (play-wrap _ _ rs3 ws3 t rs4 ws4 accepted) in
      let (last, e5) = play-pure rs4 ws4 est rs2 ws2 _ h3 in
      let session : t ≡ est.session = ap (λ f. f.session) last in
      let same : peer ≡ est.peer = ap (λ f. f.peer) last in
      let here : IsAsked x hc p serde [] d.handshake est.session rs rs2 =
        subst (λ l. IsAsked x hc p serde [] d.handshake est.session l rs2) (e3 ∙ e1)
          (subst (λ l. IsAsked x hc p serde [] d.handshake est.session rs3 l) (sym e5)
            (subst (λ f. IsAsked x hc p serde [] d.handshake f rs3 rs4) session asked)) in
      (
        s1,
        subst (IsAdmitted s st s1) same is_admitted,
        subst (λ q. IsAsked x hc p (serde_for x c hc p e ps me q) [] d.handshake est.session rs rs2)
            same here,
        ap (λ f. f.storage) (sym last)
            ∙ ap (λ f. store_tokens x c hc p e ps me s1 f d.tokens) session,
      )
