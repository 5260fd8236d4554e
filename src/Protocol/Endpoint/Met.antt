-- ===== src/Protocol/Endpoint/Met.antt =====
-- A dialer without an old session (Dialer.handshake, dial.go) against a server (handleNewConnection,
-- server.go).
use kamune.Prelude.{inl, ◌==◌, ℕ, ◌+◌, ◌≡◌, refl, Bool, true, some, [], ◌∷◌, Bytes, ok}
use kamune.Protocol.Route.{to_proto, route_from_proto, route_identity}
use kamune.Protocol.Serde.{Externals, IsLawful, Codec}
use kamune.Protocol.Version.{check_version}
use kamune.Protocol.Network.{
  Network, network, ◌>>=◌, ◌>>◌, wrap, lift, require, Side, advance, advance_left, Steps, go,
}
use kamune.Protocol.Network.Interleaving.{done-IsOver, Steps-any_order}
use kamune.Protocol.Network.Within.{Steps-within}
use kamune.Protocol.Exchange.{Primitives, Mlkem, IsDocumented, new_mlkem}
use kamune.Protocol.Challenge.{Session}
use kamune.Protocol.Handshake.{Handshake, request_handshake, accept_handshake}
use kamune.Protocol.Handshake.Agreement.{IsCarried, IsDrawn, IsAgreed}
use kamune.Protocol.Handshake.Steps.{agreed_id}
use kamune.Protocol.Handshake.Outcome.{handshake-Steps}
use kamune.Protocol.Introduction.{
  Codecs, Introduce, signed_payload, plain_metadata, read_signed_transport, route_from_st,
  send_introduction, receive_introduction,
}
use kamune.Storage.Engine.{Engine}
use kamune.Storage.Session.{Storage}
use kamune.Storage.Peers.{Peer, PeerStore}
use kamune.Protocol.Endpoint.{
  Endpoint, EndpointDraws, EndpointError, Established, Served, message, handshaking,
  unexpected_route, serde_for, finish, admit, handle_new_connection, serve, introduce, dial,
}
use kamune.Protocol.Endpoint.Messages.{
  IsReadBack, signed_payload_back, route_from_st-sent, is_signed_by-sent,
}

-- What an end says of itself, and the peer that the other end makes of it.
abbrev pub introduction_of : Endpoint → Introduce
introduction_of me = record {
  name = me.name;
  public_key = me.attest.public_key;
  app_version = me.app_version;
}

abbrev pub introduced : Endpoint → Peer
introduced me = record {
  first_seen = 0;
  last_seen = 0;
  name = me.name;
  app_version = me.app_version;
  public_key = me.attest.public_key;
}

-- One end lets the other in: the version passes, and the verifier agrees.
pub record IsWelcome (me other : Endpoint) (s : Storage) : Type 0 where
  pub warned : Bool
  pub version : check_version me.version other.app_version ≡ ok warned
  pub verified : (me.verifier s (introduced other)).1 ≡ true

module _ (x : Externals Bytes) (c : Codecs) (hc : Codec Handshake) (p : Primitives) (e : Engine)
    (ps : PeerStore) (IsKeyPair : Bytes → Bytes → Type 0) (law : IsLawful x IsKeyPair) where
  abbrev introduction : Endpoint → Bytes → EndpointDraws → Bytes
  introduction me bytes d =
      signed_payload x c me.attest (plain_metadata x c d.introduction.timestamp route_identity)
        bytes d.introduction

  module _ (me : Endpoint) where
    -- Dialer.handshake behind its introduction.
    abbrev introduction_awaited : Storage → EndpointDraws → Served Established
    introduction_awaited s d = do
      st ← wrap (λ m. (s, message m)) (read_signed_transport x c)
      r ← lift (λ m. (s, message m)) (route_from_st x c st)
      require (r == route_identity) (s, unexpected_route route_identity r)
      (s1, peer) ← admit x c hc p e ps me s st
      t ←
          wrap (λ m. (s1, handshaking m))
            (request_handshake x hc p (serde_for x c hc p e ps me peer) [] d.handshake)
      finish x c hc p e ps me s1 peer d.tokens t

    abbrev handshake_requested : Storage → Peer → EndpointDraws → Served Established
    handshake_requested s peer d =
        wrap (λ m. (s, handshaking m))
          (request_handshake x hc p (serde_for x c hc p e ps me peer) [] d.handshake)
        >>= λ t. finish x c hc p e ps me s peer d.tokens t

    abbrev handshake_accepted : Storage → Peer → EndpointDraws → Served Established
    handshake_accepted s peer d =
        wrap (λ m. (s, handshaking m))
          (accept_handshake x hc p (serde_for x c hc p e ps me peer) [] d.handshake)
        >>= λ t. finish x c hc p e ps me s peer d.tokens t

    -- handleNewConnection behind its checks.
    abbrev welcomed : Storage → Peer → EndpointDraws → Served Established
    welcomed s peer d =
        wrap (λ m. (s, message m))
          (send_introduction x c me.attest me.name me.app_version d.introduction)
        >> handshake_accepted s peer d

    introduce_step :
        (s : Storage) (now : ℕ) (d : EndpointDraws) (R : Served Established)
        → (m : IsReadBack c.introduce (introduction_of me))
        → advance Side.left_side (network (dial x c hc p e ps me s [] now d) R [] [])
          ≡ some (network (introduction_awaited s d) R [] (introduction me m.bytes d ∷ []))
    unfolding advance advance_left dial introduce send_introduction
    introduce_step s now d R m = rw m.marshals refl

    serve_step :
        (s : Storage) (now : ℕ) (resume_enabled : Bool) (d : EndpointDraws) (dialer : Endpoint)
        (dd : EndpointDraws) (L : Served Established)
        → IsKeyPair dialer.attest.private_key dialer.attest.public_key
        → IsWelcome me dialer s
        → (m : IsReadBack c.introduce (introduction_of dialer))
        → advance Side.right_side (
            network L
              (serve x c hc p e ps me resume_enabled s now d)
              []
              (introduction dialer m.bytes dd ∷ []))
          ≡ some (
              network L
                (welcomed (me.verifier s (introduced dialer)).0 (introduced dialer) d)
                []
                [])
    unfolding advance advance_left serve read_signed_transport to_proto route_from_proto
        handle_new_connection admit receive_introduction
    serve_step s now resume_enabled d dialer dd L k w m =
        rw
          (signed_payload_back x c IsKeyPair law dialer.attest dd.introduction.timestamp
            route_identity m.bytes dd.introduction)
          (rw
            (route_from_st-sent x c IsKeyPair law dialer.attest dd.introduction.timestamp
              route_identity m.bytes dd.introduction)
            (rw m.unmarshals (
              rw
                (is_signed_by-sent x c IsKeyPair law dialer.attest dialer.attest.public_key
                  dd.introduction.timestamp route_identity m.bytes dd.introduction k)
                (rw w.version (rw w.verified refl)))))

    welcome_step :
        (s : Storage) (peer : Peer) (d : EndpointDraws) (L : Served Established)
        → (m : IsReadBack c.introduce (introduction_of me))
        → advance Side.right_side (network L (welcomed s peer d) [] [])
          ≡ some (network L (handshake_accepted s peer d) (introduction me m.bytes d ∷ []) [])
    unfolding advance advance_left send_introduction
    welcome_step s peer d L m = rw m.marshals refl

    introduced_step :
        (s : Storage) (d : EndpointDraws) (server : Endpoint) (sd : EndpointDraws)
        (R : Served Established)
        → IsKeyPair server.attest.private_key server.attest.public_key
        → IsWelcome me server s
        → (m : IsReadBack c.introduce (introduction_of server))
        → advance Side.left_side
            (network (introduction_awaited s d) R (introduction server m.bytes sd ∷ []) [])
          ≡ some (
              network
                (handshake_requested (me.verifier s (introduced server)).0 (introduced server) d)
                R
                []
                [])
    unfolding advance advance_left read_signed_transport to_proto route_from_proto admit
        receive_introduction
    introduced_step s d server sd R k w m =
        rw
          (signed_payload_back x c IsKeyPair law server.attest sd.introduction.timestamp
            route_identity m.bytes sd.introduction)
          (rw
            (route_from_st-sent x c IsKeyPair law server.attest sd.introduction.timestamp
              route_identity m.bytes sd.introduction)
            (rw m.unmarshals (
              rw
                (is_signed_by-sent x c IsKeyPair law server.attest server.attest.public_key
                  sd.introduction.timestamp route_identity m.bytes sd.introduction k)
                (rw w.version (rw w.verified refl)))))

  module _ (documented : IsDocumented p) (carried : IsCarried x hc) (dialer server : Endpoint)
      (signs : IsKeyPair dialer.attest.private_key dialer.attest.public_key)
      (signs_back : IsKeyPair server.attest.private_key server.attest.public_key)
      (dd ds : EndpointDraws) (drawn_d : IsDrawn dd.handshake)
      (drawn_s : IsDrawn ds.handshake) where
    connection-Steps :
        (s t : Storage) (now now' : ℕ) (resume_enabled : Bool) (ml : Mlkem)
        → IsWelcome dialer server s
        → IsWelcome server dialer t
        → IsReadBack c.introduce (introduction_of dialer)
        → IsReadBack c.introduce (introduction_of server)
        → new_mlkem p dd.handshake.seed ≡ some ml
        → (f g : Session) × IsAgreed IsKeyPair (agreed_id [] dd.handshake ds.handshake) f g
          × Steps 16
              (network
                (dial x c hc p e ps dialer s [] now dd)
                (serve x c hc p e ps server resume_enabled t now' ds)
                []
                [])
              (network
                (finish x c hc p e ps dialer
                  (dialer.verifier s (introduced server)).0
                  (introduced server)
                  dd.tokens
                  f)
                (finish x c hc p e ps server
                  (server.verifier t (introduced dialer)).0
                  (introduced dialer)
                  ds.tokens
                  g)
                []
                [])
    connection-Steps s t now now' resume_enabled ml w w' m m' hk =
        let s2 = (dialer.verifier s (introduced server)).0 in
        let t2 = (server.verifier t (introduced dialer)).0 in
        let sp = introduced server in
        let dp = introduced dialer in
        let (f, g, steps, agreed) =
          handshake-Steps x hc p IsKeyPair law documented carried
            (serde_for x c hc p e ps dialer sp) (serde_for x c hc p e ps server dp) signs signs_back
            dd.handshake ds.handshake drawn_d drawn_s [] ml (inl refl) hk in
        (
          f,
          g,
          agreed,
          go Side.left_side
              (introduce_step dialer s now dd (serve x c hc p e ps server resume_enabled t now' ds)
                m)
              (go Side.right_side
                (serve_step server t now' resume_enabled ds dialer dd
                  (introduction_awaited dialer s dd) signs w' m)
                (go Side.right_side
                  (welcome_step server t2 dp ds (introduction_awaited dialer s dd) m')
                  (go Side.left_side
                    (introduced_step dialer s dd server ds (handshake_accepted server t2 dp ds)
                      signs_back w m')
                    (Steps-within (λ y. (s2, handshaking y)) (λ y. (t2, handshaking y))
                      (λ u. finish x c hc p e ps dialer s2 sp dd.tokens u)
                      (λ u. finish x c hc p e ps server t2 dp ds.tokens u) steps)))),
        )

    -- A dialer and a server that let each other in: over a reliable connection, and with random bytes of
    -- the sizes that are asked for, Dialer.handshake without an old session ID and Server.serve come to
    -- one outcome, in whichever order they take their steps, and it takes sixteen in all. Both have then a
    -- session without an error, and the other end as its peer, with the name, the version and the key that
    -- it gave: the sessions have the same ID and resumption root, the keys of the two directions crossed,
    -- and two messages sent and received by each.
    pub connection_any_order :
        (s t : Storage) (now now' : ℕ) (resume_enabled : Bool) (ml : Mlkem)
        → IsWelcome dialer server s
        → IsWelcome server dialer t
        → IsReadBack c.introduce (introduction_of dialer)
        → IsReadBack c.introduce (introduction_of server)
        → new_mlkem p dd.handshake.seed ≡ some ml
        → let start =
            network
              (dial x c hc p e ps dialer s [] now dd)
              (serve x c hc p e ps server resume_enabled t now' ds)
              []
              [] in
          (f g : Session) × IsAgreed IsKeyPair (agreed_id [] dd.handshake ds.handshake) f g
          × ((n : Network (Storage × EndpointError) Established) (m : ℕ)
              → Steps m start n
              → (k : ℕ) × (16 ≡ m + k)
                × Steps k n (
                    network
                      (finish x c hc p e ps dialer
                        (dialer.verifier s (introduced server)).0
                        (introduced server)
                        dd.tokens
                        f)
                      (finish x c hc p e ps server
                        (server.verifier t (introduced dialer)).0
                        (introduced dialer)
                        ds.tokens
                        g)
                      []
                      []))
    connection_any_order s t now now' resume_enabled ml w w' m m' hk =
        let (f, g, agreed, steps) = connection-Steps s t now now' resume_enabled ml w w' m m' hk in
        (f, g, agreed, λ n k r. Steps-any_order steps (done-IsOver _ _) r)
