-- ===== src/Protocol/Endpoint/Resumed.antt =====
-- A dialer that resumes a session (attemptResume, dial.go) against a server that lets it (handleResume,
-- server.go).
use kamune.Prelude.{ℕ, ◌+◌, ◌≤◌, ◌≡◌, refl, sym, subst, true, le→ltb, some, [], ◌∷◌, Bytes, ok}
use kamune.Protocol.Route.{to_proto, route_from_proto, route_resume_request, route_resume_accept}
use kamune.Protocol.Serde.{Externals, IsLawful, Codec}
use kamune.Protocol.Network.{
  Network, network, ◌>>=◌, ◌>>◌, wrap, require, Side, advance, advance_left, Steps, go,
}
use kamune.Protocol.Network.Interleaving.{done-IsOver, Steps-any_order}
use kamune.Protocol.Network.Within.{Steps-within}
use kamune.Protocol.Exchange.{Primitives, Mlkem, IsDocumented, new_mlkem}
use kamune.Protocol.Challenge.{Session}
use kamune.Protocol.Handshake.{Handshake, request_handshake, accept_handshake}
use kamune.Protocol.Handshake.Agreement.{IsCarried, IsDrawn, IsAgreed}
use kamune.Protocol.Handshake.Steps.{IsSessionId}
use kamune.Protocol.Handshake.Outcome.{handshake-Steps}
use kamune.Protocol.Introduction.{
  Codecs, signed_payload, plain_metadata, read_signed_transport, send_resume_request,
  receive_resume_accept, send_resume_accept,
}
use kamune.Storage.Engine.{Engine}
use kamune.Storage.Session.{Storage, pop_list, remove_list_item}
use kamune.Storage.Peers.{Peer, PeerStore}
use kamune.Storage.Records.{resumption_tokens_key, get_peer, get_established_at}
use kamune.Protocol.Endpoint.{
  Endpoint, EndpointDraws, EndpointError, Established, Served, message, handshaking,
  resumption_rejected, resumption_grace_period, serde_for, finish, resume_accepted, resume_checked,
  resume_timed, resume_taken, resume_asked, handle_resume, serve, attempt_resume, dial,
}
use kamune.Protocol.Endpoint.Messages.{
  IsReadBack, signed_payload_back, route_from_st-sent, is_signed_by-sent,
}

module _ (x : Externals Bytes) (c : Codecs) (hc : Codec Handshake) (p : Primitives) (e : Engine)
    (ps : PeerStore) (IsKeyPair : Bytes → Bytes → Type 0) (law : IsLawful x IsKeyPair) where
  -- What a dialer has when it can ask: a token on its list, and the server as the peer of the session.
  pub record CanAsk (s : Storage) (id : Bytes) (now draw : ℕ) (server : Bytes) (token : Bytes)
      (s2 : Storage) (peer : Peer) : Type 0 where
    pub s1 : Storage
    pub popped : pop_list e s id resumption_tokens_key draw ≡ (s1, ok token)
    pub peer_found : get_peer e ps s1 id now ≡ (s2, ok peer)
    pub peer_key : peer.public_key ≡ server

  -- What a server has when it lets a dialer resume: the token on its list, the dialer as the peer of the
  -- session, and a session that is not too old.
  pub record CanAccept (s : Storage) (id : Bytes) (now draw : ℕ) (dialer : Bytes) (token : Bytes)
      (s2 : Storage) (peer : Peer) : Type 0 where
    pub s1 : Storage
    pub removed : remove_list_item e s id resumption_tokens_key token draw ≡ (s1, ok tt)
    pub peer_found : get_peer e ps s1 id now ≡ (s2, ok peer)
    pub peer_key : peer.public_key ≡ dialer
    pub established_at : ℕ
    pub established : get_established_at e ps s2 id ≡ ok established_at
    pub in_time : now ≤ established_at + resumption_grace_period

  module _ (me : Endpoint) where
    -- attemptResume behind its request.
    abbrev answer_awaited : Storage → Peer → Bytes → EndpointDraws → Served Established
    answer_awaited s peer id d = do
      answer ← wrap (λ m. (s, message m)) (receive_resume_accept x c peer.public_key)
      require answer.accepted (s, resumption_rejected)
      t ←
          wrap (λ m. (s, handshaking m))
            (request_handshake x hc p (serde_for x c hc p e ps me peer) id d.handshake)
      finish x c hc p e ps me s peer d.tokens t

    abbrev handshake_requested : Storage → Peer → Bytes → EndpointDraws → Served Established
    handshake_requested s peer id d =
        wrap (λ m. (s, handshaking m))
          (request_handshake x hc p (serde_for x c hc p e ps me peer) id d.handshake)
        >>= λ t. finish x c hc p e ps me s peer d.tokens t

    abbrev handshake_accepted : Storage → Peer → Bytes → EndpointDraws → Served Established
    handshake_accepted s peer id d =
        wrap (λ m. (s, handshaking m))
          (accept_handshake x hc p (serde_for x c hc p e ps me peer) id d.handshake)
        >>= λ t. finish x c hc p e ps me s peer d.tokens t

    request_step :
        (s : Storage) (b : ℕ) (bs : Bytes) (now : ℕ) (d : EndpointDraws) (server token : Bytes)
        (s2 : Storage) (peer : Peer) (R : Served Established)
        → CanAsk s (b ∷ bs) now d.removal server token s2 peer
        → (m : IsReadBack c.resume_request (record { session_id = b ∷ bs; token = token }))
        → advance Side.left_side (network (dial x c hc p e ps me s (b ∷ bs) now d) R [] [])
          ≡ some (
              network (answer_awaited s2 peer (b ∷ bs) d) R [] (
                signed_payload x c me.attest
                  (plain_metadata x c 0 route_resume_request)
                  m.bytes
                  d.resumption
                ∷ []))
    unfolding advance advance_left dial attempt_resume send_resume_request
    request_step s b bs now d server token s2 peer R h m =
        rw h.popped (rw h.peer_found (rw m.marshals refl))

    answer_step :
        (s : Storage) (peer : Peer) (id : Bytes) (d : EndpointDraws) (R : Served Established)
        (server : Endpoint) (sd : EndpointDraws)
        → IsKeyPair server.attest.private_key peer.public_key
        → (m : IsReadBack c.resume_accept (record { accepted = true; reason = [] }))
        → advance Side.left_side (
            network
              (answer_awaited s peer id d)
              R
              (signed_payload x c server.attest
                  (plain_metadata x c 0 route_resume_accept)
                  m.bytes
                  sd.resumption
                ∷ [])
              [])
          ≡ some (network (handshake_requested s peer id d) R [] [])
    unfolding advance advance_left receive_resume_accept read_signed_transport to_proto
        route_from_proto
    answer_step s peer id d R server sd k m =
        rw
          (signed_payload_back x c IsKeyPair law server.attest 0 route_resume_accept m.bytes
            sd.resumption)
          (rw
            (route_from_st-sent x c IsKeyPair law server.attest 0 route_resume_accept m.bytes
              sd.resumption)
            (rw
              (is_signed_by-sent x c IsKeyPair law server.attest peer.public_key 0
                route_resume_accept m.bytes sd.resumption k)
              (rw m.unmarshals refl)))

    serve_step :
        (s : Storage) (id : Bytes) (now : ℕ) (d : EndpointDraws) (dialer : Endpoint) (token : Bytes)
        (s2 : Storage) (peer : Peer) (L : Served Established) (dd : EndpointDraws)
        → IsKeyPair dialer.attest.private_key peer.public_key
        → CanAccept s id now d.removal dialer.attest.public_key token s2 peer
        → (m : IsReadBack c.resume_request (record { session_id = id; token = token }))
        → advance Side.right_side (
            network L (serve x c hc p e ps me true s now d) [] (
              signed_payload x c dialer.attest
                (plain_metadata x c 0 route_resume_request)
                m.bytes
                dd.resumption
              ∷ []))
          ≡ some (network L (resume_accepted x c hc p e ps me s2 peer id d) [] [])
    unfolding advance advance_left serve read_signed_transport to_proto route_from_proto
        handle_resume resume_asked resume_taken resume_timed resume_checked
    serve_step s id now d dialer token s2 peer L dd k h m =
        rw
          (signed_payload_back x c IsKeyPair law dialer.attest 0 route_resume_request m.bytes
            dd.resumption)
          (rw
            (route_from_st-sent x c IsKeyPair law dialer.attest 0 route_resume_request m.bytes
              dd.resumption)
            (rw m.unmarshals (
              rw h.removed (
                rw h.peer_found (
                  rw h.established (
                    rw
                      (is_signed_by-sent x c IsKeyPair law dialer.attest peer.public_key 0
                        route_resume_request m.bytes dd.resumption k)
                      (rw (le→ltb _ _ h.in_time) refl)))))))

    accept_step :
        (s : Storage) (id : Bytes) (d : EndpointDraws) (peer : Peer) (L : Served Established)
        → (m : IsReadBack c.resume_accept (record { accepted = true; reason = [] }))
        → advance Side.right_side (network L (resume_accepted x c hc p e ps me s peer id d) [] [])
          ≡ some (
              network L
                (handshake_accepted s peer id d)
                (signed_payload x c me.attest
                    (plain_metadata x c 0 route_resume_accept)
                    m.bytes
                    d.resumption
                  ∷ [])
                [])
    unfolding advance advance_left resume_accepted send_resume_accept
    accept_step s id d peer L m = rw m.marshals refl

  module _ (documented : IsDocumented p) (carried : IsCarried x hc) (dialer server : Endpoint)
      (signs : IsKeyPair dialer.attest.private_key dialer.attest.public_key)
      (signs_back : IsKeyPair server.attest.private_key server.attest.public_key)
      (dd ds : EndpointDraws) (drawn_d : IsDrawn dd.handshake)
      (drawn_s : IsDrawn ds.handshake) where
    resumption-Steps :
        (s t s2 t2 : Storage) (b : ℕ) (bs : Bytes) (now now' : ℕ) (token : Bytes) (sp dp : Peer)
        (ml : Mlkem)
        → CanAsk s (b ∷ bs) now dd.removal server.attest.public_key token s2 sp
        → CanAccept t (b ∷ bs) now' ds.removal dialer.attest.public_key token t2 dp
        → IsReadBack c.resume_request (record { session_id = b ∷ bs; token = token })
        → IsReadBack c.resume_accept (record { accepted = true; reason = [] })
        → IsSessionId (b ∷ bs)
        → new_mlkem p dd.handshake.seed ≡ some ml
        → (f g : Session) × IsAgreed IsKeyPair (b ∷ bs) f g
          × Steps 16
              (network
                (dial x c hc p e ps dialer s (b ∷ bs) now dd)
                (serve x c hc p e ps server true t now' ds)
                []
                [])
              (network
                (finish x c hc p e ps dialer s2 sp dd.tokens f)
                (finish x c hc p e ps server t2 dp ds.tokens g)
                []
                [])
    resumption-Steps s t s2 t2 b bs now now' token sp dp ml ask may req acc hid hk =
        let k : IsKeyPair dialer.attest.private_key dp.public_key =
          subst (IsKeyPair dialer.attest.private_key) (sym may.peer_key) signs in
        let k' : IsKeyPair server.attest.private_key sp.public_key =
          subst (IsKeyPair server.attest.private_key) (sym ask.peer_key) signs_back in
        let (f, g, steps, agreed) =
          handshake-Steps x hc p IsKeyPair law documented carried
            (serde_for x c hc p e ps dialer sp) (serde_for x c hc p e ps server dp) k k'
            dd.handshake ds.handshake drawn_d drawn_s (b ∷ bs) ml hid hk in
        (
          f,
          g,
          agreed,
          go Side.left_side
              (request_step dialer s b bs now dd server.attest.public_key token s2 sp
                (serve x c hc p e ps server true t now' ds) ask req)
              (go Side.right_side
                (serve_step server t (b ∷ bs) now' ds dialer token t2 dp
                  (answer_awaited dialer s2 sp (b ∷ bs) dd) dd k may req)
                (go Side.right_side
                  (accept_step server t2 (b ∷ bs) ds dp (answer_awaited dialer s2 sp (b ∷ bs) dd)
                    acc)
                  (go Side.left_side
                    (answer_step dialer s2 sp (b ∷ bs) dd
                      (handshake_accepted server t2 dp (b ∷ bs) ds) server ds k' acc)
                    (Steps-within (λ m. (s2, handshaking m)) (λ m. (t2, handshaking m))
                      (λ u. finish x c hc p e ps dialer s2 sp dd.tokens u)
                      (λ u. finish x c hc p e ps server t2 dp ds.tokens u) steps)))),
        )

    -- A dialer that has a token of the session, and a server that has the same token on its list, where
    -- each knows the other as the peer of the session and the grace period has not passed: over a reliable
    -- connection, and with random bytes of the sizes that are asked for, Dialer.handshake and Server.serve
    -- come to one outcome, in whichever order they take their steps, and it takes sixteen in all. Both
    -- have then a session without an error, with the ID of the old one, with one resumption root, with
    -- the keys of the two directions crossed and two messages sent and received by each; the token is off
    -- both lists, and each `finish`es: the new tokens went to the storage if it took them.
    pub resumption_any_order :
        (s t s2 t2 : Storage) (b : ℕ) (bs : Bytes) (now now' : ℕ) (token : Bytes) (sp dp : Peer)
        (ml : Mlkem)
        → CanAsk s (b ∷ bs) now dd.removal server.attest.public_key token s2 sp
        → CanAccept t (b ∷ bs) now' ds.removal dialer.attest.public_key token t2 dp
        → IsReadBack c.resume_request (record { session_id = b ∷ bs; token = token })
        → IsReadBack c.resume_accept (record { accepted = true; reason = [] })
        → IsSessionId (b ∷ bs)
        → new_mlkem p dd.handshake.seed ≡ some ml
        → let start =
            network
              (dial x c hc p e ps dialer s (b ∷ bs) now dd)
              (serve x c hc p e ps server true t now' ds)
              []
              [] in
          (f g : Session) × IsAgreed IsKeyPair (b ∷ bs) f g
          × ((n : Network (Storage × EndpointError) Established) (m : ℕ)
              → Steps m start n
              → (k : ℕ) × (16 ≡ m + k)
                × Steps k n (
                    network
                      (finish x c hc p e ps dialer s2 sp dd.tokens f)
                      (finish x c hc p e ps server t2 dp ds.tokens g)
                      []
                      []))
    resumption_any_order s t s2 t2 b bs now now' token sp dp ml ask may req acc hid hk =
        let (f, g, agreed, steps) =
          resumption-Steps s t s2 t2 b bs now now' token sp dp ml ask may req acc hid hk in
        (f, g, agreed, λ n m r. Steps-any_order steps (done-IsOver _ _) r)
