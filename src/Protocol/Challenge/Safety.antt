-- ===== src/Protocol/Challenge/Safety.antt =====
-- What sendChallenge and acceptChallenge (handshake.go) have met when they return without an error,
-- whatever the other end of the connection sends.
use kamune.Prelude.{
  ℕ, ◌≡◌, refl, sym, ap, subst, ◌∙◌, arith, Bool, ==_iff, eq_of_bytes_equal, some, List, [], ◌∷◌,
  Bytes, Result, ok, err,
}
use kamune.Protocol.Route.{route_send_challenge, route_verify_challenge}
use kamune.Protocol.Serde.{Externals, Metadata, Draws, route}
use kamune.Protocol.Transport.{Transport, TransportError, ReadResult, read, receive}
use kamune.Protocol.Transport.Sequence.{IsSigned, receive-IsSigned}
use kamune.Protocol.Network.{wrap, play}
use kamune.Protocol.Network.Play.{
  Ends, play-bind, play-wrap, play-or_fail, play-require, play-write_or, play-pure,
}
use kamune.Protocol.Exchange.{Primitives, derive}
use kamune.Protocol.Challenge.{
  Session, ChallengeError, transmit, send_message, take_received, receive_message, verify_echo,
  send_challenge, accept_challenge, handshake_challenge_size,
}

-- The session keeps its ID and its keys.
pub record IsSame (s s' : Session) : Type 0 where
  pub session_id : s'.session_id ≡ s.session_id
  pub keys : s'.keys ≡ s.keys

module _ (x : Externals Bytes) (p : Primitives) where
  transmit-Ends :
      (s : Session) (out : Transport × Result TransportError (Bytes × Metadata))
      (rs : List ReadResult) (ws : List Bool) (s' : Session) (rs2 : List ReadResult)
      (ws2 : List Bool)
      → Ends (transmit x p s out) rs ws s' rs2 ws2
      → (rs2 ≡ rs) × IsSame s s'
  unfolding play
  transmit-Ends s (t, err e) rs ws s' rs2 ws2 h = ground arith
  transmit-Ends s (t, ok (wire, md)) rs ws s' rs2 ws2 h =
      let (ws1, _, h1) = play-write_or wire TransportError.writing _ rs ws s' rs2 ws2 h in
      let (same, e) = play-pure rs ws1 s' rs2 ws2 _ h1 in
      (e, record { session_id = rw (← same) refl; keys = rw (← same) refl })

  take_received-Ends :
      (s : Session) (out : Transport × Result TransportError (Bytes × Metadata))
      (rs : List ReadResult) (ws : List Bool) (s' : Session) (m : Bytes) (md : Metadata)
      (rs2 : List ReadResult) (ws2 : List Bool)
      → Ends (take_received x p s out) rs ws (s', m, md) rs2 ws2
      → (rs2 ≡ rs) × (out.1 ≡ ok (m, md)) × IsSame s s'
  unfolding play
  take_received-Ends s (t, err e) rs ws s' m md rs2 ws2 h = ground arith
  take_received-Ends s (t, ok (m', md')) rs ws s' m md rs2 ws2 h =
      let (same, e) = play-pure rs ws (s', m, md) rs2 ws2 _ h in
      (
        e,
        ap (λ t. ok (t.1, t.2)) same,
        record {
          session_id = ap (λ t. t.0.session_id) (sym same);
          keys = ap (λ t. t.0.keys) (sym same);
        },
      )

  pub send_message-Ends :
      (s : Session) (m : Bytes) (r : ℕ) (d : Draws) (rs : List ReadResult) (ws : List Bool)
      (s' : Session) (rs2 : List ReadResult) (ws2 : List Bool)
      → Ends (send_message x p s m r d) rs ws s' rs2 ws2
      → (rs2 ≡ rs) × IsSame s s'
  unfolding send_message
  send_message-Ends s m r d rs ws s' rs2 ws2 h = transmit-Ends s _ rs ws s' rs2 ws2 h

  pub receive_message-Ends :
      (s : Session) (rs : List ReadResult) (ws : List Bool) (s' : Session) (m : Bytes)
      (md : Metadata) (rs2 : List ReadResult) (ws2 : List Bool)
      → Ends (receive_message x p s) rs ws (s', m, md) rs2 ws2
      → (wire : Bytes) × (rs ≡ read wire ∷ rs2) × IsSigned x s.keys wire m md × IsSame s s'
  unfolding receive_message play receive
  receive_message-Ends s [] ws s' m md rs2 ws2 h = absurd cc
  receive_message-Ends s (ReadResult.read wire ∷ rs) ws s' m md rs2 ws2 h =
      let (e, out, same) =
        take_received-Ends s (receive x s.keys s.counters (read wire)) rs ws s' m md rs2 ws2 h in
      (wire, rw e refl, receive-IsSigned x s.keys s.counters wire m md out, same)
  receive_message-Ends s (ReadResult.eof ∷ rs) ws s' m md rs2 ws2 h = absurd cc
  receive_message-Ends s (ReadResult.timed_out ∷ rs) ws s' m md rs2 ws2 h = absurd cc
  receive_message-Ends s (ReadResult.failed ∷ rs) ws s' m md rs2 ws2 h = absurd cc

  -- The next answer of the peer was this message, signed by the peer, encrypted with the session's key
  -- and on this route.
  pub record IsAnswer (s : Session) (m : Bytes) (r : ℕ) (rs rs2 : List ReadResult) : Type 0 where
    pub wire : Bytes
    pub md : Metadata
    pub came : rs ≡ read wire ∷ rs2
    pub signed : IsSigned x s.keys wire m md
    pub on_route : route md ≡ r

  verify_echo-Ends :
      (s : Session) (challenge : Bytes) (rs : List ReadResult) (ws : List Bool) (s' : Session)
      (rs2 : List ReadResult) (ws2 : List Bool)
      → Ends (verify_echo x p s challenge) rs ws s' rs2 ws2
      → IsAnswer s challenge route_verify_challenge rs rs2 × IsSame s s'
  unfolding verify_echo
  verify_echo-Ends s challenge rs ws s' rs2 ws2 h =
      let ((s1, r, md), rs1, ws1, take_received, h1) =
        play-bind (wrap ChallengeError.receiving (receive_message x p s)) _ rs ws s' rs2 ws2 h in
      let (wire, came, signed, same) =
        receive_message-Ends s rs ws s1 r md rs1 ws1
          (play-wrap _ _ rs ws (s1, r, md) rs1 ws1 take_received) in
      let (on_route, h2) = play-require rs1 ws1 s' rs2 ws2 _ _ _ h1 in
      let (equal, h3) = play-require rs1 ws1 s' rs2 ws2 _ _ _ h2 in
      let (last, e) = play-pure rs1 ws1 s' rs2 ws2 _ h3 in
      (
        record {
          wire = wire;
          md = md;
          came = came ∙ ap (λ l. read wire ∷ l) (sym e);
          signed =
              subst (λ n. IsSigned x s.keys wire n md) (eq_of_bytes_equal r challenge equal) signed;
          on_route = (==_iff (route md) route_verify_challenge).0 on_route;
        },
        subst (IsSame s) last same,
      )

  pub IsSame-trans : (a b c : Session) → IsSame a b → IsSame b c → IsSame a c
  IsSame-trans a b c h k = record {
    session_id = k.session_id ∙ h.session_id;
    keys = k.keys ∙ h.keys;
  }

  pub IsSame-sym : (a b : Session) → IsSame a b → IsSame b a
  IsSame-sym a b h = record { session_id = sym h.session_id; keys = sym h.keys }

  pub IsAnswer-IsSame :
      (a b : Session) (m : Bytes) (r : ℕ) (rs rs2 : List ReadResult)
      → IsSame a b
      → IsAnswer b m r rs rs2
      → IsAnswer a m r rs rs2
  IsAnswer-IsSame a b m r rs rs2 h k = record {
    wire = k.wire;
    md = k.md;
    came = k.came;
    on_route = k.on_route;
    signed = subst (λ keys. IsSigned x keys k.wire m k.md) h.keys k.signed;
  }

  -- A call of sendChallenge that returns no error has derived its challenge, and the next message of
  -- the peer was that challenge.
  pub send_challenge-Ends :
      (s : Session) (secret info : Bytes) (d : Draws) (rs : List ReadResult) (ws : List Bool)
      (s' : Session) (rs2 : List ReadResult) (ws2 : List Bool)
      → Ends (send_challenge x p s secret info d) rs ws s' rs2 ws2
      → (challenge : Bytes) × (derive p secret [] info handshake_challenge_size ≡ some challenge)
        × IsAnswer s challenge route_verify_challenge rs rs2
        × IsSame s s'
  unfolding send_challenge
  send_challenge-Ends s secret info d rs ws s' rs2 ws2 h =
      let (challenge, derived, h1) = play-or_fail rs ws s' rs2 ws2 _ _ _ h in
      let (s1, rs1, ws1, sent, h2) =
        play-bind
          (wrap ChallengeError.sending (send_message x p s challenge route_send_challenge d)) _ rs
          ws s' rs2 ws2 h1 in
      let (e, same) =
        send_message-Ends s challenge route_send_challenge d rs ws s1 rs1 ws1
          (play-wrap _ _ rs ws s1 rs1 ws1 sent) in
      let (answer, same') = verify_echo-Ends s1 challenge rs1 ws1 s' rs2 ws2 h2 in
      (
        challenge,
        derived,
        subst (λ l. IsAnswer s challenge route_verify_challenge l rs2) e
            (IsAnswer-IsSame s s1 challenge route_verify_challenge rs1 rs2 same answer),
        IsSame-trans s s1 s' same same',
      )

  pub accept_challenge-Ends :
      (s : Session) (expected_route : ℕ) (d : Draws) (rs : List ReadResult) (ws : List Bool)
      (s' : Session) (rs2 : List ReadResult) (ws2 : List Bool)
      → Ends (accept_challenge x p s expected_route d) rs ws s' rs2 ws2
      → (challenge : Bytes) × IsAnswer s challenge expected_route rs rs2 × IsSame s s'
  unfolding accept_challenge
  accept_challenge-Ends s expected_route d rs ws s' rs2 ws2 h =
      let ((s1, r, md), rs1, ws1, take_received, h1) =
        play-bind (wrap ChallengeError.receiving (receive_message x p s)) _ rs ws s' rs2 ws2 h in
      let (wire, came, signed, same) =
        receive_message-Ends s rs ws s1 r md rs1 ws1
          (play-wrap _ _ rs ws (s1, r, md) rs1 ws1 take_received) in
      let (on_route, h2) = play-require rs1 ws1 s' rs2 ws2 _ _ _ h1 in
      let (e, same') =
        send_message-Ends s1 r route_verify_challenge d rs1 ws1 s' rs2 ws2
          (play-wrap _ _ rs1 ws1 s' rs2 ws2 h2) in
      (
        r,
        record {
          wire = wire;
          md = md;
          came = came ∙ ap (λ l. read wire ∷ l) (sym e);
          signed = signed;
          on_route = (==_iff (route md) expected_route).0 on_route;
        },
        IsSame-trans s s1 s' same same',
      )
