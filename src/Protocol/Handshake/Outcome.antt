-- ===== src/Protocol/Handshake/Outcome.antt =====
-- The whole of requestHandshake at one end of a connection and of acceptHandshake at the other, with their
-- steps in any order (handshake.go).
use kamune.Prelude.{
  ℕ, ◌+◌, ◌≤◌, ◌≡◌, refl, subst, arith, if◌then◌else◌, some, [], ◌++◌, Bytes, All, length, ok, ◌⊎◌,
}
use kamune.Protocol.Route.{
  to_proto, route_from_proto, route_request_handshake, route_accept_handshake,
}
use kamune.Protocol.Serde.{
  Externals, IsLawful, Metadata, Draws, Codec, speak, speak-IsLawful, route, serialize, deserialize,
}
use kamune.Protocol.Serde.Signing.{deserialize-serialize}
use kamune.Protocol.Network.{Io, Network, network, Side, Steps, go}
use kamune.Protocol.Network.Interleaving.{done-IsOver, Steps-any_order}
use kamune.Protocol.Exchange.{
  Primitives, Mlkem, IsDocumented, IsAscii, new_mlkem, decapsulate-encapsulate_mlkem,
}
use kamune.Protocol.Handshake.{
  Handshake, SignedSerde, HandshakeDraws, HandshakeError, request_handshake, accept_handshake,
  request_for, response_for, is_empty,
}
use kamune.Protocol.Handshake.Agreement.{IsCarried, IsDrawn, IsAgreed, confirm-Steps}
use kamune.Protocol.Challenge.{Session}
use kamune.Protocol.Handshake.Steps.{
  IsSessionId, agreed_id, session_key_fits, agreed_id-lem, fields_valid, key_fits, request_step,
  accept_step, answer_step, response_step,
}

module _ (x : Externals Bytes) (c : Codec Handshake) (p : Primitives)
    (IsKeyPair : Bytes → Bytes → Type 0) (law : IsLawful x IsKeyPair) (documented : IsDocumented p)
    (carried : IsCarried x c) (alice bob : SignedSerde)
    (signs : IsKeyPair alice.private_key bob.remote)
    (signs_back : IsKeyPair bob.private_key alice.remote) (da db : HandshakeDraws)
    (drawn_a : IsDrawn da) (drawn_b : IsDrawn db) where
  -- A handshake message that one peer signs, as the other reads it.
  signed_back :
      (from to : SignedSerde) (h : Handshake) (r : ℕ) (d : Draws)
      → IsKeyPair from.private_key to.remote
      → length h.key ≤ 1184
      → length h.salt ≡ 16
      → (length h.session_key ≡ 12) ⊎ (length h.session_key ≡ 24)
      → All IsAscii h.session_key
      → (bytes : Bytes) × (md : Metadata) × (serialize (speak c x) from.private_key h r 0 d
          ≡ ok (bytes, md))
        × (deserialize (speak c x) to.remote bytes ≡ ok (h, md))
        × (route md ≡ route_from_proto (to_proto r))
  signed_back from to h r d k lk ls lt a =
      let (out, m, f) = carried.handshake h lk (omega arith) (key_fits h.session_key lt) a in
      let (bytes, s, b) =
        deserialize-serialize (speak c x) IsKeyPair
          (speak-IsLawful c x IsKeyPair law carried.handshake_back) from.private_key to.remote h out
          r 0 d k m f in
      (bytes, _, s, b, refl)

  pub handshake-Steps :
      (opts : Bytes) (ml : Mlkem)
      → IsSessionId opts
      → new_mlkem p da.seed ≡ some ml
      → (a b : Session) × Steps 12
          (network
            (request_handshake x c p alice opts da)
            (accept_handshake x c p bob opts db)
            []
            [])
          (network (Io.done (ok a)) (Io.done (ok b)) [] [])
        × IsAgreed IsKeyPair (agreed_id opts da db) a b
  unfolding to_proto route_from_proto
  handshake-Steps opts ml ho hk =
      let (secret, ct, e, d, lct, lpk) =
        decapsulate-encapsulate_mlkem p documented da.seed db.seed ml hk in
      let req = request_for opts da ml in
      let resp = response_for opts db ct in
      let (la, aa) = session_key_fits opts da ho drawn_a in
      let (lb, ab) = session_key_fits opts db ho drawn_b in
      let (req_bytes, md, s, r, m) =
        signed_back alice bob req route_request_handshake da.envelope signs lpk drawn_a.salt la
          aa in
      let (resp_bytes, md', s', r', m') =
        signed_back bob alice resp route_accept_handshake db.envelope signs_back (omega arith)
          drawn_b.salt lb ab in
      let id = if is_empty opts then req.session_key ++ resp.session_key else opts in
      let (a, b, steps, agreed) =
        confirm-Steps x c p IsKeyPair law documented carried alice bob signs signs_back da db
          drawn_a drawn_b id secret req resp in
      (
        a,
        b,
        go Side.left_side (request_step x c p alice opts da ml req_bytes md _ hk s) (
            go Side.right_side
              (accept_step x c p bob opts db req (secret, ct) req_bytes md _ r m
                (fields_valid req.salt req.session_key drawn_a.salt la) e)
              (go Side.right_side (answer_step x c p bob opts db req secret ct resp_bytes md' _ s')
                (go Side.left_side
                  (response_step x c p alice opts da ml req resp secret resp_bytes md' _ r' m'
                    (fields_valid resp.salt resp.session_key drawn_b.salt lb) d)
                  steps))),
        subst (λ i. IsAgreed IsKeyPair i a b) (agreed_id-lem opts da db) agreed,
      )

  -- Over a reliable connection, and with random bytes of the sizes that are asked for, the two sides of a
  -- handshake, cold or with the ID of an old session, come to one outcome, in whichever order they take
  -- their steps: any steps taken can be continued to it, and it takes twelve in all. Both sides have then
  -- a session without an error: with the same ID and resumption root, with the keys of the two directions
  -- crossed, and with two messages sent and received by each.
  pub handshake_any_order :
      (opts : Bytes) (ml : Mlkem)
      → IsSessionId opts
      → new_mlkem p da.seed ≡ some ml
      → let start =
          network
            (request_handshake x c p alice opts da)
            (accept_handshake x c p bob opts db)
            []
            [] in
        (a b : Session) × IsAgreed IsKeyPair (agreed_id opts da db) a b
        × ((n : Network HandshakeError Session) (m : ℕ)
            → Steps m start n
            → (k : ℕ) × (12 ≡ m + k) × Steps k n (network (Io.done (ok a)) (Io.done (ok b)) [] []))
  handshake_any_order opts ml ho hk =
      let (a, b, steps, agreed) = handshake-Steps opts ml ho hk in
      (a, b, agreed, λ n m r. Steps-any_order steps (done-IsOver (ok a) (ok b)) r)
