-- ===== src/Protocol/Challenge/Exchanges.antt =====
-- sendChallenge at one end of a connection and acceptChallenge at the other (handshake.go).
use kamune.Prelude.{◌≡◌, refl, ap, ◌∙◌, true, bytes_equal_refl, some, [], ◌∷◌, Bytes, ok}
use kamune.Protocol.Route.{to_proto, route_from_proto, route_send_challenge, route_verify_challenge}
use kamune.Protocol.Serde.{Externals, IsLawful, Metadata, Draws, metadata_for, route}
use kamune.Protocol.Transport.{next_sequence, send, receive, read}
use kamune.Protocol.Transport.Delivery.{Letter, IsSendable, receive-send, accept_next}
use kamune.Protocol.Network.{Io, network, ◌>>=◌, wrap, Side, advance, advance_left, Steps, stop, go}
use kamune.Protocol.Exchange.{Primitives, derive}
use kamune.Protocol.Challenge.{
  Session, ChallengeError, send_message, receive_message, verify_echo, send_challenge,
  accept_challenge, handshake_challenge_size,
}

-- Two sessions at the ends of one connection: the keys of the directions are the same, the peers know
-- each other's signing keys, and what one has sent the other has received.
pub record IsPaired (IsKeyPair : Bytes → Bytes → Type 0) (a b : Session) : Type 0 where
  pub out : a.keys.encoder ≡ b.keys.decoder
  pub back : b.keys.encoder ≡ a.keys.decoder
  pub signs : IsKeyPair a.keys.private_key b.keys.remote
  pub signs_back : IsKeyPair b.keys.private_key a.keys.remote
  pub sent : a.counters.send_sequence ≡ b.counters.recv_sequence
  pub sent_back : b.counters.send_sequence ≡ a.counters.recv_sequence

pub IsPaired-sym :
    (IsKeyPair : Bytes → Bytes → Type 0) (a b : Session)
    → IsPaired IsKeyPair a b
    → IsPaired IsKeyPair b a
IsPaired-sym IsKeyPair a b h = record {
  out = h.back;
  back = h.out;
  signs = h.signs_back;
  signs_back = h.signs;
  sent = h.sent_back;
  sent_back = h.sent;
}

abbrev pub has_sent : Session → Session
has_sent s = record s {
  counters = record s.counters { send_sequence = next_sequence s.counters.send_sequence };
}

abbrev pub has_received : Session → Session
has_received s = record s {
  counters = record s.counters { recv_sequence = next_sequence s.counters.recv_sequence };
}

module _ (x : Externals Bytes) (p : Primitives) {E A : Type 0} where
  -- A write of the left side and the read of the right one.
  send_challenge_step :
      (f : ChallengeError → E) (K : Session → Io E A) (R : Io E A) (a : Session)
      (secret info challenge : Bytes) (d : Draws) (wire : Bytes) (md : Metadata)
      → derive p secret [] info handshake_challenge_size ≡ some challenge
      → send x a.keys a.counters challenge route_send_challenge d (λ w. true)
        ≡ ((has_sent a).counters, ok (wire, md))
      → advance Side.left_side (network (wrap f (send_challenge x p a secret info d) >>= K) R [] [])
        ≡ some (network (wrap f (verify_echo x p (has_sent a) challenge) >>= K) R [] (wire ∷ []))
  unfolding advance advance_left send_challenge send_message
  send_challenge_step f K R a secret info challenge d wire md hd hs = rw hd (rw hs refl)

  read_challenge_step :
      (g : ChallengeError → E) (K : Session → Io E A) (L : Io E A) (b : Session) (r : Bytes)
      (d : Draws) (wire : Bytes) (md : Metadata)
      → receive x b.keys b.counters (read wire) ≡ ((has_received b).counters, ok (r, md))
      → route md ≡ route_send_challenge
      → advance Side.right_side
          (network L (wrap g (accept_challenge x p b route_send_challenge d) >>= K) [] (wire ∷ []))
        ≡ some (
            network L
              (wrap g (
                  wrap ChallengeError.sending
                    (send_message x p (has_received b) r route_verify_challenge d))
                >>= K)
              []
              [])
  unfolding advance advance_left accept_challenge receive_message
  read_challenge_step g K L b r d wire md hr hm = rw hr (rw hm (rw (ap (λ t. t.0) hr) refl))

  write_echo_step :
      (g : ChallengeError → E) (K : Session → Io E A) (L : Io E A) (b : Session) (r : Bytes)
      (d : Draws) (wire : Bytes) (md : Metadata)
      → send x b.keys b.counters r route_verify_challenge d (λ w. true)
        ≡ ((has_sent b).counters, ok (wire, md))
      → advance Side.right_side (
          network L
            (wrap g (wrap ChallengeError.sending (send_message x p b r route_verify_challenge d))
              >>= K)
            []
            [])
        ≡ some (network L (K (has_sent b)) (wire ∷ []) [])
  unfolding advance advance_left send_message
  write_echo_step g K L b r d wire md hs = rw hs refl

  verify_echo_step :
      (f : ChallengeError → E) (K : Session → Io E A) (R : Io E A) (a : Session) (challenge : Bytes)
      (wire : Bytes) (md : Metadata)
      → receive x a.keys a.counters (read wire) ≡ ((has_received a).counters, ok (challenge, md))
      → route md ≡ route_verify_challenge
      → advance Side.left_side
          (network (wrap f (verify_echo x p a challenge) >>= K) R (wire ∷ []) [])
        ≡ some (network (K (has_received a)) R [] [])
  unfolding advance advance_left verify_echo receive_message
  verify_echo_step f K R a challenge wire md hr hm =
      rw hr (rw hm (rw (bytes_equal_refl challenge) (rw (ap (λ t. t.0) hr) refl)))

module _ (x : Externals Bytes) (p : Primitives) (IsKeyPair : Bytes → Bytes → Type 0)
    (law : IsLawful x IsKeyPair) where
  -- A message that one session sends, as the other receives it.
  deliver :
      (a b : Session) (l : Letter Bytes)
      → IsPaired IsKeyPair a b
      → IsSendable x l
      → let seq = next_sequence a.counters.send_sequence in
        (wire : Bytes) × (send x a.keys a.counters l.message l.route l.draws (λ w. true)
          ≡ ((has_sent a).counters, ok (wire, metadata_for x l.route seq l.draws)))
        × (receive x b.keys b.counters (read wire)
            ≡ ((has_received b).counters, ok (l.message, metadata_for x l.route seq l.draws)))
  deliver a b l h v =
      let seq = next_sequence a.counters.send_sequence in
      let md = metadata_for x l.route seq l.draws in
      let (wire, s, r) =
        receive-send x IsKeyPair law a.keys b.keys h.signs h.out a.counters b.counters l v in
      (
        wire,
        s,
        r
            ∙ accept_next x IsKeyPair law a.keys b.keys h.signs h.out b.counters l.message md
                (rw h.sent)
            ∙ rw h.sent,
      )

  -- The four steps in which the left side sends a challenge, and the right side accepts it.
  pub challenge-Steps :
      {E A : Type 0} (f g : ChallengeError → E) (K L : Session → Io E A) (a b : Session)
      (secret info challenge : Bytes) (d e : Draws)
      → IsPaired IsKeyPair a b
      → derive p secret [] info handshake_challenge_size ≡ some challenge
      → IsSendable x (record { message = challenge; route = route_send_challenge; draws = d })
      → IsSendable x (record { message = challenge; route = route_verify_challenge; draws = e })
      → Steps 4
          (network
            (wrap f (send_challenge x p a secret info d) >>= K)
            (wrap g (accept_challenge x p b route_send_challenge e) >>= L)
            []
            [])
          (network (K (has_received (has_sent a))) (L (has_sent (has_received b))) [] [])
  unfolding to_proto route_from_proto
  challenge-Steps f g K L a b secret info challenge d e h hd v w =
      let (wire, s, r) =
        deliver a b (record { message = challenge; route = route_send_challenge; draws = d }) h v in
      let h' : IsPaired IsKeyPair (has_received b) (has_sent a) = record {
        out = h.back;
        back = h.out;
        signs = h.signs_back;
        signs_back = h.signs;
        sent = h.sent_back;
        sent_back = rw h.sent;
      } in
      let (wire', s', r') =
        deliver (has_received b) (has_sent a)
          (record { message = challenge; route = route_verify_challenge; draws = e }) h' w in
      go Side.left_side (send_challenge_step x p f K _ a secret info challenge d wire _ hd s) (
        go Side.right_side (read_challenge_step x p g L _ b challenge e wire _ r refl) (
          go Side.right_side (write_echo_step x p g L _ (has_received b) challenge e wire' _ s') (
            go Side.left_side (verify_echo_step x p f K _ (has_sent a) challenge wire' _ r' refl)
              stop)))
