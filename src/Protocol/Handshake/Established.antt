-- ===== src/Protocol/Handshake/Established.antt =====
-- What the two sides of a finished handshake (handshake.go) can do with it: the tokens of a later
-- resumption, and messages over the transport (transport.go).
use kamune.Prelude.{
  ℕ, zero, suc, ◌+◌, ◌≡◌, refl, sym, ◌∙◌, arith, some, List, [], ◌∷◌, ◌++◌, put_uint32, map, Bytes,
  All, length, ok,
}
use kamune.Protocol.Serde.{Externals, IsLawful, Codec}
use kamune.Protocol.Transport.Delivery.{
  Letter, IsSendable, send_all, receive_all, receive_all-send_all,
}
use kamune.Protocol.Network.{Io, network, Steps}
use kamune.Protocol.Exchange.{Primitives, Mlkem, IsDocumented, new_mlkem, derive-some}
use kamune.Protocol.Challenge.{
  Session, resumption_token, token_loop, derive_resumption_tokens, resumption_token_info,
}
use kamune.Protocol.Handshake.{
  Handshake, SignedSerde, HandshakeDraws, request_handshake, accept_handshake,
}
use kamune.Protocol.Handshake.Agreement.{IsCarried, IsDrawn}
use kamune.Protocol.Handshake.Steps.{IsSessionId}
use kamune.Protocol.Handshake.Outcome.{handshake-Steps}

-- So many tokens, each of the size that resumption wants.
abbrev pub AreTokens : ℕ → List Bytes → Type 0
AreTokens n ts = (length ts ≡ n) × All (λ t. length t ≡ 32) ts

token_loop-some :
    (p : Primitives) (documented : IsDocumented p) (root : Bytes) (n i : ℕ)
    → (ts : List Bytes) × (token_loop p root n i ≡ some ts) × AreTokens n ts
unfolding token_loop resumption_token
token_loop-some p documented root zero i = ([], refl, (refl, tt))
token_loop-some p documented root (suc n) i =
    let (ts, e, (l, sizes)) = token_loop-some p documented root n (i + 1) in
    let (t, d, size) =
      derive-some p documented root [] (resumption_token_info ++ put_uint32 i) 32 (omega arith) in
    (t ∷ ts, rw (d, e) refl, (rw l refl, (size, sizes)))

derive_resumption_tokens-some :
    (p : Primitives) (documented : IsDocumented p) (s : Session) (root : Bytes)
    → s.resumption_root ≡ some root
    → (ts : List Bytes) × (token_loop p root 20 0 ≡ some ts)
      × (derive_resumption_tokens p s ≡ ts)
      × AreTokens 20 ts
unfolding derive_resumption_tokens
derive_resumption_tokens-some p documented s root h =
    let (ts, e, are) = token_loop-some p documented root 20 0 in (ts, e, rw h (rw e refl), are)

module _ (x : Externals Bytes) (c : Codec Handshake) (p : Primitives)
    (IsKeyPair : Bytes → Bytes → Type 0) (law : IsLawful x IsKeyPair) (documented : IsDocumented p)
    (carried : IsCarried x c) (alice bob : SignedSerde)
    (signs : IsKeyPair alice.private_key bob.remote)
    (signs_back : IsKeyPair bob.private_key alice.remote) (da db : HandshakeDraws)
    (drawn_a : IsDrawn da) (drawn_b : IsDrawn db) where
  -- Both sides of a handshake over a reliable connection derive the same resumption tokens, twenty of
  -- them with 32 bytes each.
  pub derive_resumption_tokens-handshake :
      (opts : Bytes) (ml : Mlkem)
      → IsSessionId opts
      → new_mlkem p da.seed ≡ some ml
      → (a b : Session) × Steps 12
          (network
            (request_handshake x c p alice opts da)
            (accept_handshake x c p bob opts db)
            []
            [])
          (network (Io.done (ok a)) (Io.done (ok b)) [] [])
        × (derive_resumption_tokens p a ≡ derive_resumption_tokens p b)
        × AreTokens 20 (derive_resumption_tokens p a)
  derive_resumption_tokens-handshake opts ml ho hk =
      let (a, b, steps, agreed) =
        handshake-Steps x c p IsKeyPair law documented carried alice bob signs signs_back da db
          drawn_a drawn_b opts ml ho hk in
      let (ts, e, d, are) =
        derive_resumption_tokens-some p documented a agreed.root agreed.left_root in
      let (ts', e', d', are') =
        derive_resumption_tokens-some p documented b agreed.root agreed.right_root in
      let same : ts ≡ ts' = cc in (a, b, steps, d ∙ same ∙ sym d', rw d are)

  -- Whatever letters can be sent, after a handshake over a reliable connection each side receives the
  -- messages of the letters that the other one sends, all of them and in their order.
  pub receive_all-handshake :
      (opts : Bytes) (ml : Mlkem) (ls : List (Letter Bytes))
      → IsSessionId opts
      → new_mlkem p da.seed ≡ some ml
      → All (IsSendable x) ls
      → (a b : Session) × Steps 12
          (network
            (request_handshake x c p alice opts da)
            (accept_handshake x c p bob opts db)
            []
            [])
          (network (Io.done (ok a)) (Io.done (ok b)) [] [])
        × (wires : List Bytes) × ((send_all x a.keys a.counters ls).1 ≡ ok wires)
        × ((receive_all x b.keys b.counters wires).1 ≡ ok (map (λ l. l.message) ls))
        × (back : List Bytes) × ((send_all x b.keys b.counters ls).1 ≡ ok back)
        × ((receive_all x a.keys a.counters back).1 ≡ ok (map (λ l. l.message) ls))
  receive_all-handshake opts ml ls ho hk hs =
      let (a, b, steps, agreed) =
        handshake-Steps x c p IsKeyPair law documented carried alice bob signs signs_back da db
          drawn_a drawn_b opts ml ho hk in
      let h = agreed.paired in
      let (wires, s, r, _) =
        receive_all-send_all x IsKeyPair law a.keys b.keys h.signs h.out a.counters b.counters ls hs
          h.sent in
      let (back, s', r', _) =
        receive_all-send_all x IsKeyPair law b.keys a.keys h.signs_back h.back b.counters a.counters
          ls hs h.sent_back in
      (a, b, steps, wires, s, r, back, s', r')
