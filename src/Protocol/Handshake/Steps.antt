-- ===== src/Protocol/Handshake/Steps.antt =====
-- The single steps of requestHandshake and acceptHandshake in which the two handshake messages go over the
-- connection (handshake.go).
use kamune.Prelude.{
  ◌≤◌, ◌≡◌, refl, arith, if◌then◌else◌, some, [], ◌∷◌, ◌++◌, Bytes, All, length, ok, ◌⊎◌, inl, inr,
}
use kamune.Protocol.Route.{route_request_handshake, route_accept_handshake}
use kamune.Protocol.Serde.{Externals, Metadata, Codec, speak, route, serialize, deserialize}
use kamune.Protocol.Network.{Io, network, Side, advance, advance_left}
use kamune.Protocol.Exchange.{
  Primitives, Mlkem, IsAscii, text, length-text, text-IsAscii, new_mlkem, decapsulate,
  encapsulate_mlkem,
}
use kamune.Protocol.Handshake.{
  Handshake, SignedSerde, HandshakeDraws, HandshakeError, request_handshake, await_response,
  confirm_request, accept_handshake, answer_request, confirm_accept, request_for, response_for,
  session_key_for, is_empty, validate_handshake_fields,
}
use kamune.Protocol.Challenge.{Session}
use kamune.Protocol.Handshake.Agreement.{IsDrawn}

-- The session ID of the options: none on a cold handshake, and an old one on a resumption.
abbrev pub IsSessionId : Bytes → Type 0
IsSessionId opts = (opts ≡ []) ⊎ ((length opts ≡ 24) × All IsAscii opts)

-- The session ID that both sides come to.
abbrev pub agreed_id : Bytes → HandshakeDraws → HandshakeDraws → Bytes
agreed_id opts da db = if is_empty opts then text da.text ++ text db.text else opts

pub session_key_fits :
    (opts : Bytes) (d : HandshakeDraws)
    → IsSessionId opts
    → IsDrawn d
    → ((length (session_key_for opts d) ≡ 12) ⊎ (length (session_key_for opts d) ≡ 24))
      × All IsAscii (session_key_for opts d)
session_key_fits [] d h drawn = (inl (rw (length-text d.text) drawn.text), text-IsAscii d.text)
session_key_fits (b ∷ bs) d (inl e) drawn = absurd cc
session_key_fits (b ∷ bs) d (inr h) drawn = (inr h.0, h.1)

pub agreed_id-lem :
    (opts : Bytes) (da db : HandshakeDraws)
    → (if is_empty opts then session_key_for opts da ++ session_key_for opts db else opts)
      ≡ agreed_id opts da db
agreed_id-lem [] da db = refl
agreed_id-lem (b ∷ bs) da db = refl

pub fields_valid :
    (salt session_key : Bytes)
    → length salt ≡ 16
    → (length session_key ≡ 12) ⊎ (length session_key ≡ 24)
    → validate_handshake_fields salt session_key ≡ ok tt
unfolding validate_handshake_fields
fields_valid salt session_key hs (inl h) = rw hs (rw h refl)
fields_valid salt session_key hs (inr h) = rw hs (rw h refl)

pub key_fits : (b : Bytes) → (length b ≡ 12) ⊎ (length b ≡ 24) → length b ≤ 24
key_fits b (inl h) = omega arith
key_fits b (inr h) = omega arith

module _ (x : Externals Bytes) (c : Codec Handshake) (p : Primitives) where
  pub request_step :
      (serde : SignedSerde) (opts : Bytes) (d : HandshakeDraws) (ml : Mlkem) (bytes : Bytes)
      (md : Metadata) (R : Io HandshakeError Session)
      → new_mlkem p d.seed ≡ some ml
      → serialize
          (speak c x)
          serde.private_key
          (request_for opts d ml)
          route_request_handshake
          0
          d.envelope
        ≡ ok (bytes, md)
      → advance Side.left_side (network (request_handshake x c p serde opts d) R [] [])
        ≡ some (
            network
              (await_response x c p serde opts d ml (request_for opts d ml))
              R
              []
              (bytes ∷ []))
  unfolding advance advance_left request_handshake
  request_step serde opts d ml bytes md R hk hs = rw hk (rw hs refl)

  pub accept_step :
      (serde : SignedSerde) (opts : Bytes) (d : HandshakeDraws) (req : Handshake)
      (pair : Bytes × Bytes) (bytes : Bytes) (md : Metadata) (L : Io HandshakeError Session)
      → deserialize (speak c x) serde.remote bytes ≡ ok (req, md)
      → route md ≡ route_request_handshake
      → validate_handshake_fields req.salt req.session_key ≡ ok tt
      → encapsulate_mlkem p req.key d.seed ≡ some pair
      → advance Side.right_side (network L (accept_handshake x c p serde opts d) [] (bytes ∷ []))
        ≡ some (network L (answer_request x c p serde opts d req pair) [] [])
  unfolding advance advance_left accept_handshake
  accept_step serde opts d req pair bytes md L hd hm hv he = rw hd (rw hm (rw hv (rw he refl)))

  pub answer_step :
      (serde : SignedSerde) (opts : Bytes) (d : HandshakeDraws) (req : Handshake)
      (secret ct : Bytes) (bytes : Bytes) (md : Metadata) (L : Io HandshakeError Session)
      → serialize
          (speak c x)
          serde.private_key
          (response_for opts d ct)
          route_accept_handshake
          0
          d.envelope
        ≡ ok (bytes, md)
      → advance Side.right_side
          (network L (answer_request x c p serde opts d req (secret, ct)) [] [])
        ≡ some (
            network L
              (confirm_accept x c p serde d
                (if is_empty opts then req.session_key ++ session_key_for opts d else opts)
                req
                (response_for opts d ct)
                secret)
              (bytes ∷ [])
              [])
  unfolding advance advance_left answer_request
  answer_step serde opts d req secret ct bytes md L hs = rw hs refl

  pub response_step :
      (serde : SignedSerde) (opts : Bytes) (d : HandshakeDraws) (ml : Mlkem) (req resp : Handshake)
      (secret bytes : Bytes) (md : Metadata) (R : Io HandshakeError Session)
      → deserialize (speak c x) serde.remote bytes ≡ ok (resp, md)
      → route md ≡ route_accept_handshake
      → validate_handshake_fields resp.salt resp.session_key ≡ ok tt
      → decapsulate p ml resp.key ≡ some secret
      → advance Side.left_side
          (network (await_response x c p serde opts d ml req) R (bytes ∷ []) [])
        ≡ some (
            network
              (confirm_request x c p serde d
                (if is_empty opts then req.session_key ++ resp.session_key else opts)
                req
                resp
                secret)
              R
              []
              [])
  unfolding advance advance_left await_response
  response_step serde opts d ml req resp secret bytes md R hd hm hv he =
      rw hd (rw hm (rw hv (rw he refl)))
