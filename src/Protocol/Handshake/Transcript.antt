-- ===== src/Protocol/Handshake/Transcript.antt =====
-- What the transcript hash and the challenges of the handshake are made from (handshakeTranscriptHash and
-- deriveChallengeInfo, handshake.go).
use kamune.Prelude.{
  ◌^◌, ◌<◌, ◌≡◌, refl, ap, sym, ◌∙◌, arith, [], ◌∷◌, ◌++◌, Bytes, length, length-append, put_uint32,
  uint32, uint32-put_uint32, length-put_uint32, ◌⊎◌, inl, inr, ◌%◌,
}
use mathlib.Core.List.{append-nil, append_assoc}
use kamune.Protocol.Serde.Signing.{append_injective, rest_of}
use kamune.Protocol.Handshake.{
  Handshake, hash_field, transcript, derive_challenge_info, handshake_info, handshake_c2s_info,
  handshake_s2c_info,
}

-- The fields fit their four-byte lengths.
abbrev pub IsShort : Handshake → Type 0
IsShort h = (length h.key < 2 ^ 32) × (length h.salt < 2 ^ 32) × (length h.session_key < 2 ^ 32)

-- A field with its length in front is a prefix code.
hash_field_injective :
    (a b xs ys : Bytes)
    → length a < 2 ^ 32
    → length b < 2 ^ 32
    → hash_field a ++ xs ≡ hash_field b ++ ys
    → (a ≡ b) × (xs ≡ ys)
unfolding hash_field
hash_field_injective a b xs ys ha hb e =
    let e' : put_uint32 (length a) ++ (a ++ xs) ≡ put_uint32 (length b) ++ (b ++ ys) =
      sym (append_assoc (put_uint32 (length a)) a xs)
      ∙ e
      ∙ append_assoc (put_uint32 (length b)) b ys in
    let (lengths, rests) =
      append_injective (put_uint32 (length a)) (put_uint32 (length b)) (a ++ xs) (b ++ ys)
        (length-put_uint32 (length a) ∙ sym (length-put_uint32 (length b))) e' in
    let same : length a % 4294967296 ≡ length b % 4294967296 =
      sym (uint32-put_uint32 (length a)) ∙ ap uint32 lengths ∙ uint32-put_uint32 (length b) in
    append_injective a b xs ys (omega arith) rests

-- Two handshakes hash the same bytes only if all their fields are the same.
pub transcript_injective :
    (req req' resp resp' : Handshake)
    → IsShort req
    → IsShort req'
    → IsShort resp
    → IsShort resp'
    → transcript req resp ≡ transcript req' resp'
    → (req ≡ req') × (resp ≡ resp')
unfolding transcript
transcript_injective req req' resp resp' h h' k k' e =
    let (_, e1) = append_injective handshake_info handshake_info _ _ refl e in
    let (a1, e2) = hash_field_injective req.key req'.key _ _ h.0 h'.0 e1 in
    let (a2, e3) = hash_field_injective req.salt req'.salt _ _ h.1 h'.1 e2 in
    let (a3, e4) = hash_field_injective req.session_key req'.session_key _ _ h.2 h'.2 e3 in
    let (a4, e5) = hash_field_injective resp.key resp'.key _ _ k.0 k'.0 e4 in
    let (a5, e6) = hash_field_injective resp.salt resp'.salt _ _ k.1 k'.1 e5 in
    let e7 =
      append-nil (hash_field resp.session_key)
      ∙ e6
      ∙ sym (append-nil (hash_field resp'.session_key)) in
    let (a6, _) = hash_field_injective resp.session_key resp'.session_key [] [] k.2 k'.2 e7 in
    (ground arith, ground arith)

-- The directions that the handshake uses.
abbrev pub IsDirection : Bytes → Type 0
IsDirection d = (d ≡ handshake_c2s_info) ⊎ (d ≡ handshake_s2c_info)

direction_length : (d : Bytes) → IsDirection d → length d ≡ 37
direction_length d (inl e) = rw e refl
direction_length d (inr e) = rw e refl

-- The infos of two challenges are the same only for the same session, direction and transcript hash.
pub derive_challenge_info_injective :
    (id id' d d' hash hash' : Bytes)
    → IsDirection d
    → IsDirection d'
    → length hash ≡ 32
    → length hash' ≡ 32
    → derive_challenge_info id d hash ≡ derive_challenge_info id' d' hash'
    → (id ≡ id') × (d ≡ d') × (hash ≡ hash')
unfolding derive_challenge_info
derive_challenge_info_injective id id' d d' hash hash' hd hd' l l' e =
    let ld = direction_length d hd in
    let ld' = direction_length d' hd' in
    let whole = ap length e in
    let lengths : length id ≡ length id' = omega (
      arith,
      length-append id (124 ∷ d ++ (124 ∷ hash)),
      length-append id' (124 ∷ d' ++ (124 ∷ hash')),
      length-append d (124 ∷ hash),
      length-append d' (124 ∷ hash'),
    ) in
    let (ids, e1) =
      append_injective id id' (124 ∷ d ++ (124 ∷ hash)) (124 ∷ d' ++ (124 ∷ hash')) lengths e in
    let (ds, e2) = append_injective d d' (124 ∷ hash) (124 ∷ hash') (omega arith) (ap rest_of e1) in
    (ids, ds, ap rest_of e2)
