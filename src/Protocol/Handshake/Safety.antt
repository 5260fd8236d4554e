-- ===== src/Protocol/Handshake/Safety.antt =====
-- What the checks and the ciphers of a handshake (handshake.go) have met when they let it go on.
use kamune.Prelude.{◌≡◌, refl, sym, ap, ◌∙◌, arith, Bool, some, List, ◌++◌, Bytes, length, ok, ◌⊎◌}
use kamune.Protocol.Serde.{Externals, Codec}
use kamune.Protocol.Transport.{ReadResult}
use kamune.Protocol.Network.Play.{Ends, play-or_fail, play-pure}
use kamune.Protocol.Exchange.{Primitives, new_enigma}
use kamune.Protocol.Challenge.{Session, set_resumption_root}
use kamune.Protocol.Challenge.Safety.{IsSame}
use kamune.Protocol.Handshake.{Handshake, SignedSerde, validate_handshake_fields, create_transport}

-- The sizes that the handshake lets pass.
abbrev pub IsFit : Handshake → Type 0
IsFit h = (length h.salt ≡ 16) × ((length h.session_key ≡ 12) ⊎ (length h.session_key ≡ 24))

pub validate_handshake_fields_ok :
    (salt session_key : Bytes) (u : Unit {0})
    → validate_handshake_fields salt session_key ≡ ok u
    → (length salt ≡ 16) × ((length session_key ≡ 12) ⊎ (length session_key ≡ 24))
unfolding validate_handshake_fields
validate_handshake_fields_ok salt session_key u h = ground arith

module _ (x : Externals Bytes) (c : Codec Handshake) (p : Primitives) where
  -- The session has these signing keys and this ID, and its two ciphers are derived from the secret.
  pub record IsKeyed (serde : SignedSerde)
      (session_id secret out_salt out_info in_salt in_info : Bytes) (s : Session) : Type 0 where
    pub session_id_same : s.session_id ≡ session_id
    pub own : s.keys.private_key ≡ serde.private_key
    pub remote : s.keys.remote ≡ serde.remote
    pub encoder : new_enigma p secret out_salt (out_info ++ session_id) ≡ some s.keys.encoder
    pub decoder : new_enigma p secret in_salt (in_info ++ session_id) ≡ some s.keys.decoder

  pub IsKeyed-IsSame :
      (serde : SignedSerde) (session_id secret out_salt out_info in_salt in_info : Bytes)
      (a b : Session)
      → IsSame a b
      → IsKeyed serde session_id secret out_salt out_info in_salt in_info a
      → IsKeyed serde session_id secret out_salt out_info in_salt in_info b
  IsKeyed-IsSame serde session_id secret out_salt out_info in_salt in_info a b h k = record {
    session_id_same = h.session_id ∙ k.session_id_same;
    own = ap (λ keys. keys.private_key) h.keys ∙ k.own;
    remote = ap (λ keys. keys.remote) h.keys ∙ k.remote;
    encoder = k.encoder ∙ ap (λ keys. some keys.encoder) (sym h.keys);
    decoder = k.decoder ∙ ap (λ keys. some keys.decoder) (sym h.keys);
  }

  pub create_transport-Ends :
      (serde : SignedSerde)
      (secret session_id local_salt local_info remote_salt remote_info : Bytes)
      (rs : List ReadResult) (ws : List Bool) (s : Session) (rs2 : List ReadResult)
      (ws2 : List Bool)
      → Ends
          (create_transport x c p serde secret session_id local_salt local_info remote_salt
            remote_info)
          rs
          ws
          s
          rs2
          ws2
      → (rs2 ≡ rs) × IsKeyed serde session_id secret local_salt local_info remote_salt remote_info s
  unfolding create_transport
  create_transport-Ends serde secret session_id local_salt local_info remote_salt remote_info rs ws
        s rs2 ws2 h =
      let (encoder, he, h1) = play-or_fail rs ws s rs2 ws2 _ _ _ h in
      let (decoder, hd, h2) = play-or_fail rs ws s rs2 ws2 _ _ _ h1 in
      let (same, e) = play-pure rs ws s rs2 ws2 _ h2 in
      (
        e,
        record {
          session_id_same = ap (λ t. t.session_id) (sym same);
          own = ap (λ t. t.keys.private_key) (sym same);
          remote = ap (λ t. t.keys.remote) (sym same);
          encoder = he ∙ ap (λ t. some t.keys.encoder) same;
          decoder = hd ∙ ap (λ t. some t.keys.decoder) same;
        },
      )

  pub set_resumption_root-IsSame :
      (s : Session) (secret : Bytes) → IsSame s (set_resumption_root p s secret)
  unfolding set_resumption_root
  set_resumption_root-IsSame s secret = record { session_id = refl; keys = refl }
