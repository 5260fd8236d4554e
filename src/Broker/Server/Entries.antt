-- ===== src/Broker/Server/Entries.antt =====
-- The entries of the broker's registry under dispatch and its handlers.
use kamune.Prelude.{
  ℕ, ◌+◌, ◌≡◌, ◌∙◌, inl, inr, arith, Bool, false, Bool-cases, Option-cases, Result-cases, Option,
  none, some, Bytes, bytes_equal, ok,
}
use kamune.Prelude.Dict
use kamune.Broker.Codec.{parse_register, Register}
use kamune.Broker.Crypto.{Primitives}
use kamune.Broker.Server.{
  UdpAddr, Registration, Server, Draws, ipv4_from_addr, hex_key, static_register,
  handle_static_register, handle_random_register, register_parsed, handle_register, handle_echo,
  dispatch,
}

-- A packet other than a registration of the key's token, or one that draws it, is `Foreign`.
pub record IsForeign (k pkt : Bytes) (draws : Draws) : Type 0 where
  pub other_token :
      (r : Register) → parse_register pkt ≡ ok r → bytes_equal (hex_key r.token) k ≡ false
  pub other_draw : (t : Bytes) → draws.token ≡ some t → bytes_equal (hex_key t) k ≡ false

module _ (c : Primitives) (s : Server) (k : Bytes) where
  lookup-insert_ne :
      (j : Bytes) (r : Registration)
      → bytes_equal j k ≡ false
      → Dict.lookup k (Dict.insert j r s.registry) ≡ Dict.lookup k s.registry
  lookup-insert_ne j r n = Dict.lookup-insert j k r s.registry ∙ rw n

  static_register_frame :
      (o : Option Registration) (r : Register) (src : UdpAddr) (now : ℕ) (draws : Draws)
      → bytes_equal (hex_key r.token) k ≡ false
      → Dict.lookup k (static_register c o s r src now draws).0.registry ≡ Dict.lookup k s.registry
  unfolding static_register
  static_register_frame none r src now draws n = lookup-insert_ne (hex_key r.token) _ n
  static_register_frame (some held) r src now draws n =
      elim (Bool-cases (bytes_equal held.peer_eph_pub r.peer_eph_pub)) [
        | inl q ↦
            rw q (lookup-insert_ne (hex_key r.token) (record held { expires = now + s.ttl }) n)
        | inr q ↦ rw q (Dict.lookup-delete (hex_key r.token) k s.registry ∙ rw n)
      ]

  random_register_frame :
      (pub_key : Bytes) (src : UdpAddr) (now : ℕ) (draws : Draws)
      → ((t : Bytes) → draws.token ≡ some t → bytes_equal (hex_key t) k ≡ false)
      → Dict.lookup k (handle_random_register c s pub_key src now draws).0.registry
        ≡ Dict.lookup k s.registry
  unfolding handle_random_register
  random_register_frame pub_key src now draws n = elim (Option-cases draws.token) [
    | inl e ↦ rw (e, handle_random_register)
    | inr (t, e) ↦ rw (e, handle_random_register) (lookup-insert_ne (hex_key t) _ (n t e))
  ]

  register_parsed_frame :
      (r : Register) (src : UdpAddr) (now : ℕ) (draws : Draws)
      → bytes_equal (hex_key r.token) k ≡ false
      → ((t : Bytes) → draws.token ≡ some t → bytes_equal (hex_key t) k ≡ false)
      → Dict.lookup k (register_parsed c s r src now draws).0.registry ≡ Dict.lookup k s.registry
  unfolding register_parsed handle_static_register
  register_parsed_frame r src now draws n d = elim (Option-cases (ipv4_from_addr src)) [
    | inl a ↦ rw (a, register_parsed) (ground arith)
    | inr (src4, a) ↦
        rw (a, register_parsed)
          (ground (
            arith,
            random_register_frame r.peer_eph_pub src4 now draws d,
            static_register_frame (Dict.lookup (hex_key r.token) s.registry) r src4 now draws n,
          ))
  ]

  handle_register_frame :
      (allow : Option (Bytes → Bool)) (pkt : Bytes) (src : UdpAddr) (now : ℕ) (draws : Draws)
      → IsForeign k pkt draws
      → Dict.lookup k (handle_register c allow s pkt src now draws).0.registry
        ≡ Dict.lookup k s.registry
  unfolding handle_register
  handle_register_frame allow pkt src now draws f = elim (Result-cases (parse_register pkt)) [
    | inl (r, e) ↦
        rw (e, handle_register)
          (ground (arith, register_parsed_frame r src now draws (f.other_token r e) f.other_draw))
    | inr (x, e) ↦ rw (e, handle_register) (ground arith)
  ]

  -- A packet changes no entry but that of the token which it carries or is assigned.
  pub dispatch_frame :
      (ip_string : Bytes → Bytes) (allow : Option (Bytes → Bool)) (pkt : Bytes) (src : UdpAddr)
      (now : ℕ) (draws : Draws)
      → IsForeign k pkt draws
      → Dict.lookup k (dispatch c ip_string allow s pkt src now draws).0.registry
        ≡ Dict.lookup k s.registry
  unfolding dispatch handle_echo
  dispatch_frame ip_string allow pkt src now draws f =
      ground (arith, handle_register_frame allow pkt src now draws f)
