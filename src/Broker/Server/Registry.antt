-- ===== src/Broker/Server/Registry.antt =====
-- The registry of the broker over the turns of Run.
use kamune.Prelude.{
  ℕ, ◌+◌, ◌≡◌, refl, ap, ◌∙◌, inl, inr, arith, Bool, false, not, Bool-cases, Option-cases,
  Result-cases, ltb, Option, none, some, List, [], ◌∷◌, Bytes, length, length-drop, bytes_equal,
  ◌||◌, ◌==◌, ok,
}
use kamune.Prelude.Dict
use kamune.Broker.Codec.{to4, parse_register, Register}
use kamune.Broker.Codec.RoundTrip.{parse_register_inversion, length-slice}
use kamune.Broker.Crypto.{Primitives}
use kamune.Broker.Server.{
  UdpAddr, Registration, Server, Draws, new, is_zero_bytes, ipv4_from_addr, purge_expired, Event,
  received, timed_out, step, run, allowed, hex_key, valid_ipv4, static_register,
  handle_random_register, handle_static_register, register_parsed, handle_register, handle_echo,
  dispatch,
}

-- A held registration has an IPv4 source address and a full, non-zero public key.
pub record IsHeld (r : Registration) : Type 0 where
  pub source : length r.addr.ip ≡ 4
  pub key_size : length r.peer_eph_pub ≡ 32
  pub key_nonzero : is_zero_bytes r.peer_eph_pub ≡ false

pub record IsSound (s : Server) : Type 0 where
  pub unique : Dict.IsUnique s.registry
  pub held : Dict.AllValues IsHeld s.registry

pub length-to4 : (ip ip4 : Bytes) → to4 ip ≡ some ip4 → length ip4 ≡ 4
unfolding to4
length-to4 ip ip4 h = ground (arith, length-drop 12 ip)

length-ipv4_from_addr : (src src4 : UdpAddr) → ipv4_from_addr src ≡ some src4 → length src4.ip ≡ 4
unfolding ipv4_from_addr
length-ipv4_from_addr src src4 h = ground (arith, length-to4 src.ip src4.ip)

-- `purge_expired` keeps the registry sound.
purge_expired-IsSound : (now : ℕ) (s : Server) → IsSound s → IsSound (purge_expired now s)
unfolding purge_expired
purge_expired-IsSound now s h = record {
  unique = Dict.retain-IsUnique (λ r. not (ltb r.expires now)) s.registry h.unique;
  held = Dict.retain-AllValues IsHeld (λ r. not (ltb r.expires now)) s.registry h.held;
}

insert-IsSound :
    (k : Bytes) (r : Registration) (s : Server)
    → IsHeld r
    → IsSound s
    → IsSound (record s { registry = Dict.insert k r s.registry })
insert-IsSound k r s v h = record {
  unique = Dict.insert-IsUnique k r s.registry h.unique;
  held = Dict.insert-AllValues IsHeld k r s.registry v h.held;
}

module _ (c : Primitives) (s : Server) (h : IsSound s) where
  static_register-IsSound :
      (o : Option Registration) (r : Register) (src : UdpAddr) (now : ℕ) (draws : Draws)
      → Dict.lookup (hex_key r.token) s.registry ≡ o
      → length src.ip ≡ 4
      → length r.peer_eph_pub ≡ 32
      → is_zero_bytes r.peer_eph_pub ≡ false
      → IsSound (static_register c o s r src now draws).0
  unfolding static_register
  static_register-IsSound none r src now draws e hs hk hz =
      insert-IsSound (hex_key r.token) _ s (record { source = hs; key_size = hk; key_nonzero = hz })
        h
  static_register-IsSound (some held) r src now draws e hs hk hz =
      let old : IsHeld held = Dict.lookup-AllValues IsHeld _ s.registry held h.held e in
      elim (Bool-cases (bytes_equal held.peer_eph_pub r.peer_eph_pub)) [
        | inl q ↦ rw q (
            insert-IsSound (hex_key r.token) (record held { expires = now + s.ttl }) s
              (record {
                source = old.source;
                key_size = old.key_size;
                key_nonzero = old.key_nonzero;
              })
              h)
        | inr q ↦ rw q (record {
          unique = Dict.delete-IsUnique (hex_key r.token) s.registry h.unique;
          held = Dict.delete-AllValues IsHeld (hex_key r.token) s.registry h.held;
        })
      ]

  random_register-IsSound :
      (pub_key : Bytes) (src : UdpAddr) (now : ℕ) (draws : Draws)
      → length src.ip ≡ 4
      → length pub_key ≡ 32
      → is_zero_bytes pub_key ≡ false
      → IsSound (handle_random_register c s pub_key src now draws).0
  unfolding handle_random_register
  random_register-IsSound pub_key src now draws hs hk hz = elim (Option-cases draws.token) [
    | inl e ↦ rw (e, handle_random_register) h
    | inr (key, e) ↦
        rw (e, handle_random_register)
          (insert-IsSound (hex_key key) _ s
            (record { source = hs; key_size = hk; key_nonzero = hz }) h)
  ]

  register_parsed-IsSound :
      (r : Register) (src : UdpAddr) (now : ℕ) (draws : Draws)
      → length r.peer_eph_pub ≡ 32
      → IsSound (register_parsed c s r src now draws).0
  unfolding register_parsed handle_static_register
  register_parsed-IsSound r src now draws hk =
      elim (Bool-cases (not (valid_ipv4 r.ip) || r.port == 0)) [
        | inl e ↦ rw e h
        | inr e ↦ rw e (elim (Bool-cases (is_zero_bytes r.peer_eph_pub)) [
          | inl z ↦ rw z h
          | inr z ↦ rw z (elim (Option-cases (ipv4_from_addr src)) [
            | inl a ↦ rw (a, register_parsed) h
            | inr (src4, a) ↦
                rw (a, register_parsed)
                  (elim (Bool-cases (is_zero_bytes r.token)) [
                    | inl t ↦ rw t (
                        random_register-IsSound r.peer_eph_pub src4 now draws
                          (length-ipv4_from_addr src src4 a) hk z)
                    | inr t ↦ rw t (
                        static_register-IsSound _ r src4 now draws refl
                          (length-ipv4_from_addr src src4 a) hk z)
                  ])
          ])
        ])
      ]

  handle_register-IsSound :
      (allow : Option (Bytes → Bool)) (pkt : Bytes) (src : UdpAddr) (now : ℕ) (draws : Draws)
      → IsSound (handle_register c allow s pkt src now draws).0
  unfolding handle_register
  handle_register-IsSound allow pkt src now draws = elim (Bool-cases (allowed allow src)) [
    | inl a ↦ rw a (elim (Result-cases (parse_register pkt)) [
      | inl (r, e) ↦
          rw (e, handle_register) (register_parsed-IsSound r src now draws (parsed_key_size r e))
      | inr (x, e) ↦ rw (e, handle_register) h
    ])
    | inr a ↦ rw a h
  ]
    where
      parsed_key_size : (r : Register) → parse_register pkt ≡ ok r → length r.peer_eph_pub ≡ 32
      parsed_key_size r e =
          let (long, _, fields) = parse_register_inversion pkt r e in
          ap (λ (q : Register). length q.peer_eph_pub) fields ∙ length-slice pkt 22 32 (omega arith)

  -- No packet from anybody, of any content, breaks the registry.
  dispatch-IsSound :
      (ip_string : Bytes → Bytes) (allow : Option (Bytes → Bool)) (pkt : Bytes) (src : UdpAddr)
      (now : ℕ) (draws : Draws)
      → IsSound (dispatch c ip_string allow s pkt src now draws).0
  unfolding dispatch handle_echo
  dispatch-IsSound ip_string allow pkt src now draws =
      ground (arith, h, handle_register-IsSound allow pkt src now draws)

step-IsSound :
    (c : Primitives) (ip_string : Bytes → Bytes) (s : Server) (e : ℕ × Event)
    → IsSound s
    → IsSound (step c ip_string s e).0
unfolding step
step-IsSound c ip_string s (now, received allow pkt src draws) h =
    dispatch-IsSound c s h ip_string allow pkt src now draws
step-IsSound c ip_string s (now, timed_out) h = purge_expired-IsSound now s h

run_from-IsSound :
    (c : Primitives) (ip_string : Bytes → Bytes) (s : Server) (es : List (ℕ × Event))
    → IsSound s
    → IsSound (run c ip_string s es).0
unfolding run
run_from-IsSound c ip_string s [] h = h
run_from-IsSound c ip_string s (e ∷ es) h =
    run_from-IsSound c ip_string (step c ip_string s e).0 es (step-IsSound c ip_string s e h)

-- In every state that the server reaches from New, by any packets at any times, no token stands
-- twice in the registry, and every registration has an IPv4 address and a non-zero 32-byte key.
pub run-IsSound :
    (c : Primitives) (ip_string : Bytes → Bytes) (cfg_ttl : ℕ) (es : List (ℕ × Event))
    → IsSound (run c ip_string (new cfg_ttl) es).0
run-IsSound c ip_string cfg_ttl es =
    run_from-IsSound c ip_string (new cfg_ttl) es (unfold new in record { unique = tt; held = tt })
