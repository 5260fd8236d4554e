-- ===== src/Broker/Server/Peers.antt =====
-- handleRegister of the broker on a packet of a peer that asks for a match.
use kamune.Prelude.{
  ℕ, ◌<◌, ◌≡◌, sym, ap, ◌∙◌, arith, Bool, true, false, le→ltb, Option, some, [], Bytes, length, ok,
}
use mathlib.Core.List.{append-nil}
use kamune.Prelude.Dict
use kamune.Broker.Codec.{
  to4, ipv4_or_zero, parse_register, build_register, Register, pad_or_truncate,
}
use kamune.Broker.Codec.RoundTrip.{parse_register-build_register, pad_or_truncate_exact}
use kamune.Broker.Crypto.{Primitives, Laws, Ecdh}
use kamune.Broker.Server.{
  UdpAddr, Server, Draws, is_zero_bytes, ipv4_from_addr, valid_ipv4, allowed, hex_key,
  static_register, handle_static_register, register_parsed, handle_register, dispatch,
}
use kamune.Broker.Server.Sealing.{IsGenerated, to4_ipv4}

-- A peer: its key pair, the address that it claims, and the address that its packets come from.
pub record Peer : Type 0 where
  pub key : Ecdh
  pub ip : Bytes
  pub port : ℕ
  pub src : UdpAddr

-- What the broker asks of a registration, and that the peer's key pair is one.
pub record IsPeer (c : Primitives) (allow : Option (Bytes → Bool)) (p : Peer) : Type 0 where
  pub generated : IsGenerated c p.key
  pub key_nonzero : is_zero_bytes p.key.public_key ≡ false
  pub ip_size : length p.ip ≡ 4
  pub ip_nonzero : is_zero_bytes p.ip ≡ false
  pub port_nonzero : 0 < p.port
  pub port_fits : p.port < 65536
  pub src_size : length p.src.ip ≡ 4
  pub src_port_fits : p.src.port < 65536
  pub let_in : allowed allow p.src ≡ true

-- The packet that Client.Register sends.
abbrev pub registers : Peer → Bytes → Bytes
registers p token = build_register token p.key.public_key p.ip p.port

abbrev pub parsed : Peer → Bytes → Register
parsed p token = record { token = token; peer_eph_pub = p.key.public_key; ip = p.ip; port = p.port }

pub ipv4_from_addr_ipv4 : (a : UdpAddr) → length a.ip ≡ 4 → ipv4_from_addr a ≡ some a
unfolding ipv4_from_addr
ipv4_from_addr_ipv4 a h = rw (to4_ipv4 a.ip h, ipv4_from_addr)

-- The two facts about a token that make it a static one.
pub record IsStatic (token : Bytes) : Type 0 where
  pub size : length token ≡ 16
  pub nonzero : is_zero_bytes token ≡ false

module _ (c : Primitives) (laws : Laws c) (ip_string : Bytes → Bytes)
    (allow : Option (Bytes → Bool)) (p : Peer) (v : IsPeer c allow p) (token : Bytes)
    (t : IsStatic token) where
  pub public_size : length p.key.public_key ≡ 32
  public_size = laws.length-public v.generated.0 p.key.private_key p.key.public_key v.generated.1

  parse_registers : parse_register (registers p token) ≡ ok (parsed p token)
  parse_registers =
      ap parse_register (sym (append-nil (registers p token)))
      ∙ parse_register-build_register token p.key.public_key p.ip p.port [] v.port_fits
      ∙ λ i. ok (record {
        token = pad_or_truncate_exact token 16 t.size i;
        peer_eph_pub = pad_or_truncate_exact p.key.public_key 32 public_size i;
        ip = address i;
        port = p.port;
      })
    where
      address : pad_or_truncate (ipv4_or_zero (to4 p.ip)) 4 ≡ p.ip
      address = rw (to4_ipv4 p.ip v.ip_size) (pad_or_truncate_exact p.ip 4 v.ip_size)

  -- A valid registration reaches the registry.
  pub dispatch-registers :
      (s : Server) (now : ℕ) (draws : Draws)
      → dispatch c ip_string allow s (registers p token) p.src now draws
        ≡ static_register c
            (Dict.lookup (hex_key token) s.registry)
            s
            (parsed p token)
            p.src
            now
            draws
  dispatch-registers s now draws = by_opcode ∙ by_fields
    where
      to_handler :
          dispatch c ip_string allow s (registers p token) p.src now draws
          ≡ handle_register c allow s (registers p token) p.src now draws
      to_handler =
          unfold dispatch build_register in rw (le→ltb (length (registers p token)) 6 (omega arith))

      from_handler :
          handle_register c allow s (registers p token) p.src now draws
          ≡ register_parsed c s (parsed p token) p.src now draws
      from_handler = unfold handle_register in rw v.let_in (rw (parse_registers, handle_register))

      by_opcode :
          dispatch c ip_string allow s (registers p token) p.src now draws
          ≡ register_parsed c s (parsed p token) p.src now draws
      by_opcode = to_handler ∙ from_handler

      by_fields :
          register_parsed c s (parsed p token) p.src now draws
          ≡ static_register c
              (Dict.lookup (hex_key token) s.registry)
              s
              (parsed p token)
              p.src
              now
              draws
      by_fields =
          unfold register_parsed handle_static_register valid_ipv4 in
          ground (
            arith,
            to4_ipv4 p.ip v.ip_size,
            v.ip_nonzero,
            v.port_nonzero,
            v.key_nonzero,
            ipv4_from_addr_ipv4 p.src v.src_size,
            t.nonzero,
          )
