-- ===== src/Broker/Server.antt =====
-- cmd/relay/internal/broker/broker.go: the registry of waiting peers and the handlers of its packets.
-- A handler returns the new state and the datagrams that it writes, in order. Time is nanoseconds;
-- the randomness that a handler draws is its argument, and `none` is a failed rand.Read. The mutex
-- makes each handler one step. A datagram whose write fails is lost, and nothing else changes.
pub mod Registry
pub mod Entries
pub mod Sealing
pub mod Peers
pub mod Rendezvous
pub mod Refresh
use kamune.Prelude.{
  ℕ, ◌+◌, ◌*◌, ◌/◌, ◌%◌, Bool, true, false, ◌&&◌, ◌||◌, not, if◌then◌else◌, ltb, ◌==◌, Option, none,
  some, List, [], ◌∷◌, ◌++◌, Bytes, bytes_equal, length, get_or, decimal, hex, Result, ok, err,
}
use kamune.Prelude.Dict
use kamune.Prelude.Dict.{Dict}
use kamune.Broker.Codec.{
  to4, parse_register, Register, token_assigned_plaintext, peer_matched_plaintext, build_notify,
  notify_peer_matched, notify_token_assigned,
}
use kamune.Broker.Crypto.{Primitives, Ecdh, new_ecdh, exchange, seal_notify}

pub record UdpAddr : Type 0 where
  pub ip : Bytes
  pub port : ℕ

pub record Registration : Type 0 where
  pub addr : UdpAddr
  pub peer_eph_pub : Bytes
  pub expires : ℕ

pub record Server : Type 0 where
  pub registry : Dict Registration
  pub ttl : ℕ

pub record Datagram : Type 0 where
  pub payload : Bytes
  pub dst : UdpAddr

-- What one packet may draw: a random token, and one seed for each NOTIFY.
pub record Draws : Type 0 where
  pub token : Option Bytes
  pub first : ℕ
  pub second : ℕ

-- New: a registration lives 60 seconds unless the configuration says otherwise.
unfoldable pub new : ℕ → Server
new cfg_ttl = record { registry = []; ttl = if cfg_ttl == 0 then 60 * 1000000000 else cfg_ttl }

unfoldable pub hex_key : Bytes → Bytes
hex_key token = hex token

unfoldable pub is_zero_bytes : Bytes → Bool
is_zero_bytes [] = true
is_zero_bytes (x ∷ b) = x == 0 && is_zero_bytes b

unfoldable pub ipv4_from_addr : UdpAddr → Option UdpAddr
ipv4_from_addr addr = elim (to4 addr.ip) [
  | none ↦ none
  | some ip ↦ some (record { ip = ip; port = addr.port })
]

-- net.IP.String of four bytes.
unfoldable pub dotted : Bytes → Bytes
dotted ip =
    decimal (get_or ip 0 0)
    ++ (b'.'
        ∷ (decimal (get_or ip 1 0)
            ++ (b'.' ∷ (decimal (get_or ip 2 0) ++ (b'.' ∷ decimal (get_or ip 3 0))))))

unfoldable pub ipv4_key_from_addr : UdpAddr → Bytes
ipv4_key_from_addr addr = elim (to4 addr.ip) [ none ↦ [] | some ip ↦ dotted ip ]

unfoldable pub valid_ipv4 : Bytes → Bool
valid_ipv4 ip = elim (to4 ip) [ none ↦ false | some ip4 ↦ not (is_zero_bytes ip4) ]

-- allowEcho and allowRegister: with no limiter everything passes.
unfoldable pub allowed : Option (Bytes → Bool) → UdpAddr → Bool
allowed none src = true
allowed (some allow) src = allow (ipv4_key_from_addr src)

-- uint32(b.ttl.Seconds()), exact below 2 ^ 23 seconds.
abbrev pub ttl_seconds : Server → ℕ
ttl_seconds s = s.ttl / 1000000000 % 4294967296

-- purgeExpired: `now.After(r.expires)` entries go.
unfoldable pub purge_expired : ℕ → Server → Server
purge_expired now s = record s { registry = Dict.retain (λ r. not (ltb r.expires now)) s.registry }

module _ (c : Primitives) where
  -- The tail of sendNotify, with the broker's fresh key pair.
  notify_with : Option Ecdh → Bytes → Bytes → UdpAddr → ℕ → List Datagram
  notify_with none plaintext peer_eph_pub dst seed = []
  notify_with (some e) plaintext peer_eph_pub dst seed = elim (exchange c e peer_eph_pub) [
    | none ↦ []
    | some shared ↦
        (let (nonce, sealed) = seal_notify c (c.sha256 shared) e.public_key plaintext seed in
          record { payload = build_notify e.public_key nonce sealed; dst = dst } ∷ [])
  ]

  unfoldable pub send_notify : Bytes → Bytes → UdpAddr → ℕ → List Datagram
  unfolding notify_with
  send_notify plaintext peer_eph_pub dst seed =
      notify_with (new_ecdh c seed) plaintext peer_eph_pub dst seed

  unfoldable pub send_token_assigned : Server → Bytes → Bytes → UdpAddr → ℕ → List Datagram
  send_token_assigned s token peer_eph_pub dst seed =
      send_notify (token_assigned_plaintext token (ttl_seconds s)) peer_eph_pub dst seed

  -- First the new peer is told of the held one, then the held peer of the new one.
  unfoldable pub send_peer_matched :
      Bytes → Registration → Bytes → UdpAddr → Bytes → ℕ → Draws → List Datagram
  send_peer_matched token held new_pub new_addr new_ip new_port draws =
      elim (ipv4_from_addr held.addr) [
        | none ↦ []
        | some held_ip ↦
            send_notify
              (peer_matched_plaintext token held.peer_eph_pub held_ip.ip (held.addr.port % 65536))
              new_pub new_addr draws.first
            ++ send_notify (peer_matched_plaintext token new_pub new_ip new_port) held.peer_eph_pub
                held.addr draws.second
      ]

  unfoldable pub handle_random_register :
      Server → Bytes → UdpAddr → ℕ → Draws → Server × List Datagram
  handle_random_register s peer_eph_pub src now draws = elim draws.token [
    | none ↦ (s, [])
    | some key ↦ (
      record s {
        registry =
            Dict.insert (hex_key key)
              (record { addr = src; peer_eph_pub = peer_eph_pub; expires = now + s.ttl })
              s.registry;
      },
      send_token_assigned s key peer_eph_pub src draws.first,
    )
  ]

  -- Refresh, hold or match, by what the registry holds under the token.
  pub static_register :
      Option Registration → Server → Register → UdpAddr → ℕ → Draws → Server × List Datagram
  static_register none s r src now draws = (
    record s {
      registry =
          Dict.insert (hex_key r.token)
            (record { addr = src; peer_eph_pub = r.peer_eph_pub; expires = now + s.ttl })
            s.registry;
    },
    [],
  )
  static_register (some held) s r src now draws =
      if bytes_equal held.peer_eph_pub r.peer_eph_pub
      then (
        record s {
          registry =
              Dict.insert (hex_key r.token) (record held { expires = now + s.ttl }) s.registry;
        },
        [],
      )
      else (
        record s { registry = Dict.delete (hex_key r.token) s.registry },
        send_peer_matched r.token held r.peer_eph_pub src r.ip r.port draws,
      )

  unfoldable pub handle_static_register :
      Server → Register → UdpAddr → ℕ → Draws → Server × List Datagram
  unfolding static_register
  handle_static_register s r src now draws =
      static_register (Dict.lookup (hex_key r.token) s.registry) s r src now draws

  -- handleRegister behind its parser: the checks on the fields, then the two modes.
  unfoldable pub register_parsed : Server → Register → UdpAddr → ℕ → Draws → Server × List Datagram
  register_parsed s r src now draws =
      if not (valid_ipv4 r.ip) || r.port == 0
      then (s, [])
      else (if is_zero_bytes r.peer_eph_pub then (s, []) else elim (ipv4_from_addr src) [
        | none ↦ (s, [])
        | some src4 ↦
            if is_zero_bytes r.token
            then handle_random_register s r.peer_eph_pub src4 now draws
            else handle_static_register s r src4 now draws
      ])

  unfoldable pub handle_register :
      Option (Bytes → Bool) → Server → Bytes → UdpAddr → ℕ → Draws → Server × List Datagram
  handle_register allow s pkt src now draws =
      if not (allowed allow src)
      then (s, [])
      else elim (parse_register pkt) [ err e ↦ (s, []) | ok r ↦ register_parsed s r src now draws ]

  -- `ip_string` is net.IP.String for an address that is not IPv4, bracketed as JoinHostPort does.
  module _ (ip_string : Bytes → Bytes) where
    unfoldable pub build_echo_response : UdpAddr → Bytes
    build_echo_response addr =
        elim (to4 addr.ip) [ none ↦ ip_string addr.ip | some ip ↦ dotted ip ]
        ++ (b':' ∷ (decimal addr.port ++ 0 ∷ []))

    unfoldable pub handle_echo : Option (Bytes → Bool) → Server → UdpAddr → Server × List Datagram
    handle_echo allow s src =
        if not (allowed allow src)
        then (s, [])
        else (s, record { payload = build_echo_response src; dst = src } ∷ [])

    unfoldable pub dispatch :
        Option (Bytes → Bool) → Server → Bytes → UdpAddr → ℕ → Draws → Server × List Datagram
    dispatch allow s pkt src now draws =
        if ltb (length pkt) 6
        then (s, [])
        else (if not (
              get_or pkt 0 0 == b'K'
              && get_or pkt 1 0 == b'B'
              && get_or pkt 2 0 == b'R'
              && get_or pkt 3 0 == b'K')
            then (s, [])
            else (if not (get_or pkt 4 0 == 1)
                then (s, [])
                else (if get_or pkt 5 0 == 1
                    then handle_echo allow s src
                    else (if get_or pkt 5 0 == 2
                        then handle_register allow s pkt src now draws
                        else (s, [])))))

-- One turn of the loop of Run: a datagram that was read, or a read deadline that passed.
pub data Event : Type 0 where
  received : Option (Bytes → Bool) → Bytes → UdpAddr → Draws → Event
  timed_out : Event

module _ (c : Primitives) (ip_string : Bytes → Bytes) where
  unfoldable pub step : Server → ℕ × Event → Server × List Datagram
  step s (now, received allow pkt src draws) = dispatch c ip_string allow s pkt src now draws
  step s (now, timed_out) = (purge_expired now s, [])

  -- The state after the given turns, and everything written during them.
  unfoldable pub run : Server → List (ℕ × Event) → Server × List Datagram
  run s [] = (s, [])
  run s (e ∷ es) = let (s', out) = step s e in let (s'', more) = run s' es in (s'', out ++ more)
