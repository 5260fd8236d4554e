-- ===== src/Broker/Codec.antt =====
-- pkg/relayconn/broker/codec.go: the packets of the broker protocol. A packet is a list of bytes;
-- Go's slice `b[lo:hi]` is `slice b lo hi`, and every slice below is taken after the length check.
pub mod RoundTrip
pub mod Notify
use kamune.Prelude.{
  ℕ, zero, suc, ◌+◌, ◌-◌, Bool, true, false, ◌&&◌, not, if◌then◌else◌, ltb, ◌==◌, Option, none,
  some, List, [], ◌∷◌, ◌++◌, Bytes, length, take, drop, get_or, replicate, put_uint16, uint16,
  put_uint32, uint32, Result, ok, err, ◌>>=◌, ◌>>◌, guard,
}

-- The bytes of the text "KBRK".
abbrev pub magic : Bytes
magic = 0x4b ∷ 0x42 ∷ 0x52 ∷ 0x4b ∷ []

abbrev pub ver : ℕ
ver = 1

abbrev pub opcode_echo : ℕ
opcode_echo = 1

abbrev pub opcode_register : ℕ
opcode_register = 2

abbrev pub opcode_notify : ℕ
opcode_notify = 3

abbrev pub token_size : ℕ
token_size = 16

abbrev pub x25519_key_size : ℕ
x25519_key_size = 32

abbrev pub ipv4_size : ℕ
ipv4_size = 4

abbrev pub nonce_size : ℕ
nonce_size = 24

abbrev pub header_size : ℕ
header_size = 6

abbrev pub notify_header_size : ℕ
notify_header_size = 38

abbrev pub register_size : ℕ
register_size = 60

abbrev pub peer_matched_payload_size : ℕ
peer_matched_payload_size = 55

abbrev pub token_assigned_payload_size : ℕ
token_assigned_payload_size = 21

pub data Error : Type 0 where
  short_packet bad_magic bad_version bad_opcode : Error

abbrev pub notify_peer_matched : ℕ
notify_peer_matched = 1

abbrev pub notify_token_assigned : ℕ
notify_token_assigned = 2

pub record NotifyPayload : Type 0 where
  pub token : Bytes
  pub other_peer_eph_pub : Bytes
  pub ip : Bytes
  pub ttl_seconds : ℕ  -- uint32
  pub port : ℕ  -- uint16
  pub type : ℕ  -- a byte

-- What ParseRegister returns beside its error.
pub record Register : Type 0 where
  pub token : Bytes
  pub peer_eph_pub : Bytes
  pub ip : Bytes
  pub port : ℕ  -- uint16

abbrev pub slice : Bytes → ℕ → ℕ → Bytes
slice b lo hi = take (hi - lo) (drop lo b)

-- The loop of bytesHasPrefix.
abbrev pub prefix_loop : Bytes → Bytes → Bool
prefix_loop b [] = true
prefix_loop [] (p ∷ ps) = false
prefix_loop (x ∷ b) (p ∷ ps) = x == p && prefix_loop b ps

abbrev pub bytes_has_prefix : Bytes → Bytes → Bool
bytes_has_prefix b prefix = if ltb (length b) (length prefix) then false else prefix_loop b prefix

unfoldable pub pad_or_truncate : Bytes → ℕ → Bytes
pad_or_truncate b n = take n b ++ replicate (n - length b) 0

-- net.IP.To4 of the standard library: an IPv4 address in 4 bytes or in its 16-byte form.
unfoldable pub to4 : Bytes → Option Bytes
to4 ip =
    if length ip == 4
    then some ip
    else (if length ip == 16
          && (bytes_has_prefix ip (replicate 10 0)
              && (get_or ip 10 0 == 255 && get_or ip 11 0 == 255))
        then some (drop 12 ip)
        else none)

unfoldable pub parse_echo_request : Bytes → Result Error (Unit {0})
parse_echo_request pkt = do
  guard (not (ltb (length pkt) header_size)) short_packet
  guard (bytes_has_prefix pkt magic) bad_magic
  guard (get_or pkt 4 0 == ver) bad_version
  guard (get_or pkt 5 0 == opcode_echo) bad_opcode

unfoldable pub parse_register : Bytes → Result Error Register
parse_register pkt = do
  guard (not (ltb (length pkt) register_size)) short_packet
  guard (bytes_has_prefix pkt magic) bad_magic
  guard (get_or pkt 4 0 == ver) bad_version
  guard (get_or pkt 5 0 == opcode_register) bad_opcode
  ok (record {
    token = slice pkt 6 22;
    peer_eph_pub = slice pkt 22 54;
    ip = slice pkt 54 58;
    port = uint16 (slice pkt 58 register_size);
  })

-- `ip4` of BuildRegister: zero for an address that is not IPv4.
abbrev pub ipv4_or_zero : Option Bytes → Bytes
ipv4_or_zero none = replicate ipv4_size 0
ipv4_or_zero (some ip4) = ip4

unfoldable pub build_register : Bytes → Bytes → Bytes → ℕ → Bytes
build_register token peer_eph_pub ip port =
    magic
    ++ (ver
        ∷ opcode_register
        ∷ (pad_or_truncate token token_size
            ++ (pad_or_truncate peer_eph_pub x25519_key_size
                ++ (pad_or_truncate (ipv4_or_zero (to4 ip)) ipv4_size ++ put_uint16 port))))

-- BuildNotifyPeerMatched and BuildNotifyTokenAssigned both are this call; the size is not used.
unfoldable pub build_notify : Bytes → Bytes → Bytes → Bytes
build_notify broker_eph_pub nonce sealed =
    magic ++ (ver ∷ opcode_notify ∷ (broker_eph_pub ++ (nonce ++ sealed)))

unfoldable pub parse_notify : Bytes → Result Error (Bytes × Bytes × Bytes)
parse_notify pkt = do
  guard (not (ltb (length pkt) (notify_header_size + nonce_size))) short_packet
  guard (bytes_has_prefix pkt magic) bad_magic
  guard (get_or pkt 4 0 == ver) bad_version
  guard (get_or pkt 5 0 == opcode_notify) bad_opcode
  ok (slice pkt header_size notify_header_size, slice pkt notify_header_size 62, drop 62 pkt)

-- A nil `ip.To4()` is copied as an empty slice, which leaves four zero bytes.
abbrev pub nil_or : Option Bytes → Bytes
nil_or none = []
nil_or (some b) = b

unfoldable pub peer_matched_plaintext : Bytes → Bytes → Bytes → ℕ → Bytes
peer_matched_plaintext token other_peer_eph_pub ip port =
    notify_peer_matched
    ∷ (pad_or_truncate token token_size
        ++ (pad_or_truncate other_peer_eph_pub x25519_key_size
            ++ (pad_or_truncate (nil_or (to4 ip)) ipv4_size ++ put_uint16 port)))

unfoldable pub token_assigned_plaintext : Bytes → ℕ → Bytes
token_assigned_plaintext token ttl_seconds =
    notify_token_assigned ∷ (pad_or_truncate token token_size ++ put_uint32 ttl_seconds)

-- The fields that a case of the switch does not fill keep Go's zero value.
parse_peer_matched : Bytes → Result Error NotifyPayload
parse_peer_matched plaintext = do
  guard (not (ltb (length plaintext) peer_matched_payload_size)) short_packet
  ok (record {
    token = slice plaintext 1 17;
    other_peer_eph_pub = slice plaintext 17 49;
    ip = slice plaintext 49 53;
    ttl_seconds = 0;
    port = uint16 (slice plaintext 53 peer_matched_payload_size);
    type = notify_peer_matched;
  })

parse_token_assigned : Bytes → Result Error NotifyPayload
parse_token_assigned plaintext = do
  guard (not (ltb (length plaintext) token_assigned_payload_size)) short_packet
  ok (record {
    token = slice plaintext 1 17;
    other_peer_eph_pub = [];
    ip = [];
    ttl_seconds = uint32 (slice plaintext 17 token_assigned_payload_size);
    port = 0;
    type = notify_token_assigned;
  })

unfoldable pub parse_notify_payload : Bytes → Result Error NotifyPayload
unfolding parse_peer_matched parse_token_assigned
parse_notify_payload plaintext = do
  guard (not (ltb (length plaintext) 1)) short_packet
  if get_or plaintext 0 0 == notify_peer_matched
      then parse_peer_matched plaintext
      else (if get_or plaintext 0 0 == notify_token_assigned
          then parse_token_assigned plaintext
          else err bad_opcode)

-- The additional data that binds a sealed NOTIFY to the broker's ephemeral key.
unfoldable pub build_aad : Bytes → Bytes
build_aad broker_eph_pub = magic ++ (ver ∷ opcode_notify ∷ broker_eph_pub)
