-- ===== src/Examples/Broker.antt =====
-- Two peers and a broker, over toy primitives that have the documented laws.
use kamune.Prelude.{
  ℕ, ◌+◌, ◌*◌, ◌≡◌, refl, sym, ap, subst, arith, false, Option, none, some, List, [], ◌∷◌, ◌++◌,
  Bytes, bytes_equal, bytes_equal_refl, hex_digit, uint16, ◌∙◌, length, get_or, replicate,
  length-replicate, hex, Result, ok, err,
}
use mathlib.Core.List.{append-nil}
use kamune.Prelude.Dict
use kamune.Broker.Codec.{
  Error, Register, build_register, parse_register, peer_matched_plaintext, pad_or_truncate, nil_or,
}
use kamune.Broker.Codec.RoundTrip.{parse_register-build_register}
use kamune.Broker.Crypto.{Primitives, Laws}
use kamune.Broker.Client.{decode_notify}
use kamune.Broker.Server.{
  Server, Draws, Event, received, timed_out, new, hex_key, run, dispatch, send_notify,
  is_zero_bytes, allowed,
}
use kamune.Broker.Server.Registry.{IsSound, run-IsSound}
use kamune.Broker.Server.Entries.{IsForeign, dispatch_frame}
use kamune.Broker.Server.Refresh.{reregister_keeps_address}
use kamune.Broker.Server.Sealing.{CanSeal, match_payload, decode_notify-send_notify}
use kamune.Broker.Server.Peers.{Peer, IsPeer, IsStatic, registers}

-- A key pair whose halves are equal, numbered by its seed.
abbrev key : ℕ → Bytes
key seed = (seed + 1) ∷ replicate 31 7

abbrev toy : Primitives
toy = record {
  generate = λ seed. some (key seed, key seed);
  x25519 = λ k p. some ((get_or k 0 0 + get_or p 0 0) ∷ []);
  sha256 = λ b. replicate 32 (get_or b 0 0);
  nonce = λ seed. replicate 24 seed;
  seal = λ k nonce plain aad. plain;
  unseal = λ k nonce sealed aad. some sealed;
}

abbrev unsome : Bytes × Bytes → Option (Bytes × Bytes) → Bytes × Bytes
unsome d none = d
unsome d (some p) = p

toy-Laws : Laws toy
toy-Laws = record {
  length-public =
      λ seed k p e. ap (λ (o : Option (Bytes × Bytes)). length (unsome ([], []) o).1) (sym e);
  length-nonce = λ seed. length-replicate 24 seed;
  length-sha256 = λ b. length-replicate 32 (get_or b 0 0);
  agreement = λ m n j p k q e f. ground arith;
  unseal-seal = λ k nonce plain aad. refl;
}

abbrev a_token : Bytes
a_token = 1 ∷ 2 ∷ 3 ∷ 4 ∷ 5 ∷ 6 ∷ 7 ∷ 8 ∷ 9 ∷ 10 ∷ 11 ∷ 12 ∷ 13 ∷ 14 ∷ 15 ∷ 16 ∷ []

abbrev other_token : Bytes
other_token = replicate 16 9

a_token-IsStatic : IsStatic a_token
unfolding is_zero_bytes
a_token-IsStatic = record { size = refl; nonzero = refl }

abbrev peer : ℕ → Bytes → ℕ → Peer
peer seed ip port = record {
  key = record { private_key = key seed; public_key = key seed };
  ip = ip;
  port = port;
  src = record { ip = ip; port = port };
}

abbrev alice : Peer
alice = peer 1 (10 ∷ 0 ∷ 0 ∷ 1 ∷ []) 4000

abbrev bob : Peer
bob = peer 2 (10 ∷ 0 ∷ 0 ∷ 2 ∷ []) 5000

abbrev ip_text : Bytes → Bytes
ip_text ip = []

abbrev empty_server : Server
empty_server = record { registry = []; ttl = 60 * 1000000000 }

abbrev draws : Draws
draws = record { token = some other_token; first = 8; second = 9 }

seals_for : (seed peer_seed : ℕ) → CanSeal toy seed (key peer_seed)
seals_for seed peer_seed =
    (key seed, key seed, (get_or (key seed) 0 0 + get_or (key peer_seed) 0 0) ∷ [], refl, refl)

abbrev alice_packet : Bytes
alice_packet = registers alice a_token

abbrev bob_packet : Bytes
bob_packet = registers bob a_token

abbrev events : List (ℕ × Event)
events =
    (5, received none alice_packet alice.src draws)
    ∷ (6, received none bob_packet bob.src draws)
    ∷ (7, received none alice_packet alice.src draws)
    ∷ (90 * 1000000000, timed_out)
    ∷ []

run-IsSound_example : IsSound (run toy ip_text (new 0) events).0
run-IsSound_example = run-IsSound toy ip_text 0 events

abbrev holds_alice : Server
holds_alice = record empty_server {
  registry =
      Dict.insert (hex_key a_token)
        (record { addr = alice.src; peer_eph_pub = alice.key.public_key; expires = 100 })
        empty_server.registry;
}

abbrev token_of : Result Error Register → Bytes
token_of (ok r) = r.token
token_of (err e) = []

alice_packet-IsForeign : IsForeign (hex_key (replicate 16 3)) alice_packet draws
unfolding hex_key hex hex_digit bytes_equal pad_or_truncate build_register
alice_packet-IsForeign = record {
  other_token = λ r e.
      subst (λ x. bytes_equal (hex_key (token_of x)) (hex_key (replicate 16 3)) ≡ false)
        (sym (
            ap parse_register (sym (append-nil alice_packet))
            ∙ parse_register-build_register a_token alice.key.public_key alice.ip alice.port []
                (omega arith))
          ∙ e)
        refl;
  other_draw = λ t e.
      subst
        (λ (x : Option Bytes). bytes_equal (hex_key (nil_or x)) (hex_key (replicate 16 3)) ≡ false)
        e refl;
}

dispatch_frame_example :
    Dict.lookup
      (hex_key (replicate 16 3))
      (dispatch toy ip_text none holds_alice alice_packet alice.src 5 draws).0.registry
    ≡ Dict.lookup (hex_key (replicate 16 3)) holds_alice.registry
dispatch_frame_example =
    dispatch_frame toy holds_alice (hex_key (replicate 16 3)) ip_text none alice_packet alice.src 5
      draws alice_packet-IsForeign

holds_alice_lookup :
    Dict.lookup (hex_key a_token) holds_alice.registry
    ≡ some (record { addr = alice.src; peer_eph_pub = alice.key.public_key; expires = 100 })
holds_alice_lookup =
    Dict.lookup-insert (hex_key a_token) (hex_key a_token)
      (record { addr = alice.src; peer_eph_pub = alice.key.public_key; expires = 100 }) []
    ∙ rw (bytes_equal_refl (hex_key a_token))

-- Alice registers again behind another address, and the entry keeps the first one.
abbrev moved_alice : Peer
moved_alice = peer 1 (192 ∷ 168 ∷ 1 ∷ 1 ∷ []) 4001

moved_alice-IsPeer : IsPeer toy none moved_alice
unfolding is_zero_bytes allowed
moved_alice-IsPeer = record {
  generated = (1, refl);
  key_nonzero = refl;
  ip_size = refl;
  ip_nonzero = refl;
  port_nonzero = omega arith;
  port_fits = omega arith;
  src_size = refl;
  src_port_fits = omega arith;
  let_in = refl;
}

reregister_keeps_address_example :
    let (s', out) =
      dispatch toy ip_text none holds_alice
        (registers moved_alice a_token)
        moved_alice.src
        50
        draws in
    (out ≡ [])
    × (Dict.lookup (hex_key a_token) s'.registry
        ≡ some (record {
          addr = alice.src;
          peer_eph_pub = alice.key.public_key;
          expires = 50 + 60 * 1000000000;
        }))
reregister_keeps_address_example =
    reregister_keeps_address toy toy-Laws ip_text none moved_alice moved_alice-IsPeer a_token
      a_token-IsStatic holds_alice
      (record { addr = alice.src; peer_eph_pub = alice.key.public_key; expires = 100 }) 50 draws
      holds_alice_lookup refl

decode_notify-send_notify_example :
    (pkt : Bytes) × (send_notify toy
        (peer_matched_plaintext a_token (key 1) alice.ip 4000)
        (key 2)
        bob.src
        8
      ≡ record { payload = pkt; dst = bob.src } ∷ [])
    × (decode_notify toy bob.key pkt ≡ ok (match_payload a_token (key 1) alice.ip 4000))
decode_notify-send_notify_example =
    decode_notify-send_notify toy toy-Laws a_token (key 1) alice.ip 4000 bob.key bob.src 8 refl refl
      refl (omega arith) (2, refl) (seals_for 8 2)

abbrev raw_register : Bytes
raw_register =
    0x4b
    ∷ 0x42
    ∷ 0x52
    ∷ 0x4b
    ∷ 1
    ∷ 2
    ∷ (a_token ++ (key 1 ++ 10 ∷ 0 ∷ 0 ∷ 1 ∷ 0x0f ∷ 0xa0 ∷ 99 ∷ []))

abbrev raw_fields : Register
raw_fields = record { token = a_token; peer_eph_pub = key 1; ip = 10 ∷ 0 ∷ 0 ∷ 1 ∷ []; port = 4000 }

raw_register_parses : parse_register raw_register ≡ ok raw_fields
unfolding parse_register uint16
raw_register_parses = refl
