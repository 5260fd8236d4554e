-- ===== src/Broker/Server/Sealing.antt =====
-- sendNotify of the broker against openNotify and decodeNotify of the client.
use kamune.Prelude.{ℕ, ◌<◌, ◌≡◌, ◌∙◌, arith, some, [], ◌∷◌, Bytes, length, Result, ok}
use kamune.Broker.Codec.{
  build_aad, build_notify, to4, nil_or, parse_notify_payload, peer_matched_plaintext,
  notify_peer_matched, pad_or_truncate, NotifyPayload,
}
use kamune.Broker.Codec.RoundTrip.{pad_or_truncate_exact}
use kamune.Broker.Codec.Notify.{parse_notify-build_notify, parse_notify_payload-peer_matched}
use kamune.Broker.Crypto.{Primitives, Laws, Ecdh, new_ecdh, exchange, seal_notify, open_notify}
use kamune.Broker.Client.{ClientError, wrap, client_open_notify, decode_notify}
use kamune.Broker.Server.{UdpAddr, send_notify}

-- A key pair that the system generated.
abbrev pub IsGenerated : Primitives → Ecdh → Type 0
IsGenerated c e = (seed : ℕ) × (c.generate seed ≡ some (e.private_key, e.public_key))

-- The broker's draw for one NOTIFY works: a key comes, and the exchange with the peer succeeds.
abbrev pub CanSeal : Primitives → ℕ → Bytes → Type 0
CanSeal c seed peer_pub =
    (k : Bytes) × (q : Bytes) × (shared : Bytes) × (c.generate seed ≡ some (k, q))
    × (c.x25519 k peer_pub ≡ some shared)

module _ (c : Primitives) (laws : Laws c) where
  -- What the broker seals for a peer is one datagram, which that peer opens to the plaintext.
  pub client_open_notify-send_notify :
      (plain : Bytes) (peer : Ecdh) (dst : UdpAddr) (seed : ℕ)
      → IsGenerated c peer
      → CanSeal c seed peer.public_key
      → (pkt : Bytes) × (send_notify c plain peer.public_key dst seed
          ≡ record { payload = pkt; dst = dst } ∷ [])
        × (client_open_notify c peer pkt ≡ ok plain)
  unfolding send_notify client_open_notify new_ecdh exchange seal_notify open_notify
  client_open_notify-send_notify plain peer dst seed (own, g) (k, q, shared, b, x) =
      (packet, sent, opened)
    where
      secret : Bytes
      secret = c.sha256 shared

      sealed : Bytes
      sealed = c.seal secret (c.nonce seed) plain (build_aad q)

      packet : Bytes
      packet = build_notify q (c.nonce seed) sealed

      sent :
          send_notify c plain peer.public_key dst seed ≡ record { payload = packet; dst = dst } ∷ []
      sent = ground (arith, b, x, laws.length-public own peer.private_key peer.public_key g)

      opened : client_open_notify c peer packet ≡ ok plain
      opened =
          rw
            (parse_notify-build_notify q (c.nonce seed) sealed (laws.length-public seed k q b)
              (laws.length-nonce seed))
            (ground (
              arith,
              laws.length-public seed k q b,
              laws.length-nonce seed,
              laws.length-sha256 shared,
              x,
              laws.agreement own seed peer.private_key peer.public_key k q g b,
              laws.unseal-seal secret (c.nonce seed) plain (build_aad q),
            ))

pub to4_ipv4 : (ip : Bytes) → length ip ≡ 4 → to4 ip ≡ some ip
unfolding to4
to4_ipv4 ip h = ground arith

-- The payload that tells a peer of `p`, reached at the given address.
abbrev pub match_payload : Bytes → Bytes → Bytes → ℕ → NotifyPayload
match_payload token pub_key ip port = record {
  token = token;
  other_peer_eph_pub = pub_key;
  ip = ip;
  ttl_seconds = 0;
  port = port;
  type = notify_peer_matched;
}

module _ (c : Primitives) (laws : Laws c) where
  -- A match datagram decodes at the peer that it is sealed for.
  pub decode_notify-send_notify :
      (token pub_key ip : Bytes) (port : ℕ) (peer : Ecdh) (dst : UdpAddr) (seed : ℕ)
      → length token ≡ 16
      → length pub_key ≡ 32
      → length ip ≡ 4
      → port < 65536
      → IsGenerated c peer
      → CanSeal c seed peer.public_key
      → (pkt : Bytes) × (send_notify c
            (peer_matched_plaintext token pub_key ip port)
            peer.public_key
            dst
            seed
          ≡ record { payload = pkt; dst = dst } ∷ [])
        × (decode_notify c peer pkt ≡ ok (match_payload token pub_key ip port))
  decode_notify-send_notify token pub_key ip port peer dst seed ht hk hi hp g b =
      let (pkt, sent, opened) =
        client_open_notify-send_notify c laws (peer_matched_plaintext token pub_key ip port) peer
          dst seed g b in
      (pkt, sent, unfold decode_notify in rw opened (read ∙ exact))
    where
      read :
          wrap (parse_notify_payload (peer_matched_plaintext token pub_key ip port))
          ≡ ok (
              match_payload
                (pad_or_truncate token 16)
                (pad_or_truncate pub_key 32)
                (pad_or_truncate (nil_or (to4 ip)) 4)
                port)
      read = rw (parse_notify_payload-peer_matched token pub_key ip port hp)

      exact :
          ◌≡◌ {A = Result ClientError NotifyPayload}
            (ok (
              match_payload
                (pad_or_truncate token 16)
                (pad_or_truncate pub_key 32)
                (pad_or_truncate (nil_or (to4 ip)) 4)
                port))
            (ok (match_payload token pub_key ip port))
      exact = rw (
        to4_ipv4 ip hi,
        pad_or_truncate_exact token 16 ht,
        pad_or_truncate_exact pub_key 32 hk,
        pad_or_truncate_exact ip 4 hi,
      )
