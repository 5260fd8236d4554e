-- ===== src/Broker/Codec/Notify.antt =====
-- NOTIFY packets and their plaintexts (pkg/relayconn/broker/codec.go): the builders against the parsers.
use kamune.Prelude.{
  ℕ, ◌%◌, ◌<◌, ◌≤◌, ◌≡◌, ap, ◌∙◌, arith, le→ltb, [], ◌++◌, Bytes, length, take, drop, length-append,
  take-append, take_all, drop-append, drop_past, put_uint16, uint16, uint16-put_uint16,
  length-put_uint16, put_uint32, uint32, uint32-put_uint32, length-put_uint32, ok,
}
use native.Mathlib.Nat.{mod-eq_of_lt}
use kamune.Broker.Codec.{
  slice, pad_or_truncate, to4, nil_or, build_notify, parse_notify, peer_matched_plaintext,
  token_assigned_plaintext, parse_notify_payload, notify_peer_matched, notify_token_assigned,
}
use kamune.Broker.Codec.RoundTrip.{length-pad_or_truncate}

-- A NOTIFY with a 32-byte key and a 24-byte nonce is read back whole, whatever is sealed.
pub parse_notify-build_notify :
    (pub_key nonce sealed : Bytes)
    → length pub_key ≡ 32
    → length nonce ≡ 24
    → parse_notify (build_notify pub_key nonce sealed) ≡ ok (pub_key, nonce, sealed)
unfolding parse_notify build_notify
parse_notify-build_notify pub_key nonce sealed hp hn =
    rw (le→ltb (length packet) 62 long, le→ltb (length packet) 4 (omega arith))
      λ i. ok (take-append 32 pub_key (nonce ++ sealed) hp i, nonce_back i, sealed_back i)
  where
    packet : Bytes
    packet = build_notify pub_key nonce sealed

    long : 62 ≤ length packet
    long = omega (arith, length-append pub_key (nonce ++ sealed), length-append nonce sealed)

    nonce_back : slice packet 38 62 ≡ nonce
    nonce_back =
        ap (take 24) (drop-append 32 pub_key (nonce ++ sealed) hp) ∙ take-append 24 nonce sealed hn

    sealed_back : drop 62 packet ≡ sealed
    sealed_back = drop_past 32 24 pub_key (nonce ++ sealed) hp ∙ drop-append 24 nonce sealed hn

-- The payload of a match comes back as it was padded.
pub parse_notify_payload-peer_matched :
    (token pub_key ip : Bytes) (port : ℕ)
    → port < 65536
    → parse_notify_payload (peer_matched_plaintext token pub_key ip port)
      ≡ ok (record {
        token = pad_or_truncate token 16;
        other_peer_eph_pub = pad_or_truncate pub_key 32;
        ip = pad_or_truncate (nil_or (to4 ip)) 4;
        ttl_seconds = 0;
        port = port;
        type = notify_peer_matched;
      })
unfolding parse_notify_payload peer_matched_plaintext
parse_notify_payload-peer_matched token pub_key ip port h =
    rw (le→ltb (length plain) 1 (omega arith), le→ltb (length plain) 55 long)
      λ i. ok (record {
        token = take-append 16 tk (pk ++ (ad ++ last)) ht i;
        other_peer_eph_pub = key_back i;
        ip = address_back i;
        ttl_seconds = 0;
        port = port_back i;
        type = notify_peer_matched;
      })
  where
    tk : Bytes
    tk = pad_or_truncate token 16

    pk : Bytes
    pk = pad_or_truncate pub_key 32

    ad : Bytes
    ad = pad_or_truncate (nil_or (to4 ip)) 4

    last : Bytes
    last = put_uint16 port

    ht : length tk ≡ 16
    ht = length-pad_or_truncate token 16

    hp : length pk ≡ 32
    hp = length-pad_or_truncate pub_key 32

    ha : length ad ≡ 4
    ha = length-pad_or_truncate (nil_or (to4 ip)) 4

    plain : Bytes
    plain = peer_matched_plaintext token pub_key ip port

    long : 55 ≤ length plain
    long = omega (
      arith,
      ht,
      hp,
      ha,
      length-append tk (pk ++ (ad ++ last)),
      length-append pk (ad ++ last),
      length-append ad last,
      length-put_uint16 port,
    )

    key_back : slice plain 17 49 ≡ pk
    key_back =
        ap (take 32) (drop-append 16 tk (pk ++ (ad ++ last)) ht) ∙ take-append 32 pk (ad ++ last) hp

    address_back : slice plain 49 53 ≡ ad
    address_back =
        ap (take 4) (drop_past 16 32 tk (pk ++ (ad ++ last)) ht ∙ drop-append 32 pk (ad ++ last) hp)
        ∙ take-append 4 ad last ha

    port_back : uint16 (slice plain 53 55) ≡ port
    port_back =
        ap (λ (b : Bytes). uint16 (take 2 b))
          (drop_past 16 36 tk (pk ++ (ad ++ last)) ht
            ∙ drop_past 32 4 pk (ad ++ last) hp
            ∙ drop-append 4 ad last ha)
        ∙ ap uint16 (take_all 2 last (length-put_uint16 port))
        ∙ uint16-put_uint16 port
        ∙ mod-eq_of_lt h

-- The payload of an assigned token comes back: the token padded, the seconds modulo 2 ^ 32.
pub parse_notify_payload-token_assigned :
    (token : Bytes) (seconds : ℕ)
    → parse_notify_payload (token_assigned_plaintext token seconds)
      ≡ ok (record {
        token = pad_or_truncate token 16;
        other_peer_eph_pub = [];
        ip = [];
        ttl_seconds = seconds % 4294967296;
        port = 0;
        type = notify_token_assigned;
      })
unfolding parse_notify_payload token_assigned_plaintext
parse_notify_payload-token_assigned token seconds =
    rw (le→ltb (length plain) 1 (omega arith), le→ltb (length plain) 21 long)
      λ i. ok (record {
        token = take-append 16 tk last (length-pad_or_truncate token 16) i;
        other_peer_eph_pub = [];
        ip = [];
        ttl_seconds = seconds_back i;
        port = 0;
        type = notify_token_assigned;
      })
  where
    tk : Bytes
    tk = pad_or_truncate token 16

    last : Bytes
    last = put_uint32 seconds

    plain : Bytes
    plain = token_assigned_plaintext token seconds

    long : 21 ≤ length plain
    long =
        omega
          (arith, length-pad_or_truncate token 16, length-append tk last, length-put_uint32 seconds)

    seconds_back : uint32 (slice plain 17 21) ≡ seconds % 4294967296
    seconds_back =
        ap (λ (b : Bytes). uint32 (take 4 b))
          (drop-append 16 tk last (length-pad_or_truncate token 16))
        ∙ ap uint32 (take_all 4 last (length-put_uint32 seconds))
        ∙ uint32-put_uint32 seconds
