-- ===== src/Broker/Codec/RoundTrip.antt =====
-- REGISTER packets (pkg/relayconn/broker/codec.go): BuildRegister against ParseRegister.
use kamune.Prelude.{
  ℕ, ◌+◌, ◌-◌, ◌<◌, ◌≤◌, ◌≡◌, sym, ap, ◌∙◌, arith, le→ltb, [], ◌∷◌, ◌++◌, Bytes, All, IsByte,
  length, take, drop, replicate, length-append, length-take, length-drop, take_split, drop-drop,
  All-take, All-drop, put_uint16-uint16, length-replicate, take-append, take_all, drop-append,
  drop_past, put_uint16, uint16, uint16-put_uint16, length-put_uint16, ok,
}
use native.Mathlib.Nat.{mod-eq_of_lt}
use mathlib.Core.List.{append-nil, append_assoc}
use kamune.Broker.Codec.{
  ver, opcode_register, Register, pad_or_truncate, to4, ipv4_or_zero, build_register,
  parse_register, slice, magic,
}

pub length-pad_or_truncate : (b : Bytes) (n : ℕ) → length (pad_or_truncate b n) ≡ n
unfolding pad_or_truncate
length-pad_or_truncate b n = omega (
  arith,
  length-append (take n b) (replicate (n - length b) 0),
  length-take n b,
  length-replicate {A = ℕ} (n - length b) 0,
)

pub pad_or_truncate_exact : (b : Bytes) (n : ℕ) → length b ≡ n → pad_or_truncate b n ≡ b
unfolding pad_or_truncate
pad_or_truncate_exact b n h =
    let none_left : n - length b ≡ 0 = omega arith in rw (none_left, take_all n b h) (append-nil b)

abbrev register_packet : Bytes → Bytes → Bytes → Bytes → Bytes
register_packet tk pk ip rest = magic ++ (ver ∷ opcode_register ∷ (tk ++ (pk ++ (ip ++ rest))))

-- Fields of the right lengths are cut out where they stand.
parse_register_fields :
    (tk pk ip rest : Bytes)
    → length tk ≡ 16
    → length pk ≡ 32
    → length ip ≡ 4
    → 2 ≤ length rest
    → parse_register (register_packet tk pk ip rest)
      ≡ ok (record { token = tk; peer_eph_pub = pk; ip = ip; port = uint16 (take 2 rest) })
unfolding parse_register
parse_register_fields tk pk ip rest ht hp hi hr =
    rw
      (
        le→ltb (length (register_packet tk pk ip rest)) 60 long,
        le→ltb (length (register_packet tk pk ip rest)) 4 (omega arith),
      )
      λ i. ok (record {
        token = take-append 16 tk (pk ++ (ip ++ rest)) ht i;
        peer_eph_pub = pub_key i;
        ip = address i;
        port = uint16 (last i);
      })
  where
    long : 60 ≤ length (register_packet tk pk ip rest)
    long = omega (
      arith,
      length-append tk (pk ++ (ip ++ rest)),
      length-append pk (ip ++ rest),
      length-append ip rest,
    )

    pub_key : slice (register_packet tk pk ip rest) 22 54 ≡ pk
    pub_key =
        ap (take 32) (drop-append 16 tk (pk ++ (ip ++ rest)) ht) ∙ take-append 32 pk (ip ++ rest) hp

    address : slice (register_packet tk pk ip rest) 54 58 ≡ ip
    address =
        ap (take 4) (drop_past 16 32 tk (pk ++ (ip ++ rest)) ht ∙ drop-append 32 pk (ip ++ rest) hp)
        ∙ take-append 4 ip rest hi

    last : slice (register_packet tk pk ip rest) 58 60 ≡ take 2 rest
    last = ap (take 2) (
        drop_past 16 36 tk (pk ++ (ip ++ rest)) ht
        ∙ drop_past 32 4 pk (ip ++ rest) hp
        ∙ drop-append 4 ip rest hi)

-- Whatever follows the 60 bytes is ignored, and the fields come back as they were padded.
pub parse_register-build_register :
    (token pub_key ip : Bytes) (port : ℕ) (more : Bytes)
    → port < 65536
    → parse_register (build_register token pub_key ip port ++ more)
      ≡ ok (record {
        token = pad_or_truncate token 16;
        peer_eph_pub = pad_or_truncate pub_key 32;
        ip = pad_or_truncate (ipv4_or_zero (to4 ip)) 4;
        port = port;
      })
unfolding parse_register build_register
parse_register-build_register token pub_key ip port more h =
    rw (append_assoc, append_assoc, append_assoc)
      (parse_register_fields tk pk ad (put_uint16 port ++ more) (length-pad_or_truncate token 16)
          (length-pad_or_truncate pub_key 32) (length-pad_or_truncate (ipv4_or_zero (to4 ip)) 4)
          (omega (arith, length-append (put_uint16 port) more, length-put_uint16 port))
        ∙ λ i. ok (record { token = tk; peer_eph_pub = pk; ip = ad; port = port_back i }))
  where
    tk : Bytes
    tk = pad_or_truncate token 16

    pk : Bytes
    pk = pad_or_truncate pub_key 32

    ad : Bytes
    ad = pad_or_truncate (ipv4_or_zero (to4 ip)) 4

    port_back : uint16 (take 2 (put_uint16 port ++ more)) ≡ port
    port_back =
        ap uint16 (take-append 2 (put_uint16 port) more (length-put_uint16 port))
        ∙ uint16-put_uint16 port
        ∙ mod-eq_of_lt h

abbrev pub register_of : Bytes → Register
register_of pkt = record {
  token = slice pkt 6 22;
  peer_eph_pub = slice pkt 22 54;
  ip = slice pkt 54 58;
  port = uint16 (slice pkt 58 60);
}

pub parse_register_inversion :
    (pkt : Bytes) (r : Register)
    → parse_register pkt ≡ ok r
    → (60 ≤ length pkt)
      × (take 6 pkt ≡ magic ++ (ver ∷ opcode_register ∷ []))
      × (r ≡ register_of pkt)
unfolding parse_register
parse_register_inversion (a ∷ b ∷ c ∷ d ∷ e ∷ f ∷ rest) r h = ground arith
parse_register_inversion _ r h = ground arith

pub length-slice : (b : Bytes) (lo n : ℕ) → lo + n ≤ length b → length (take n (drop lo b)) ≡ n
length-slice b lo n h = omega (arith, length-take n (drop lo b), length-drop lo b)

pub ipv4_or_zero-to4 : (ip : Bytes) → length ip ≡ 4 → ipv4_or_zero (to4 ip) ≡ ip
unfolding to4
ipv4_or_zero-to4 ip h = ground arith

-- The 60 bytes are the header and the four fields.
register_split :
    (pkt : Bytes)
    → take 60 pkt
      ≡ take 6 pkt
        ++ (take 16 (drop 6 pkt)
            ++ (take 32 (drop 22 pkt) ++ (take 4 (drop 54 pkt) ++ take 2 (drop 58 pkt))))
register_split pkt =
    take_split 6 54 pkt
    ∙ ap (◌++◌ (take 6 pkt)) (
        take_split 16 38 (drop 6 pkt)
        ∙ ap (◌++◌ (take 16 (drop 6 pkt))) (
            ap (take 38) (drop-drop 6 16 pkt)
            ∙ take_split 32 6 (drop 22 pkt)
            ∙ ap (◌++◌ (take 32 (drop 22 pkt))) (
                ap (take 6) (drop-drop 22 32 pkt)
                ∙ take_split 4 2 (drop 54 pkt)
                ∙ ap (λ b. take 4 (drop 54 pkt) ++ take 2 b) (drop-drop 54 4 pkt))))

-- Every accepted packet is an encoding: writing the parsed fields gives its first 60 bytes.
pub build_register-parse_register :
    (pkt : Bytes) (r : Register)
    → All IsByte pkt
    → parse_register pkt ≡ ok r
    → build_register r.token r.peer_eph_pub r.ip r.port ≡ take 60 pkt
build_register-parse_register pkt r bytes h =
    let (long, header, fields) = parse_register_inversion pkt r h in
    ap (λ (q : Register). build_register q.token q.peer_eph_pub q.ip q.port) fields
    ∙ of_fields long
    ∙ ap (λ (front : Bytes). front ++ rest) (sym header)
    ∙ sym (register_split pkt)
  where
    rest : Bytes
    rest =
        take 16 (drop 6 pkt)
        ++ (take 32 (drop 22 pkt) ++ (take 4 (drop 54 pkt) ++ take 2 (drop 58 pkt)))

    of_fields :
        60 ≤ length pkt
        → build_register
            (slice pkt 6 22)
            (slice pkt 22 54)
            (slice pkt 54 58)
            (uint16 (slice pkt 58 60))
          ≡ magic ++ (ver ∷ opcode_register ∷ rest)
    of_fields long =
        unfold build_register in
        rw (
          ipv4_or_zero-to4 _ (length-slice pkt 54 4 (omega arith)),
          pad_or_truncate_exact _ 16 (length-slice pkt 6 16 (omega arith)),
          pad_or_truncate_exact _ 32 (length-slice pkt 22 32 (omega arith)),
          pad_or_truncate_exact _ 4 (length-slice pkt 54 4 (omega arith)),
          put_uint16-uint16 _ (length-slice pkt 58 2 (omega arith))
              (All-take IsByte 2 (drop 58 pkt) (All-drop IsByte 58 pkt bytes)),
        )
