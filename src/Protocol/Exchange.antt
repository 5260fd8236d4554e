-- ===== src/Protocol/Exchange.antt =====
-- pkg/exchange/mlkem.go and internal/enigma: the key encapsulation and the key derivation of the handshake.
-- ML-KEM-768, HKDF-SHA512 and SHA-256 are the fields of `Primitives`, and what is documented of them is
-- `IsDocumented`. Random bytes are arguments.
use kamune.Prelude.{
  ℕ, ◌%◌, ◌≤◌, ◌<◌, ◌≡◌, refl, arith, ◌==◌, Option, none, some, [], ◌∷◌, Bytes, All, length, get_or,
  zero, suc, if◌then◌else◌,
}

pub record Primitives : Type 0 where
  -- mlkem.GenerateKey768: the encapsulation key and the decapsulation key.
  pub generate_key : Bytes → Option (Bytes × Bytes)
  -- NewEncapsulationKey768, which can refuse the key, and Encapsulate: the secret and the ciphertext.
  pub encapsulate : Bytes → Bytes → Option (Bytes × Bytes)
  -- With the decapsulation key.
  pub decapsulate : Bytes → Bytes → Option Bytes
  -- hkdf.New on key, salt and info, read up to the size.
  pub hkdf : Bytes → Bytes → Bytes → ℕ → Option Bytes
  pub sha256 : Bytes → Bytes

-- What is encapsulated with a generated key is decapsulated; HKDF gives as many bytes as are asked for,
-- up to its limit of 255 blocks of 64 bytes; and the sizes are those of FIPS 203 and 180.
pub record IsDocumented (x : Primitives) : Type 0 where
  pub decapsulate-encapsulate :
      (seed random public_key private_key : Bytes)
      → x.generate_key seed ≡ some (public_key, private_key)
      → (secret : Bytes) × (ct : Bytes) × (x.encapsulate public_key random ≡ some (secret, ct))
        × (x.decapsulate private_key ct ≡ some secret)
        × (length ct ≤ 1088)
  pub length-generate_key :
      (seed public_key private_key : Bytes)
      → x.generate_key seed ≡ some (public_key, private_key)
      → length public_key ≤ 1184
  pub hkdf_reads :
      (key salt info : Bytes) (size : ℕ)
      → size ≤ 16320
      → (out : Bytes) × (x.hkdf key salt info size ≡ some out) × (length out ≡ size)
  pub length-sha256 : (b : Bytes) → length (x.sha256 b) ≡ 32

pub record Mlkem : Type 0 where
  pub public_key : Bytes
  pub private_key : Bytes

-- The bytes of "ABCDEFGHIJKLMNOPQRSTUVWXYZ234567".
abbrev pub base32_alphabet : Bytes
base32_alphabet =
    65 ∷ 66 ∷ 67 ∷ 68 ∷ 69 ∷ 70 ∷ 71 ∷ 72 ∷ 73 ∷ 74 ∷ 75 ∷ 76 ∷ 77 ∷ 78 ∷ 79 ∷ 80 ∷ 81 ∷ 82 ∷ 83
    ∷ 84 ∷ 85 ∷ 86 ∷ 87 ∷ 88 ∷ 89 ∷ 90 ∷ 50 ∷ 51 ∷ 52 ∷ 53 ∷ 54 ∷ 55 ∷ []

-- enigma.Text on the random bytes that it draws.
unfoldable pub text : Bytes → Bytes
text [] = []
text (b ∷ bs) = get_or base32_alphabet (b % 32) 0 ∷ text bs

pub length-text : (bs : Bytes) → length (text bs) ≡ length bs
unfolding text
length-text [] = refl
length-text (b ∷ bs) = rw (length-text bs)

abbrev pub IsAscii : ℕ → Type 0
IsAscii n = n < 128

All-get_or : (P : ℕ → Type 0) (xs : Bytes) (n d : ℕ) → All P xs → P d → P (get_or xs n d)
All-get_or P [] n d h hd = hd
All-get_or P (x ∷ xs) zero d h hd = h.0
All-get_or P (x ∷ xs) (suc n) d h hd = All-get_or P xs n d h.1 hd

pub text-IsAscii : (bs : Bytes) → All IsAscii (text bs)
unfolding text
text-IsAscii [] = tt
text-IsAscii (b ∷ bs) =
    (All-get_or IsAscii base32_alphabet (b % 32) 0 (omega arith) (omega arith), text-IsAscii bs)

abbrev pub key_size : ℕ
key_size = 32

abbrev pub key_pair : Option (Bytes × Bytes) → Option Mlkem
key_pair none = none
key_pair (some (public_key, private_key)) =
    some (record { public_key = public_key; private_key = private_key })

abbrev pub aead_new : Option Bytes → Option Bytes
aead_new none = none
aead_new (some key) = if length key == key_size then some key else none

generated_key :
    (o : Option (Bytes × Bytes)) (m : Mlkem)
    → key_pair o ≡ some m
    → o ≡ some (m.public_key, m.private_key)
generated_key none m h = absurd cc
generated_key (some (public_key, private_key)) m h = ground arith

module _ (x : Primitives) where
  unfoldable pub new_mlkem : Bytes → Option Mlkem
  new_mlkem seed = key_pair (x.generate_key seed)

  -- MLKEM.Decapsulate and EncapsulateMLKEM.
  unfoldable pub decapsulate : Mlkem → Bytes → Option Bytes
  decapsulate m ct = x.decapsulate m.private_key ct

  unfoldable pub encapsulate_mlkem : Bytes → Bytes → Option (Bytes × Bytes)
  encapsulate_mlkem remote random = x.encapsulate remote random

  -- enigma.Derive
  unfoldable pub derive : Bytes → Bytes → Bytes → ℕ → Option Bytes
  derive key salt info size = x.hkdf key salt info size

  -- chacha20poly1305.NewX takes a key of 32 bytes only. An Enigma is its key.
  unfoldable pub new_enigma : Bytes → Bytes → Bytes → Option Bytes
  new_enigma secret salt info = aead_new (derive secret salt info key_size)

  module _ (documented : IsDocumented x) where
    pub derive-some :
        (key salt info : Bytes) (size : ℕ)
        → size ≤ 16320
        → (out : Bytes) × (derive key salt info size ≡ some out) × (length out ≡ size)
    unfolding derive
    derive-some key salt info size h = documented.hkdf_reads key salt info size h

    pub new_enigma-some :
        (secret salt info : Bytes) → (key : Bytes) × (new_enigma secret salt info ≡ some key)
    unfolding new_enigma
    new_enigma-some secret salt info =
        let (key, e, l) = derive-some secret salt info key_size (omega arith) in
        (key, rw e (rw l refl))

    pub decapsulate-encapsulate_mlkem :
        (seed random : Bytes) (m : Mlkem)
        → new_mlkem seed ≡ some m
        → (secret : Bytes) × (ct : Bytes) × (encapsulate_mlkem m.public_key random
            ≡ some (secret, ct))
          × (decapsulate m ct ≡ some secret)
          × (length ct ≤ 1088)
          × (length m.public_key ≤ 1184)
    unfolding new_mlkem decapsulate encapsulate_mlkem
    decapsulate-encapsulate_mlkem seed random m h =
        let generated = generated_key (x.generate_key seed) m h in
        let (secret, ct, e, d, l) =
          documented.decapsulate-encapsulate seed random m.public_key m.private_key generated in
        (
          secret,
          ct,
          e,
          d,
          l,
          documented.length-generate_key seed m.public_key m.private_key generated,
        )
