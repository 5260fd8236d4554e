-- ===== src/Broker/Crypto.antt =====
-- The cryptography of a NOTIFY: SealNotify and OpenNotify (pkg/relayconn/broker/codec.go) over
-- pkg/exchange/ecdh.go. The primitives (X25519, SHA-256, XChaCha20-Poly1305 and the system's
-- randomness) are the fields of `Primitives`, and what is documented of them is `Laws`.
use kamune.Prelude.{ℕ, ◌≡◌, Option, none, some, Bytes, length, ◌==◌, if◌then◌else◌}
use kamune.Broker.Codec.{build_aad, nonce_size}

pub record Primitives : Type 0 where
  -- ecdh.X25519().GenerateKey on the randomness drawn: a private and a public key, or an error.
  pub generate : ℕ → Option (Bytes × Bytes)
  -- PrivateKey.ECDH on a public key of 32 bytes.
  pub x25519 : Bytes → Bytes → Option Bytes
  pub sha256 : Bytes → Bytes
  -- rand.Read into a nonce.
  pub nonce : ℕ → Bytes
  -- AEAD.Seal and AEAD.Open: key, nonce, plaintext or ciphertext, additional data.
  pub seal : Bytes → Bytes → Bytes → Bytes → Bytes
  pub unseal : Bytes → Bytes → Bytes → Bytes → Option Bytes

-- An X25519 key pair, as exchange.ECDH holds it.
pub record Ecdh : Type 0 where
  pub private_key : Bytes
  pub public_key : Bytes

abbrev pub key_size : ℕ
key_size = 32

pub record Laws (c : Primitives) : Type 0 where
  pub length-public : (seed : ℕ) (k p : Bytes) → c.generate seed ≡ some (k, p) → length p ≡ 32
  pub length-nonce : (seed : ℕ) → length (c.nonce seed) ≡ 24
  pub length-sha256 : (b : Bytes) → length (c.sha256 b) ≡ 32
  -- Diffie-Hellman: both sides of an exchange compute one secret.
  pub agreement :
      (m n : ℕ) (j p k q : Bytes)
      → c.generate m ≡ some (j, p)
      → c.generate n ≡ some (k, q)
      → c.x25519 j q ≡ c.x25519 k p
  -- What is sealed opens under the same key, nonce and additional data.
  pub unseal-seal :
      (key nonce plain aad : Bytes)
      → c.unseal key nonce (c.seal key nonce plain aad) aad ≡ some plain

module _ (c : Primitives) where
  unfoldable pub new_ecdh : ℕ → Option Ecdh
  new_ecdh seed = elim (c.generate seed) [
    | none ↦ none
    | some (k, p) ↦ some (record { private_key = k; public_key = p })
  ]

  -- NewPublicKey refuses a key that is not 32 bytes long.
  unfoldable pub exchange : Ecdh → Bytes → Option Bytes
  exchange e remote = if length remote == key_size then c.x25519 e.private_key remote else none

  -- The nonce and the sealed bytes. The key is a SHA-256 sum, so NewX does not panic.
  unfoldable pub seal_notify : Bytes → Bytes → Bytes → ℕ → Bytes × Bytes
  seal_notify aead_key broker_eph_pub plaintext seed =
      (c.nonce seed, c.seal aead_key (c.nonce seed) plaintext (build_aad broker_eph_pub))

  unfoldable pub open_notify : Bytes → Bytes → Bytes → Bytes → Option Bytes
  open_notify aead_key broker_eph_pub nonce sealed =
      if length aead_key == key_size
      then (if length nonce == nonce_size
          then c.unseal aead_key nonce sealed (build_aad broker_eph_pub)
          else none)
      else none
