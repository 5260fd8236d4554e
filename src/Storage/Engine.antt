-- ===== src/Storage/Engine.antt =====
-- internal/engine/bolt_namespace.go: namespaces of encrypted values. A namespace is the map that its
-- bucket holds, and nilNamespace is `none`.
use kamune.Prelude.{
  [], ℕ, ◌≡◌, ap, Bool, if◌then◌else◌, Option, none, some, Bytes, length, Result, ok, err,
}
use kamune.Prelude.Dict
use kamune.Prelude.Dict.{Dict}
use kamune.Protocol.Serde.{Externals, IsLawful, encrypt, decrypt}
use kamune.Protocol.Serde.Signing.{decrypt-encrypt}

pub data EngineError : Type 0 where
  missing_item missing_namespace decrypt_failed put_failed : EngineError

-- The cipher of a namespace; a call draws its nonce, here by number. `accepts` says whether bbolt
-- takes a key and a value, and `takes_name` whether it takes the name of a bucket; it refuses keys,
-- values and names that are empty or too large.
pub record Engine : Type 0 where
  pub seal : ℕ → Bytes → Bytes
  pub unseal : Bytes → Option Bytes
  pub accepts : Bytes → Bytes → Bool
  pub takes_name : Bytes → Bool

-- A value that was stored is read back.
pub record IsEngine (e : Engine) : Type 0 where
  pub unseal-seal : (draw : ℕ) (b : Bytes) → e.unseal (e.seal draw b) ≡ some b

abbrev pub Namespace : Type 0
Namespace = Option (Dict Bytes)

module _ (e : Engine) where
  abbrev pub decrypted : Option Bytes → Result EngineError Bytes
  decrypted none = err decrypt_failed
  decrypted (some b) = ok b

  unfoldable pub get : Namespace → Bytes → Result EngineError Bytes
  get none key = err missing_namespace
  get (some bucket) key = elim (Dict.lookup key bucket) [
    | none ↦ err missing_item
    | some value ↦ ok value
  ]

  unfoldable pub get_encrypted : Namespace → Bytes → Result EngineError Bytes
  get_encrypted b key = elim (get b key) [ err x ↦ err x | ok value ↦ decrypted (e.unseal value) ]

  -- The bucket after PutEncrypted.
  unfoldable pub put_encrypted : Namespace → ℕ → Bytes → Bytes → Result EngineError (Dict Bytes)
  put_encrypted none draw key value = err missing_namespace
  put_encrypted (some bucket) draw key value =
      if e.accepts key (e.seal draw value)
      then ok (Dict.insert key (e.seal draw value) bucket)
      else err put_failed

-- Ensure on a child of a bucket, in a read-write transaction: the child that is there, or a new one, if
-- bbolt takes its name.
unfoldable pub ensure : Engine → Namespace → Bytes → Namespace
ensure e none name = if e.takes_name name then some [] else none
ensure e (some bucket) name = some bucket

-- The bucket after Delete, which does not mind an absent key.
unfoldable pub delete : Namespace → Bytes → Result EngineError (Dict Bytes)
delete none key = err missing_namespace
delete (some bucket) key = ok (Dict.delete key bucket)

abbrev pub opened : {E : Type 0} → Result E Bytes → Option Bytes
opened (ok b) = some b
opened (err e) = none

module _ {M : Type 0} (x : Externals M) (key : Bytes) (nonce : ℕ → Bytes) where
  -- The cipher that a namespace has: an Enigma with the data encryption key.
  abbrev pub enigma_engine : (Bytes → Bytes → Bool) → (Bytes → Bool) → Engine
  enigma_engine accepts takes_name = record {
    seal = λ draw b. encrypt x key (nonce draw) b;
    unseal = λ c. opened (decrypt x key c);
    accepts = accepts;
    takes_name = takes_name;
  }

  -- An Enigma whose nonces are 24 bytes long reads back what it stored.
  pub enigma_engine-IsEngine :
      (IsKeyPair : Bytes → Bytes → Type 0)
      → IsLawful x IsKeyPair
      → ((draw : ℕ) → length (nonce draw) ≡ 24)
      → (accepts : Bytes → Bytes → Bool) (takes_name : Bytes → Bool)
      → IsEngine (enigma_engine accepts takes_name)
  enigma_engine-IsEngine IsKeyPair law h accepts takes_name = record {
    unseal-seal = λ draw b. ap opened (decrypt-encrypt x IsKeyPair law key (nonce draw) b (h draw));
  }
