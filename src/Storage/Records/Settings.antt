-- ===== src/Storage/Records/Settings.antt =====
-- GetSettings and SetSettings (pkg/storage/storage.go).
use kamune.Prelude.{
  ℕ, ◌≡◌, ◌≢◌, refl, sym, ap, ◌∙◌, false, if◌then◌else◌, Bool-cases, inl, inr, some, [], ◌∷◌, Bytes,
  All, bytes_equal, bytes_equal_refl, bytes_equal_of_ne, ok, err,
}
use kamune.Prelude.Dict
use kamune.Prelude.Dict.{Dict}
use kamune.Storage.Engine.{Engine, missing_item, get, get_encrypted, put_encrypted, delete}
use kamune.Storage.Session.{Storage}
use kamune.Storage.Session.Tokens.{IsUsable}
use kamune.Storage.Peers.{PeerStore}
use kamune.Storage.Records.{full_key, get_settings, set_settings, setting}

-- A name without a colon.
abbrev pub IsPlain : Bytes → Type 0
IsPlain = All (λ b. b ≢ 58)

abbrev head_of : Bytes → ℕ
head_of [] = 0
head_of (b ∷ bs) = b

abbrev tail_of : Bytes → Bytes
tail_of [] = []
tail_of (b ∷ bs) = bs

module _ (e : Engine) (ps : PeerStore) where
  full_key_injective :
      (app app' key key' : Bytes)
      → IsPlain app
      → IsPlain app'
      → full_key e ps app key ≡ full_key e ps app' key'
      → (app ≡ app') × (key ≡ key')
  unfolding full_key
  full_key_injective [] [] key key' h h' same = (refl, ap tail_of same)
  full_key_injective [] (a' ∷ app') key key' h h' same = absurd (h'.0 (sym (ap head_of same)))
  full_key_injective (a ∷ app) [] key key' h h' same = absurd (h.0 (ap head_of same))
  full_key_injective (a ∷ app) (a' ∷ app') key key' h h' same =
      let (apps, keys) = full_key_injective app app' key key' h.1 h'.1 (ap tail_of same) in
      ((λ i. ap head_of same i ∷ apps i), keys)

  setting_read :
      (s : Storage) (a : ℕ) (app key : Bytes) (bucket : Dict Bytes)
      → s.settings ≡ some bucket
      → get_settings e ps s (a ∷ app) key
        ≡ setting e ps (get_encrypted e (some bucket) (full_key e ps (a ∷ app) key))
  unfolding get_settings
  setting_read s a app key bucket h = rw h refl

  pub get_encrypted-insert :
      (u : IsUsable e) (bucket : Dict Bytes) (k j value : Bytes) (draw : ℕ)
      → get_encrypted e (some (Dict.insert k (e.seal draw value) bucket)) j
        ≡ (if bytes_equal k j then ok value else get_encrypted e (some bucket) j)
  unfolding get_encrypted get
  get_encrypted-insert u bucket k j value draw = elim (Bool-cases (bytes_equal k j)) [
    | inl h ↦ rw (
      get_encrypted,
      get,
      Dict.lookup-insert k j (e.seal draw value) bucket,
      h,
      u.lawful.unseal-seal draw value,
    )
    | inr h ↦ rw (get_encrypted, get, Dict.lookup-insert k j (e.seal draw value) bucket, h)
  ]

  get_encrypted-delete :
      (bucket : Dict Bytes) (k j : Bytes)
      → get_encrypted e (some (Dict.delete k bucket)) j
        ≡ (if bytes_equal k j then err missing_item else get_encrypted e (some bucket) j)
  unfolding get_encrypted get
  get_encrypted-delete bucket k j = elim (Bool-cases (bytes_equal k j)) [
    | inl h ↦ rw (get_encrypted, get, Dict.lookup-delete k j bucket, h)
    | inr h ↦ rw (get_encrypted, get, Dict.lookup-delete k j bucket, h)
  ]

  -- What a bucket reads after the write, and what it read before.
  abbrev Wrote : Dict Bytes → Bytes → Bytes → Dict Bytes → Type 0
  Wrote bucket k value bucket' =
      (j : Bytes)
      → setting e ps (get_encrypted e (some bucket') j)
        ≡ (if bytes_equal k j then ok value else setting e ps (get_encrypted e (some bucket) j))

  set_settings-Wrote :
      (u : IsUsable e) (s : Storage) (bucket : Dict Bytes) (a : ℕ) (app key value : Bytes)
      (draw : ℕ)
      → s.settings ≡ some bucket
      → (bucket' : Dict Bytes) × (set_settings e ps s (a ∷ app) key value draw
          ≡ (record s { settings = some bucket' }, ok tt))
        × Wrote bucket (full_key e ps (a ∷ app) key) value bucket'
  unfolding set_settings put_encrypted delete
  set_settings-Wrote u s bucket a app key [] draw h =
      let k = full_key e ps (a ∷ app) key in
      (
        Dict.delete k bucket,
        rw h refl,
        λ j. elim (Bool-cases (bytes_equal k j)) [
          | inl q ↦ rw (get_encrypted-delete bucket k j, q)
          | inr q ↦ rw (get_encrypted-delete bucket k j, q)
        ],
      )
  set_settings-Wrote u s bucket a app key (b ∷ value) draw h =
      let k = full_key e ps (a ∷ app) key in
      (
        Dict.insert k (e.seal draw (b ∷ value)) bucket,
        rw (h, u.accepts k (b ∷ value) draw),
        λ j. elim (Bool-cases (bytes_equal k j)) [
          | inl q ↦ rw (get_encrypted-insert u bucket k j (b ∷ value) draw, q)
          | inr q ↦ rw (get_encrypted-insert u bucket k j (b ∷ value) draw, q)
        ],
      )

  -- A setting that is written, under an app name without a colon, reads back as it was written, where
  -- the empty text stands for none, and the settings of all other keys, and of all other apps without a
  -- colon in their names, stay as they were.
  pub get_settings-set_settings :
      (u : IsUsable e) (s : Storage) (bucket : Dict Bytes) (a : ℕ) (app key value : Bytes)
      (draw : ℕ)
      → s.settings ≡ some bucket
      → IsPlain (a ∷ app)
      → (s' : Storage) × (set_settings e ps s (a ∷ app) key value draw ≡ (s', ok tt))
        × (get_settings e ps s' (a ∷ app) key ≡ ok value)
        × ((a' : ℕ) (app' key' : Bytes)
            → IsPlain (a' ∷ app')
            → ((a ∷ app ≡ a' ∷ app') × (key ≡ key') → ⊥)
            → get_settings e ps s' (a' ∷ app') key' ≡ get_settings e ps s (a' ∷ app') key')
  get_settings-set_settings u s bucket a app key value draw h plain =
      let k = full_key e ps (a ∷ app) key in
      let (bucket', wrote, reads) = set_settings-Wrote u s bucket a app key value draw h in
      let s' = record s { settings = some bucket' } in
      (
        s',
        wrote,
        setting_read s' a app key bucket' refl ∙ reads k ∙ rw (bytes_equal_refl k) refl,
        λ a' app' key' plain' other.
            let k' = full_key e ps (a' ∷ app') key' in
            let apart : bytes_equal k k' ≡ false = bytes_equal_of_ne k k' (λ same.
              other (full_key_injective (a ∷ app) (a' ∷ app') key key' plain plain' same)) in
            setting_read s' a' app' key' bucket' refl
            ∙ reads k'
            ∙ rw apart (sym (setting_read s a' app' key' bucket h)),
      )
