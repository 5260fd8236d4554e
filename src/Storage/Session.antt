-- ===== src/Storage/Session.antt =====
-- pkg/storage/session.go: the metadata of sessions. The store is the map from a session ID to the
-- bucket sessions/<id>/meta, the one to the bucket sessions/<id>/chat, and the buckets of the peers, of
-- the settings and of the rest. A read-write transaction that returns an error is rolled back.
pub mod Tokens
pub mod Removal
use kamune.Prelude.{
  ℕ, Bool, true, false, if◌then◌else◌, Option, none, some, List, [], ◌∷◌, Bytes, bytes_equal,
  Result, ok, err, ◌>>=◌,
}
use kamune.Prelude.Dict
use kamune.Prelude.Dict.{Dict}
use kamune.Storage.Engine.{
  Engine, EngineError, missing_item, missing_namespace, decrypt_failed, put_failed, Namespace,
  get_encrypted, put_encrypted, delete,
}
use kamune.Storage.PackedList.{ListError, bad_format, serialize_list, deserialize_list}

pub record Storage : Type 0 where
  pub sessions : Dict (Dict Bytes)
  pub chats : Dict (Dict Bytes)
  pub peers : Namespace
  pub settings : Namespace
  pub default_namespace : Namespace

-- A key and its value.
pub record Meta : Type 0 where
  pub key : Bytes
  pub value : Bytes

unfoldable pub new_byte_slices_meta : Bytes → List Bytes → Meta
new_byte_slices_meta key slices = record { key = key; value = serialize_list slices }

pub data StorageError : Type 0 where
  not_found : StorageError
  engine : EngineError → StorageError

unfoldable pub session_meta : Storage → Bytes → Namespace
session_meta s id = Dict.lookup id s.sessions

abbrev pub is_missing : StorageError → Bool
is_missing (engine missing_item) = true
is_missing (engine missing_namespace) = true
is_missing (engine decrypt_failed) = false
is_missing (engine put_failed) = false
is_missing not_found = false

abbrev pub of_engine {ℓ} : {A : Type ℓ} → Result EngineError A → Result StorageError A
of_engine (ok a) = ok a
of_engine (err e) = err (engine e)

abbrev pub of_list {ℓ} : {A : Type ℓ} → Result ListError A → Result StorageError A
of_list (ok a) = ok a
of_list (err e) = err not_found

-- The error of a call, where a missing namespace or item is ErrNotFound.
abbrev pub missing_as_not_found {ℓ} : {A : Type ℓ} → Result StorageError A → Result StorageError A
missing_as_not_found (ok a) = ok a
missing_as_not_found (err e) = if is_missing e then err not_found else err e

-- engine.Command on the metadata of one session.
abbrev pub command {ℓ} :
    {A : Type ℓ}
    → Storage
    → Bytes
    → Result StorageError (Dict Bytes × A)
    → Storage × Result StorageError A
command s id (err e) = (s, err e)
command s id (ok (bucket, a)) = (record s { sessions = Dict.insert id bucket s.sessions }, ok a)

-- The loop of RemoveListItem: the last entry takes the place of the first that is equal.
abbrev pub last_of : Bytes → List Bytes → Bytes
last_of y [] = y
last_of y (z ∷ zs) = last_of z zs

abbrev pub but_last : Bytes → List Bytes → List Bytes
but_last y [] = []
but_last y (z ∷ zs) = y ∷ but_last z zs

abbrev pub fill : List Bytes → List Bytes
fill [] = []
fill (y ∷ ys) = last_of y ys ∷ but_last y ys

unfoldable pub swap_remove : Bytes → List Bytes → Option (List Bytes)
swap_remove entry [] = none
swap_remove entry (x ∷ xs) =
    let rest = swap_remove entry xs in
    if bytes_equal x entry
    then some (fill xs)
    else elim rest [ none ↦ none | some ys ↦ some (x ∷ ys) ]

module _ (e : Engine) where
  -- A missing namespace or item is an empty value.
  abbrev pub value_or_empty : Result EngineError Bytes → Result StorageError Bytes
  value_or_empty (ok value) = ok value
  value_or_empty (err x) = if is_missing (engine x) then ok [] else err (engine x)

  -- GetMeta: the value, which is empty where there is none.
  unfoldable pub get_meta : Storage → Bytes → Bytes → Result StorageError Bytes
  get_meta s id key = value_or_empty (get_encrypted e (session_meta s id) key)

  unfoldable pub set_meta : Storage → Bytes → Meta → ℕ → Storage × Result StorageError (Unit {0})
  set_meta s id m draw = command s id (do
    bucket ← of_engine (put_encrypted e (session_meta s id) draw m.key m.value)
    ok (bucket, tt))

  unfoldable pub delete_meta : Storage → Bytes → Bytes → Storage × Result StorageError (Unit {0})
  delete_meta s id key =
      command s id (do bucket ← of_engine (delete (session_meta s id) key); ok (bucket, tt))

  -- The rest of the transaction of PopList, on the list that was read.
  unfoldable pub pop_entry :
      Namespace → Bytes → ℕ → List Bytes → Result StorageError (Dict Bytes × Bytes)
  pop_entry b key draw [] = err not_found
  pop_entry b key draw (x ∷ xs) = do
    bucket ← of_engine (put_encrypted e b draw key (serialize_list xs))
    ok (bucket, x)

  unfoldable pub pop_list : Storage → Bytes → Bytes → ℕ → Storage × Result StorageError Bytes
  unfolding pop_entry
  pop_list s id key draw =
      let (s', r) = command s id (do
        packed ← of_engine (get_encrypted e (session_meta s id) key)
        list ← of_list (deserialize_list packed)
        pop_entry (session_meta s id) key draw list) in
      (s', missing_as_not_found r)

  -- The rest of the transaction of RemoveListItem, on what its loop found.
  unfoldable pub remove_entry :
      Namespace → Bytes → ℕ → Option (List Bytes) → Result StorageError (Dict Bytes × Unit {0})
  remove_entry b key draw none = err not_found
  remove_entry b key draw (some list) = do
    bucket ← of_engine (put_encrypted e b draw key (serialize_list list))
    ok (bucket, tt)

  unfoldable pub remove_list_item :
      Storage → Bytes → Bytes → Bytes → ℕ → Storage × Result StorageError (Unit {0})
  unfolding remove_entry
  remove_list_item s id key entry draw =
      let (s', r) = command s id (do
        packed ← of_engine (get_encrypted e (session_meta s id) key)
        list ← of_list (deserialize_list packed)
        remove_entry (session_meta s id) key draw (swap_remove entry list)) in
      (s', missing_as_not_found r)
