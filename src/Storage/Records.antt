-- ===== src/Storage/Records.antt =====
-- pkg/storage/storage.go and pkg/storage/session.go: the records of sessions, their names, and the
-- settings. The bbolt cursor goes over a bucket in the order of the list. CreateSession looks for its
-- peer inside of a read-write transaction, where the removal of an expired peer would open a second
-- one: bbolt waits for the first then, so the call does not return, which is the error `hangs`.
pub mod Sessions
pub mod Settings
use kamune.Prelude.{
  ℕ, ◌+◌, Bool, true, false, if◌then◌else◌, ltb, leb, Option, none, some, List, [], ◌∷◌, ◌++◌,
  Bytes, bytes_equal, length, take, put_uint64, uint64, Result, ok, err, ◌>>=◌,
}
use kamune.Prelude.Dict
use kamune.Prelude.Dict.{Dict}
use kamune.Storage.Engine.{
  ensure, Engine, EngineError, missing_item, missing_namespace, decrypt_failed, put_failed,
  Namespace, get_encrypted, put_encrypted, delete,
}
use kamune.Storage.Times.{unix_nano, from_unix_nano}
use kamune.Storage.Session.{Storage, StorageError, engine, session_meta, get_meta}
use kamune.Storage.Peers.{Peer, PeerStore, PeerError, peer_expired, peer_key, find_peer_by_key}
use kamune.Storage.Chat.{session_chat}

-- The bytes of "peer".
abbrev pub peer_meta_key : Bytes
peer_meta_key = 112 ∷ 101 ∷ 101 ∷ 114 ∷ []

-- The bytes of "established_at".
abbrev pub established_at_key : Bytes
established_at_key =
    101 ∷ 115 ∷ 116 ∷ 97 ∷ 98 ∷ 108 ∷ 105 ∷ 115 ∷ 104 ∷ 101 ∷ 100 ∷ 95 ∷ 97 ∷ 116 ∷ []

-- The bytes of "resumption_tokens".
abbrev pub resumption_tokens_key : Bytes
resumption_tokens_key =
    114 ∷ 101 ∷ 115 ∷ 117 ∷ 109 ∷ 112 ∷ 116 ∷ 105 ∷ 111 ∷ 110 ∷ 95 ∷ 116 ∷ 111 ∷ 107 ∷ 101 ∷ 110
    ∷ 115 ∷ []

-- The bytes of "name".
abbrev pub session_name_key : Bytes
session_name_key = 110 ∷ 97 ∷ 109 ∷ 101 ∷ []

pub data RecordError : Type 0 where
  hangs session_not_found empty_app_name : RecordError
  peer : PeerError → RecordError
  metadata : StorageError → RecordError
  storing : EngineError → RecordError

-- Ensure on a child with a name that is fixed in the code, which bbolt takes.
abbrev pub bucket_or_new : Option (Dict Bytes) → Dict Bytes
bucket_or_new none = []
bucket_or_new (some bucket) = bucket

abbrev pub of_engine : {A : Type 0} → Result EngineError A → Result RecordError A
of_engine (ok a) = ok a
of_engine (err x) = err (storing x)

module _ (e : Engine) (ps : PeerStore) where
  -- The two writes of CreateSession, on the namespace of the metadata.
  unfoldable pub session_record : Namespace → Bytes → ℕ → ℕ → ℕ → Result RecordError (Dict Bytes)
  session_record meta public_key now draw1 draw2 = do
    with_peer ← of_engine (put_encrypted e meta draw1 peer_meta_key public_key)
    of_engine
        (put_encrypted e (some with_peer) draw2 established_at_key (put_uint64 (unix_nano now)))

  abbrev pub create_for :
      Storage → Bytes → Result RecordError (Dict Bytes) → Storage × Result RecordError (Unit {0})
  create_for s id (err x) = (s, err x)
  create_for s id (ok meta) = (
    record s {
      sessions = Dict.insert id meta s.sessions;
      chats = Dict.insert id (bucket_or_new (session_chat s id)) s.chats;
    },
    ok tt,
  )

  abbrev pub create_with :
      Storage → Bytes → ℕ → ℕ → ℕ → Result PeerError Peer → Storage × Result RecordError (Unit {0})
  create_with s id now draw1 draw2 (err peer_expired) = (s, err hangs)
  create_with s id now draw1 draw2 (err x) = (s, err (peer x))
  create_with s id now draw1 draw2 (ok p) =
      create_for s id
        (session_record (ensure e (session_meta s id) id) p.public_key now draw1 draw2)

  unfoldable pub create_session :
      Storage → Bytes → Bytes → ℕ → ℕ → ℕ → Storage × Result RecordError (Unit {0})
  create_session s id public_key now draw1 draw2 =
      create_with s id now draw1 draw2 (find_peer_by_key e ps s (peer_key e ps public_key) now).1

  abbrev pub of_peer : Storage × Result PeerError Peer → Storage × Result RecordError Peer
  of_peer (s, err x) = (s, err (peer x))
  of_peer (s, ok p) = (s, ok p)

  -- An absent value is nil, and so is one of length zero for the model: CreateSession stores no such.
  abbrev pub peer_by_meta :
      Storage → ℕ → Result StorageError Bytes → Storage × Result RecordError Peer
  peer_by_meta s now (err x) = (s, err (metadata x))
  peer_by_meta s now (ok []) = (s, err session_not_found)
  peer_by_meta s now (ok (b ∷ bs)) = of_peer (find_peer_by_key e ps s (peer_key e ps (b ∷ bs)) now)

  unfoldable pub get_peer : Storage → Bytes → ℕ → Storage × Result RecordError Peer
  get_peer s id now = peer_by_meta s now (get_meta e s id peer_meta_key)

  abbrev pub established : Result StorageError Bytes → Result RecordError ℕ
  established (err x) = err (metadata x)
  established (ok b) =
      if ltb (length b) 8 then err session_not_found else ok (from_unix_nano (uint64 (take 8 b)))

  unfoldable pub get_established_at : Storage → Bytes → Result RecordError ℕ
  get_established_at s id = established (get_meta e s id established_at_key)

  -- ListSessions
  unfoldable pub list_sessions : Dict (Dict Bytes) → List Bytes
  list_sessions [] = []
  list_sessions ((id, meta) ∷ m) = id ∷ list_sessions m

  abbrev pub is_peer : Result EngineError Bytes → Bytes → Bool
  is_peer (err x) public_key = false
  is_peer (ok b) public_key = bytes_equal b public_key

  -- The loop of FindSessionByPeer; the empty text is no session.
  unfoldable pub find_loop : Storage → List Bytes → Bytes → Bytes
  find_loop s [] public_key = []
  find_loop s (id ∷ ids) public_key =
      let rest = find_loop s ids public_key in
      if is_peer (get_encrypted e (session_meta s id) peer_meta_key) public_key then id else rest

  unfoldable pub find_session_by_peer : Storage → Bytes → Bytes
  find_session_by_peer s public_key = find_loop s (list_sessions s.sessions) public_key

  -- GetSessionName reads the metadata as GetMeta does.
  unfoldable pub get_session_name : Storage → Bytes → Result StorageError Bytes
  get_session_name s id = get_meta e s id session_name_key

  abbrev pub put_meta :
      Storage → Bytes → Result EngineError (Dict Bytes) → Storage × Result RecordError (Unit {0})
  put_meta s id (err x) = (s, err (storing x))
  put_meta s id (ok bucket) = (record s { sessions = Dict.insert id bucket s.sessions }, ok tt)

  -- A missing namespace is no error when the name is cleared.
  abbrev pub clear_meta :
      Storage → Bytes → Result EngineError (Dict Bytes) → Storage × Result RecordError (Unit {0})
  clear_meta s id (err missing_namespace) = (s, ok tt)
  clear_meta s id (err missing_item) = (s, err (storing missing_item))
  clear_meta s id (err decrypt_failed) = (s, err (storing decrypt_failed))
  clear_meta s id (err put_failed) = (s, err (storing put_failed))
  clear_meta s id (ok bucket) = (record s { sessions = Dict.insert id bucket s.sessions }, ok tt)

  unfoldable pub set_session_name :
      Storage → Bytes → Bytes → ℕ → Storage × Result RecordError (Unit {0})
  set_session_name s id [] draw = clear_meta s id (delete (session_meta s id) session_name_key)
  set_session_name s id (b ∷ bs) draw =
      put_meta s id (put_encrypted e (session_meta s id) draw session_name_key (b ∷ bs))

  -- app + ":" + key
  unfoldable pub full_key : Bytes → Bytes → Bytes
  full_key app key = app ++ (58 ∷ key)

  abbrev pub setting : Result EngineError Bytes → Result RecordError Bytes
  setting (ok b) = ok b
  setting (err missing_item) = ok []
  setting (err missing_namespace) = err (storing missing_namespace)
  setting (err decrypt_failed) = err (storing decrypt_failed)
  setting (err put_failed) = err (storing put_failed)

  unfoldable pub get_settings : Storage → Bytes → Bytes → Result RecordError Bytes
  get_settings s [] key = err empty_app_name
  get_settings s (a ∷ app) key = setting (get_encrypted e s.settings (full_key (a ∷ app) key))

  abbrev pub put_settings :
      Storage → Result EngineError (Dict Bytes) → Storage × Result RecordError (Unit {0})
  put_settings s (err x) = (s, err (storing x))
  put_settings s (ok bucket) = (record s { settings = some bucket }, ok tt)

  unfoldable pub set_settings :
      Storage → Bytes → Bytes → Bytes → ℕ → Storage × Result RecordError (Unit {0})
  set_settings s [] key value draw = (s, err empty_app_name)
  set_settings s (a ∷ app) key [] draw =
      put_settings s (delete (some (bucket_or_new s.settings)) (full_key (a ∷ app) key))
  set_settings s (a ∷ app) key (b ∷ value) draw =
      put_settings s (
        put_encrypted e (some (bucket_or_new s.settings)) draw (full_key (a ∷ app) key) (b ∷ value))

  -- DeleteSession: the buckets of the metadata and of the chat go together.
  unfoldable pub delete_session : Storage → Bytes → Storage
  delete_session s id = record s {
    sessions = Dict.delete id s.sessions;
    chats = Dict.delete id s.chats;
  }
