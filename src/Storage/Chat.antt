-- ===== src/Storage/Chat.antt =====
-- pkg/storage/storage.go: the chat entries of a session. A value that is too short for its envelope makes
-- GetChatHistory panic, which is an error of the model. Times are those of Storage/Times.
pub mod Sorting
pub mod History
use kamune.Prelude.{
  ℕ, ◌+◌, ◌%◌, Bool, true, false, ◌&&◌, ◌||◌, not, if◌then◌else◌, ltb, ◌==◌, Option, none, some,
  List, [], ◌∷◌, ◌++◌, Bytes, length, take, drop, put_uint16, uint16, put_uint64, uint64, Result,
  ok, err, ◌>>=◌,
}
use kamune.Prelude.Dict
use kamune.Prelude.Dict.{Dict}
use kamune.Storage.Engine.{Engine, EngineError, Namespace, put_encrypted}
use kamune.Storage.Times.{unix_nano, from_unix_nano}
use kamune.Storage.Session.{Storage}

-- The sender is 0 for the local user, and 1 for the peer.
pub record ChatEntry : Type 0 where
  pub timestamp : ℕ
  pub payload : Bytes
  pub sender : ℕ

pub data ChatError : Type 0 where
  out_of_range : ChatError
  storing : EngineError → ChatError

-- The bytes of "KMNE\x01".
abbrev pub value_magic : Bytes
value_magic = 75 ∷ 77 ∷ 78 ∷ 69 ∷ 1 ∷ []

unfoldable pub session_chat : Storage → Bytes → Namespace
session_chat s id = Dict.lookup id s.chats

-- The key of an entry: the local time, the sender, and four random bytes.
unfoldable pub chat_key : ℕ → ℕ → Bytes → Bytes
chat_key now sender suffix = put_uint64 (unix_nano now) ++ (put_uint16 sender ++ suffix)

-- Its value: the magic, the sender's time, and the message.
unfoldable pub chat_value : Bytes → ℕ → Bytes
chat_value payload ts = value_magic ++ (put_uint64 (unix_nano ts) ++ payload)

-- How slices.SortFunc compares: by the time, then by the sender.
unfoldable pub before : ChatEntry → ChatEntry → Bool
before a b = ltb a.timestamp b.timestamp || ((a.timestamp == b.timestamp) && ltb a.sender b.sender)

-- A sort of the standard library, here by insertion; it does not promise an order of equal entries.
unfoldable pub insert_entry : ChatEntry → List ChatEntry → List ChatEntry
insert_entry x [] = x ∷ []
insert_entry x (y ∷ ys) =
    let rest = insert_entry x ys in if before y x then y ∷ rest else x ∷ (y ∷ ys)

unfoldable pub sort_entries : List ChatEntry → List ChatEntry
sort_entries [] = []
sort_entries (x ∷ xs) = insert_entry x (sort_entries xs)

-- The body of the loop behind the key's length check.
unfoldable pub decode_entry : Bytes → Bytes → Result ChatError ChatEntry
decode_entry key value =
    if ltb (length value) 13
    then err out_of_range
    else ok (record {
      timestamp = from_unix_nano (uint64 (take 8 (drop 5 value)));
      payload = drop 13 value;
      sender = uint16 (drop 8 key);
    })

abbrev pub both_ok :
    Result ChatError ChatEntry
    → Result ChatError (List ChatEntry)
    → Result ChatError (List ChatEntry)
both_ok (err x) r = err x
both_ok (ok a) (err x) = err x
both_ok (ok a) (ok entries) = ok (a ∷ entries)

abbrev pub sorted : Result ChatError (List ChatEntry) → Result ChatError (List ChatEntry)
sorted (err x) = err x
sorted (ok entries) = ok (sort_entries entries)

module _ (e : Engine) where
  -- engine.Command with PutEncrypted on the chat of a session.
  abbrev pub put_chat :
      Storage → Bytes → Result EngineError (Dict Bytes) → Storage × Result ChatError (Unit {0})
  put_chat s id (err x) = (s, err (storing x))
  put_chat s id (ok bucket) = (record s { chats = Dict.insert id bucket s.chats }, ok tt)

  unfoldable pub add_chat_entry :
      Storage → Bytes → Bytes → ℕ → ℕ → ℕ → Bytes → ℕ → Storage × Result ChatError (Unit {0})
  add_chat_entry s id payload ts sender now suffix draw = put_chat s id (
      put_encrypted e (session_chat s id) draw (chat_key now (sender % 65536) suffix)
        (chat_value payload ts))

  -- The loop of IterateEncrypted with its body: a value that does not decrypt, or has a short key, is
  -- passed over.
  abbrev pub history_entry :
      Bytes → Option Bytes → Result ChatError (List ChatEntry) → Result ChatError (List ChatEntry)
  history_entry key none rest = rest
  history_entry key (some value) rest =
      if ltb (length key) 14 then rest else both_ok (decode_entry key value) rest

  unfoldable pub history_loop : Dict Bytes → Result ChatError (List ChatEntry)
  history_loop [] = ok []
  history_loop ((key, value) ∷ m) = history_entry key (e.unseal value) (history_loop m)

  abbrev pub history_of : Namespace → Result ChatError (List ChatEntry)
  history_of none = ok []
  history_of (some bucket) = sorted (history_loop bucket)

  unfoldable pub get_chat_history : Storage → Bytes → Result ChatError (List ChatEntry)
  get_chat_history s id = history_of (session_chat s id)
