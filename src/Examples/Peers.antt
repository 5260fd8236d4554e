-- ===== src/Examples/Peers.antt =====
-- Peers, chats, sessions and settings in a small store. A toy hash is the front of its text.
use kamune.Prelude.{
  ℕ, zero, suc, false, ◌+◌, ◌≤◌, ◌<◌, ◌≡◌, refl, arith, put_uint32, uint32, Option, none, some,
  List, [], ◌∷◌, ◌++◌, Bytes, length, take, drop, replicate, ok, err, put_uint16, uint16,
  put_uint64, uint64, bytes_equal,
}
use mathlib.Core.List.{Perm}
use kamune.Prelude.Dict
use kamune.Prelude.Dict.{Dict}
use kamune.Protocol.Serde.{encrypt, decrypt}
use kamune.Storage.Engine.{missing_item}
use kamune.Storage.Session.{Storage}
use kamune.Storage.Peers.{
  Peer, PeerRecord, PeerStore, peer_expired, getting, peer_of, is_expired, peer_key, find_peer,
  store_peer,
}
use kamune.Storage.Peers.Expiry.{HasPeer, seen_at, find_peer-store_peer}
use kamune.Storage.Chat.{
  ChatEntry, session_chat, chat_key, chat_value, decode_entry, insert_entry, sort_entries,
  history_loop, get_chat_history, add_chat_entry,
}
use kamune.Storage.Chat.Sorting.{IsSorted}
use kamune.Storage.Chat.History.{get_chat_history-add_chat_entry}
use kamune.Storage.Records.{
  create_session, get_peer, get_established_at, get_settings, set_settings,
}
use kamune.Storage.Records.Sessions.{get_peer-create_session}
use kamune.Storage.Records.Settings.{IsPlain, get_settings-set_settings}
use kamune.Examples.Storage.{at_rest, at_rest-IsUsable, empty_storage}

abbrev tag : Option ℕ → ℕ
tag none = 0
tag (some t) = t + 1

abbrev untag : ℕ → Option ℕ
untag zero = none
untag (suc t) = some t

abbrev unmarshal : Bytes → Option PeerRecord
unmarshal (f ∷ l ∷ n ∷ v ∷ b) = some (record {
  first_seen = untag f;
  last_seen = untag l;
  name = take n b;
  app_version = take v (drop n b);
  public_key = drop v (drop n b);
})
unmarshal b = none

abbrev pub toy_peers : PeerStore
toy_peers = record {
  sha3 = λ b. take 64 b;
  codec = record {
    marshal = λ r. some (
        tag r.first_seen ∷ tag r.last_seen ∷ length r.name ∷ length r.app_version ∷ r.name
        ++ (r.app_version ++ r.public_key));
    unmarshal = unmarshal;
  };
  expiry_duration = 500;
}

abbrev moment : ℕ
moment = 62135596800000000000 + 7

abbrev carol : Peer
carol = record {
  first_seen = 0;
  last_seen = 0;
  name = 67 ∷ [];
  app_version = 49 ∷ [];
  public_key = replicate 44 8;
}

abbrev carol_record : PeerRecord
carol_record = record {
  first_seen = some moment;
  last_seen = some moment;
  name = 67 ∷ [];
  app_version = 49 ∷ [];
  public_key = replicate 44 8;
}

abbrev carol_bytes : Bytes
carol_bytes = (moment + 1) ∷ (moment + 1) ∷ 1 ∷ 1 ∷ 67 ∷ 49 ∷ replicate 44 8

find_peer-store_peer_example :
    (s' : Storage) × (store_peer at_rest toy_peers empty_storage carol moment 3 ≡ (s', ok tt))
    × ((t : ℕ)
        → t ≤ moment + 500
        → find_peer at_rest toy_peers s' carol.public_key t ≡ (s', ok (seen_at carol moment)))
    × ((t later : ℕ)
        → moment + 500 < t
        → (gone : Storage) × (find_peer at_rest toy_peers s' carol.public_key t
            ≡ (gone, err peer_expired))
          × (find_peer at_rest toy_peers gone carol.public_key later
              ≡ (gone, err (getting missing_item))))
find_peer-store_peer_example =
    find_peer-store_peer at_rest toy_peers at_rest-IsUsable empty_storage [] carol moment 3
      carol_bytes refl refl refl refl

abbrev id1 : Bytes
id1 = 1 ∷ []

abbrev suffix1 : Bytes
suffix1 = 1 ∷ 2 ∷ 3 ∷ 4 ∷ []

abbrev suffix2 : Bytes
suffix2 = 1 ∷ 2 ∷ 3 ∷ 5 ∷ []

abbrev first_entry : ChatEntry
first_entry = record { timestamp = moment; payload = 65 ∷ []; sender = 0 }

abbrev chat1 : Dict Bytes
chat1 = (chat_key moment 0 suffix1, at_rest.seal 7 (chat_value (65 ∷ []) moment)) ∷ []

abbrev with_chat : Storage
with_chat = record empty_storage { chats = (id1, chat1) ∷ [] }

with_chat_found : session_chat with_chat id1 ≡ some chat1
unfolding session_chat Dict.lookup bytes_equal
with_chat_found = refl

with_chat_history : get_chat_history at_rest with_chat id1 ≡ ok (first_entry ∷ [])
unfolding session_chat Dict.lookup bytes_equal get_chat_history history_loop chat_key chat_value
    encrypt decrypt sort_entries insert_entry decode_entry uint16 put_uint16 uint64 put_uint64
    put_uint32 uint32
with_chat_history = refl

chat1_free : Dict.lookup (chat_key moment 1 suffix2) chat1 ≡ none
unfolding Dict.lookup bytes_equal chat_key put_uint16 put_uint64 put_uint32
chat1_free = refl

-- The second entry is from the peer, and has the time of the first one.
get_chat_history-add_chat_entry_example :
    (s' : Storage) × (new : List ChatEntry) × (add_chat_entry at_rest with_chat id1
        (66 ∷ [])
        moment
        1
        moment
        suffix2
        8
      ≡ (s', ok tt))
    × (get_chat_history at_rest s' id1 ≡ ok new)
    × Perm new (record { timestamp = moment; payload = 66 ∷ []; sender = 1 } ∷ first_entry ∷ [])
    × IsSorted new
get_chat_history-add_chat_entry_example =
    get_chat_history-add_chat_entry at_rest at_rest-IsUsable with_chat id1 chat1 (66 ∷ []) moment 1
      moment suffix2 8 (first_entry ∷ []) with_chat_found with_chat_history
      (omega arith, omega arith) (omega arith) refl chat1_free

abbrev carol_stored : Dict Bytes
carol_stored = (replicate 44 8, at_rest.seal 3 carol_bytes) ∷ []

abbrev with_carol : Storage
with_carol = record empty_storage { peers = some carol_stored }

with_carol-HasPeer :
    HasPeer at_rest toy_peers at_rest-IsUsable with_carol
      (peer_key at_rest toy_peers (replicate 44 8))
      carol_record
unfolding Dict.lookup bytes_equal peer_key
with_carol-HasPeer = record {
  bucket = carol_stored;
  there = refl;
  draw = 3;
  bytes = carol_bytes;
  stored = refl;
  decoded = refl;
}

live_now : is_expired at_rest toy_peers carol_record moment ≡ false
unfolding is_expired
live_now = refl

live : is_expired at_rest toy_peers carol_record (moment + 200) ≡ false
unfolding is_expired
live = refl

get_peer-create_session_example :
    (s' : Storage) × (create_session at_rest toy_peers with_carol id1 (replicate 44 8) moment 4 5
      ≡ (s', ok tt))
    × (get_peer at_rest toy_peers s' id1 (moment + 200) ≡ (s', ok (peer_of carol_record)))
    × (get_established_at at_rest toy_peers s' id1 ≡ ok moment)
get_peer-create_session_example =
    get_peer-create_session at_rest toy_peers at_rest-IsUsable with_carol id1 carol_record 8
      (replicate 43 8) moment (moment + 200) 4 5 refl with_carol-HasPeer live_now live refl
      (omega arith, omega arith)

abbrev bus : Bytes
bus = 98 ∷ 117 ∷ 115 ∷ []

bus-IsPlain : IsPlain bus
bus-IsPlain =
    (λ e. absurd (omega arith), (λ e. absurd (omega arith), (λ e. absurd (omega arith), tt)))

get_settings-set_settings_example :
    (s' : Storage) × (set_settings at_rest toy_peers empty_storage bus (7 ∷ []) (9 ∷ []) 3
      ≡ (s', ok tt))
    × (get_settings at_rest toy_peers s' bus (7 ∷ []) ≡ ok (9 ∷ []))
    × ((a' : ℕ) (app' key' : Bytes)
        → IsPlain (a' ∷ app')
        → ((bus ≡ a' ∷ app') × (7 ∷ [] ≡ key') → ⊥)
        → get_settings at_rest toy_peers s' (a' ∷ app') key'
          ≡ get_settings at_rest toy_peers empty_storage (a' ∷ app') key')
get_settings-set_settings_example =
    get_settings-set_settings at_rest toy_peers at_rest-IsUsable empty_storage [] 98
      (117 ∷ 115 ∷ []) (7 ∷ []) (9 ∷ []) 3 refl bus-IsPlain
