-- ===== src/Storage/Peers.antt =====
-- pkg/storage/peer.go: the peers that were seen, and their expiry. SHA3-512 and protobuf are the
-- arguments of `PeerStore`, with the expiry duration. The clock is an argument of each call.
pub mod Expiry
use kamune.Prelude.{
  ℕ, ◌+◌, Bool, true, false, not, if◌then◌else◌, ltb, ◌==◌, Option, none, some, List, [], ◌∷◌,
  Bytes, length, Result, ok, err,
}
use kamune.Prelude.Dict.{Dict}
use kamune.Protocol.Serde.{Codec}
use kamune.Storage.Engine.{
  Engine, EngineError, missing_item, missing_namespace, decrypt_failed, put_failed, Namespace,
  get_encrypted, put_encrypted, delete,
}
use kamune.Storage.Times.{unix_epoch}
use kamune.Storage.Session.{Storage}

-- The zero time is 0.
pub record Peer : Type 0 where
  pub first_seen : ℕ
  pub last_seen : ℕ
  pub name : Bytes
  pub app_version : Bytes
  pub public_key : Bytes

-- pb.Peer, whose timestamps can be absent.
pub record PeerRecord : Type 0 where
  pub first_seen : Option ℕ
  pub last_seen : Option ℕ
  pub name : Bytes
  pub app_version : Bytes
  pub public_key : Bytes

pub record PeerStore : Type 0 where
  pub sha3 : Bytes → Bytes
  pub codec : Codec PeerRecord
  pub expiry_duration : ℕ

pub data PeerError : Type 0 where
  peer_expired unmarshaling marshaling : PeerError
  invalid_public_key : ℕ → PeerError
  getting adding deleting : EngineError → PeerError

-- Timestamp.AsTime, which takes an absent timestamp for the Unix epoch.
abbrev pub as_time : Option ℕ → ℕ
as_time none = unix_epoch
as_time (some t) = t

abbrev pub or_zero : Option ℕ → ℕ
or_zero none = 0
or_zero (some t) = t

abbrev pub or_now : ℕ → ℕ → ℕ
or_now now t = if t == 0 then now else t

unfoldable pub peer_of : PeerRecord → Peer
peer_of p = record {
  first_seen = as_time p.first_seen;
  last_seen = or_zero p.last_seen;
  name = p.name;
  app_version = p.app_version;
  public_key = p.public_key;
}

-- The transaction that removes a peer; its error is only logged.
abbrev pub try_delete : Storage → Bytes → Storage
try_delete s key = elim (delete s.peers key) [
  | ok bucket ↦ record s { peers = some bucket }
  | err e ↦ s
]

module _ (e : Engine) (ps : PeerStore) where
  unfoldable pub peer_key : Bytes → Bytes
  peer_key claim = ps.sha3 claim

  unfoldable pub is_expired : PeerRecord → ℕ → Bool
  is_expired p now = ltb (as_time p.first_seen + ps.expiry_duration) now

  abbrev pub found_record :
      Storage → Bytes → ℕ → Option PeerRecord → Storage × Result PeerError Peer
  found_record s key now none = (s, err unmarshaling)
  found_record s key now (some p) =
      if is_expired p now then (try_delete s key, err peer_expired) else (s, ok (peer_of p))

  abbrev pub found_data :
      Storage → Bytes → ℕ → Result EngineError Bytes → Storage × Result PeerError Peer
  found_data s key now (err x) = (s, err (getting x))
  found_data s key now (ok b) = found_record s key now (ps.codec.unmarshal b)

  -- findPeer, outside of a read-write transaction.
  unfoldable pub find_peer_by_key : Storage → Bytes → ℕ → Storage × Result PeerError Peer
  find_peer_by_key s key now = found_data s key now (get_encrypted e s.peers key)

  unfoldable pub find_peer : Storage → Bytes → ℕ → Storage × Result PeerError Peer
  find_peer s claim now = find_peer_by_key s (peer_key claim) now

  abbrev pub record_of : Peer → ℕ → PeerRecord
  record_of peer now = record {
    first_seen = some (or_now now peer.first_seen);
    last_seen = some (or_now now peer.last_seen);
    name = peer.name;
    app_version = peer.app_version;
    public_key = peer.public_key;
  }

  -- engine.Command with PutEncrypted on the bucket of the peers.
  abbrev pub put_peer : Storage → Bytes → ℕ → Bytes → Storage × Result PeerError (Unit {0})
  put_peer s key draw b = elim (put_encrypted e s.peers draw key b) [
    | err x ↦ (s, err (adding x))
    | ok bucket ↦ (record s { peers = some bucket }, ok tt)
  ]

  abbrev pub put_marshalled :
      Storage → Bytes → ℕ → Option Bytes → Storage × Result PeerError (Unit {0})
  put_marshalled s key draw none = (s, err marshaling)
  put_marshalled s key draw (some b) = put_peer s key draw b

  unfoldable pub store_peer : Storage → Peer → ℕ → ℕ → Storage × Result PeerError (Unit {0})
  store_peer s peer now draw =
      if not (length peer.public_key == 44)
      then (s, err (invalid_public_key (length peer.public_key)))
      else put_marshalled s (peer_key peer.public_key) draw (ps.codec.marshal (record_of peer now))

  abbrev pub update_record :
      Storage → Bytes → ℕ → ℕ → Option PeerRecord → Storage × Result PeerError (Unit {0})
  update_record s key t draw none = (s, err unmarshaling)
  update_record s key t draw (some p) =
      put_marshalled s key draw (ps.codec.marshal (record p { last_seen = some t }))

  abbrev pub update_data :
      Storage → Bytes → ℕ → ℕ → Result EngineError Bytes → Storage × Result PeerError (Unit {0})
  update_data s key t draw (err missing_item) = (s, ok tt)
  update_data s key t draw (err missing_namespace) = (s, ok tt)
  update_data s key t draw (err decrypt_failed) = (s, err (getting decrypt_failed))
  update_data s key t draw (err put_failed) = (s, err (getting put_failed))
  update_data s key t draw (ok b) = update_record s key t draw (ps.codec.unmarshal b)

  unfoldable pub update_peer_last_seen :
      Storage → Bytes → ℕ → ℕ → ℕ → Storage × Result PeerError (Unit {0})
  update_peer_last_seen s claim t now draw =
      update_data s (peer_key claim) (or_now now t) draw (get_encrypted e s.peers (peer_key claim))

  -- What the loop of ListPeers makes of a value: nothing, an expired peer, or a peer.
  abbrev pub read_peer : Bytes → Option PeerRecord
  read_peer value = elim (e.unseal value) [ none ↦ none | some b ↦ ps.codec.unmarshal b ]

  abbrev pub list_entry :
      Bytes → Option PeerRecord → ℕ → List Peer × List Bytes → List Peer × List Bytes
  list_entry key none now rest = rest
  list_entry key (some p) now (peers, keys) =
      if is_expired p now then (peers, key ∷ keys) else (peer_of p ∷ peers, keys)

  unfoldable pub list_loop : Dict Bytes → ℕ → List Peer × List Bytes
  list_loop [] now = ([], [])
  list_loop ((key, value) ∷ m) now = list_entry key (read_peer value) now (list_loop m now)

  unfoldable pub delete_keys : Storage → List Bytes → Storage
  delete_keys s [] = s
  delete_keys s (k ∷ ks) = delete_keys (try_delete s k) ks

  abbrev pub bucket_or_empty : Namespace → Dict Bytes
  bucket_or_empty none = []
  bucket_or_empty (some bucket) = bucket

  unfoldable pub list_peers : Storage → ℕ → Storage × List Peer
  list_peers s now =
      let (peers, keys) = list_loop (bucket_or_empty s.peers) now in (delete_keys s keys, peers)

  unfoldable pub delete_peer : Storage → Bytes → Storage × Result PeerError (Unit {0})
  delete_peer s claim = elim (delete s.peers (peer_key claim)) [
    | err x ↦ (s, err (deleting x))
    | ok bucket ↦ (record s { peers = some bucket }, ok tt)
  ]
