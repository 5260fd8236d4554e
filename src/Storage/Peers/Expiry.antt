-- ===== src/Storage/Peers/Expiry.antt =====
-- StorePeer and FindPeer (pkg/storage/peer.go): what is stored is found until it expires.
use kamune.Prelude.{
  ℕ, ◌+◌, ◌≤◌, ◌<◌, ◌≡◌, refl, ap, true, false, le→ltb, lt→ltb, some, Bytes, bytes_equal_refl,
  length, ok, err, ◌∙◌,
}
use kamune.Prelude.Dict
use kamune.Prelude.Dict.{Dict}
use kamune.Storage.Engine.{Engine, missing_item, get, get_encrypted, put_encrypted, delete}
use kamune.Storage.Session.{Storage}
use kamune.Storage.Session.Tokens.{IsUsable}
use kamune.Storage.Peers.{
  Peer, PeerRecord, PeerStore, getting, peer_expired, peer_of, or_now, record_of, peer_key,
  is_expired, find_peer_by_key, find_peer, store_peer, put_peer, try_delete,
}

-- The peer with the times that StorePeer fills in.
abbrev pub seen_at : Peer → ℕ → Peer
seen_at peer now = record peer {
  first_seen = or_now now peer.first_seen;
  last_seen = or_now now peer.last_seen;
}

module _ (e : Engine) (ps : PeerStore) (u : IsUsable e) where
  -- The store has this peer under this key.
  pub record HasPeer (s : Storage) (key : Bytes) (p : PeerRecord) : Type 0 where
    pub bucket : Dict Bytes
    pub there : s.peers ≡ some bucket
    pub draw : ℕ
    pub bytes : Bytes
    pub stored : Dict.lookup key bucket ≡ some (e.seal draw bytes)
    pub decoded : ps.codec.unmarshal bytes ≡ some p

  get_peer-HasPeer :
      (s : Storage) (key : Bytes) (p : PeerRecord) (h : HasPeer s key p)
      → get_encrypted e s.peers key ≡ ok h.bytes
  unfolding get_encrypted get
  get_peer-HasPeer s key p h =
      rw (h.there, get_encrypted, get, h.stored, u.lawful.unseal-seal h.draw h.bytes)

  pub find_peer-live :
      (s : Storage) (key : Bytes) (p : PeerRecord) (now : ℕ)
      → HasPeer s key p
      → is_expired e ps p now ≡ false
      → find_peer_by_key e ps s key now ≡ (s, ok (peer_of p))
  unfolding find_peer_by_key
  find_peer-live s key p now h live = rw (get_peer-HasPeer s key p h) (rw h.decoded (rw live refl))

  find_peer-late :
      (s : Storage) (key : Bytes) (p : PeerRecord) (now : ℕ)
      → HasPeer s key p
      → is_expired e ps p now ≡ true
      → find_peer_by_key e ps s key now ≡ (try_delete s key, err peer_expired)
  unfolding find_peer_by_key
  find_peer-late s key p now h late = rw (get_peer-HasPeer s key p h) (rw h.decoded (rw late refl))

  find_peer_deleted :
      (s : Storage) (key : Bytes) (bucket : Dict Bytes) (now : ℕ)
      → s.peers ≡ some bucket
      → find_peer_by_key e ps (try_delete s key) key now
        ≡ (try_delete s key, err (getting missing_item))
  unfolding find_peer_by_key get_encrypted get delete
  find_peer_deleted s key bucket now h =
      rw (h, get_encrypted, get, Dict.lookup-delete key key bucket, bytes_equal_refl key)

  store_peer-HasPeer :
      (s : Storage) (bucket : Dict Bytes) (peer : Peer) (now draw : ℕ) (b : Bytes)
      → s.peers ≡ some bucket
      → length peer.public_key ≡ 44
      → ps.codec.marshal (record_of e ps peer now) ≡ some b
      → ps.codec.unmarshal b ≡ some (record_of e ps peer now)
      → (((store_peer e ps s peer now draw).1) ≡ ok tt)
        × HasPeer
            ((store_peer e ps s peer now draw).0)
            (peer_key e ps peer.public_key)
            (record_of e ps peer now)
  unfolding store_peer put_encrypted
  store_peer-HasPeer s bucket peer now draw b h l m back =
      let stored : store_peer e ps s peer now draw ≡ (
        record s {
          peers = some (Dict.insert (peer_key e ps peer.public_key) (e.seal draw b) bucket);
        },
        ok tt,
      ) =
        rw (l, m, put_peer, put_encrypted, h, u.accepts (peer_key e ps peer.public_key) b draw) in
      (
        rw stored,
        rw stored (record {
          bucket = Dict.insert (peer_key e ps peer.public_key) (e.seal draw b) bucket;
          there = refl;
          draw = draw;
          bytes = b;
          stored =
              Dict.lookup-insert (peer_key e ps peer.public_key) (peer_key e ps peer.public_key)
                (e.seal draw b) bucket
              ∙ rw (bytes_equal_refl (peer_key e ps peer.public_key)) refl;
          decoded = back;
        }),
      )

  -- A peer with a public key of 44 bytes is stored, if its record can be marshalled and read back. From
  -- then on it is found, with the times filled in, until the expiry duration has passed since it was
  -- first seen; after that the call says that it expired and removes it, so the next one finds nothing.
  pub find_peer-store_peer :
      (s : Storage) (bucket : Dict Bytes) (peer : Peer) (now draw : ℕ) (b : Bytes)
      → s.peers ≡ some bucket
      → length peer.public_key ≡ 44
      → ps.codec.marshal (record_of e ps peer now) ≡ some b
      → ps.codec.unmarshal b ≡ some (record_of e ps peer now)
      → (s' : Storage) × (store_peer e ps s peer now draw ≡ (s', ok tt))
        × ((t : ℕ)
            → t ≤ or_now now peer.first_seen + ps.expiry_duration
            → find_peer e ps s' peer.public_key t ≡ (s', ok (seen_at peer now)))
        × ((t later : ℕ)
            → or_now now peer.first_seen + ps.expiry_duration < t
            → (gone : Storage) × (find_peer e ps s' peer.public_key t ≡ (gone, err peer_expired))
              × (find_peer e ps gone peer.public_key later ≡ (gone, err (getting missing_item))))
  unfolding find_peer is_expired peer_of
  find_peer-store_peer s bucket peer now draw b h l m back =
      let (fine, has) = store_peer-HasPeer s bucket peer now draw b h l m back in
      let key = peer_key e ps peer.public_key in
      let s' = (store_peer e ps s peer now draw).0 in
      (
        s',
        ap (λ r. (s', r)) fine,
        (λ t live. find_peer-live s' key (record_of e ps peer now) t has (le→ltb _ _ live)),
        (λ t later late. (
          try_delete s' key,
          find_peer-late s' key (record_of e ps peer now) t has (lt→ltb _ _ late),
          find_peer_deleted s' key has.bucket later has.there,
        )),
      )
