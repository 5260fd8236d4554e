-- ===== src/Storage/Records/Sessions.antt =====
-- CreateSession and what reads its record (pkg/storage/session.go).
use kamune.Prelude.{
  Option, true, ℕ, ◌≡◌, refl, ap, ◌∙◌, arith, false, le→ltb, some, ◌∷◌, Bytes, bytes_equal,
  bytes_equal_refl, length, length-put_uint64, put_uint64, take_all, ok, none,
}
use kamune.Prelude.Dict
use kamune.Prelude.Dict.{Dict}
use kamune.Storage.Engine.{ensure, Engine, get_encrypted, put_encrypted}
use kamune.Storage.Times.{InReach, unix_nano, from_unix_nano-uint64}
use kamune.Storage.Session.{Storage, session_meta, get_meta}
use kamune.Storage.Session.Tokens.{IsUsable}
use kamune.Storage.Peers.{PeerRecord, PeerStore, peer_of, peer_key, is_expired, find_peer_by_key}
use kamune.Storage.Peers.Expiry.{HasPeer, find_peer-live}
use kamune.Storage.Chat.{session_chat}
use kamune.Storage.Records.{
  session_record, create_session, bucket_or_new, get_peer, get_established_at, established,
  peer_by_meta, peer_meta_key, established_at_key,
}
use kamune.Storage.Records.Settings.{get_encrypted-insert}

module _ (e : Engine) (ps : PeerStore) (u : IsUsable e) where
  -- The metadata that CreateSession writes.
  abbrev meta_of : Dict Bytes → Bytes → ℕ → ℕ → ℕ → Dict Bytes
  meta_of meta public_key now draw1 draw2 =
      Dict.insert established_at_key (e.seal draw2 (put_uint64 (unix_nano now)))
        (Dict.insert peer_meta_key (e.seal draw1 public_key) meta)

  session_record_ok :
      (meta : Dict Bytes) (public_key : Bytes) (now draw1 draw2 : ℕ)
      → session_record e ps (some meta) public_key now draw1 draw2
        ≡ ok (meta_of meta public_key now draw1 draw2)
  unfolding session_record put_encrypted
  session_record_ok meta public_key now draw1 draw2 = rw (
    u.accepts peer_meta_key public_key draw1,
    u.accepts established_at_key (put_uint64 (unix_nano now)) draw2,
  )

  ensured :
      (meta : Option (Dict Bytes)) (id : Bytes)
      → e.takes_name id ≡ true
      → ensure e meta id ≡ some (bucket_or_new meta)
  unfolding ensure
  ensured none id h = rw h refl
  ensured (some bucket) id h = refl

  get_meta-meta_of :
      (s : Storage) (id key value : Bytes) (bucket : Dict Bytes)
      → session_meta s id ≡ some bucket
      → get_encrypted e (some bucket) key ≡ ok value
      → get_meta e s id key ≡ ok value
  unfolding get_meta
  get_meta-meta_of s id key value bucket h r = rw h (rw r refl)

  peer_read :
      (meta : Dict Bytes) (public_key : Bytes) (now draw1 draw2 : ℕ)
      → get_encrypted e (some (meta_of meta public_key now draw1 draw2)) peer_meta_key
        ≡ ok public_key
  unfolding bytes_equal
  peer_read meta public_key now draw1 draw2 =
      get_encrypted-insert e ps u (Dict.insert peer_meta_key (e.seal draw1 public_key) meta)
        established_at_key peer_meta_key (put_uint64 (unix_nano now)) draw2
      ∙ get_encrypted-insert e ps u meta peer_meta_key peer_meta_key public_key draw1

  time_read :
      (meta : Dict Bytes) (public_key : Bytes) (now draw1 draw2 : ℕ)
      → get_encrypted e (some (meta_of meta public_key now draw1 draw2)) established_at_key
        ≡ ok (put_uint64 (unix_nano now))
  unfolding bytes_equal
  time_read meta public_key now draw1 draw2 =
      get_encrypted-insert e ps u (Dict.insert peer_meta_key (e.seal draw1 public_key) meta)
        established_at_key established_at_key (put_uint64 (unix_nano now)) draw2

  created_at : (now : ℕ) → InReach now → established e ps (ok (put_uint64 (unix_nano now))) ≡ ok now
  created_at now reach =
      let long =
        le→ltb (length (put_uint64 (unix_nano now))) 8
          (omega (arith, length-put_uint64 (unix_nano now))) in
      rw (
        long,
        take_all 8 (put_uint64 (unix_nano now)) (length-put_uint64 (unix_nano now)),
        from_unix_nano-uint64 now reach,
      )

  -- A session that is created under an ID which bbolt takes as a name, for a peer whose record is in the
  -- store and has not expired: the call succeeds, from then on, until the record expires, the session's
  -- peer is that peer, whatever was stored under the ID, and the session was
  -- established at the time of the call.
  pub get_peer-create_session :
      (s : Storage) (id : Bytes) (p : PeerRecord) (b : ℕ) (bs : Bytes) (now later draw1 draw2 : ℕ)
      → p.public_key ≡ b ∷ bs
      → HasPeer e ps u s (peer_key e ps (b ∷ bs)) p
      → is_expired e ps p now ≡ false
      → is_expired e ps p later ≡ false
      → e.takes_name id ≡ true
      → InReach now
      → (s' : Storage) × (create_session e ps s id (b ∷ bs) now draw1 draw2 ≡ (s', ok tt))
        × (get_peer e ps s' id later ≡ (s', ok (peer_of p)))
        × (get_established_at e ps s' id ≡ ok now)
  unfolding create_session get_peer get_established_at session_meta peer_of
  get_peer-create_session s id p b bs now later draw1 draw2 hp has live live' takes reach =
      let meta = meta_of (bucket_or_new (session_meta s id)) (b ∷ bs) now draw1 draw2 in
      let s' = (create_session e ps s id (b ∷ bs) now draw1 draw2).0 in
      let found : find_peer_by_key e ps s (peer_key e ps (b ∷ bs)) now ≡ (s, ok (peer_of p)) =
        find_peer-live e ps u s (peer_key e ps (b ∷ bs)) p now has live in
      let created : create_session e ps s id (b ∷ bs) now draw1 draw2 ≡ (
        record s {
          sessions = Dict.insert id meta s.sessions;
          chats = Dict.insert id (bucket_or_new (session_chat s id)) s.chats;
        },
        ok tt,
      ) =
        rw (
          found,
          hp,
          ensured (session_meta s id) id takes,
          session_record_ok (bucket_or_new (session_meta s id)) (b ∷ bs) now draw1 draw2,
        ) in
      let s1 = record s {
        sessions = Dict.insert id meta s.sessions;
        chats = Dict.insert id (bucket_or_new (session_chat s id)) s.chats;
      } in
      let bucket : session_meta s1 id ≡ some meta =
        Dict.lookup-insert id id meta s.sessions ∙ rw (bytes_equal_refl id) refl in
      let has' : HasPeer e ps u s1 (peer_key e ps (b ∷ bs)) p = record {
        bucket = has.bucket;
        there = has.there;
        draw = has.draw;
        bytes = has.bytes;
        stored = has.stored;
        decoded = has.decoded;
      } in
      (
        s1,
        created,
        ap (peer_by_meta e ps s1 later) (
              get_meta-meta_of s1 id peer_meta_key (b ∷ bs) meta bucket
                (peer_read (bucket_or_new (session_meta s id)) (b ∷ bs) now draw1 draw2))
            ∙ rw (find_peer-live e ps u s1 (peer_key e ps (b ∷ bs)) p later has' live') refl,
        ap (established e ps) (
              get_meta-meta_of s1 id established_at_key (put_uint64 (unix_nano now)) meta bucket
                (time_read (bucket_or_new (session_meta s id)) (b ∷ bs) now draw1 draw2))
            ∙ created_at now reach,
      )
