-- ===== src/Storage/Session/Tokens.antt =====
-- The lists of one-time tokens in a session's metadata.
use kamune.Prelude.{
  ℕ, ◌<◌, ◌≤◌, ◌≡◌, refl, ap, ◌∙◌, arith, true, some, List, [], ◌∷◌, Bytes, All, length,
  bytes_equal_refl, ok, err,
}
use kamune.Prelude.Dict
use kamune.Prelude.Dict.{Dict}
use kamune.Storage.Engine.{Engine, IsEngine, get, get_encrypted, put_encrypted}
use kamune.Storage.PackedList.{serialize_list}
use kamune.Storage.PackedList.RoundTrip.{IsEntry, deserialize_list-serialize_list}
use kamune.Storage.Session.{
  Storage, not_found, new_byte_slices_meta, session_meta, set_meta, pop_entry, pop_list,
}

-- A list that fits the packed form.
pub record IsPackable (list : List Bytes) : Type 0 where
  pub entries : All IsEntry list
  pub few : length list < 4294967296

-- What the transactions of a session need: a cipher that reads what it wrote, and a bbolt that takes
-- it.
pub record IsUsable (e : Engine) : Type 0 where
  pub lawful : IsEngine e
  pub accepts : (key b : Bytes) (draw : ℕ) → e.accepts key (e.seal draw b) ≡ true

module _ (e : Engine) where
  -- The session has the list under the key.
  pub record Holds (s : Storage) (id key : Bytes) (list : List Bytes) : Type 0 where
    pub bucket : Dict Bytes
    pub draw : ℕ
    pub session : Dict.lookup id s.sessions ≡ some bucket
    pub stored : Dict.lookup key bucket ≡ some (e.seal draw (serialize_list list))
    pub packable : IsPackable list

module _ (e : Engine) (u : IsUsable e) (id key : Bytes) where
  pub put_ok :
      (bucket : Dict Bytes) (draw : ℕ) (b : Bytes)
      → put_encrypted e (some bucket) draw key b ≡ ok (Dict.insert key (e.seal draw b) bucket)
  unfolding put_encrypted
  put_ok bucket draw b = rw (u.accepts key b draw)

  -- The state after a list was written.
  unfoldable pub written : Storage → Dict Bytes → ℕ → List Bytes → Storage
  written s bucket draw list = record s {
    sessions =
        Dict.insert id (Dict.insert key (e.seal draw (serialize_list list)) bucket) s.sessions;
  }

  pub written-Holds :
      (s : Storage) (bucket : Dict Bytes) (draw : ℕ) (list : List Bytes)
      → IsPackable list
      → Holds e (written s bucket draw list) id key list
  unfolding written
  written-Holds s bucket draw list p = record {
    bucket = Dict.insert key (e.seal draw (serialize_list list)) bucket;
    draw = draw;
    session = Dict.lookup-insert id id _ s.sessions ∙ rw (bytes_equal_refl id);
    stored = Dict.lookup-insert key key _ bucket ∙ rw (bytes_equal_refl key);
    packable = p;
  }

  pub read :
      (s : Storage) (list : List Bytes)
      → Holds e s id key list
      → get_encrypted e (session_meta s id) key ≡ ok (serialize_list list)
  unfolding get_encrypted get session_meta
  read s list h =
      rw (h.session)
        (rw (h.stored, get, get_encrypted) (rw (u.lawful.unseal-seal h.draw (serialize_list list))))

  -- A list that was stored in a session's metadata is what the session holds, whatever was there.
  pub set_meta-Holds :
      (s : Storage) (bucket : Dict Bytes) (draw : ℕ) (list : List Bytes)
      → Dict.lookup id s.sessions ≡ some bucket
      → IsPackable list
      → let (s', r) = set_meta e s id (new_byte_slices_meta key list) draw in
        (r ≡ ok tt) × Holds e s' id key list
  unfolding set_meta new_byte_slices_meta session_meta written
  set_meta-Holds s bucket draw list h p =
      rw h
        (rw (put_ok bucket draw (serialize_list list)) (refl, written-Holds s bucket draw list p))

  -- Popping gives the first entry and leaves the others; from an empty list it gives nothing and
  -- changes nothing.
  pub pop_list-Holds :
      (s : Storage) (x : Bytes) (xs : List Bytes) (draw : ℕ)
      → Holds e s id key (x ∷ xs)
      → let (s', r) = pop_list e s id key draw in (r ≡ ok x) × Holds e s' id key xs
  unfolding pop_list session_meta written
  pop_list-Holds s x xs draw h = rw (read s (x ∷ xs) h) (
      rw (deserialize_list-serialize_list (x ∷ xs) h.packable.entries h.packable.few) (
        rw (h.session, pop_entry)
          (rw (put_ok h.bucket draw (serialize_list xs)) (
            refl,
            written-Holds s h.bucket draw xs
                (record { entries = h.packable.entries.1; few = omega (arith, h.packable.few) }),
          ))))

  pub pop_list_empty :
      (s : Storage) (draw : ℕ) → Holds e s id key [] → pop_list e s id key draw ≡ (s, err not_found)
  unfolding pop_list
  pop_list_empty s draw h =
      rw (read s [] h) (rw (deserialize_list-serialize_list [] tt (omega arith), pop_entry))

-- One PopList for each of the draws, up to the first that fails: the state and the entries.
abbrev pub add_first {ℓ} : {S : Type ℓ} → Bytes → S × List Bytes → S × List Bytes
add_first x (s, xs) = (s, x ∷ xs)

module _ (e : Engine) (id key : Bytes) where
  unfoldable pub pop_all : Storage → List ℕ → Storage × List Bytes
  pop_all s [] = (s, [])
  pop_all s (draw ∷ draws) = elim (pop_list e s id key draw).1 [
    | err x ↦ ((pop_list e s id key draw).0, [])
    | ok x ↦ add_first x (pop_all (pop_list e s id key draw).0 draws)
  ]

module _ (e : Engine) (u : IsUsable e) (id key : Bytes) where
  -- A list is handed out once, from the first entry to the last: as many pops as it has entries, or
  -- more, give exactly its entries, and leave the session with the empty list.
  pub pop_all-Holds :
      (s : Storage) (list : List Bytes) (draws : List ℕ)
      → Holds e s id key list
      → length list ≤ length draws
      → let (s', entries) = pop_all e id key s draws in (entries ≡ list) × Holds e s' id key []
  unfolding pop_all
  pop_all-Holds s [] [] h n = (refl, h)
  pop_all-Holds s [] (d ∷ ds) h n =
      let nothing = pop_list_empty e u id key s d h in
      let failed : (pop_list e s id key d).1 ≡ err not_found = ap (λ p. p.1) nothing in
      let kept : (pop_list e s id key d).0 ≡ s = ap (λ p. p.0) nothing in
      rw (failed, pop_all) (refl, rw kept h)
  pop_all-Holds s (x ∷ xs) [] h n = absurd (omega arith)
  pop_all-Holds s (x ∷ xs) (d ∷ ds) h n =
      let (got, left) = pop_list-Holds e u id key s x xs d h in
      let (same, none_left) = pop_all-Holds (pop_list e s id key d).0 xs ds left (omega arith) in
      rw (got, pop_all) (ap (◌∷◌ x) same, none_left)
