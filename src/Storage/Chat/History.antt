-- ===== src/Storage/Chat/History.antt =====
-- AddChatEntry and GetChatHistory (pkg/storage/storage.go).
use kamune.Prelude.{
  ℕ, ◌≤◌, ◌<◌, ◌≡◌, refl, sym, ap, subst, ◌∙◌, arith, false, Bool-cases, inl, inr, ltb, le→ltb,
  Option, none, some, List, [], ◌∷◌, ◌++◌, Bytes, bytes_equal, bytes_equal_refl, length,
  length-append, take, drop, take-append, drop-append, length-put_uint64, length-put_uint16,
  put_uint16, uint16, put_uint64, Result, Result-cases, ok, err, ◌%◌,
}
use mathlib.Core.List.{Perm, perm_append_singleton}
use mathlib.Core.List.Perm
use kamune.Prelude.Dict
use kamune.Prelude.Dict.{Dict}
use kamune.Storage.Engine.{Engine, put_encrypted}
use kamune.Storage.Times.{InReach, unix_nano, from_unix_nano-uint64}
use kamune.Storage.Session.{Storage}
use kamune.Storage.Session.Tokens.{IsUsable}
use kamune.Storage.Chat.Sorting.{IsSorted, sort_entries-IsSorted, sort_entries-Perm}
use kamune.Storage.Chat.{
  ChatEntry, ChatError, session_chat, chat_key, chat_value, sort_entries, decode_entry, both_ok,
  add_chat_entry, history_entry, history_loop, get_chat_history,
}

abbrev with_last : Result ChatError (List ChatEntry) → ChatEntry → Result ChatError (List ChatEntry)
with_last (err x) a = err x
with_last (ok xs) a = ok (xs ++ (a ∷ []))

both_ok-with_last :
    (d : Result ChatError ChatEntry) (r : Result ChatError (List ChatEntry)) (a : ChatEntry)
    → both_ok d (with_last r a) ≡ with_last (both_ok d r) a
both_ok-with_last (err x) r a = refl
both_ok-with_last (ok b) (err x) a = refl
both_ok-with_last (ok b) (ok xs) a = refl

sender_back : (n : ℕ) (rest : Bytes) → n < 65536 → uint16 (put_uint16 n ++ rest) ≡ n
unfolding uint16 put_uint16
sender_back n rest h = omega arith

-- The entry that a value which was added decodes to.
decode_entry-chat_value :
    (payload : Bytes) (ts sender now : ℕ) (suffix : Bytes)
    → InReach ts
    → sender < 65536
    → decode_entry (chat_key now sender suffix) (chat_value payload ts)
      ≡ ok (record { timestamp = ts; payload = payload; sender = sender })
unfolding decode_entry chat_key chat_value
decode_entry-chat_value payload ts sender now suffix reach small =
    let nano = put_uint64 (unix_nano ts) in
    let long : ltb (length (chat_value payload ts)) 13 ≡ false =
      le→ltb _ _ (omega (arith, length-append nano payload, length-put_uint64 (unix_nano ts))) in
    let stamp : take 8 (nano ++ payload) ≡ nano =
      take-append 8 nano payload (length-put_uint64 (unix_nano ts)) in
    let rest : drop 8 (nano ++ payload) ≡ payload =
      drop-append 8 nano payload (length-put_uint64 (unix_nano ts)) in
    let tail : drop 8 (chat_key now sender suffix) ≡ put_uint16 sender ++ suffix =
      drop-append 8 (put_uint64 (unix_nano now)) (put_uint16 sender ++ suffix)
        (length-put_uint64 (unix_nano now)) in
    rw (long, stamp, rest, tail, from_unix_nano-uint64 ts reach, sender_back sender suffix small)

insert_absent :
    (key : Bytes) (v : Bytes) (m : Dict Bytes)
    → Dict.lookup key m ≡ none
    → Dict.insert key v m ≡ m ++ ((key, v) ∷ [])
unfolding Dict.lookup Dict.insert
insert_absent key v [] h = refl
insert_absent key v ((j, w) ∷ m) h = elim (Bool-cases (bytes_equal j key)) [
  | inl e ↦ let bad = rw e at h in absurd cc
  | inr e ↦ let h' = rw e at h in rw e (rw (insert_absent key v m h') refl)
]

module _ (e : Engine) where
  history_entry-with_last :
      (key : Bytes) (o : Option Bytes) (r : Result ChatError (List ChatEntry)) (a : ChatEntry)
      → history_entry e key o (with_last r a) ≡ with_last (history_entry e key o r) a
  history_entry-with_last key none r a = refl
  history_entry-with_last key (some value) r a = elim (Bool-cases (ltb (length key) 14)) [
    | inl h ↦ rw h refl
    | inr h ↦ rw h (both_ok-with_last (decode_entry key value) r a)
  ]

  history_loop_last :
      (m : Dict Bytes) (key v value : Bytes) (a : ChatEntry)
      → e.unseal v ≡ some value
      → 14 ≤ length key
      → decode_entry key value ≡ ok a
      → history_loop e (m ++ ((key, v) ∷ [])) ≡ with_last (history_loop e m) a
  unfolding history_loop
  history_loop_last [] key v value a hu hl hd = rw (hu, le→ltb _ _ hl, hd)
  history_loop_last ((j, w) ∷ m) key v value a hu hl hd =
      ap (λ r. history_entry e j (e.unseal w) r) (history_loop_last m key v value a hu hl hd)
      ∙ history_entry-with_last j (e.unseal w) (history_loop e m) a

long_key :
    (now sender : ℕ) (suffix : Bytes) → length suffix ≡ 4 → 14 ≤ length (chat_key now sender suffix)
unfolding chat_key
long_key now sender suffix l = omega (
  arith,
  length-append (put_uint64 (unix_nano now)) (put_uint16 sender ++ suffix),
  length-append (put_uint16 sender) suffix,
  length-put_uint64 (unix_nano now),
  length-put_uint16 sender,
)

module _ (e : Engine) (u : IsUsable e) where
  history_loop_grown :
      (bucket : Dict Bytes) (payload : Bytes) (ts sender now : ℕ) (suffix : Bytes) (draw : ℕ)
      (xs : List ChatEntry)
      → history_loop e bucket ≡ ok xs
      → InReach ts
      → sender < 65536
      → length suffix ≡ 4
      → Dict.lookup (chat_key now sender suffix) bucket ≡ none
      → history_loop e
          (Dict.insert (chat_key now sender suffix) (e.seal draw (chat_value payload ts)) bucket)
        ≡ ok (xs ++ (record { timestamp = ts; payload = payload; sender = sender } ∷ []))
  history_loop_grown bucket payload ts sender now suffix draw xs ex reach small l fresh =
      ap (history_loop e) (
        insert_absent (chat_key now sender suffix) (e.seal draw (chat_value payload ts)) bucket
          fresh)
      ∙ history_loop_last e bucket _ _ _ _ (u.lawful.unseal-seal draw (chat_value payload ts))
          (long_key now sender suffix l)
          (decode_entry-chat_value payload ts sender now suffix reach small)
      ∙ ap (λ r. with_last r (record { timestamp = ts; payload = payload; sender = sender })) ex

  added :
      (s : Storage) (id : Bytes) (bucket : Dict Bytes) (payload : Bytes) (ts sender now : ℕ)
      (suffix : Bytes) (draw : ℕ)
      → session_chat s id ≡ some bucket
      → sender < 65536
      → add_chat_entry e s id payload ts sender now suffix draw ≡ (
        record s {
          chats =
              Dict.insert id
                (Dict.insert
                  (chat_key now sender suffix)
                  (e.seal draw (chat_value payload ts))
                  bucket)
                s.chats;
        },
        ok tt,
      )
  unfolding add_chat_entry put_encrypted
  added s id bucket payload ts sender now suffix draw hb small =
      let same : sender % 65536 ≡ sender = omega arith in
      rw (same, hb, u.accepts (chat_key now sender suffix) (chat_value payload ts) draw)

  get_chat_history_of :
      (s : Storage) (id : Bytes) (bucket : Dict Bytes) (xs : List ChatEntry)
      → session_chat s id ≡ some bucket
      → history_loop e bucket ≡ ok xs
      → get_chat_history e s id ≡ ok (sort_entries xs)
  unfolding get_chat_history
  get_chat_history_of s id bucket xs hb ex = rw (hb, ex)

  old_of :
      (s : Storage) (id : Bytes) (bucket : Dict Bytes) (old xs : List ChatEntry)
      → session_chat s id ≡ some bucket
      → get_chat_history e s id ≡ ok old
      → history_loop e bucket ≡ ok xs
      → sort_entries xs ≡ old
  old_of s id bucket old xs hb ho ex =
      let e1 = sym (get_chat_history_of s id bucket xs hb ex) ∙ ho in ground arith

  no_panic :
      (s : Storage) (id : Bytes) (bucket : Dict Bytes) (old : List ChatEntry) (x : ChatError)
      → session_chat s id ≡ some bucket
      → get_chat_history e s id ≡ ok old
      → history_loop e bucket ≡ err x
      → ⊥
  unfolding get_chat_history
  no_panic s id bucket old x hb ho ex = let bad = rw (hb, ex) at ho in cc

  -- An entry that is added to the chat of a session, under a key that is not in use, is in the history
  -- from then on, with the message, the sender and the sender's time as they were given, and all the
  -- entries of before are still there. The history goes from the earlier times to
  -- the later ones and, at the same time, from the lower sender to the higher.
  pub get_chat_history-add_chat_entry :
      (s : Storage) (id : Bytes) (bucket : Dict Bytes) (payload : Bytes) (ts sender now : ℕ)
      (suffix : Bytes) (draw : ℕ) (old : List ChatEntry)
      → session_chat s id ≡ some bucket
      → get_chat_history e s id ≡ ok old
      → InReach ts
      → sender < 65536
      → length suffix ≡ 4
      → Dict.lookup (chat_key now sender suffix) bucket ≡ none
      → (s' : Storage) × (new : List ChatEntry) × (add_chat_entry e s id payload ts sender now
            suffix draw
          ≡ (s', ok tt))
        × (get_chat_history e s' id ≡ ok new)
        × Perm new (record { timestamp = ts; payload = payload; sender = sender } ∷ old)
        × IsSorted new
  unfolding session_chat
  get_chat_history-add_chat_entry s id bucket payload ts sender now suffix draw old hb ho reach
        small l fresh =
      let key = chat_key now sender suffix in
      let v = e.seal draw (chat_value payload ts) in
      let a : ChatEntry = record { timestamp = ts; payload = payload; sender = sender } in
      elim (Result-cases (history_loop e bucket)) [
        | inl (xs, ex) ↦
            let s' = record s { chats = Dict.insert id (Dict.insert key v bucket) s.chats } in
            let loop =
              history_loop_grown bucket payload ts sender now suffix draw xs ex reach small l
                fresh in
            (
              s',
              sort_entries (xs ++ (a ∷ [])),
              added s id bucket payload ts sender now suffix draw hb small,
              get_chat_history_of s' id (Dict.insert key v bucket) (xs ++ (a ∷ []))
                  (Dict.lookup-insert id id (Dict.insert key v bucket) s.chats
                    ∙ rw (bytes_equal_refl id) refl)
                  loop,
              Perm.trans (sort_entries-Perm (xs ++ (a ∷ []))) (
                  Perm.trans (perm_append_singleton a xs) (
                    Perm.cons' refl (
                      subst (λ o. Perm xs o) (old_of s id bucket old xs hb ho ex)
                        (Perm.symm (sort_entries-Perm xs))))),
              sort_entries-IsSorted (xs ++ (a ∷ [])),
            )
        | inr (x, ex) ↦ absurd (no_panic s id bucket old x hb ho ex)
      ]
