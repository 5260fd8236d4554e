-- ===== src/Examples/Storage.antt =====
-- A session with two tokens, over the cipher of the transport examples.
use kamune.Prelude.{
  ltb, length, ◌≡◌, ◌⊎◌, refl, arith, true, some, List, [], ◌∷◌, Bytes, replicate, ok, err,
  bytes_equal_refl, length-replicate,
}
use kamune.Prelude.Dict
use kamune.Prelude.Dict.{Dict}
use kamune.Storage.Engine.{Engine, enigma_engine, enigma_engine-IsEngine}
use kamune.Storage.PackedList.{serialize_list}
use kamune.Storage.Session.{Storage, not_found, remove_list_item}
use kamune.Storage.Session.Tokens.{IsPackable, IsUsable, Holds, pop_all, pop_all-Holds}
use kamune.Storage.Session.Removal.{IsRemoved, occurrences, remove_list_item-Holds}
use kamune.Examples.Transport.{toy_crypto, IsKeyPair, toy_crypto-IsLawful}

abbrev pub at_rest : Engine
at_rest =
    enigma_engine toy_crypto (40 ∷ 41 ∷ []) (λ draw. replicate 24 draw) (λ key value. true)
      (λ name. ltb 0 (length name))

pub at_rest-IsUsable : IsUsable at_rest
at_rest-IsUsable = record {
  lawful =
      enigma_engine-IsEngine toy_crypto (40 ∷ 41 ∷ []) (λ draw. replicate 24 draw) IsKeyPair
        toy_crypto-IsLawful (λ draw. length-replicate 24 draw) (λ key value. true)
        (λ name. ltb 0 (length name));
  accepts = λ key b draw. refl;
}

abbrev id : Bytes
id = 1 ∷ []

abbrev key : Bytes
key = 2 ∷ []

abbrev tokens : List Bytes
tokens = replicate 32 5 ∷ replicate 32 6 ∷ []

tokens-IsPackable : IsPackable tokens
tokens-IsPackable = record { entries = (refl, (refl, tt)); few = omega arith }

abbrev pub empty_storage : Storage
empty_storage = record {
  sessions = [];
  chats = [];
  peers = some [];
  settings = some [];
  default_namespace = some [];
}

abbrev fresh_session : Storage
fresh_session = record empty_storage { sessions = (id, []) ∷ [] }

fresh_session_found : Dict.lookup id fresh_session.sessions ≡ some []
unfolding Dict.lookup
fresh_session_found = rw (bytes_equal_refl id)

abbrev with_tokens : Storage
with_tokens = record empty_storage {
  sessions = (id, (key, at_rest.seal 7 (serialize_list tokens)) ∷ []) ∷ [];
}

with_tokens-Holds : Holds at_rest with_tokens id key tokens
unfolding Dict.lookup
with_tokens-Holds = record {
  bucket = (key, at_rest.seal 7 (serialize_list tokens)) ∷ [];
  draw = 7;
  session = rw (bytes_equal_refl id);
  stored = rw (bytes_equal_refl key);
  packable = tokens-IsPackable;
}

-- The third pop finds nothing.
pop_all-Holds_example :
    let (s', entries) = pop_all at_rest id key with_tokens (8 ∷ 9 ∷ 10 ∷ []) in
    (entries ≡ tokens) × Holds at_rest s' id key []
pop_all-Holds_example =
    pop_all-Holds at_rest at_rest-IsUsable id key with_tokens tokens (8 ∷ 9 ∷ 10 ∷ [])
      with_tokens-Holds (omega arith)

remove_list_item-Holds_example :
    let (s', r) = remove_list_item at_rest with_tokens id key (replicate 32 6) 8 in
    ((after : List Bytes) × (r ≡ ok tt)
      × IsRemoved (replicate 32 6) tokens after
      × Holds at_rest s' id key after)
    ⊎ ((r ≡ err not_found) × (s' ≡ with_tokens) × (occurrences (replicate 32 6) tokens ≡ 0))
remove_list_item-Holds_example =
    remove_list_item-Holds at_rest at_rest-IsUsable id key with_tokens tokens (replicate 32 6) 8
      with_tokens-Holds
