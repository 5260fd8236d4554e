-- ===== src/Examples/Connection.antt =====
-- A dialer and a server, of which each runs its whole part: a new connection, and a resumed session.
use kamune.Prelude.{
  zero, suc, ◌++◌, ℕ, ◌+◌, ◌≡◌, refl, arith, true, [], ◌∷◌, Bytes, replicate, All, inr, bytes_equal,
  put_uint32, uint32, put_uint16, uint16, put_uint64, uint64,
}
use kamune.Prelude.Dict
use kamune.Prelude.Dict.{Dict}
use kamune.Protocol.Serde.{encrypt, decrypt}
use kamune.Protocol.Version.{
  digits, unsigned, atoi, cut_dot, split3, parse_semver, compare_versions, check_version,
}
use kamune.Protocol.Network.{Network, network, Steps}
use kamune.Protocol.Challenge.{Session}
use kamune.Protocol.Exchange.{IsAscii}
use kamune.Protocol.Handshake.Agreement.{IsAgreed}
use kamune.Protocol.Handshake.Steps.{agreed_id}
use kamune.Protocol.Endpoint.{EndpointError, Established, finish, dial, serve}
use kamune.Protocol.Endpoint.Resumed.{CanAsk, CanAccept, resumption_any_order}
use kamune.Protocol.Endpoint.Met.{IsWelcome, introduced, connection_any_order}
use kamune.Storage.PackedList.{serialize_list, deserialize_list, copy_at, copy_items, elements}
use kamune.Storage.Engine.{get, get_encrypted, put_encrypted}
use kamune.Storage.Session.{
  Storage, session_meta, get_meta, pop_entry, pop_list, swap_remove, remove_entry, remove_list_item,
}
use kamune.Storage.Peers.{Peer, peer_key, peer_of, is_expired, find_peer_by_key}
use kamune.Storage.Records.{resumption_tokens_key, get_peer, get_established_at}
use kamune.Examples.Transport.{toy_crypto, IsKeyPair, toy_crypto-IsLawful}
use kamune.Examples.Handshake.{
  toy_primitives, toy_primitives-IsDocumented, toy_codec, toy_codec-IsCarried, alice_draws-IsDrawn,
  bob_draws-IsDrawn, alice_key_pair, alice_key_pair_generated, draws_of,
}
use kamune.Examples.Storage.{at_rest, empty_storage}
use kamune.Examples.Peers.{toy_peers}
use kamune.Examples.Endpoint.{toy_codecs, end_of, end_draws, storage_of, moment, id1}

abbrev peer_with : Bytes → Peer
peer_with key = record {
  first_seen = moment;
  last_seen = moment;
  name = [];
  app_version = [];
  public_key = key;
}

abbrev token : Bytes
token = replicate 32 5

abbrev asked : Storage
asked = (pop_list at_rest (storage_of (2 ∷ [])) id1 resumption_tokens_key 11).0

can_ask :
    CanAsk toy_crypto toy_codecs toy_codec toy_primitives at_rest toy_peers IsKeyPair
      toy_crypto-IsLawful
      (storage_of (2 ∷ []))
      id1
      (moment + 100)
      11
      (2 ∷ [])
      token
      asked
      (peer_with (2 ∷ []))
unfolding bytes_equal put_uint32 uint32 put_uint16 uint16 put_uint64 uint64 encrypt decrypt pop_list
    pop_entry session_meta get_meta get_encrypted put_encrypted get serialize_list deserialize_list
    copy_at copy_items elements peer_key peer_of is_expired find_peer_by_key get_peer Dict.lookup
    Dict.insert
can_ask = record { s1 = asked; popped = refl; peer_found = refl; peer_key = refl }

abbrev accepted : Storage
accepted = (remove_list_item at_rest (storage_of (1 ∷ [])) id1 resumption_tokens_key token 11).0

can_accept :
    CanAccept toy_crypto toy_codecs toy_codec toy_primitives at_rest toy_peers IsKeyPair
      toy_crypto-IsLawful
      (storage_of (1 ∷ []))
      id1
      (moment + 100)
      11
      (1 ∷ [])
      token
      accepted
      (peer_with (1 ∷ []))
unfolding bytes_equal put_uint32 uint32 put_uint16 uint16 put_uint64 uint64 encrypt decrypt
    remove_list_item remove_entry swap_remove session_meta get_meta get_encrypted put_encrypted get
    serialize_list deserialize_list copy_at copy_items elements peer_key peer_of is_expired
    find_peer_by_key get_peer get_established_at Dict.lookup Dict.insert
can_accept = record {
  s1 = accepted;
  removed = refl;
  peer_found = refl;
  peer_key = refl;
  established_at = moment;
  established = refl;
  in_time = omega arith;
}

all_ones-IsAscii : (n : ℕ) → All IsAscii (replicate n 1)
all_ones-IsAscii zero = tt
all_ones-IsAscii (suc n) = (omega arith, all_ones-IsAscii n)

resumption_any_order_example :
    let start =
      network
        (dial toy_crypto toy_codecs toy_codec toy_primitives at_rest toy_peers
          (end_of (1 ∷ []))
          (storage_of (2 ∷ []))
          id1
          (moment + 100)
          (end_draws 40))
        (serve toy_crypto toy_codecs toy_codec toy_primitives at_rest toy_peers
          (end_of (2 ∷ []))
          true
          (storage_of (1 ∷ []))
          (moment + 100)
          (end_draws 70))
        []
        [] in
    (f g : Session) × IsAgreed IsKeyPair id1 f g
    × ((n : Network (Storage × EndpointError) Established) (m : ℕ)
        → Steps m start n
        → (k : ℕ) × (16 ≡ m + k)
          × Steps k n (
              network
                (finish toy_crypto toy_codecs toy_codec toy_primitives at_rest toy_peers
                  (end_of (1 ∷ []))
                  asked
                  (peer_with (2 ∷ []))
                  12
                  f)
                (finish toy_crypto toy_codecs toy_codec toy_primitives at_rest toy_peers
                  (end_of (2 ∷ []))
                  accepted
                  (peer_with (1 ∷ []))
                  12
                  g)
                []
                []))
resumption_any_order_example =
    resumption_any_order toy_crypto toy_codecs toy_codec toy_primitives at_rest toy_peers IsKeyPair
      toy_crypto-IsLawful toy_primitives-IsDocumented toy_codec-IsCarried (end_of (1 ∷ []))
      (end_of (2 ∷ [])) refl refl (end_draws 40) (end_draws 70) alice_draws-IsDrawn
      bob_draws-IsDrawn (storage_of (2 ∷ [])) (storage_of (1 ∷ [])) asked accepted 1
      (replicate 23 1) (moment + 100) (moment + 100) token (peer_with (2 ∷ [])) (peer_with (1 ∷ []))
      alice_key_pair can_ask can_accept
      (record { bytes = 24 ∷ (replicate 24 1 ++ token); marshals = refl; unmarshals = refl })
      (record { bytes = 1 ∷ []; marshals = refl; unmarshals = refl })
      (inr (refl, all_ones-IsAscii 24)) alice_key_pair_generated

welcome : (me other : Bytes) → (s : Storage) → IsWelcome (end_of me) (end_of other) s
unfolding check_version parse_semver split3 cut_dot atoi unsigned digits compare_versions
welcome me other s = record { warned = _; version = refl; verified = refl }

connection_any_order_example :
    let start =
      network
        (dial toy_crypto toy_codecs toy_codec toy_primitives at_rest toy_peers
          (end_of (1 ∷ []))
          empty_storage
          []
          0
          (end_draws 40))
        (serve toy_crypto toy_codecs toy_codec toy_primitives at_rest toy_peers
          (end_of (2 ∷ []))
          true
          empty_storage
          0
          (end_draws 70))
        []
        [] in
    (f g : Session) × IsAgreed IsKeyPair (agreed_id [] (draws_of 40) (draws_of 70)) f g
    × ((n : Network (Storage × EndpointError) Established) (m : ℕ)
        → Steps m start n
        → (k : ℕ) × (16 ≡ m + k)
          × Steps k n (
              network
                (finish toy_crypto toy_codecs toy_codec toy_primitives at_rest toy_peers
                  (end_of (1 ∷ []))
                  empty_storage
                  (introduced (end_of (2 ∷ [])))
                  12
                  f)
                (finish toy_crypto toy_codecs toy_codec toy_primitives at_rest toy_peers
                  (end_of (2 ∷ []))
                  empty_storage
                  (introduced (end_of (1 ∷ [])))
                  12
                  g)
                []
                []))
connection_any_order_example =
    connection_any_order toy_crypto toy_codecs toy_codec toy_primitives at_rest toy_peers IsKeyPair
      toy_crypto-IsLawful toy_primitives-IsDocumented toy_codec-IsCarried (end_of (1 ∷ []))
      (end_of (2 ∷ [])) refl refl (end_draws 40) (end_draws 70) alice_draws-IsDrawn
      bob_draws-IsDrawn empty_storage empty_storage 0 0 true alice_key_pair
      (welcome (1 ∷ []) (2 ∷ []) empty_storage) (welcome (2 ∷ []) (1 ∷ []) empty_storage)
      (record { bytes = _; marshals = refl; unmarshals = refl })
      (record { bytes = _; marshals = refl; unmarshals = refl }) alice_key_pair_generated
