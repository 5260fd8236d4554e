-- ===== src/Examples/Endpoint.antt =====
-- A server that takes a new connection, and one that resumes a session, each played against what the
-- dialer writes.
use kamune.Prelude.{
  ℕ, ◌+◌, ◌≡◌, refl, Bool, true, if◌then◌else◌, ◌==◌, Option, none, some, List, [], ◌∷◌, ◌++◌, map,
  Bytes, length, take, drop, replicate, Result, ok, err, bytes_equal, put_uint32, uint32,
  put_uint16, uint16, put_uint64, uint64,
}
use kamune.Prelude.Dict
use kamune.Prelude.Dict.{Dict}
use kamune.Protocol.Route.{to_proto, route_from_proto, is_valid}
use kamune.Protocol.Serde.{
  SignedTransport, serialize, deserialize, pad_and_marshal, signing_input, uvarint_loop, encrypt,
  decrypt,
}
use kamune.Protocol.Version.{
  pos, digits, unsigned, atoi, cut_dot, split3, parse_semver, compare_versions, check_version,
}
use kamune.Protocol.Transport.{
  ReadResult, read, new_transport, send, send_serialized, receive, receive_decrypted,
  receive_decoded, accept,
}
use kamune.Protocol.Network.{play}
use kamune.Protocol.Exchange.{new_mlkem, text, decapsulate, encapsulate_mlkem, derive, new_enigma}
use kamune.Protocol.Challenge.{
  send_message, receive_message, verify_echo, send_challenge, accept_challenge, set_resumption_root,
}
use kamune.Protocol.Handshake.{
  request_handshake, await_response, confirm_request, accept_handshake, answer_request,
  confirm_accept, create_transport, validate_handshake_fields, handshake_transcript_hash,
  transcript, hash_field, derive_challenge_info,
}
use kamune.Protocol.Handshake.Responder.{IsAsked}
use kamune.Protocol.Introduction.{
  Introduce, ResumeRequest, ResumeAccept, Codecs, signed_payload, send_introduction,
  read_signed_transport, route_from_st, is_signed_by, receive_introduction, send_resume_request,
  receive_resume_accept, send_resume_accept,
}
use kamune.Protocol.Endpoint.{
  Endpoint, EndpointDraws, EndpointError, Established, Served, store_tokens, serde_for, admit,
  handle_new_connection, reject, resume_accepted, resume_checked, resume_timed, resume_taken,
  resume_asked, handle_resume, attempt_resume, introduce,
}
use kamune.Protocol.Endpoint.Introduced.{IsAdmitted, handle_new_connection-Ends}
use kamune.Protocol.Endpoint.Resumption.{IsResumed, handle_resume-Ends}
use kamune.Storage.Times.{unix_nano}
use kamune.Storage.PackedList.{serialize_list, deserialize_list, copy_at, copy_items, elements}
use kamune.Storage.Engine.{get, get_encrypted, put_encrypted}
use kamune.Storage.Session.{
  Storage, session_meta, get_meta, pop_entry, pop_list, swap_remove, remove_entry, remove_list_item,
}
use kamune.Storage.Peers.{peer_key, peer_of, is_expired, find_peer_by_key}
use kamune.Storage.Records.{
  get_peer, get_established_at, peer_meta_key, established_at_key, resumption_tokens_key,
}
use kamune.Examples.Transport.{toy_crypto}
use kamune.Examples.Handshake.{toy_primitives, toy_codec, draws_of, letter_draws}
use kamune.Examples.Played.{written}
use kamune.Examples.Storage.{at_rest, empty_storage}
use kamune.Examples.Peers.{toy_peers}

abbrev read_introduce : Bytes → Option Introduce
read_introduce (n ∷ v ∷ b) =
    some
      (record { name = take n b; public_key = drop v (drop n b); app_version = take v (drop n b) })
read_introduce b = none

abbrev read_request : Bytes → Option ResumeRequest
read_request [] = none
read_request (n ∷ b) = some (record { session_id = take n b; token = drop n b })

abbrev read_accept : Bytes → Option ResumeAccept
read_accept [] = none
read_accept (a ∷ b) = some (record { accepted = a == 1; reason = b })

abbrev pub toy_codecs : Codecs
toy_codecs = record {
  introduce = record {
    marshal = λ m.
        some (length m.name ∷ length m.app_version ∷ m.name ++ (m.app_version ++ m.public_key));
    unmarshal = read_introduce;
  };
  resume_request = record {
    marshal = λ m. some (length m.session_id ∷ m.session_id ++ m.token);
    unmarshal = read_request;
  };
  resume_accept = record {
    marshal = λ m. some ((if m.accepted then 1 else 0) ∷ m.reason);
    unmarshal = read_accept;
  };
}

abbrev pub end_of : Bytes → Endpoint
end_of key = record {
  attest = record { private_key = key; public_key = key };
  name = key;
  app_version = b'1' ∷ b'.' ∷ b'2' ∷ b'.' ∷ b'3' ∷ [];
  version = record { major = pos 1; minor = pos 2; patch = pos 0 };
  verifier = λ s peer. (s, true);
}

abbrev pub end_draws : ℕ → EndpointDraws
end_draws n = record {
  introduction = letter_draws;
  resumption = letter_draws;
  handshake = draws_of n;
  removal = 11;
  tokens = 12;
}

abbrev no_message : SignedTransport
no_message = record { payload = []; signature = []; metadata = []; padding = [] }

abbrev first_of : List Bytes → SignedTransport
first_of [] = no_message
first_of (b ∷ bs) = elim (toy_crypto.unmarshal_envelope b) [ none ↦ no_message | some st ↦ st ]

abbrev rest_of : List Bytes → List Bytes
rest_of [] = []
rest_of (b ∷ bs) = bs

abbrev reads : List Bytes → List ReadResult
reads = map (λ b. read b)

abbrev End : Type 0
End = Option (Result (Storage × EndpointError) Established × List ReadResult × List Bool)

abbrev nobody : Established
nobody = record {
  storage = empty_storage;
  session = record {
    session_id = [];
    keys = record { private_key = []; remote = []; encoder = []; decoder = [] };
    counters = record { recv_sequence = 0; send_sequence = 0 };
    resumption_root = none;
  };
  peer = record { first_seen = 0; last_seen = 0; name = []; app_version = []; public_key = [] };
}

abbrev established_or_nobody : End → Established
established_or_nobody none = nobody
established_or_nobody (some (err y, rs, ws)) = nobody
established_or_nobody (some (ok est, rs, ws)) = est

abbrev dialer : Served Established
dialer =
    introduce toy_crypto toy_codecs toy_codec toy_primitives at_rest toy_peers (end_of (1 ∷ []))
      empty_storage (end_draws 40)

abbrev dialed1 : List Bytes
dialed1 = written dialer []

abbrev server : Served Established
server =
    handle_new_connection toy_crypto toy_codecs toy_codec toy_primitives at_rest toy_peers
      (end_of (2 ∷ [])) empty_storage (first_of dialed1) (end_draws 70)

abbrev served1 : List Bytes
served1 = written server []

abbrev dialed2 : List Bytes
dialed2 = written dialer served1

abbrev served2 : List Bytes
served2 = written server (rest_of dialed2)

abbrev dialed3 : List Bytes
dialed3 = written dialer served2

abbrev served3 : List Bytes
served3 = written server (rest_of dialed3)

abbrev dialed4 : List Bytes
dialed4 = written dialer served3

abbrev served : End
served = play server (reads (rest_of dialed4)) (true ∷ true ∷ true ∷ true ∷ [])

served_ends : served ≡ some (ok (established_or_nobody served), [], [])
unfolding written new_mlkem text decapsulate encapsulate_mlkem derive new_enigma serialize
    deserialize pad_and_marshal signing_input uvarint_loop encrypt decrypt to_proto route_from_proto
    is_valid new_transport send send_serialized receive receive_decrypted receive_decoded accept
    play send_message receive_message verify_echo send_challenge accept_challenge
    set_resumption_root request_handshake await_response confirm_request accept_handshake
    answer_request confirm_accept create_transport validate_handshake_fields
    handshake_transcript_hash transcript hash_field derive_challenge_info put_uint32 bytes_equal
    handle_new_connection admit receive_introduction route_from_st introduce send_introduction
    signed_payload is_signed_by check_version parse_semver split3 cut_dot atoi unsigned digits
    compare_versions read_signed_transport
served_ends = refl

handle_new_connection-Ends_example :
    let est = established_or_nobody served in
    (s1 : Storage) × IsAdmitted toy_crypto toy_codecs toy_codec toy_primitives at_rest toy_peers
      (end_of (2 ∷ []))
      empty_storage
      (first_of dialed1)
      s1
      est.peer
    × IsAsked toy_crypto toy_codec toy_primitives
        (serde_for toy_crypto toy_codecs toy_codec toy_primitives at_rest toy_peers
          (end_of (2 ∷ []))
          est.peer)
        []
        (draws_of 70)
        est.session
        (reads (rest_of dialed4))
        []
    × (est.storage
        ≡ store_tokens toy_crypto toy_codecs toy_codec toy_primitives at_rest toy_peers
            (end_of (2 ∷ []))
            s1
            est.session
            12)
handle_new_connection-Ends_example =
    handle_new_connection-Ends toy_crypto toy_codecs toy_codec toy_primitives at_rest toy_peers
      (end_of (2 ∷ [])) empty_storage (first_of dialed1) (end_draws 70) (reads (rest_of dialed4))
      (true ∷ true ∷ true ∷ true ∷ []) (established_or_nobody served) [] [] served_ends

abbrev pub moment : ℕ
moment = 62135596800000000000 + 7

abbrev pub id1 : Bytes
id1 = replicate 24 1

-- What both ends have stored of a session with the peer of this key.
abbrev pub storage_of : Bytes → Storage
storage_of key = record empty_storage {
  sessions =
      (
        id1,
        (peer_meta_key, at_rest.seal 1 key)
            ∷ (established_at_key, at_rest.seal 2 (put_uint64 (unix_nano moment)))
            ∷ (
              resumption_tokens_key,
              at_rest.seal 3 (serialize_list (replicate 32 5 ∷ replicate 32 6 ∷ [])),
            )
            ∷ [],
      )
      ∷ [];
  peers = some ((key, at_rest.seal 4 ((moment + 1) ∷ (moment + 1) ∷ 0 ∷ 0 ∷ key)) ∷ []);
}

abbrev resumer : Served Established
resumer =
    attempt_resume toy_crypto toy_codecs toy_codec toy_primitives at_rest toy_peers
      (end_of (1 ∷ [])) (storage_of (2 ∷ [])) id1 (moment + 100) (end_draws 40)

abbrev resumed1 : List Bytes
resumed1 = written resumer []

abbrev accepter : Served Established
accepter =
    handle_resume toy_crypto toy_codecs toy_codec toy_primitives at_rest toy_peers (end_of (2 ∷ []))
      (storage_of (1 ∷ [])) (first_of resumed1) (moment + 100) (end_draws 70)

abbrev accepted1 : List Bytes
accepted1 = written accepter []

abbrev resumed2 : List Bytes
resumed2 = written resumer accepted1

abbrev accepted2 : List Bytes
accepted2 = written accepter (rest_of resumed2)

abbrev resumed3 : List Bytes
resumed3 = written resumer accepted2

abbrev accepted3 : List Bytes
accepted3 = written accepter (rest_of resumed3)

abbrev resumed4 : List Bytes
resumed4 = written resumer accepted3

abbrev accepted : End
accepted = play accepter (reads (rest_of resumed4)) (true ∷ true ∷ true ∷ true ∷ [])

accepted_ends : accepted ≡ some (ok (established_or_nobody accepted), [], [])
unfolding written new_mlkem text decapsulate encapsulate_mlkem derive new_enigma serialize
    deserialize pad_and_marshal signing_input uvarint_loop encrypt decrypt to_proto route_from_proto
    is_valid new_transport send send_serialized receive receive_decrypted receive_decoded accept
    play send_message receive_message verify_echo send_challenge accept_challenge
    set_resumption_root request_handshake await_response confirm_request accept_handshake
    answer_request confirm_accept create_transport validate_handshake_fields
    handshake_transcript_hash transcript hash_field derive_challenge_info put_uint32 bytes_equal
    handle_resume resume_asked resume_taken resume_timed resume_checked resume_accepted reject
    attempt_resume send_resume_request receive_resume_accept send_resume_accept route_from_st
    signed_payload is_signed_by read_signed_transport uint32 put_uint16 uint16 put_uint64 uint64
    remove_list_item pop_list pop_entry remove_entry swap_remove session_meta get_meta get_encrypted
    put_encrypted get serialize_list deserialize_list copy_at copy_items elements peer_key peer_of
    is_expired find_peer_by_key get_peer get_established_at Dict.lookup Dict.insert
accepted_ends = refl

handle_resume-Ends_example :
    IsResumed toy_crypto toy_codecs toy_codec toy_primitives at_rest toy_peers
      (end_of (2 ∷ []))
      (storage_of (1 ∷ []))
      (first_of resumed1)
      (moment + 100)
      (end_draws 70)
      (established_or_nobody accepted)
      (reads (rest_of resumed4))
      []
handle_resume-Ends_example =
    handle_resume-Ends toy_crypto toy_codecs toy_codec toy_primitives at_rest toy_peers
      (end_of (2 ∷ [])) (storage_of (1 ∷ [])) (first_of resumed1) (moment + 100) (end_draws 70)
      (reads (rest_of resumed4)) (true ∷ true ∷ true ∷ true ∷ []) (established_or_nobody accepted)
      [] [] accepted_ends
