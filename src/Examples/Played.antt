-- ===== src/Examples/Played.antt =====
-- The two sides of a handshake, each played against what the other one writes.
use kamune.Prelude.{
  ◌≡◌, refl, Bool, true, Option, none, some, List, [], ◌∷◌, map, Bytes, Result, ok, err, put_uint32,
  bytes_equal,
}
use kamune.Protocol.Route.{to_proto, route_from_proto, is_valid}
use kamune.Protocol.Serde.{
  serialize, deserialize, pad_and_marshal, signing_input, uvarint_loop, encrypt, decrypt,
}
use kamune.Protocol.Transport.{
  ReadResult, read, new_transport, send, send_serialized, receive, receive_decrypted,
  receive_decoded, accept,
}
use kamune.Protocol.Network.{Io, play}
use kamune.Protocol.Exchange.{
  Mlkem, new_mlkem, text, decapsulate, encapsulate_mlkem, derive, new_enigma,
}
use kamune.Protocol.Challenge.{
  Session, send_message, receive_message, verify_echo, send_challenge, accept_challenge,
  set_resumption_root,
}
use kamune.Protocol.Handshake.{
  HandshakeError, request_for, request_handshake, await_response, confirm_request, accept_handshake,
  answer_request, confirm_accept, create_transport, validate_handshake_fields,
  handshake_transcript_hash, transcript, hash_field, derive_challenge_info,
}
use kamune.Protocol.Handshake.Initiator.{IsAnswered, request_handshake-Ends}
use kamune.Protocol.Handshake.Responder.{IsAsked, accept_handshake-Ends}
use kamune.Examples.Transport.{toy_crypto}
use kamune.Examples.Handshake.{toy_primitives, toy_codec, alice, bob, draws_of}

-- The bytes that a procedure writes, if these are the messages that come.
unfoldable pub written : {E A : Type 0} → Io E A → List Bytes → List Bytes
written (Io.done r) bs = []
written (Io.write_bytes b k) bs = b ∷ written (k true) bs
written (Io.read_bytes k) [] = []
written (Io.read_bytes k) (b ∷ bs) = written (k (read b)) bs

abbrev requester : Io HandshakeError Session
requester = request_handshake toy_crypto toy_codec toy_primitives alice [] (draws_of 40)

abbrev responder : Io HandshakeError Session
responder = accept_handshake toy_crypto toy_codec toy_primitives bob [] (draws_of 70)

abbrev asked : List Bytes
asked = written requester []

abbrev reads : List Bytes → List ReadResult
reads = map (λ b. read b)

abbrev answered : List Bytes
answered = written responder asked

abbrev challenged : List Bytes
challenged = written requester answered

abbrev echoed : List Bytes
echoed = written responder challenged

abbrev finished : List Bytes
finished = written requester echoed

abbrev left : Option (Result HandshakeError Session × List ReadResult × List Bool)
left = play requester (reads echoed) (true ∷ true ∷ true ∷ [])

abbrev right : Option (Result HandshakeError Session × List ReadResult × List Bool)
right = play responder (reads finished) (true ∷ true ∷ true ∷ [])

abbrev nobody : Session
nobody = record {
  session_id = [];
  keys = record { private_key = []; remote = []; encoder = []; decoder = [] };
  counters = record { recv_sequence = 0; send_sequence = 0 };
  resumption_root = none;
}

abbrev session_or_nobody :
    Option (Result HandshakeError Session × List ReadResult × List Bool) → Session
session_or_nobody none = nobody
session_or_nobody (some (err e, rs, ws)) = nobody
session_or_nobody (some (ok s, rs, ws)) = s

left_ends : left ≡ some (ok (session_or_nobody left), [], [])
unfolding written new_mlkem text decapsulate encapsulate_mlkem derive new_enigma serialize
    deserialize pad_and_marshal signing_input uvarint_loop encrypt decrypt to_proto route_from_proto
    is_valid new_transport send send_serialized receive receive_decrypted receive_decoded accept
    play send_message receive_message verify_echo send_challenge accept_challenge
    set_resumption_root request_handshake await_response confirm_request accept_handshake
    answer_request confirm_accept create_transport validate_handshake_fields
    handshake_transcript_hash transcript hash_field derive_challenge_info put_uint32 bytes_equal
left_ends = refl

right_ends : right ≡ some (ok (session_or_nobody right), [], [])
unfolding written new_mlkem text decapsulate encapsulate_mlkem derive new_enigma serialize
    deserialize pad_and_marshal signing_input uvarint_loop encrypt decrypt to_proto route_from_proto
    is_valid new_transport send send_serialized receive receive_decrypted receive_decoded accept
    play send_message receive_message verify_echo send_challenge accept_challenge
    set_resumption_root request_handshake await_response confirm_request accept_handshake
    answer_request confirm_accept create_transport validate_handshake_fields
    handshake_transcript_hash transcript hash_field derive_challenge_info put_uint32 bytes_equal
right_ends = refl

request_handshake-Ends_example :
    (ml : Mlkem) × (new_mlkem toy_primitives (40 ∷ 41 ∷ []) ≡ some ml)
    × IsAnswered toy_crypto toy_codec toy_primitives alice [] ml
        (request_for [] (draws_of 40) ml)
        (session_or_nobody left)
        (reads echoed)
        []
request_handshake-Ends_example =
    request_handshake-Ends toy_crypto toy_codec toy_primitives alice [] (draws_of 40) (reads echoed)
      (true ∷ true ∷ true ∷ []) (session_or_nobody left) [] [] left_ends

accept_handshake-Ends_example :
    IsAsked toy_crypto toy_codec toy_primitives bob []
      (draws_of 70)
      (session_or_nobody right)
      (reads finished)
      []
accept_handshake-Ends_example =
    accept_handshake-Ends toy_crypto toy_codec toy_primitives bob [] (draws_of 70) (reads finished)
      (true ∷ true ∷ true ∷ []) (session_or_nobody right) [] [] right_ends
