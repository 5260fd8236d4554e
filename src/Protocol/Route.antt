-- ===== src/Protocol/Route.antt =====
-- routes.go: the message routes and their protobuf numbers (internal/box/pb/box.pb.go). A Go `Route` is
-- an int32 and may hold any number, so the model keeps the number.
use kamune.Prelude.{ℕ, ◌≡◌, arith, Bool, ◌&&◌, if◌then◌else◌, ltb, leb, ◌==◌}

abbrev pub route_invalid : ℕ
route_invalid = 0

abbrev pub route_identity : ℕ
route_identity = 1

abbrev pub route_request_handshake : ℕ
route_request_handshake = 2

abbrev pub route_accept_handshake : ℕ
route_accept_handshake = 3

abbrev pub route_finalize_handshake : ℕ
route_finalize_handshake = 4

abbrev pub route_send_challenge : ℕ
route_send_challenge = 5

abbrev pub route_verify_challenge : ℕ
route_verify_challenge = 6

abbrev pub route_exchange_messages : ℕ
route_exchange_messages = 7

abbrev pub route_close_transport : ℕ
route_close_transport = 8

abbrev pub route_ping : ℕ
route_ping = 9

abbrev pub route_pong : ℕ
route_pong = 10

abbrev pub route_resume_request : ℕ
route_resume_request = 11

abbrev pub route_resume_accept : ℕ
route_resume_accept = 12

abbrev pub route_session_data : ℕ
route_session_data = 13

-- The generated enum pb.Route; `unknown` is a number that box.proto does not name.
pub data PbRoute : Type 0 where
  invalid identity request_handshake accept_handshake finalize_handshake send_challenge
        verify_challenge exchange_messages close_transport ping pong resume_request resume_accept
        session_data :
      PbRoute
  unknown : ℕ → PbRoute

unfoldable pub is_valid : ℕ → Bool
is_valid r = ltb route_invalid r && leb r route_session_data

unfoldable pub to_proto : ℕ → PbRoute
to_proto r =
    if r == route_identity
    then PbRoute.identity
    else (if r == route_request_handshake
        then PbRoute.request_handshake
        else (if r == route_accept_handshake
            then PbRoute.accept_handshake
            else (if r == route_finalize_handshake
                then PbRoute.finalize_handshake
                else (if r == route_send_challenge
                    then PbRoute.send_challenge
                    else (if r == route_verify_challenge
                        then PbRoute.verify_challenge
                        else (if r == route_exchange_messages
                            then PbRoute.exchange_messages
                            else (if r == route_close_transport
                                then PbRoute.close_transport
                                else (if r == route_ping
                                    then PbRoute.ping
                                    else (if r == route_pong
                                        then PbRoute.pong
                                        else (if r == route_resume_request
                                            then PbRoute.resume_request
                                            else (if r == route_resume_accept
                                                then PbRoute.resume_accept
                                                else (if r == route_session_data
                                                    then PbRoute.session_data
                                                    else PbRoute.invalid))))))))))))

unfoldable pub route_from_proto : PbRoute → ℕ
route_from_proto PbRoute.identity = route_identity
route_from_proto PbRoute.request_handshake = route_request_handshake
route_from_proto PbRoute.accept_handshake = route_accept_handshake
route_from_proto PbRoute.finalize_handshake = route_finalize_handshake
route_from_proto PbRoute.send_challenge = route_send_challenge
route_from_proto PbRoute.verify_challenge = route_verify_challenge
route_from_proto PbRoute.exchange_messages = route_exchange_messages
route_from_proto PbRoute.close_transport = route_close_transport
route_from_proto PbRoute.ping = route_ping
route_from_proto PbRoute.pong = route_pong
route_from_proto PbRoute.resume_request = route_resume_request
route_from_proto PbRoute.resume_accept = route_resume_accept
route_from_proto PbRoute.session_data = route_session_data
route_from_proto PbRoute.invalid = route_invalid
route_from_proto (PbRoute.unknown n) = route_invalid

-- A route keeps its number over the wire if it is valid, and becomes the invalid route if it is not.
pub route_from_proto-to_proto :
    (r : ℕ) → route_from_proto (to_proto r) ≡ (if is_valid r then r else route_invalid)
unfolding route_from_proto to_proto is_valid
route_from_proto-to_proto r = ground arith
