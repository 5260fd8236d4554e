-- ===== src/Protocol/Transport.antt =====
-- transport.go: sending and receiving with sequence numbers. The keys of a transport do not change after
-- the handshake, so they are parameters, and the state is the two uint64 counters. The mutex makes each
-- call's use of a counter one step.
pub mod Sequence
pub mod Delivery
pub mod Closing
use kamune.Prelude.{
  ℕ, ◌+◌, ◌%◌, ◌^◌, Bool, true, false, not, if◌then◌else◌, ltb, ◌==◌, Option, none, some, Bytes,
  Result, ok, err, ◌>>=◌,
}
use kamune.Protocol.Route.{is_valid, route_close_transport}
use kamune.Protocol.Serde.{
  Externals, Metadata, Draws, SerdeError, route, serialize, deserialize, encrypt, decrypt,
}

pub record Transport : Type 0 where
  pub recv_sequence : ℕ
  pub send_sequence : ℕ

-- The peers' signing keys and the keys of the two directions.
pub record Keys : Type 0 where
  pub private_key : Bytes
  pub remote : Bytes
  pub encoder : Bytes
  pub decoder : Bytes

unfoldable pub new_transport : Transport
new_transport = record { recv_sequence = 0; send_sequence = 0 }

-- What Conn.ReadBytes answers, as isTimeout and errors.Is tell it apart.
pub data ReadResult : Type 0 where
  read : Bytes → ReadResult
  eof timed_out failed : ReadResult

pub data TransportError : Type 0 where
  invalid_route conn_closed receive_timeout reading writing peer_disconnected : TransportError
  serializing decrypting deserializing : SerdeError → TransportError
  -- The two texts of ErrOutOfSync, with the number that came and the number expected.
  duplicate missing : ℕ → ℕ → TransportError

abbrev pub next_sequence : ℕ → ℕ
next_sequence n = (n + 1) % 2 ^ 64

module _ {M : Type 0} (x : Externals M) (keys : Keys) where
  -- The sequence check of Receive.
  unfoldable pub accept :
      Transport → M → Metadata → Transport × Result TransportError (M × Metadata)
  accept t m md =
      let expected = next_sequence t.recv_sequence in
      if not (md.sequence == expected)
      then (if ltb md.sequence expected
          then (t, err (duplicate md.sequence expected))
          else (t, err (missing md.sequence expected)))
      else (record t { recv_sequence = md.sequence }, ok (m, md))

  unfoldable pub receive_decoded :
      Transport
      → Result SerdeError (M × Metadata)
      → Transport × Result TransportError (M × Metadata)
  receive_decoded t (err e) = (t, err (deserializing e))
  receive_decoded t (ok (m, md)) =
      if route md == route_close_transport then (t, err peer_disconnected) else accept t m md

  unfoldable pub receive_decrypted :
      Transport → Result SerdeError Bytes → Transport × Result TransportError (M × Metadata)
  receive_decrypted t (err e) = (t, err (decrypting e))
  receive_decrypted t (ok b) = receive_decoded t (deserialize x keys.remote b)

  unfoldable pub receive : Transport → ReadResult → Transport × Result TransportError (M × Metadata)
  receive t (read payload) = receive_decrypted t (decrypt x keys.decoder payload)
  receive t eof = (t, err conn_closed)
  receive t timed_out = (t, err receive_timeout)
  receive t failed = (t, err reading)

  -- What Send hands to the connection, and the metadata that it returns if the write succeeds.
  unfoldable pub send_serialized :
      Draws → Result SerdeError (Bytes × Metadata) → Result TransportError (Bytes × Metadata)
  send_serialized draws (err e) = err (serializing e)
  send_serialized draws (ok (payload, md)) = ok (encrypt x keys.encoder draws.nonce payload, md)

  -- The counter grows before serialization, also when that fails. `writes` says whether the
  -- connection takes the bytes.
  unfoldable pub send :
      Transport
      → M
      → ℕ
      → Draws
      → (Bytes → Bool)
      → Transport × Result TransportError (Bytes × Metadata)
  send t m r draws writes =
      if not (is_valid r)
      then (t, err invalid_route)
      else (let seq = next_sequence t.send_sequence in
          (
            record t { send_sequence = seq },
            (do
              (wire, md) ← send_serialized draws (serialize x keys.private_key m r seq draws)
              if writes wire then ok (wire, md) else err writing),
          ))

  abbrev pub wire_of : Result TransportError (Bytes × Metadata) → Option Bytes
  wire_of (err e) = none
  wire_of (ok (wire, md)) = some wire

  -- Close, with the empty message: what it writes, if it can, before it closes the connection. The
  -- error of Send is dropped.
  unfoldable pub close : Transport → M → Draws → (Bytes → Bool) → Transport × Option Bytes
  close t empty draws writes =
      let (t', r) = send t empty route_close_transport draws writes in (t', wire_of r)
