-- ===== src/Broker/Client.antt =====
-- pkg/relayconn/broker/client.go: how a peer decodes the NOTIFY packets that reach it. Sockets,
-- deadlines and the channel of Listen are left out.
use kamune.Prelude.{Option, none, some, Bytes, ◌==◌, if◌then◌else◌, Result, ok, err, ◌>>=◌}
use kamune.Broker.Codec.{
  NotifyPayload, Error, parse_notify, parse_notify_payload, notify_token_assigned,
}
use kamune.Broker.Crypto.{Primitives, Ecdh, exchange, open_notify}

pub data ClientError : Type 0 where
  parse_failed : Error → ClientError
  key_exchange_failed open_failed wrong_type : ClientError

abbrev or_error {ℓ κ} : {E : Type ℓ} {A : Type κ} → Option A → E → Result E A
or_error none e = err e
or_error (some a) e = ok a

abbrev pub wrap {ℓ} : {A : Type ℓ} → Result Error A → Result ClientError A
wrap (ok a) = ok a
wrap (err e) = err (parse_failed e)

module _ (c : Primitives) where
  -- Client.openNotify
  unfoldable pub client_open_notify : Ecdh → Bytes → Result ClientError Bytes
  client_open_notify key pkt = do
    (broker_eph_pub, nonce, sealed) ← wrap (parse_notify pkt)
    shared ← or_error (exchange c key broker_eph_pub) key_exchange_failed
    or_error (open_notify c (c.sha256 shared) broker_eph_pub nonce sealed) open_failed

  -- Client.decodeNotify
  unfoldable pub decode_notify : Ecdh → Bytes → Result ClientError NotifyPayload
  unfolding client_open_notify
  decode_notify key pkt = do
    plaintext ← client_open_notify key pkt
    wrap (parse_notify_payload plaintext)

  -- Client.decodeAssignedToken
  unfoldable pub decode_assigned_token : Ecdh → Bytes → Result ClientError Bytes
  unfolding client_open_notify
  decode_assigned_token key pkt = do
    plaintext ← client_open_notify key pkt
    payload ← wrap (parse_notify_payload plaintext)
    if payload.type == notify_token_assigned then ok payload.token else err wrong_type
