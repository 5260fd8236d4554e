-- ===== src/Protocol/Transport/Sequence.antt =====
-- The checks of Receive (transport.go).
use kamune.Prelude.{
  ◌≡◌, ◌≢◌, refl, inl, inr, arith, true, false, Bool-cases, Result-cases, ltb, ◌==◌, some, Bytes,
  Result, ok, err,
}
use kamune.Protocol.Route.{route_close_transport}
use kamune.Protocol.Serde.{
  Externals, Metadata, SignedTransport, route, deserialize, decrypt, signing_input, SerdeError,
}
use kamune.Protocol.Transport.{
  Transport, Keys, ReadResult, read, eof, timed_out, failed, TransportError, duplicate, missing,
  deserializing, decrypting, peer_disconnected, conn_closed, receive_timeout, reading,
  next_sequence, accept, receive_decoded, receive_decrypted, receive,
}

module _ {M : Type 0} (x : Externals M) (keys : Keys) where
  -- What a call that returned left behind: nothing new on an error, the next number on success.
  pub record IsStep (t : Transport) (out : Transport × Result TransportError (M × Metadata))
      : Type 0 where
    pub on_error : (e : TransportError) → out.1 ≡ err e → out.0 ≡ t
    pub on_success :
        (m : M) (md : Metadata)
        → out.1 ≡ ok (m, md)
        → (out.0 ≡ record t { recv_sequence = next_sequence t.recv_sequence })
          × (md.sequence ≡ next_sequence t.recv_sequence)
          × (route md ≢ route_close_transport)

  refused : (t : Transport) (e : TransportError) → IsStep t (t, err e)
  refused t e = record { on_error = λ d h. refl; on_success = λ m md h. cc }

  accepted :
      (t : Transport) (m : M) (md : Metadata)
      → md.sequence ≡ next_sequence t.recv_sequence
      → (route md == route_close_transport) ≡ false
      → IsStep t (record t { recv_sequence = md.sequence }, ok (m, md))
  accepted t m md h n = record {
    on_error = λ d e. cc;
    on_success =
        λ m' md' e. let same : md ≡ md' = ground arith in rw (← same) (rw h, h, ground arith);
  }

  receive_decoded-IsStep :
      (t : Transport) (r : Result SerdeError (M × Metadata)) → IsStep t (receive_decoded x keys t r)
  unfolding receive_decoded accept
  receive_decoded-IsStep t (err e) = refused t (deserializing e)
  receive_decoded-IsStep t (ok (m, md)) = elim (Bool-cases (route md == route_close_transport)) [
    | inl a ↦ rw a (refused t peer_disconnected)
    | inr a ↦ rw a (elim (Bool-cases (md.sequence == next_sequence t.recv_sequence)) [
      | inl b ↦ rw b (accepted t m md (ground arith) a)
      | inr b ↦ rw b (elim (Bool-cases (ltb md.sequence (next_sequence t.recv_sequence))) [
        | inl c ↦ rw c (refused t (duplicate md.sequence (next_sequence t.recv_sequence)))
        | inr c ↦ rw c (refused t (missing md.sequence (next_sequence t.recv_sequence)))
      ])
    ])
  ]

  receive_decrypted-IsStep :
      (t : Transport) (r : Result SerdeError Bytes) → IsStep t (receive_decrypted x keys t r)
  unfolding receive_decrypted
  receive_decrypted-IsStep t (err e) = refused t (decrypting e)
  receive_decrypted-IsStep t (ok b) = receive_decoded-IsStep t (deserialize x keys.remote b)

  -- Receive takes only the message whose number follows the last one taken, never one of the closing
  -- route, and then moves its counter to that number. Every error leaves the transport as it was.
  pub receive-IsStep : (t : Transport) (r : ReadResult) → IsStep t (receive x keys t r)
  unfolding receive
  receive-IsStep t (read payload) = receive_decrypted-IsStep t (decrypt x keys.decoder payload)
  receive-IsStep t eof = refused t conn_closed
  receive-IsStep t timed_out = refused t receive_timeout
  receive-IsStep t failed = refused t reading

  -- The envelope in the bytes read, opened with the transport's key and signed by its remote peer.
  abbrev pub IsSigned : Bytes → M → Metadata → Type 0
  IsSigned payload m md =
      (plain : Bytes) × (st : SignedTransport) × (decrypt x keys.decoder payload ≡ ok plain)
      × (x.unmarshal_envelope plain ≡ some st)
      × (x.verify keys.remote (signing_input st.metadata st.payload) st.signature ≡ true)
      × (x.unmarshal_metadata st.metadata ≡ some md)
      × (x.unmarshal_message st.payload ≡ some m)

  deserialize_ok_inversion :
      (plain : Bytes) (m : M) (md : Metadata)
      → deserialize x keys.remote plain ≡ ok (m, md)
      → (st : SignedTransport) × (x.unmarshal_envelope plain ≡ some st)
        × (x.verify keys.remote (signing_input st.metadata st.payload) st.signature ≡ true)
        × (x.unmarshal_metadata st.metadata ≡ some md)
        × (x.unmarshal_message st.payload ≡ some m)
  unfolding deserialize
  deserialize_ok_inversion plain m md h = ground arith

  receive_decoded_ok :
      (t : Transport) (r : Result SerdeError (M × Metadata)) (m : M) (md : Metadata)
      → (receive_decoded x keys t r).1 ≡ ok (m, md)
      → r ≡ ok (m, md)
  unfolding receive_decoded accept
  receive_decoded_ok t (err e) m md h = cc
  receive_decoded_ok t (ok (m', md')) m md h = ground arith

  -- A message that Receive returns was decrypted with the transport's key, and it and its metadata
  -- are what the remote peer's signature covers.
  pub receive-IsSigned :
      (t : Transport) (payload : Bytes) (m : M) (md : Metadata)
      → (receive x keys t (read payload)).1 ≡ ok (m, md)
      → IsSigned payload m md
  unfolding receive receive_decrypted
  receive-IsSigned t payload m md h = elim (Result-cases (decrypt x keys.decoder payload)) [
    | inl (plain, e) ↦
        let (st, a, b, c, d) =
          deserialize_ok_inversion plain m md
            (receive_decoded_ok t _ m md (rw (e, receive_decrypted) at h)) in
        (plain, st, e, a, b, c, d)
    | inr (d, e) ↦ let bad = rw (e, receive_decrypted) at h in absurd (cc)
  ]
