-- ===== src/Examples/Conn.antt =====
-- A frame that a slow network takes in pieces.
use kamune.Prelude.{ℕ, ◌≡◌, refl, arith, true, false, none, some, [], ◌∷◌, ◌++◌, Bytes, ok}
use kamune.Protocol.Conn.{wrote, failed, Moment, Conn, write_bytes, read_bytes}
use kamune.Protocol.Conn.Frames.{IsSent, frame, write_bytes-IsSent}
use kamune.Protocol.Conn.Delivery.{read_bytes-write_bytes}

abbrev conn : Conn
conn = record {
  current_read_deadline = none;
  current_write_deadline = some 40;
  read_deadline = 30;
  write_deadline = 30;
}

abbrev at : ℕ → Moment
at t = record { now = t; closed = false; sets = true }

abbrev payload : Bytes
payload = 1 ∷ 2 ∷ 3 ∷ []

-- The network breaks within the payload.
write_bytes-IsSent_example :
    let (c', sent, r) = write_bytes conn payload (at 20) (at 21) (wrote 2 ∷ failed 1 ∷ []) in
    IsSent (frame payload) sent r
write_bytes-IsSent_example =
    write_bytes-IsSent conn payload (at 20) (at 21) (wrote 2 ∷ failed 1 ∷ [])

read_bytes-write_bytes_example :
    let (c', sent, r) =
      write_bytes conn payload
        (at 20)
        (at 21)
        (wrote 1 ∷ wrote 1 ∷ wrote 2 ∷ wrote 5 ∷ wrote 1 ∷ []) in
    (r ≡ ok tt) × ((read_bytes conn (at 25) (sent ++ 9 ∷ [])).1 ≡ ok (payload, 9 ∷ []))
read_bytes-write_bytes_example =
    read_bytes-write_bytes conn conn payload (9 ∷ []) (at 20) (at 21) (at 25)
      (wrote 1 ∷ wrote 1 ∷ wrote 2 ∷ wrote 5 ∷ wrote 1 ∷ []) (omega arith) (refl, refl) (refl, refl)
      (refl, refl) (omega arith) (omega arith)
