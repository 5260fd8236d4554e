-- ===== src/Protocol/Conn.antt =====
-- conn.go: frames over a network connection, with deadlines. What the network does is an argument: the
-- answers to the calls of Write, in order, and the bytes that can be read.
pub mod Frames
pub mod Delivery
pub mod Deadline
use kamune.Prelude.{
  ℕ, ◌+◌, Bool, true, false, if◌then◌else◌, ltb, ◌==◌, Option, none, some, List, [], ◌∷◌, ◌++◌,
  Bytes, length, take, drop, put_uint16, uint16, Result, ok, err,
}

pub data ConnError : Type 0 where
  conn_closed setting_deadline message_too_large write_failed wrote_nothing blocked reading :
      ConnError

-- An answer to Write: so many bytes were taken, and perhaps there was an error.
pub data Answer : Type 0 where
  wrote failed : ℕ → Answer

-- What a deadline check meets: the time, whether Close was called, and whether the network takes a
-- new deadline.
pub record Moment : Type 0 where
  pub now : ℕ
  pub closed : Bool
  pub sets : Bool

-- The zero time is `none`. A deadline of zero, or below, disables timeouts.
pub record Conn : Type 0 where
  pub current_read_deadline : Option ℕ
  pub current_write_deadline : Option ℕ
  pub read_deadline : ℕ
  pub write_deadline : ℕ

abbrev pub set_deadline : Bool → Option ℕ → Result ConnError (Option ℕ)
set_deadline sets d = if sets then ok d else err setting_deadline

-- checkReadDeadlineLocked and checkWriteDeadlineLocked: the deadline that stands afterwards.
unfoldable pub check_deadline : ℕ → Option ℕ → Moment → Result ConnError (Option ℕ)
check_deadline deadline current m =
    if m.closed
    then err conn_closed
    else (if deadline == 0 then set_deadline m.sets none else elim current [
      | none ↦ set_deadline m.sets (some (m.now + deadline))
      | some d ↦
          if ltb d m.now
          then set_deadline m.sets (some (m.now + deadline))
          else (if ltb d (m.now + deadline)
              then ok (some d)
              else set_deadline m.sets (some (m.now + deadline)))
    ])

-- The loop that writes until everything is written: what went out, the answers that are left, and how
-- it ended. With no answer left, the call hangs.
unfoldable pub write_loop : List Answer → Bytes → Bytes × List Answer × Result ConnError (Unit {0})
write_loop answers [] = ([], answers, ok tt)
write_loop [] (b ∷ bs) = ([], [], err blocked)
write_loop (failed n ∷ answers) (b ∷ bs) = (take n (b ∷ bs), answers, err write_failed)
write_loop (wrote n ∷ answers) (b ∷ bs) =
    let (sent, left, r) = write_loop answers (drop n (b ∷ bs)) in
    if n == 0 then ([], answers, err wrote_nothing) else (take n (b ∷ bs) ++ sent, left, r)

-- WriteBytes behind the length: the second check, and the payload.
pub write_payload :
    Conn
    → Bytes
    → Moment
    → Bytes
    → List Answer
    → Result ConnError (Unit {0})
    → Conn × Bytes × Result ConnError (Unit {0})
write_payload c bytes m sent answers (err e) = (c, sent, err e)
write_payload c bytes m sent answers (ok _) =
    elim (check_deadline c.write_deadline c.current_write_deadline m) [
      | err e ↦ (c, sent, err e)
      | ok d ↦
          (let (more, left, r) = write_loop answers bytes in
            (record c { current_write_deadline = d }, sent ++ more, r))
    ]

-- The moments are those of its two deadline checks.
unfoldable pub write_bytes :
    Conn → Bytes → Moment → Moment → List Answer → Conn × Bytes × Result ConnError (Unit {0})
unfolding write_payload
write_bytes c bytes m1 m2 answers =
    elim (check_deadline c.write_deadline c.current_write_deadline m1) [
      | err e ↦ (c, [], err e)
      | ok d ↦
          (let c1 = record c { current_write_deadline = d } in
            let (sent, left, r) = write_loop answers (put_uint16 (length bytes)) in
            if ltb 65535 (length bytes)
            then (c1, [], err message_too_large)
            else write_payload c1 bytes m2 sent left r)
    ]

-- ReadBytes on the bytes that arrive: the payload, and the bytes behind it.
unfoldable pub read_bytes : Conn → Moment → Bytes → Conn × Result ConnError (Bytes × Bytes)
read_bytes c m stream = elim (check_deadline c.read_deadline c.current_read_deadline m) [
  | err e ↦ (c, err e)
  | ok d ↦ (
    record c { current_read_deadline = d },
    (if ltb (length stream) 2
        then err reading
        else (if ltb (length (drop 2 stream)) (uint16 (take 2 stream))
            then err reading
            else ok (
              take (uint16 (take 2 stream)) (drop 2 stream),
              drop (uint16 (take 2 stream)) (drop 2 stream),
            ))),
  )
]
