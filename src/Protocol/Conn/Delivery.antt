-- ===== src/Protocol/Conn/Delivery.antt =====
-- WriteBytes of one conn.go connection and ReadBytes of its peer.
use kamune.Prelude.{
  ℕ, ◌+◌, ◌≤◌, ◌<◌, ◌≡◌, refl, ap, ◌∙◌, inl, inr, arith, true, false, Result-cases, subst, ◌==◌,
  le→ltb, Option, List, [], ◌∷◌, ◌++◌, Bytes, All, length, take, drop, length-drop, take-append,
  drop-append, length-append, put_uint16, uint16, uint16-put_uint16, length-put_uint16, Result, ok,
}
use mathlib.Core.List.{append-nil, append_assoc}
use native.Mathlib.Nat.{mod-eq_of_lt}
use kamune.Protocol.Conn.{
  ConnError, Answer, wrote, failed, Moment, Conn, check_deadline, write_loop, write_payload,
  write_bytes, read_bytes,
}
use kamune.Protocol.Conn.Frames.{frame, write_bytes-IsSent}

-- A call of Write that takes at least one byte.
abbrev pub Progresses : Answer → Type 0
Progresses (wrote n) = 0 < n
Progresses (failed n) = ⊥

-- How a loop of writes ends that always makes progress: with all sent, and no more answers used than
-- there were bytes.
record IsDone (answers : List Answer) (b : Bytes) (left : List Answer)
    (r : Result ConnError (Unit {0})) : Type 0 where
  ended : r ≡ ok tt
  used : length answers ≤ length left + length b
  progress : All Progresses left

write_loop-IsDone :
    (answers : List Answer) (b : Bytes)
    → All Progresses answers
    → length b ≤ length answers
    → IsDone answers b (write_loop answers b).1 (write_loop answers b).2
unfolding write_loop
write_loop-IsDone answers [] v h = record { ended = refl; used = omega arith; progress = v }
write_loop-IsDone [] (b ∷ bs) v h = absurd (omega arith)
write_loop-IsDone (failed n ∷ answers) (b ∷ bs) v h = absurd v.0
write_loop-IsDone (wrote n ∷ answers) (b ∷ bs) v h =
    let ih =
      write_loop-IsDone answers (drop n (b ∷ bs)) v.1
        (omega (arith, length-drop n (b ∷ bs), v.0)) in
    let positive : (n == 0) ≡ false = ground arith in
    rw positive (record {
      ended = ih.ended;
      used = omega (arith, ih.used, length-drop n (b ∷ bs), v.0);
      progress = ih.progress;
    })

-- A moment at which the connection is open and the network takes a deadline.
abbrev pub IsOpen : Moment → Type 0
IsOpen m = (m.closed ≡ false) × (m.sets ≡ true)

check_deadline_open :
    (deadline : ℕ) (current : Option ℕ) (m : Moment)
    → IsOpen m
    → (d : Option ℕ) × (check_deadline deadline current m ≡ ok d)
unfolding check_deadline
check_deadline_open deadline current m v = elim (Result-cases (check_deadline deadline current m)) [
  | inl (d, q) ↦ (d, q)
  | inr (e, q) ↦ absurd (ground arith)
]

write_bytes_ok :
    (c : Conn) (b : Bytes) (m1 m2 : Moment) (answers : List Answer)
    → length b < 65536
    → IsOpen m1
    → IsOpen m2
    → All Progresses answers
    → length b + 2 ≤ length answers
    → (write_bytes c b m1 m2 answers).2 ≡ ok tt
unfolding write_bytes write_payload
write_bytes_ok c b m1 m2 answers short o1 o2 v h =
    let header = put_uint16 (length b) in
    let (d1, q1) = check_deadline_open c.write_deadline c.current_write_deadline m1 o1 in
    let (d2, q2) = check_deadline_open c.write_deadline d1 m2 o2 in
    let first = write_loop-IsDone answers header v (omega (arith, length-put_uint16 (length b))) in
    let second =
      write_loop-IsDone (write_loop answers header).1 b first.progress
        (omega (arith, first.used, length-put_uint16 (length b))) in
    rw (q1, write_bytes)
      (rw (le→ltb 65535 (length b) (omega arith))
        (rw (first.ended, write_payload) (rw (q2, write_payload) second.ended)))

read_bytes-frame :
    (c : Conn) (m : Moment) (b more : Bytes)
    → length b < 65536
    → IsOpen m
    → (read_bytes c m (frame b ++ more)).1 ≡ ok (b, more)
unfolding read_bytes
read_bytes-frame c m b more short o =
    let (d, q) = check_deadline_open c.read_deadline c.current_read_deadline m o in
    rw (q, read_bytes)
      (rw (le→ltb (length (frame b ++ more)) 2 long) (
        rw (declared, behind)
          (rw (le→ltb (length (b ++ more)) (length b) (omega (arith, length-append b more))) (λ i.
            ok (take-append (length b) b more refl i, drop-append (length b) b more refl i)))))
  where
    long : 2 ≤ length (frame b ++ more)
    long = omega (
      arith,
      length-append (frame b) more,
      length-append (put_uint16 (length b)) b,
      length-put_uint16 (length b),
    )

    declared : uint16 (take 2 (frame b ++ more)) ≡ length b
    declared =
        ap uint16 (
          ap (take 2) (append_assoc (put_uint16 (length b)) b more)
          ∙ take-append 2 (put_uint16 (length b)) (b ++ more) (length-put_uint16 (length b)))
        ∙ uint16-put_uint16 (length b)
        ∙ mod-eq_of_lt short

    behind : drop 2 (frame b ++ more) ≡ b ++ more
    behind =
        ap (drop 2) (append_assoc (put_uint16 (length b)) b more)
        ∙ drop-append 2 (put_uint16 (length b)) (b ++ more) (length-put_uint16 (length b))

-- On open connections, and over a network whose every Write takes at least a byte, a payload below
-- 65536 bytes is written without an error, and the peer reads exactly it and leaves what follows.
pub read_bytes-write_bytes :
    (writer reader : Conn) (b more : Bytes) (m1 m2 m3 : Moment) (answers : List Answer)
    → length b < 65536
    → IsOpen m1
    → IsOpen m2
    → IsOpen m3
    → All Progresses answers
    → length b + 2 ≤ length answers
    → let (writer', sent, r) = write_bytes writer b m1 m2 answers in
      (r ≡ ok tt) × ((read_bytes reader m3 (sent ++ more)).1 ≡ ok (b, more))
read_bytes-write_bytes writer reader b more m1 m2 m3 answers short o1 o2 o3 v h =
    let done = write_bytes_ok writer b m1 m2 answers short o1 o2 v h in
    let sent = write_bytes-IsSent writer b m1 m2 answers in
    let out = (write_bytes writer b m1 m2 answers).1 in
    let all : frame b ≡ out =
      sent.front ∙ ap (λ (t : Bytes). out ++ t) (sent.complete done) ∙ append-nil out in
    (
      done,
      subst (λ (t : Bytes). (read_bytes reader m3 (t ++ more)).1 ≡ ok (b, more)) all
          (read_bytes-frame reader m3 b more short o3),
    )
