-- ===== src/Protocol/Conn/Frames.antt =====
-- What WriteBytes of conn.go puts on the network.
use kamune.Prelude.{
  ◌≡◌, refl, sym, ap, ◌∙◌, inl, inr, Bool-cases, Result-cases, ltb, ◌==◌, List, [], ◌∷◌, ◌++◌,
  Bytes, length, take, drop, take-append-drop, put_uint16, Result, ok, err,
}
use mathlib.Core.List.{append_assoc, append-nil}
use kamune.Protocol.Conn.{
  ConnError, Answer, wrote, failed, Moment, Conn, check_deadline, write_loop, write_payload,
  write_bytes,
}

-- What went out is the front of the whole, and all of it if there was no error.
pub record IsSent (whole sent : Bytes) (r : Result ConnError (Unit {0})) : Type 0 where
  pub rest : Bytes
  pub front : whole ≡ sent ++ rest
  pub complete : r ≡ ok tt → rest ≡ []

write_loop-IsSent :
    (answers : List Answer) (b : Bytes) → IsSent b (write_loop answers b).0 (write_loop answers b).2
unfolding write_loop
write_loop-IsSent answers [] = record { rest = []; front = refl; complete = λ e. refl }
write_loop-IsSent [] (b ∷ bs) = record { rest = b ∷ bs; front = refl; complete = λ e. cc }
write_loop-IsSent (failed n ∷ answers) (b ∷ bs) = record {
  rest = drop n (b ∷ bs);
  front = sym (take-append-drop n (b ∷ bs));
  complete = λ e. cc;
}
write_loop-IsSent (wrote n ∷ answers) (b ∷ bs) =
    let ih = write_loop-IsSent answers (drop n (b ∷ bs)) in
    elim (Bool-cases (n == 0)) [
      | inl q ↦ rw q (record { rest = b ∷ bs; front = refl; complete = λ e. cc })
      | inr q ↦ rw q (record {
        rest = ih.rest;
        front =
            sym (take-append-drop n (b ∷ bs))
            ∙ ap (λ (t : Bytes). take n (b ∷ bs) ++ t) ih.front
            ∙ sym (append_assoc (take n (b ∷ bs)) (write_loop answers (drop n (b ∷ bs))).0 ih.rest);
        complete = ih.complete;
      })
    ]

abbrev pub frame : Bytes → Bytes
frame b = put_uint16 (length b) ++ b

write_payload-IsSent :
    (c : Conn) (b : Bytes) (m : Moment) (sent : Bytes) (left : List Answer)
    (r : Result ConnError (Unit {0}))
    → IsSent (put_uint16 (length b)) sent r
    → IsSent (frame b) (write_payload c b m sent left r).1 (write_payload c b m sent left r).2
unfolding write_payload
write_payload-IsSent c b m sent left (err e) h = record {
  rest = h.rest ++ b;
  front = ap (λ (t : Bytes). t ++ b) h.front ∙ append_assoc sent h.rest b;
  complete = λ e. cc;
}
write_payload-IsSent c b m sent left (ok u) h =
    let header : put_uint16 (length b) ≡ sent =
      h.front ∙ ap (λ (t : Bytes). sent ++ t) (h.complete refl) ∙ append-nil sent in
    elim (Result-cases (check_deadline c.write_deadline c.current_write_deadline m)) [
      | inl (d, q) ↦
          let body = write_loop-IsSent left b in
          rw (q, write_payload)
            (record {
              rest = body.rest;
              front =
                  (λ i. header i ++ body.front i)
                  ∙ sym (append_assoc sent (write_loop left b).0 body.rest);
              complete = body.complete;
            })
      | inr (e, q) ↦
          rw (q, write_payload)
            (record { rest = b; front = λ i. header i ++ b; complete = λ x. cc })
    ]

-- Whatever the network answers, WriteBytes sends a front of the frame of its payload, and all of it if
-- it reports no error.
pub write_bytes-IsSent :
    (c : Conn) (b : Bytes) (m1 m2 : Moment) (answers : List Answer)
    → let (c', sent, r) = write_bytes c b m1 m2 answers in IsSent (frame b) sent r
unfolding write_bytes
write_bytes-IsSent c b m1 m2 answers =
    elim (Result-cases (check_deadline c.write_deadline c.current_write_deadline m1)) [
      | inl (d, q) ↦
          rw (q, write_bytes)
            (elim (Bool-cases (ltb 65535 (length b))) [
              | inl x ↦ rw x (record { rest = frame b; front = refl; complete = λ e. cc })
              | inr x ↦ rw x (
                  write_payload-IsSent (record c { current_write_deadline = d }) b m2 _ _ _
                    (write_loop-IsSent answers (put_uint16 (length b))))
            ])
      | inr (e, q) ↦
          rw (q, write_bytes) (record { rest = frame b; front = refl; complete = λ x. cc })
    ]
