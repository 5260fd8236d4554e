-- ===== src/Protocol/Framing/RoundTrip.antt =====
-- WriteBytes against ReadBytes (pkg/relayconn/framing.go).
use kamune.Prelude.{
  ℕ, zero, suc, ◌%◌, ◌≤◌, ◌<◌, ◌≡◌, refl, ap, sym, take, drop, length-drop, take-append-drop, ◌∙◌,
  ◌⊎◌, arith, ◌&&◌, if◌then◌else◌, ltb, le→ltb, List, [], ◌∷◌, ◌++◌, Bytes, All, length,
  length-append, length-take, take-append, drop-append, put_uint16, uint16, uint16-put_uint16,
  length-put_uint16, Result, ok, err, ◌>>=◌,
}
use mathlib.Core.List.{append_assoc}
use native.Mathlib.Nat.{mod-eq_of_lt}
use kamune.Protocol.Framing.{
  FrameError, read_length, read_data, too_large, read_full, read_bytes, write_bytes,
}

read_full-append :
    (n : ℕ) (xs ys : Bytes) (e : FrameError)
    → length xs ≡ n
    → read_full n (xs ++ ys) e ≡ ok (xs, ys)
unfolding read_full
read_full-append n xs ys e h =
    rw (le→ltb (length (xs ++ ys)) n (omega (arith, length-append xs ys)))
      λ i. ok (take-append n xs ys h i, drop-append n xs ys h i)

-- The reader's view of one frame: its declared length, then that many bytes if they are allowed.
read_bytes-write_bytes :
    (max_size : ℕ) (payload rest : Bytes)
    → read_bytes max_size (write_bytes payload ++ rest) ≡ (
        if ltb 0 max_size && ltb max_size (length payload % 65536)
        then err (too_large (length payload % 65536))
        else read_full (length payload % 65536) (payload ++ rest) read_data)
unfolding read_bytes write_bytes
read_bytes-write_bytes max_size payload rest = rw append_assoc (
    rw
      (read_full-append 2 (put_uint16 (length payload % 65536)) (payload ++ rest) read_length
        (length-put_uint16 (length payload % 65536)))
      (rw declared))
  where
    declared : uint16 (put_uint16 (length payload % 65536)) ≡ length payload % 65536
    declared = omega (arith, uint16-put_uint16 (length payload % 65536))

abbrev pub Fits : ℕ → Bytes → Type 0
Fits max_size payload = (length payload < 65536) × ((max_size ≡ 0) ⊎ (length payload ≤ max_size))

abbrev pub write_all : List Bytes → Bytes
write_all [] = []
write_all (p ∷ ps) = write_bytes p ++ write_all ps

-- Reading as many frames as were written.
abbrev pub read_all : ℕ → ℕ → Bytes → Result FrameError (List Bytes × Bytes)
read_all max_size zero stream = ok ([], stream)
read_all max_size (suc n) stream = do
  (p, rest) ← read_bytes max_size stream
  (ps, rest') ← read_all max_size n rest
  ok (p ∷ ps, rest')

read_one :
    (max_size : ℕ) (p rest : Bytes)
    → Fits max_size p
    → read_bytes max_size (write_bytes p ++ rest) ≡ ok (p, rest)
read_one max_size p rest (short, allowed) =
    read_bytes-write_bytes max_size p rest
    ∙ rw (mod-eq_of_lt short) (ground (arith, read_full-append (length p) p rest read_data refl))

-- A sequence of payloads that fit is read back frame by frame, and what follows is left.
pub read_all-write_all :
    (max_size : ℕ) (ps : List Bytes) (rest : Bytes)
    → All (Fits max_size) ps
    → read_all max_size (length ps) (write_all ps ++ rest) ≡ ok (ps, rest)
read_all-write_all max_size [] rest h = refl
read_all-write_all max_size (p ∷ ps) rest h =
    rw (append_assoc, read_one max_size p (write_all ps ++ rest) h.0)
      (rw (read_all-write_all max_size ps rest h.1))

read_full-front :
    (n : ℕ) (xs ys : Bytes) (e : FrameError)
    → n ≤ length xs
    → read_full n (xs ++ ys) e ≡ ok (take n xs, drop n xs ++ ys)
read_full-front n xs ys e h =
    ap (λ zs. read_full n (zs ++ ys) e) (sym (take-append-drop n xs))
    ∙ rw append_assoc
        (read_full-append n (take n xs) (drop n xs ++ ys) e (omega (arith, length-take n xs)))

-- A payload of 65536 bytes or more is written with a length that is too small by a multiple of 65536.
-- The reader that allows that length takes this many bytes of its front for the whole payload, and it
-- goes on with what is left of the payload, 65536 bytes or more, as with the frames that follow.
pub write_bytes_wraps :
    (max_size : ℕ) (payload rest : Bytes)
    → 65536 ≤ length payload
    → (max_size ≡ 0) ⊎ (length payload % 65536 ≤ max_size)
    → let n = length payload % 65536 in
      (read_bytes max_size (write_bytes payload ++ rest)
        ≡ ok (take n payload, drop n payload ++ rest))
      × (length (take n payload) ≡ n)
      × (65536 ≤ length (drop n payload))
write_bytes_wraps max_size payload rest long allowed =
    let n = length payload % 65536 in
    (
      read_bytes-write_bytes max_size payload rest
          ∙ ground (arith, read_full-front n payload rest read_data (omega arith)),
      omega (arith, length-take n payload),
      omega (arith, length-drop n payload),
    )
