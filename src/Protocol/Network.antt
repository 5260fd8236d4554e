-- ===== src/Protocol/Network.antt =====
-- Procedures over a connection (the Conn interface of conn.go, as handshake.go, intro.go and resume.go use
-- it) as data: a procedure is what it does next, and how it goes on from the answer. Two procedures at the
-- two ends of a reliable connection are a `Network`, and each step of it is one WriteBytes or ReadBytes of
-- one side.
pub mod Interleaving
pub mod Play
pub mod Within
use kamune.Prelude.{
  ℕ, zero, suc, ◌≡◌, Bool, true, false, if◌then◌else◌, Option, none, some, List, [], ◌∷◌, ◌++◌,
  Bytes, Result, ok, err,
}
use kamune.Protocol.Transport.{ReadResult, read}

-- The answer to a write is whether the connection took the bytes.
pub data Io (E A : Type 0) : Type 0 where
  done : Result E A → Io E A
  write_bytes : Bytes → (Bool → Io E A) → Io E A
  read_bytes : (ReadResult → Io E A) → Io E A

infixl 5 ◌>>=◌ ◌>>◌
abbrev pub ◌>>=◌ : {E A B : Type 0} → Io E A → (A → Io E B) → Io E B
done (ok a) >>= f = f a
done (err e) >>= f = done (err e)
write_bytes b k >>= f = write_bytes b (λ w. k w >>= f)
read_bytes k >>= f = read_bytes (λ r. k r >>= f)

abbrev pub ◌>>◌ : {E B : Type 0} → Io E (Unit {0}) → Io E B → Io E B
m >> k = m >>= λ _. k

abbrev pub pure : {E A : Type 0} → A → Io E A
pure a = done (ok a)

-- fmt.Errorf around the error of a call.
abbrev pub wrap : {E F A : Type 0} → (E → F) → Io E A → Io F A
wrap f (done (ok a)) = done (ok a)
wrap f (done (err e)) = done (err (f e))
wrap f (write_bytes b k) = write_bytes b (λ w. wrap f (k w))
wrap f (read_bytes k) = read_bytes (λ r. wrap f (k r))

abbrev pub or_fail : {E A : Type 0} → Option A → E → Io E A
or_fail none e = done (err e)
or_fail (some a) e = done (ok a)

abbrev pub lift : {E F A : Type 0} → (E → F) → Result E A → Io F A
lift f (ok a) = done (ok a)
lift f (err e) = done (err (f e))

abbrev pub require : {E : Type 0} → Bool → E → Io E (Unit {0})
require true e = done (ok tt)
require false e = done (err e)

-- conn.WriteBytes and conn.ReadBytes with the error that the caller returns when they fail.
abbrev pub write_or : {E : Type 0} → Bytes → E → Io E (Unit {0})
write_or b e = write_bytes b (λ w. require w e)

abbrev pub bytes_of : {E : Type 0} → E → ReadResult → Io E Bytes
bytes_of e (read b) = done (ok b)
bytes_of e ReadResult.eof = done (err e)
bytes_of e ReadResult.timed_out = done (err e)
bytes_of e ReadResult.failed = done (err e)

abbrev pub read_or : {E : Type 0} → E → Io E Bytes
read_or e = read_bytes (λ r. bytes_of e r)

-- A procedure alone, against the answers to its reads and to its writes, in order: how it ends, if the
-- answers reach so far, and the answers that are left.
unfoldable pub play :
    {E A : Type 0}
    → Io E A
    → List ReadResult
    → List Bool
    → Option (Result E A × List ReadResult × List Bool)
play (done r) rs ws = some (r, rs, ws)
play (write_bytes b k) rs [] = none
play (write_bytes b k) rs (w ∷ ws) = play (k w) rs ws
play (read_bytes k) [] ws = none
play (read_bytes k) (r ∷ rs) ws = play (k r) rs ws

-- Two procedures, the left and the right, and what is on the way to each.
pub data Network (E A : Type 0) : Type 0 where
  network : Io E A → Io E A → List Bytes → List Bytes → Network E A

pub data Side : Type 0 where
  left_side right_side : Side

-- A write of the left procedure reaches the end of the right one's queue, and a read takes the front of
-- its own, or waits.
unfoldable pub advance_left : {E A : Type 0} → Network E A → Option (Network E A)
advance_left (network (Io.done r) q l rs) = none
advance_left (network (Io.write_bytes b k) q l rs) = some (network (k true) q l (rs ++ (b ∷ [])))
advance_left (network (Io.read_bytes k) q [] rs) = none
advance_left (network (Io.read_bytes k) q (b ∷ l) rs) = some (network (k (read b)) q l rs)

abbrev pub swap : {E A : Type 0} → Network E A → Network E A
swap (network p q l r) = network q p r l

abbrev pub swap_option : {E A : Type 0} → Option (Network E A) → Option (Network E A)
swap_option none = none
swap_option (some n) = some (swap n)

unfoldable pub advance : {E A : Type 0} → Side → Network E A → Option (Network E A)
advance Side.left_side n = advance_left n
advance Side.right_side n = swap_option (advance_left (swap n))

-- So many steps, by the sides in any order, lead from a network to another.
pub data Steps {E A : Type 0} : ℕ → Network E A → Network E A → Type 0 where
  stop : {n : Network E A} → Steps zero n n
  go :
      {m : ℕ} {a b c : Network E A} (s : Side)
      → advance s a ≡ some b
      → Steps m b c
      → Steps (suc m) a c
