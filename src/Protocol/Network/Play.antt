-- ===== src/Protocol/Network/Play.antt =====
-- How a procedure over a connection can end with a value, whatever the other end of it does.
use kamune.Prelude.{
  arith, ◌≡◌, refl, Bool, true, false, Option, none, some, List, [], ◌∷◌, Bytes, Result, ok, err,
}
use kamune.Protocol.Transport.{ReadResult, read}
use kamune.Protocol.Network.{
  Io, ◌>>=◌, ◌>>◌, pure, lift, wrap, or_fail, require, write_or, read_or, play,
}

-- The procedure ends with the value, after these answers, and leaves those.
abbrev pub Ends :
    {E A : Type 0} → Io E A → List ReadResult → List Bool → A → List ReadResult → List Bool → Type 0
Ends m rs ws a rs' ws' = play m rs ws ≡ some (ok a, rs', ws')

-- One that ends with a value has ended its first part with a value, and its second part has gone on
-- from there.
pub play-bind :
    {E A B : Type 0} (m : Io E A) (f : A → Io E B) (rs : List ReadResult) (ws : List Bool) (b : B)
    (rs2 : List ReadResult) (ws2 : List Bool)
    → Ends (m >>= f) rs ws b rs2 ws2
    → (a : A) × (rs1 : List ReadResult) × (ws1 : List Bool) × Ends m rs ws a rs1 ws1
      × Ends (f a) rs1 ws1 b rs2 ws2
unfolding play
play-bind (Io.done (ok a)) f rs ws b rs2 ws2 h = (a, rs, ws, refl, h)
play-bind (Io.done (err e)) f rs ws b rs2 ws2 h = ground arith
play-bind (Io.write_bytes x k) f rs [] b rs2 ws2 h = ground arith
play-bind (Io.write_bytes x k) f rs (w ∷ ws) b rs2 ws2 h = play-bind (k w) f rs ws b rs2 ws2 h
play-bind (Io.read_bytes k) f [] ws b rs2 ws2 h = ground arith
play-bind (Io.read_bytes k) f (r ∷ rs) ws b rs2 ws2 h = play-bind (k r) f rs ws b rs2 ws2 h

pub play-wrap :
    {E F A : Type 0} (g : E → F) (m : Io E A) (rs : List ReadResult) (ws : List Bool) (a : A)
    (rs2 : List ReadResult) (ws2 : List Bool)
    → Ends (wrap g m) rs ws a rs2 ws2
    → Ends m rs ws a rs2 ws2
unfolding play
play-wrap g (Io.done (ok a')) rs ws a rs2 ws2 h = ground arith
play-wrap g (Io.done (err e)) rs ws a rs2 ws2 h = ground arith
play-wrap g (Io.write_bytes x k) rs [] a rs2 ws2 h = ground arith
play-wrap g (Io.write_bytes x k) rs (w ∷ ws) a rs2 ws2 h = play-wrap g (k w) rs ws a rs2 ws2 h
play-wrap g (Io.read_bytes k) [] ws a rs2 ws2 h = ground arith
play-wrap g (Io.read_bytes k) (r ∷ rs) ws a rs2 ws2 h = play-wrap g (k r) rs ws a rs2 ws2 h

-- The same for the simple first parts, which say what they have found.
module _ {E B : Type 0} (rs : List ReadResult) (ws : List Bool) (b : B) (rs2 : List ReadResult)
    (ws2 : List Bool) where
  pub play-require :
      (t : Bool) (e : E) (m : Io E B)
      → Ends (require t e >> m) rs ws b rs2 ws2
      → (t ≡ true) × Ends m rs ws b rs2 ws2
  unfolding play
  play-require false e m h = ground arith
  play-require true e m h = (refl, h)

  pub play-or_fail :
      {A : Type 0} (o : Option A) (e : E) (f : A → Io E B)
      → Ends (or_fail o e >>= f) rs ws b rs2 ws2
      → (a : A) × (o ≡ some a) × Ends (f a) rs ws b rs2 ws2
  unfolding play
  play-or_fail none e f h = ground arith
  play-or_fail (some a) e f h = (a, refl, h)

  pub play-lift :
      {F A : Type 0} (g : F → E) (r : Result F A) (f : A → Io E B)
      → Ends (lift g r >>= f) rs ws b rs2 ws2
      → (a : A) × (r ≡ ok a) × Ends (f a) rs ws b rs2 ws2
  unfolding play
  play-lift g (ok a) f h = (a, refl, h)
  play-lift g (err e) f h = ground arith

  pub play-pure : (c : B) → Ends {E = E} (pure c) rs ws b rs2 ws2 → (c ≡ b) × (rs2 ≡ rs)
  unfolding play
  play-pure c h = ground arith

pub play-read_or :
    {E B : Type 0} (e : E) (f : Bytes → Io E B) (rs : List ReadResult) (ws : List Bool) (b : B)
    (rs2 : List ReadResult) (ws2 : List Bool)
    → Ends (read_or e >>= f) rs ws b rs2 ws2
    → (bytes : Bytes) × (rs1 : List ReadResult) × (rs ≡ read bytes ∷ rs1)
      × Ends (f bytes) rs1 ws b rs2 ws2
unfolding play
play-read_or e f [] ws b rs2 ws2 h = ground arith
play-read_or e f (ReadResult.read bytes ∷ rs) ws b rs2 ws2 h = (bytes, rs, refl, h)
play-read_or e f (ReadResult.eof ∷ rs) ws b rs2 ws2 h = ground arith
play-read_or e f (ReadResult.timed_out ∷ rs) ws b rs2 ws2 h = ground arith
play-read_or e f (ReadResult.failed ∷ rs) ws b rs2 ws2 h = ground arith

pub play-write_or :
    {E B : Type 0} (bytes : Bytes) (e : E) (m : Io E B) (rs : List ReadResult) (ws : List Bool)
    (b : B) (rs2 : List ReadResult) (ws2 : List Bool)
    → Ends (write_or bytes e >> m) rs ws b rs2 ws2
    → (ws1 : List Bool) × (ws ≡ true ∷ ws1) × Ends m rs ws1 b rs2 ws2
unfolding play
play-write_or bytes e m rs [] b rs2 ws2 h = ground arith
play-write_or bytes e m rs (false ∷ ws) b rs2 ws2 h = ground arith
play-write_or bytes e m rs (true ∷ ws) b rs2 ws2 h = (ws, refl, h)
