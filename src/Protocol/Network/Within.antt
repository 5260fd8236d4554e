-- ===== src/Protocol/Network/Within.antt =====
-- Two procedures as parts of two larger ones, each with its errors wrapped and something to do behind it.
use kamune.Prelude.{ℕ, ◌≡◌, ap, Option, none, some, [], ◌∷◌}
use kamune.Protocol.Network.{
  Io, Network, network, ◌>>=◌, wrap, Side, advance, advance_left, swap, swap_option, Steps, stop,
  go,
}

unswap :
    {E A : Type 0} (o : Option (Network E A)) (m : Network E A)
    → swap_option o ≡ some m
    → o ≡ some (swap m)
unswap none m h = absurd cc
unswap (some (network p q l r)) m h = ap swap_option h

module _ {E F A B : Type 0} where
  abbrev pub within : (E → F) → (E → F) → (A → Io F B) → (A → Io F B) → Network E A → Network F B
  within fe ge f g (network p q l r) = network (wrap fe p >>= f) (wrap ge q >>= g) l r

  abbrev within_option :
      (E → F) → (E → F) → (A → Io F B) → (A → Io F B) → Option (Network E A) → Option (Network F B)
  within_option fe ge f g none = none
  within_option fe ge f g (some n) = some (within fe ge f g n)

  advance_left-within :
      (fe ge : E → F) (f g : A → Io F B) (n m : Network E A)
      → advance_left n ≡ some m
      → advance_left (within fe ge f g n) ≡ some (within fe ge f g m)
  unfolding advance_left
  advance_left-within fe ge f g (network (Io.done r) q l rs) m h = absurd cc
  advance_left-within fe ge f g (network (Io.write_bytes b k) q l rs) m h =
      ap (within_option fe ge f g) h
  advance_left-within fe ge f g (network (Io.read_bytes k) q [] rs) m h = absurd cc
  advance_left-within fe ge f g (network (Io.read_bytes k) q (b ∷ l) rs) m h =
      ap (within_option fe ge f g) h

  -- Each step of the two parts is a step of the two larger procedures.
  advance-within :
      (fe ge : E → F) (f g : A → Io F B) (s : Side) (n m : Network E A)
      → advance s n ≡ some m
      → advance s (within fe ge f g n) ≡ some (within fe ge f g m)
  unfolding advance
  advance-within fe ge f g Side.left_side n m h = advance_left-within fe ge f g n m h
  advance-within fe ge f g Side.right_side (network p q l r) (network p' q' l' r') h =
      ap swap_option (
        advance_left-within ge fe g f (network q p r l) (network q' p' r' l')
          (unswap (advance_left (network q p r l)) (network p' q' l' r') h))

  -- So the steps of the two parts are steps of the two larger procedures.
  pub Steps-within :
      (fe ge : E → F) (f g : A → Io F B) {n : ℕ} {a b : Network E A}
      → Steps n a b
      → Steps n (within fe ge f g a) (within fe ge f g b)
  Steps-within fe ge f g stop = stop
  Steps-within fe ge f g (go {m} {a} {b} s h r) =
      go s (advance-within fe ge f g s a b h) (Steps-within fe ge f g r)
