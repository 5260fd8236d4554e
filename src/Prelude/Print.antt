-- ===== src/Prelude/Print.antt =====
-- The text forms that the program prints: decimal numbers (strconv, fmt's %d) and hexadecimal bytes
-- (encoding/hex, fmt's %x). A text is its list of bytes.
use Prim.Native.Nat.{ℕ, zero, suc, ◌+◌, ◌/◌, ◌%◌, ◌<◌}
use mathlib.Core.Path.{◌≡◌, refl, ap}
use mathlib.Core.List.{[], ◌∷◌, ◌++◌}
use native.Mathlib.Omega.{arith}
use kamune.Prelude.Tests.{ltb, if◌then◌else◌}
use kamune.Prelude.Slices.{Bytes, All, IsByte}

-- Twenty digits hold every 64-bit number.
unfoldable pub decimal_loop : ℕ → ℕ → Bytes
decimal_loop zero n = []
decimal_loop (suc fuel) n =
    let front = decimal_loop fuel (n / 10) in
    if ltb n 10 then (n + 48) ∷ [] else front ++ (n % 10 + 48) ∷ []

abbrev pub decimal : ℕ → Bytes
decimal n = decimal_loop 20 n

unfoldable pub hex_digit : ℕ → ℕ
hex_digit n = if ltb n 10 then n + 48 else n + 87

unfoldable pub hex : Bytes → Bytes
hex [] = []
hex (b ∷ bs) = hex_digit (b / 16) ∷ hex_digit (b % 16) ∷ hex bs

hex_digit_injective : (a b : ℕ) → a < 16 → b < 16 → hex_digit a ≡ hex_digit b → a ≡ b
unfolding hex_digit
hex_digit_injective a b ha hb e = ground arith

abbrev head_or : Bytes → ℕ
head_or [] = 0
head_or (x ∷ xs) = x

abbrev rest_of : Bytes → Bytes
rest_of [] = []
rest_of (x ∷ xs) = xs

-- Two byte strings print alike only if they are one.
pub hex_injective : (xs ys : Bytes) → All IsByte xs → All IsByte ys → hex xs ≡ hex ys → xs ≡ ys
unfolding hex
hex_injective [] [] hx hy e = refl
hex_injective [] (y ∷ ys) hx hy e = cc
hex_injective (x ∷ xs) [] hx hy e = cc
hex_injective (x ∷ xs) (y ∷ ys) hx hy e = ground (
  arith,
  hex_digit_injective (x / 16) (y / 16) (omega arith) (omega arith) (ap head_or e),
  hex_digit_injective (x % 16) (y % 16) (omega arith) (omega arith)
      (ap (λ (t : Bytes). head_or (rest_of t)) e),
  hex_injective xs ys hx.1 hy.1 (ap (λ (t : Bytes). rest_of (rest_of t)) e),
)
