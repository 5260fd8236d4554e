-- ===== src/Prelude/Slices.antt =====
-- Byte slices as lists of numbers below 256: comparison, and the big-endian integers of
-- encoding/binary.
use Prim.Native.Nat.{ℕ, zero, suc, ◌+◌, ◌*◌, ◌/◌, ◌%◌, ◌<◌}
use mathlib.Core.Path.{◌≡◌, refl, subst}
use mathlib.Core.Logic.{◌↔◌, ◌≢◌, inl, inr}
use mathlib.Core.Bool.{Bool, true, false, ◌&&◌}
use mathlib.Core.List.{List, [], ◌∷◌, ◌++◌}
use native.Mathlib.Omega.{arith}
use kamune.Prelude.Tests.{◌==◌, Bool-cases}
use kamune.Prelude.Lists.{length, get_or, take, drop}

abbrev pub Bytes : Type 0
Bytes = List ℕ

abbrev pub All {ℓ κ} : {A : Type ℓ} → (A → Type κ) → List A → Type κ
All P [] = Unit
All P (x ∷ xs) = P x × All P xs

abbrev pub IsByte : ℕ → Type 0
IsByte n = n < 256

pub All-append {ℓ κ} :
    {A : Type ℓ} (P : A → Type κ) (xs ys : List A) → All P xs → All P ys → All P (xs ++ ys)
All-append P [] ys h k = k
All-append P (x ∷ xs) ys h k = (h.0, All-append P xs ys h.1 k)

pub All-take {ℓ κ} :
    {A : Type ℓ} (P : A → Type κ) (n : ℕ) (xs : List A) → All P xs → All P (take n xs)
All-take P zero xs h = tt
All-take P (suc n) [] h = tt
All-take P (suc n) (x ∷ xs) h = (h.0, All-take P n xs h.1)

pub All-drop {ℓ κ} :
    {A : Type ℓ} (P : A → Type κ) (n : ℕ) (xs : List A) → All P xs → All P (drop n xs)
All-drop P zero xs h = h
All-drop P (suc n) [] h = tt
All-drop P (suc n) (x ∷ xs) h = All-drop P n xs h.1

-- bytes.Equal
unfoldable pub bytes_equal : Bytes → Bytes → Bool
bytes_equal [] [] = true
bytes_equal [] (y ∷ ys) = false
bytes_equal (x ∷ xs) [] = false
bytes_equal (x ∷ xs) (y ∷ ys) = x == y && bytes_equal xs ys

pub bytes_equal_refl : (xs : Bytes) → bytes_equal xs xs ≡ true
unfolding bytes_equal
bytes_equal_refl [] = refl
bytes_equal_refl (x ∷ xs) = ground (arith, bytes_equal_refl xs)

pub eq_of_bytes_equal : (xs ys : Bytes) → bytes_equal xs ys ≡ true → xs ≡ ys
unfolding bytes_equal
eq_of_bytes_equal [] [] h = refl
eq_of_bytes_equal [] (y ∷ ys) h = cc
eq_of_bytes_equal (x ∷ xs) [] h = cc
eq_of_bytes_equal (x ∷ xs) (y ∷ ys) h = ground (arith, eq_of_bytes_equal xs ys)

pub bytes_equal_iff : (xs ys : Bytes) → (bytes_equal xs ys ≡ true) ↔ (xs ≡ ys)
bytes_equal_iff xs ys =
    (eq_of_bytes_equal xs ys, λ e. subst (λ zs. bytes_equal xs zs ≡ true) e (bytes_equal_refl xs))

-- binary.BigEndian.PutUint16 and Uint16; what is out of range reads as zero.
unfoldable pub put_uint16 : ℕ → Bytes
put_uint16 n = n / 256 % 256 ∷ n % 256 ∷ []

unfoldable pub uint16 : Bytes → ℕ
uint16 b = get_or b 0 0 * 256 + get_or b 1 0

unfoldable pub put_uint32 : ℕ → Bytes
put_uint32 n = n / 16777216 % 256 ∷ n / 65536 % 256 ∷ n / 256 % 256 ∷ n % 256 ∷ []

unfoldable pub uint32 : Bytes → ℕ
uint32 b = get_or b 0 0 * 16777216 + get_or b 1 0 * 65536 + get_or b 2 0 * 256 + get_or b 3 0

pub length-put_uint16 : (n : ℕ) → length (put_uint16 n) ≡ 2
unfolding put_uint16
length-put_uint16 n = refl

pub length-put_uint32 : (n : ℕ) → length (put_uint32 n) ≡ 4
unfolding put_uint32
length-put_uint32 n = refl

pub uint16-put_uint16 : (n : ℕ) → uint16 (put_uint16 n) ≡ n % 65536
unfolding uint16 put_uint16
uint16-put_uint16 n = omega arith

pub uint32-put_uint32 : (n : ℕ) → uint32 (put_uint32 n) ≡ n % 4294967296
unfolding uint32 put_uint32
uint32-put_uint32 n = omega arith

-- Two bytes are the encoding of the number that they spell.
pub put_uint16-uint16 : (b : Bytes) → length b ≡ 2 → All IsByte b → put_uint16 (uint16 b) ≡ b
unfolding uint16 put_uint16
put_uint16-uint16 [] h v = absurd (omega arith)
put_uint16-uint16 (x ∷ []) h v = absurd (omega arith)
put_uint16-uint16 (x ∷ y ∷ []) h v = ground arith
put_uint16-uint16 (x ∷ y ∷ z ∷ r) h v = absurd (omega arith)

pub put_uint16-IsByte : (n : ℕ) → All IsByte (put_uint16 n)
unfolding put_uint16
put_uint16-IsByte n = omega arith

pub bytes_equal_sym : (xs ys : Bytes) → bytes_equal xs ys ≡ false → bytes_equal ys xs ≡ false
unfolding bytes_equal
bytes_equal_sym [] [] h = h
bytes_equal_sym [] (y ∷ ys) h = refl
bytes_equal_sym (x ∷ xs) [] h = refl
bytes_equal_sym (x ∷ xs) (y ∷ ys) h = ground (arith, bytes_equal_sym xs ys)

pub bytes_equal_of_ne : (xs ys : Bytes) → xs ≢ ys → bytes_equal xs ys ≡ false
bytes_equal_of_ne xs ys n = elim (Bool-cases (bytes_equal xs ys)) [
  | inl e ↦ absurd (n (eq_of_bytes_equal xs ys e))
  | inr e ↦ e
]

-- binary.BigEndian.PutUint64 and Uint64.
unfoldable pub put_uint64 : ℕ → Bytes
put_uint64 n = put_uint32 (n / 4294967296) ++ put_uint32 n

unfoldable pub uint64 : Bytes → ℕ
uint64 b = uint32 (take 4 b) * 4294967296 + uint32 (drop 4 b)

pub length-put_uint64 : (n : ℕ) → length (put_uint64 n) ≡ 8
unfolding put_uint64 put_uint32
length-put_uint64 n = refl

pub uint64-put_uint64 : (n : ℕ) → uint64 (put_uint64 n) ≡ n % 18446744073709551616
unfolding uint64 put_uint64 uint32 put_uint32
uint64-put_uint64 n = omega arith
