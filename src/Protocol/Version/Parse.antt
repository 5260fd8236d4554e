-- ===== src/Protocol/Version/Parse.antt =====
-- parseSemver on printed versions (version.go).
use kamune.Prelude.{
  ℕ, zero, suc, ◌+◌, ◌-◌, ◌*◌, ◌/◌, ◌%◌, ◌^◌, ◌≤◌, ◌<◌, ◌≡◌, refl, ap, ◌∙◌, inl, inr, arith, true,
  not, ◌&&◌, if◌then◌else◌, ltb, leb, ltb→lt, All-append, length-append, Bool-cases, Option, none,
  some, [], ◌∷◌, ◌++◌, Bytes, All, length, decimal, decimal_loop, ok,
}
use native.Mathlib.Nat.{pow-suc}
use kamune.Protocol.Version.{pos, digits, atoi, unsigned, cut_dot, split3, parse_semver, is_empty}

abbrev pub IsDigit : ℕ → Type 0
IsDigit c = (48 ≤ c) × (c ≤ 57)

abbrev next_digit : ℕ → Option ℕ → Option ℕ
next_digit c none = none
next_digit c (some m) = if leb 48 c && leb c 57 then some (m * 10 + (c - 48)) else none

digits-append :
    (acc : ℕ) (xs : Bytes) (c : ℕ) → digits acc (xs ++ (c ∷ [])) ≡ next_digit c (digits acc xs)
unfolding digits
digits-append acc [] c = refl
digits-append acc (x ∷ xs) c = ground (arith, digits-append (acc * 10 + (x - 48)) xs c)

one_digit : (n : ℕ) → n < 10 → digits 0 ((n + 48) ∷ []) ≡ some n
unfolding digits
one_digit n h = ground arith

last_digit : (n : ℕ) → next_digit (n % 10 + 48) (some (n / 10)) ≡ some n
last_digit n = ground arith

not_empty : (xs ys : Bytes) → 1 ≤ length xs → not (is_empty (xs ++ ys)) ≡ true
not_empty [] ys h = absurd (omega arith)
not_empty (x ∷ xs) ys h = refl

-- Printed digits read back, at a number that the fuel covers.
digits-decimal_loop : (fuel n : ℕ) → n < 10 ^ fuel → digits 0 (decimal_loop fuel n) ≡ some n
unfolding decimal_loop
digits-decimal_loop zero n h = unfold digits in ground arith
digits-decimal_loop (suc fuel) n h = elim (Bool-cases (ltb n 10)) [
  | inl e ↦ rw e (one_digit n (ltb→lt n 10 e))
  | inr e ↦ rw e (
      digits-append 0 (decimal_loop fuel (n / 10)) (n % 10 + 48)
      ∙ ap (next_digit (n % 10 + 48))
          (digits-decimal_loop fuel (n / 10) (omega (arith, pow-suc 10 fuel)))
      ∙ last_digit n)
]

decimal_loop-IsDigit : (fuel n : ℕ) → All IsDigit (decimal_loop fuel n)
unfolding decimal_loop
decimal_loop-IsDigit zero n = tt
decimal_loop-IsDigit (suc fuel) n = elim (Bool-cases (ltb n 10)) [
  | inl e ↦ rw e (omega (arith, ltb→lt n 10 e))
  | inr e ↦ rw e (
      All-append IsDigit (decimal_loop fuel (n / 10)) _ (decimal_loop-IsDigit fuel (n / 10))
        (omega arith))
]

decimal_nonempty : (fuel n : ℕ) → 1 ≤ length (decimal_loop (suc fuel) n)
unfolding decimal_loop
decimal_nonempty fuel n = elim (Bool-cases (ltb n 10)) [
  | inl e ↦ rw e (omega arith)
  | inr e ↦ rw e (omega (arith, length-append (decimal_loop fuel (n / 10)) ((n % 10 + 48) ∷ [])))
]

atoi-digits :
    (xs : Bytes) (n : ℕ)
    → All IsDigit xs
    → 1 ≤ length xs
    → digits 0 xs ≡ some n
    → n < 2 ^ 63
    → atoi xs ≡ some (pos n)
unfolding atoi unsigned
atoi-digits [] n v l d h = absurd (omega arith)
atoi-digits (c ∷ cs) n v l d h = ground arith

-- strconv.Atoi reads back every printed number that fits an int.
pub atoi-decimal : (n : ℕ) → n < 2 ^ 63 → atoi (decimal n) ≡ some (pos n)
atoi-decimal n h =
    atoi-digits (decimal n) n (decimal_loop-IsDigit 20 n) (decimal_nonempty 19 n)
      (digits-decimal_loop 20 n (omega arith)) h

cut_dot-digits : (xs ys : Bytes) → All IsDigit xs → cut_dot (xs ++ (b'.' ∷ ys)) ≡ (xs, some ys)
unfolding cut_dot
cut_dot-digits [] ys v = refl
cut_dot-digits (x ∷ xs) ys v = rw (cut_dot-digits xs ys v.1) (ground arith)

-- The text of a version.
abbrev pub version_text : ℕ → ℕ → ℕ → Bytes
version_text major minor patch = decimal major ++ (b'.' ∷ (decimal minor ++ (b'.' ∷ decimal patch)))

-- The text of three numbers parses to those numbers, if each fits a 64-bit int.
pub parse_semver-version_text :
    (major minor patch : ℕ)
    → major < 2 ^ 63
    → minor < 2 ^ 63
    → patch < 2 ^ 63
    → parse_semver (version_text major minor patch)
      ≡ ok (record { major = pos major; minor = pos minor; patch = pos patch })
unfolding parse_semver
parse_semver-version_text major minor patch ha hb hc =
    rw (nonempty, splits) (rw (atoi-decimal major ha, atoi-decimal minor hb, atoi-decimal patch hc))
  where
    first :
        cut_dot (version_text major minor patch)
        ≡ (decimal major, some (decimal minor ++ (b'.' ∷ decimal patch)))
    first = cut_dot-digits (decimal major) _ (decimal_loop-IsDigit 20 major)

    second :
        cut_dot (decimal minor ++ (b'.' ∷ decimal patch)) ≡ (decimal minor, some (decimal patch))
    second = cut_dot-digits (decimal minor) (decimal patch) (decimal_loop-IsDigit 20 minor)

    splits :
        split3 (version_text major minor patch) ≡ some (decimal major, decimal minor, decimal patch)
    splits =
        unfold split3 in
        rw (first, split3)
          (rw (second, split3) λ i. some ((first i).0, (second i).0, decimal patch))

    nonempty : not (is_empty (version_text major minor patch)) ≡ true
    nonempty = not_empty (decimal major) _ (decimal_nonempty 19 major)
