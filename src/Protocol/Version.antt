-- ===== src/Protocol/Version.antt =====
-- version.go: the version check of the introduction. A version text is a list of bytes, and an `int` of
-- a parsed version an integer of 64 bits.
pub mod Parse
pub mod Check
use kamune.Prelude.{
  ℕ, zero, suc, ◌+◌, ◌-◌, ◌*◌, ◌^◌, Bool, true, false, ◌&&◌, ◌||◌, not, if◌then◌else◌, ltb, leb,
  ◌==◌, Option, none, some, List, [], ◌∷◌, ◌++◌, Bytes, length, Result, ok, err, ◌>>=◌, ◌>>◌, guard,
}

-- A Go int.
pub data ℤ : Type 0 where
  pos negsuc : ℕ → ℤ

abbrev pub int_eq : ℤ → ℤ → Bool
int_eq (pos a) (pos b) = a == b
int_eq (pos a) (negsuc b) = false
int_eq (negsuc a) (pos b) = false
int_eq (negsuc a) (negsuc b) = a == b

abbrev pub is_zero : ℤ → Bool
is_zero (pos n) = n == 0
is_zero (negsuc n) = false

pub record Semver : Type 0 where
  pub major : ℤ
  pub minor : ℤ
  pub patch : ℤ

pub data VersionError : Type 0 where
  empty_version invalid_semver invalid_major invalid_minor invalid_patch : VersionError
  version_mismatch : VersionError
  mismatch_parsing : VersionError → VersionError

-- The digits of strconv.Atoi, most significant first; `none` is a byte that is not a digit.
unfoldable pub digits : ℕ → Bytes → Option ℕ
digits acc [] = some acc
digits acc (c ∷ cs) =
    let rest = digits (acc * 10 + (c - 48)) cs in if leb 48 c && leb c 57 then rest else none

abbrev pub negate : ℕ → ℤ
negate zero = pos 0
negate (suc n) = negsuc n

-- The range check of a 64-bit int.
abbrev pub in_range : Bool → ℕ → Option ℤ
in_range negative n =
    if negative
    then (if leb n (2 ^ 63) then some (negate n) else none)
    else (if ltb n (2 ^ 63) then some (pos n) else none)

abbrev pub and_in_range : Bool → Option ℕ → Option ℤ
and_in_range negative none = none
and_in_range negative (some n) = in_range negative n

-- Digits behind an optional sign; there must be at least one.
unfoldable pub unsigned : Bool → Bytes → Option ℤ
unsigned negative [] = none
unsigned negative (c ∷ cs) = and_in_range negative (digits 0 (c ∷ cs))

unfoldable pub atoi : Bytes → Option ℤ
atoi [] = none
atoi (c ∷ cs) =
    if c == b'-'
    then unsigned true cs
    else (if c == b'+' then unsigned false cs else unsigned false (c ∷ cs))

-- The text up to the first dot, and the text behind it.
unfoldable pub cut_dot : Bytes → Bytes × Option Bytes
cut_dot [] = ([], none)
cut_dot (c ∷ cs) =
    let rest = cut_dot cs in if c == b'.' then ([], some cs) else (c ∷ rest.0, rest.1)

-- strings.SplitN(v, ".", 3) where it has three parts.
unfoldable pub split3 : Bytes → Option (Bytes × Bytes × Bytes)
split3 v = elim (cut_dot v).1 [
  | none ↦ none
  | some tail ↦ elim (cut_dot tail).1 [
    | none ↦ none
    | some last ↦ some ((cut_dot v).0, (cut_dot tail).0, last)
  ]
]

abbrev pub or_error {ℓ} : {A : Type ℓ} → Option A → VersionError → Result VersionError A
or_error none e = err e
or_error (some a) e = ok a

abbrev pub is_empty : Bytes → Bool
is_empty [] = true
is_empty (c ∷ cs) = false

unfoldable pub parse_semver : Bytes → Result VersionError Semver
parse_semver v = do
  guard (not (is_empty v)) empty_version
  (p0, p1, p2) ← or_error (split3 v) invalid_semver
  major ← or_error (atoi p0) invalid_major
  minor ← or_error (atoi p1) invalid_minor
  patch ← or_error (atoi p2) invalid_patch
  ok (record { major = major; minor = minor; patch = patch })

-- The switch of checkVersion; the result is whether a warning is logged.
unfoldable pub compare_versions : Semver → Semver → Result VersionError Bool
compare_versions local remote =
    if not (int_eq local.major remote.major)
    then err version_mismatch
    else (if is_zero local.major && not (int_eq local.minor remote.minor)
        then err version_mismatch
        else ok (not (int_eq local.minor remote.minor)))

-- checkVersion, at the local version that init parsed.
unfoldable pub check_version : Semver → Bytes → Result VersionError Bool
check_version local remote = elim (parse_semver remote) [
  | err e ↦ err (mismatch_parsing e)
  | ok rv ↦ compare_versions local rv
]
