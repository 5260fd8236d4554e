-- ===== src/Relay/Token.antt =====
-- pkg/relayconn/token.go: what the relay accepts as a user-provided token, and the token of two keys.
use kamune.Prelude.{
  ℕ, suc, ◌≡◌, refl, arith, Bool, true, false, ◌&&◌, ◌||◌, not, if◌then◌else◌, ltb, ◌==◌, [], ◌∷◌,
  ◌++◌, Bytes, length, Result, ok, ◌>>◌, guard,
}

abbrev pub peer_token_size : ℕ
peer_token_size = 32

abbrev pub public_key_size : ℕ
public_key_size = 32

pub data TokenError : Type 0 where
  invalid_key_size token_too_short token_insufficient_entropy : TokenError

unfoldable pub all_zero : Bytes → Bool
all_zero [] = true
all_zero (b ∷ bs) = b == 0 && all_zero bs

-- Whether every byte of the list is the given one.
unfoldable pub all_same : ℕ → Bytes → Bool
all_same x [] = true
all_same x (b ∷ bs) = b == x && all_same x bs

-- Whether the bytes behind the first are all equal to it.
unfoldable pub constant : Bytes → Bool
unfolding all_same
constant [] = true
constant (x ∷ bs) = all_same x bs

-- `freq[b]` after the counting loop.
unfoldable pub count : ℕ → Bytes → ℕ
count x [] = 0
count x (b ∷ bs) = let rest = count x bs in if b == x then suc rest else rest

-- `entropy_above_3` is the floating-point test of Shannon's entropy on the table of frequencies.
module _ (entropy_above_3 : (ℕ → ℕ) → Bool) where
  unfoldable pub validate_user_token : Bytes → Result TokenError (Unit {0})
  validate_user_token token = do
    guard (length token == peer_token_size) token_too_short
    guard (not (all_zero token)) token_insufficient_entropy
    guard (not (constant token)) token_insufficient_entropy
    guard (entropy_above_3 (λ x. count x token)) token_insufficient_entropy

-- bytes.Compare(a, b) > 0
unfoldable pub greater : Bytes → Bytes → Bool
greater [] b = false
greater (x ∷ a) [] = true
greater (x ∷ a) (y ∷ b) = if ltb y x then true else (if ltb x y then false else greater a b)

module _ (sha256 : Bytes → Bytes) where
  unfoldable pub token_from_keys : Bytes → Bytes → Result TokenError Bytes
  token_from_keys a b = do
    guard (not (not (length a == public_key_size) || not (length b == public_key_size)))
        invalid_key_size
    if greater a b then ok (sha256 (b ++ a)) else ok (sha256 (a ++ b))

  greater_antisym : (a b : Bytes) → greater a b ≡ true → greater b a ≡ false
  unfolding greater
  greater_antisym [] b h = cc
  greater_antisym (x ∷ a) [] h = refl
  greater_antisym (x ∷ a) (y ∷ b) h = ground (arith, greater_antisym a b)

  greater_total : (a b : Bytes) → greater a b ≡ false → greater b a ≡ false → a ≡ b
  unfolding greater
  greater_total [] [] h k = refl
  greater_total [] (y ∷ b) h k = cc
  greater_total (x ∷ a) [] h k = cc
  greater_total (x ∷ a) (y ∷ b) h k = ground (arith, greater_total a b)

  -- Both peers compute one token, or the same error, whichever key each calls its own.
  pub token_from_keys_comm : (a b : Bytes) → token_from_keys a b ≡ token_from_keys b a
  unfolding token_from_keys
  token_from_keys_comm a b =
      ground (arith, greater_antisym a b, greater_antisym b a, greater_total a b)
