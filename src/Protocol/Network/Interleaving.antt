-- ===== src/Protocol/Network/Interleaving.antt =====
-- The orders in which the two ends of a connection can take their steps.
use kamune.Prelude.{
  ℕ, suc, ◌≡◌, refl, sym, ap, subst, arith, ◌+◌, Option, none, some, [], ◌∷◌, Result, ◌⊎◌, inl, inr,
}
use kamune.Protocol.Network.{
  Io, Network, network, Side, advance, advance_left, swap, swap_option, Steps, stop, go,
}

module _ {E A : Type 0} where
  -- Neither side goes on.
  abbrev pub IsOver : Network E A → Type 0
  IsOver n = (s : Side) → advance s n ≡ none

  pub done-IsOver : (r s : Result E A) → IsOver (network (Io.done r) (Io.done s) [] [])
  unfolding advance advance_left
  done-IsOver r s Side.left_side = refl
  done-IsOver r s Side.right_side = refl

  -- Two networks come together by a step of the right side of one, and of the left side of the other.
  abbrev Meet : Network E A → Network E A → Type 0
  Meet a b =
      (c : Network E A) × (advance Side.right_side a ≡ some c) × (advance Side.left_side b ≡ some c)

  meet :
      (a b x y c : Network E A)
      → some x ≡ some a
      → some y ≡ some b
      → swap_option (advance_left (swap x)) ≡ some c
      → advance_left y ≡ some c
      → Meet a b
  unfolding advance
  meet a b x y c ex ey hx hy = (c, cc, cc)

  stuck : (a b : Network E A) → none ≡ some a → Meet a b
  stuck a b e = cc

  -- The steps of the two sides can be taken in either order.
  advance_commutes :
      (n a b : Network E A)
      → advance Side.left_side n ≡ some a
      → advance Side.right_side n ≡ some b
      → Meet a b
  unfolding advance advance_left
  advance_commutes (network (Io.done r) q l rs) a b ha hb = stuck a b ha
  advance_commutes (network (Io.write_bytes x k) (Io.done r) l rs) a b ha hb = absurd cc
  advance_commutes (network (Io.write_bytes x k) (Io.write_bytes y h) l rs) a b ha hb =
      meet a b _ _ _ ha hb refl refl
  advance_commutes (network (Io.write_bytes x k) (Io.read_bytes h) l []) a b ha hb = absurd cc
  advance_commutes (network (Io.write_bytes x k) (Io.read_bytes h) l (y ∷ rs)) a b ha hb =
      meet a b _ _ _ ha hb refl refl
  advance_commutes (network (Io.read_bytes k) q [] rs) a b ha hb = absurd cc
  advance_commutes (network (Io.read_bytes k) (Io.done r) (x ∷ l) rs) a b ha hb = absurd cc
  advance_commutes (network (Io.read_bytes k) (Io.write_bytes y h) (x ∷ l) rs) a b ha hb =
      meet a b _ _ _ ha hb refl refl
  advance_commutes (network (Io.read_bytes k) (Io.read_bytes h) (x ∷ l) []) a b ha hb = absurd cc
  advance_commutes (network (Io.read_bytes k) (Io.read_bytes h) (x ∷ l) (y ∷ rs)) a b ha hb =
      meet a b _ _ _ ha hb refl refl

  -- So two different steps of a network can be brought together.
  diamond :
      (s t : Side) (n a b : Network E A)
      → advance s n ≡ some a
      → advance t n ≡ some b
      → (a ≡ b) ⊎ ((c : Network E A) × (advance t a ≡ some c) × (advance s b ≡ some c))
  diamond Side.left_side Side.left_side n a b ha hb = inl cc
  diamond Side.left_side Side.right_side n a b ha hb = inr (advance_commutes n a b ha hb)
  diamond Side.right_side Side.left_side n a b ha hb =
      let (c, x, y) = advance_commutes n b a hb ha in inr (c, y, x)
  diamond Side.right_side Side.right_side n a b ha hb = inl cc

  -- What is left of a run after one advance, whichever it was.
  abbrev Rest : ℕ → Network E A → Network E A → Type 0
  Rest n b z = (m : ℕ) × (n ≡ suc m) × Steps m b z

  pub Steps-after :
      {n : ℕ} {a b z : Network E A} (s : Side)
      → Steps n a z
      → IsOver z
      → advance s a ≡ some b
      → Rest n b z
  Steps-after s stop over h = absurd (cc (over s))
  Steps-after {b = b'} {z = z} s (go {m} {a} {b} t ht r) over h = elim (diamond s t a b' b h ht) [
    | inl e ↦ (m, refl, subst (λ n. Steps m n z) (sym e) r)
    | inr (d, hd, hb) ↦ let (k, e, r') = Steps-after s r over hb in (suc k, ap suc e, go t hd r')
  ]

  -- If some order of the steps ends, then every order is the beginning of one that ends in the same
  -- network, and after the same number of steps.
  pub Steps-any_order :
      {n m : ℕ} {a b z : Network E A}
      → Steps n a z
      → IsOver z
      → Steps m a b
      → (k : ℕ) × (n ≡ m + k) × Steps k b z
  Steps-any_order {n} r over stop = (n, omega arith, r)
  Steps-any_order {n = n} {z = z} r over (go {m = m} {a = a} {b = b} {c = c} s h rest) =
      let (m', e, r') = Steps-after s r over h in
      let (k, e', r'') = Steps-any_order {n = (Steps-after s r over h).0} r' over rest in
      (k, omega arith, r'')

  pub Steps-append : {n m : ℕ} {a b c : Network E A} → Steps n a b → Steps m b c → Steps (n + m) a c
  Steps-append {m = m} {a = a} {c = c} stop r = subst (λ k. Steps k a c) (omega arith) r
  Steps-append {m = k} {c = z} (go {m} {a} {b} {c} s h rest) r =
      subst (λ j. Steps j a z) (omega arith) (go s h (Steps-append rest r))

  swap_back :
      (o : Option (Network E A)) (a : Network E A) → swap_option o ≡ some a → o ≡ some (swap a)
  swap_back none a h = absurd cc
  swap_back (some (network p q l r)) a h = ap swap_option h

  advance-swap :
      (s : Side) (n a : Network E A)
      → advance s n ≡ some a
      → (t : Side) × (advance t (swap n) ≡ some (swap a))
  unfolding advance
  advance-swap Side.left_side (network p q l r) a h = (Side.right_side, rw h)
  advance-swap Side.right_side (network p q l r) a h =
      (Side.left_side, swap_back (advance_left (network q p r l)) a h)

  pub Steps-swap : {n : ℕ} {a b : Network E A} → Steps n a b → Steps n (swap a) (swap b)
  Steps-swap stop = stop
  Steps-swap (go {m} {a} {b} s h r) = let (t, h') = advance-swap s a b h in go t h' (Steps-swap r)
