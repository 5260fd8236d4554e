-- ===== src/Prelude/Dict.antt =====
-- A Go map with byte-string keys, as an association list. Iteration order is the list's, and no
-- theorem depends on it.
use Prim.Native.Nat.{◌+◌, ◌≤◌}
use mathlib.Core.Path.{◌≡◌, refl, subst}
use mathlib.Core.Logic.{inl, inr}
use mathlib.Core.Bool.{Bool, false}
use mathlib.Core.Option.{Option, none, some}
use mathlib.Core.List.{List, [], ◌∷◌}
use native.Mathlib.Omega.{arith}
use kamune.Prelude.Tests.{if◌then◌else◌, Bool-cases}
use kamune.Prelude.Lists.{length}
use kamune.Prelude.Slices.{Bytes, bytes_equal, bytes_equal_iff, bytes_equal_sym}

abbrev pub Dict {ℓ} : Type ℓ → Type ℓ
Dict V = List (Bytes × V)

module _ {ℓ} {V : Type ℓ} where
  unfoldable pub lookup : Bytes → Dict V → Option V
  lookup k [] = none
  lookup k ((j, v) ∷ m) = if bytes_equal j k then some v else lookup k m

  -- `m[k] = v`: an entry is overwritten where it stands.
  unfoldable pub insert : Bytes → V → Dict V → Dict V
  insert k v [] = (k, v) ∷ []
  insert k v ((j, w) ∷ m) = if bytes_equal j k then (k, v) ∷ m else (j, w) ∷ insert k v m

  -- `delete(m, k)`
  unfoldable pub delete : Bytes → Dict V → Dict V
  delete k [] = []
  delete k ((j, w) ∷ m) = let rest = delete k m in if bytes_equal j k then rest else (j, w) ∷ rest

  -- The loop that deletes every entry whose value fails the test.
  unfoldable pub retain : (V → Bool) → Dict V → Dict V
  retain p [] = []
  retain p ((j, w) ∷ m) = let rest = retain p m in if p w then (j, w) ∷ rest else rest

  pub lookup-insert :
      (k j : Bytes) (v : V) (m : Dict V)
      → lookup j (insert k v m) ≡ (if bytes_equal k j then some v else lookup j m)
  unfolding lookup insert
  lookup-insert k j v [] = refl
  lookup-insert k j v ((i, w) ∷ m) =
      ground (
        arith,
        bytes_equal_iff k j,
        bytes_equal_iff i k,
        bytes_equal_iff i j,
        lookup-insert k j v m,
      )

  pub lookup-delete :
      (k j : Bytes) (m : Dict V)
      → lookup j (delete k m) ≡ (if bytes_equal k j then none else lookup j m)
  unfolding lookup delete
  lookup-delete k j [] = ground arith
  lookup-delete k j ((i, w) ∷ m) =
      ground
        (arith, bytes_equal_iff k j, bytes_equal_iff i k, bytes_equal_iff i j, lookup-delete k j m)

  pub length-delete : (k : Bytes) (m : Dict V) → length (delete k m) ≤ length m
  unfolding delete
  length-delete k [] = omega arith
  length-delete k ((j, w) ∷ m) = ground (arith, length-delete k m)

  pub length-retain : (p : V → Bool) (m : Dict V) → length (retain p m) ≤ length m
  unfolding retain
  length-retain p [] = omega arith
  length-retain p ((j, w) ∷ m) = ground (arith, length-retain p m)

  pub length-insert : (k : Bytes) (v : V) (m : Dict V) → length (insert k v m) ≤ length m + 1
  unfolding insert
  length-insert k v [] = omega arith
  length-insert k v ((j, w) ∷ m) = ground (arith, length-insert k v m)

  -- Overwriting a key that is there does not grow the map.
  pub length-insert_old :
      (k : Bytes) (v w : V) (m : Dict V) → lookup k m ≡ some w → length (insert k v m) ≡ length m
  unfolding insert lookup
  length-insert_old k v w [] h = cc
  length-insert_old k v w ((j, x) ∷ m) h = ground (arith, length-insert_old k v w m)

  abbrev pub IsAbsent : Bytes → Dict V → Type 0
  IsAbsent k [] = Unit
  IsAbsent k ((j, w) ∷ m) = (bytes_equal j k ≡ false) × IsAbsent k m

  -- No key stands twice, which is what makes the list a map.
  abbrev pub IsUnique : Dict V → Type 0
  IsUnique [] = Unit
  IsUnique ((j, w) ∷ m) = IsAbsent j m × IsUnique m

  pub lookup_absent : (k : Bytes) (m : Dict V) → IsAbsent k m → lookup k m ≡ none
  unfolding lookup
  lookup_absent k [] h = refl
  lookup_absent k ((j, w) ∷ m) h = ground (arith, lookup_absent k m h.1)

  insert-IsAbsent :
      (k i : Bytes) (v : V) (m : Dict V)
      → bytes_equal k i ≡ false
      → IsAbsent i m
      → IsAbsent i (insert k v m)
  unfolding insert
  insert-IsAbsent k i v [] n h = (n, tt)
  insert-IsAbsent k i v ((j, w) ∷ m) n h = elim (Bool-cases (bytes_equal j k)) [
    | inl e ↦ rw e (n, h.1)
    | inr e ↦ rw e (h.0, insert-IsAbsent k i v m n h.1)
  ]

  delete-IsAbsent : (k i : Bytes) (m : Dict V) → IsAbsent i m → IsAbsent i (delete k m)
  unfolding delete
  delete-IsAbsent k i [] h = tt
  delete-IsAbsent k i ((j, w) ∷ m) h = elim (Bool-cases (bytes_equal j k)) [
    | inl e ↦ rw e (delete-IsAbsent k i m h.1)
    | inr e ↦ rw e (h.0, delete-IsAbsent k i m h.1)
  ]

  retain-IsAbsent : (p : V → Bool) (i : Bytes) (m : Dict V) → IsAbsent i m → IsAbsent i (retain p m)
  unfolding retain
  retain-IsAbsent p i [] h = tt
  retain-IsAbsent p i ((j, w) ∷ m) h = elim (Bool-cases (p w)) [
    | inl e ↦ rw e (h.0, retain-IsAbsent p i m h.1)
    | inr e ↦ rw e (retain-IsAbsent p i m h.1)
  ]

  pub insert-IsUnique : (k : Bytes) (v : V) (m : Dict V) → IsUnique m → IsUnique (insert k v m)
  unfolding insert
  insert-IsUnique k v [] h = (tt, tt)
  insert-IsUnique k v ((j, w) ∷ m) h = elim (Bool-cases (bytes_equal j k)) [
    | inl e ↦ rw e (subst (λ i. IsAbsent i m) ((bytes_equal_iff j k).0 e) h.0, h.1)
    | inr e ↦ rw e (insert-IsAbsent k j v m (bytes_equal_sym j k e) h.0, insert-IsUnique k v m h.1)
  ]

  pub delete-IsUnique : (k : Bytes) (m : Dict V) → IsUnique m → IsUnique (delete k m)
  unfolding delete
  delete-IsUnique k [] h = tt
  delete-IsUnique k ((j, w) ∷ m) h = elim (Bool-cases (bytes_equal j k)) [
    | inl e ↦ rw e (delete-IsUnique k m h.1)
    | inr e ↦ rw e (delete-IsAbsent k j m h.0, delete-IsUnique k m h.1)
  ]

  pub retain-IsUnique : (p : V → Bool) (m : Dict V) → IsUnique m → IsUnique (retain p m)
  unfolding retain
  retain-IsUnique p [] h = tt
  retain-IsUnique p ((j, w) ∷ m) h = elim (Bool-cases (p w)) [
    | inl e ↦ rw e (retain-IsAbsent p j m h.0, retain-IsUnique p m h.1)
    | inr e ↦ rw e (retain-IsUnique p m h.1)
  ]

  -- A value that fails the test reads as absent.
  abbrev pub kept : (V → Bool) → Option V → Option V
  kept p none = none
  kept p (some v) = if p v then some v else none

  pub lookup-retain :
      (p : V → Bool) (k : Bytes) (m : Dict V)
      → IsUnique m
      → lookup k (retain p m) ≡ kept p (lookup k m)
  unfolding lookup retain
  lookup-retain p k [] h = refl
  lookup-retain p k ((j, w) ∷ m) h = elim (Bool-cases (bytes_equal j k)) [
    | inl e ↦ elim (Bool-cases (p w)) [
      | inl q ↦ rw (e, q) (rw e)
      | inr q ↦
          rw (e, q)
            (lookup_absent k (retain p m)
              (retain-IsAbsent p k m (subst (λ i. IsAbsent i m) ((bytes_equal_iff j k).0 e) h.0)))
    ]
    | inr e ↦ elim (Bool-cases (p w)) [
      | inl q ↦ rw (e, q) (rw e (lookup-retain p k m h.1))
      | inr q ↦ rw (e, q) (lookup-retain p k m h.1)
    ]
  ]

  -- Every value satisfies `P`.
  abbrev pub AllValues {κ} : (V → Type κ) → Dict V → Type κ
  AllValues P [] = Unit
  AllValues P ((j, w) ∷ m) = P w × AllValues P m

  pub insert-AllValues {κ} :
      (P : V → Type κ) (k : Bytes) (v : V) (m : Dict V)
      → P v
      → AllValues P m
      → AllValues P (insert k v m)
  unfolding insert
  insert-AllValues P k v [] p h = (p, tt)
  insert-AllValues P k v ((j, w) ∷ m) p h = elim (Bool-cases (bytes_equal j k)) [
    | inl e ↦ rw e (p, h.1)
    | inr e ↦ rw e (h.0, insert-AllValues P k v m p h.1)
  ]

  pub delete-AllValues {κ} :
      (P : V → Type κ) (k : Bytes) (m : Dict V) → AllValues P m → AllValues P (delete k m)
  unfolding delete
  delete-AllValues P k [] h = tt
  delete-AllValues P k ((j, w) ∷ m) h = elim (Bool-cases (bytes_equal j k)) [
    | inl e ↦ rw e (delete-AllValues P k m h.1)
    | inr e ↦ rw e (h.0, delete-AllValues P k m h.1)
  ]

  pub retain-AllValues {κ} :
      (P : V → Type κ) (p : V → Bool) (m : Dict V) → AllValues P m → AllValues P (retain p m)
  unfolding retain
  retain-AllValues P p [] h = tt
  retain-AllValues P p ((j, w) ∷ m) h = elim (Bool-cases (p w)) [
    | inl e ↦ rw e (h.0, retain-AllValues P p m h.1)
    | inr e ↦ rw e (retain-AllValues P p m h.1)
  ]

  pub lookup-AllValues {κ} :
      (P : V → Type κ) (k : Bytes) (m : Dict V) (v : V) → AllValues P m → lookup k m ≡ some v → P v
  unfolding lookup
  lookup-AllValues P k [] v h e = cc
  lookup-AllValues P k ((j, w) ∷ m) v h e = elim (Bool-cases (bytes_equal j k)) [
    | inl q ↦ let same : w ≡ v = ground arith in subst P same h.0
    | inr q ↦ lookup-AllValues P k m v h.1 (rw q at e)
  ]
