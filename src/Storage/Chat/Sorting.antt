-- ===== src/Storage/Chat/Sorting.antt =====
-- The order of the chat history (slices.SortFunc in GetChatHistory, pkg/storage/storage.go).
use kamune.Prelude.{
  ◌≤◌, ◌<◌, ◌⊎◌, ◌≡◌, refl, arith, true, false, Bool-cases, inl, inr, List, [], ◌∷◌,
}
use mathlib.Core.List.{Perm, perm_middle}
use mathlib.Core.List.Perm
use kamune.Storage.Chat.{ChatEntry, before, insert_entry, sort_entries}

-- The first is the earlier one, or they have the same time and the sender of the first is not above.
abbrev pub InOrder : ChatEntry → ChatEntry → Type 0
InOrder a b = (a.timestamp < b.timestamp) ⊎ ((a.timestamp ≡ b.timestamp) × (a.sender ≤ b.sender))

abbrev pub IsSorted : List ChatEntry → Type 0
IsSorted [] = Unit
IsSorted (x ∷ []) = Unit
IsSorted (x ∷ y ∷ ys) = InOrder x y × IsSorted (y ∷ ys)

before-InOrder : (a b : ChatEntry) → before a b ≡ true → InOrder a b
unfolding before
before-InOrder a b h = ground arith

not_before-InOrder : (a b : ChatEntry) → before a b ≡ false → InOrder b a
unfolding before
not_before-InOrder a b h = ground arith

insert_entry-IsSorted :
    (x : ChatEntry) (ys : List ChatEntry) → IsSorted ys → IsSorted (insert_entry x ys)
unfolding insert_entry
insert_entry-IsSorted x [] h = tt
insert_entry-IsSorted x (y ∷ []) h = elim (Bool-cases (before y x)) [
  | inl e ↦ rw e (before-InOrder y x e, tt)
  | inr e ↦ rw e (not_before-InOrder y x e, tt)
]
insert_entry-IsSorted x (y ∷ z ∷ zs) h = elim (Bool-cases (before y x)) [
  | inl e ↦
      let ih = insert_entry-IsSorted x (z ∷ zs) h.1 in
      rw e (elim (Bool-cases (before z x)) [
        | inl f ↦ let ih' = rw f at ih in rw f (h.0, ih')
        | inr f ↦ let ih' = rw f at ih in rw f (before-InOrder y x e, ih')
      ])
  | inr e ↦ rw e (not_before-InOrder y x e, h)
]

pub sort_entries-IsSorted : (xs : List ChatEntry) → IsSorted (sort_entries xs)
unfolding sort_entries
sort_entries-IsSorted [] = tt
sort_entries-IsSorted (x ∷ xs) =
    insert_entry-IsSorted x (sort_entries xs) (sort_entries-IsSorted xs)

insert_entry-Perm : (x : ChatEntry) (ys : List ChatEntry) → Perm (insert_entry x ys) (x ∷ ys)
unfolding insert_entry
insert_entry-Perm x [] = Perm.refl (x ∷ [])
insert_entry-Perm x (y ∷ ys) = elim (Bool-cases (before y x)) [
  | inl e ↦ rw e (Perm.trans (Perm.cons' refl (insert_entry-Perm x ys)) (perm_middle (y ∷ []) ys))
  | inr e ↦ rw e (Perm.refl (x ∷ y ∷ ys))
]

pub sort_entries-Perm : (xs : List ChatEntry) → Perm (sort_entries xs) xs
unfolding sort_entries
sort_entries-Perm [] = Perm.refl []
sort_entries-Perm (x ∷ xs) =
    Perm.trans (insert_entry-Perm x (sort_entries xs)) (Perm.cons' refl (sort_entries-Perm xs))
