-- ===== src/Storage/Session/Removal.antt =====
-- Taking one entry out of a list of tokens, wherever it stands.
use kamune.Prelude.{
  ℕ, suc, ◌≡◌, refl, ◌⊎◌, inl, inr, arith, true, Bool-cases, Option-cases, if◌then◌else◌, none,
  some, List, [], ◌∷◌, Bytes, All, length, bytes_equal, eq_of_bytes_equal, ok, err,
}
use kamune.Storage.Engine.{Engine}
use kamune.Storage.PackedList.{serialize_list}
use kamune.Storage.PackedList.RoundTrip.{IsEntry, deserialize_list-serialize_list}
use kamune.Storage.Session.{
  Storage, not_found, session_meta, swap_remove, fill, remove_entry, remove_list_item,
}
use kamune.Storage.Session.Tokens.{IsUsable, Holds, put_ok, written, written-Holds, read}

-- How often the entry stands in the list.
abbrev pub occurrences : Bytes → List Bytes → ℕ
occurrences b [] = 0
occurrences b (x ∷ xs) = if bytes_equal x b then suc (occurrences b xs) else occurrences b xs

occurrences-fill : (b : Bytes) (xs : List Bytes) → occurrences b (fill xs) ≡ occurrences b xs
occurrences-fill b [] = refl
occurrences-fill b (y ∷ ys) = behind y ys
  where
    behind : (y : Bytes) (ys : List Bytes) → occurrences b (fill (y ∷ ys)) ≡ occurrences b (y ∷ ys)
    behind y [] = refl
    behind y (z ∷ zs) = ground (arith, behind z zs)

length-fill : (xs : List Bytes) → length (fill xs) ≡ length xs
length-fill [] = refl
length-fill (y ∷ ys) = behind y ys
  where
    behind : (y : Bytes) (ys : List Bytes) → length (fill (y ∷ ys)) ≡ length (y ∷ ys)
    behind y [] = refl
    behind y (z ∷ zs) = omega (arith, behind z zs)

fill-IsEntry : (xs : List Bytes) → All IsEntry xs → All IsEntry (fill xs)
fill-IsEntry [] v = tt
fill-IsEntry (y ∷ ys) v = behind y ys v
  where
    behind : (y : Bytes) (ys : List Bytes) → All IsEntry (y ∷ ys) → All IsEntry (fill (y ∷ ys))
    behind y [] v = (v.0, tt)
    behind y (z ∷ zs) v = let (last, front) = behind z zs v.1 in (last, (v.0, front))

-- What a removal left: one occurrence of the entry less, and of any other as many as before.
pub record IsRemoved (entry : Bytes) (before after : List Bytes) : Type 0 where
  pub counts :
      (b : Bytes)
      → occurrences b before
        ≡ (if bytes_equal entry b then suc (occurrences b after) else occurrences b after)
  pub size : length before ≡ suc (length after)
  pub entries : All IsEntry before → All IsEntry after

here-IsRemoved :
    (entry x : Bytes) (xs : List Bytes)
    → bytes_equal x entry ≡ true
    → IsRemoved entry (x ∷ xs) (fill xs)
here-IsRemoved entry x xs e = record {
  counts = λ b. ground (arith, occurrences-fill b xs, eq_of_bytes_equal x entry e);
  size = omega (arith, length-fill xs);
  entries = λ v. fill-IsEntry xs v.1;
}

behind-IsRemoved :
    (entry x : Bytes) (xs after : List Bytes)
    → IsRemoved entry xs after
    → IsRemoved entry (x ∷ xs) (x ∷ after)
behind-IsRemoved entry x xs after r = record {
  counts = λ b. ground (arith, r.counts b);
  size = omega (arith, r.size);
  entries = λ v. (v.0, r.entries v.1);
}

swap_remove-IsRemoved :
    (entry : Bytes) (list after : List Bytes)
    → swap_remove entry list ≡ some after
    → IsRemoved entry list after
unfolding swap_remove
swap_remove-IsRemoved entry [] after h = cc
swap_remove-IsRemoved entry (x ∷ xs) after h = elim (Bool-cases (bytes_equal x entry)) [
  | inl e ↦ let same : fill xs ≡ after = ground arith in rw (← same) (here-IsRemoved entry x xs e)
  | inr e ↦ elim (Option-cases (swap_remove entry xs)) [
    | inl n ↦ absurd (ground arith)
    | inr (ys, q) ↦
        let same : x ∷ ys ≡ after = ground arith in
        rw (← same) (behind-IsRemoved entry x xs ys (swap_remove-IsRemoved entry xs ys q))
  ]
]

swap_remove-none :
    (entry : Bytes) (list : List Bytes) → swap_remove entry list ≡ none → occurrences entry list ≡ 0
unfolding swap_remove
swap_remove-none entry [] h = refl
swap_remove-none entry (x ∷ xs) h = ground (arith, swap_remove-none entry xs)

module _ (e : Engine) (u : IsUsable e) (id key : Bytes) where
  -- Removing an entry from a list that a session holds: either one occurrence of it goes and the
  -- session holds all the others, or it does not stand there and nothing changes.
  pub remove_list_item-Holds :
      (s : Storage) (list : List Bytes) (entry : Bytes) (draw : ℕ)
      → Holds e s id key list
      → let (s', r) = remove_list_item e s id key entry draw in
        ((after : List Bytes) × (r ≡ ok tt) × IsRemoved entry list after × Holds e s' id key after)
        ⊎ ((r ≡ err not_found) × (s' ≡ s) × (occurrences entry list ≡ 0))
  unfolding remove_list_item session_meta written
  remove_list_item-Holds s list entry draw h = rw (read e u id key s list h) (
      rw (deserialize_list-serialize_list list h.packable.entries h.packable.few)
        (elim (Option-cases (swap_remove entry list)) [
          | inl n ↦ rw (n, remove_entry) (inr (refl, refl, swap_remove-none entry list n))
          | inr (after, q) ↦
              let r = swap_remove-IsRemoved entry list after q in
              rw (q, remove_entry)
                (rw (h.session) (
                  rw (put_ok e u id key h.bucket draw (serialize_list after)) (
                    inl (
                      after,
                      refl,
                      r,
                      written-Holds e u id key s h.bucket draw after (record {
                        entries = r.entries h.packable.entries;
                        few = omega (arith, r.size, h.packable.few);
                      }),
                    ))))
        ]))
