-- ===== src/Storage/PackedList/RoundTrip.antt =====
-- serializeList against deserializeList (pkg/storage/session.go).
use kamune.Prelude.{
  ℕ, zero, suc, ◌+◌, ◌-◌, ◌*◌, ◌%◌, ◌<◌, ◌≤◌, ◌≡◌, refl, sym, ap, ◌∙◌, arith, true, ◌==◌, le→ltb,
  ==_refl, List, [], ◌∷◌, ◌++◌, Bytes, All, length, take, drop, replicate, length-append,
  length-replicate, take-append, drop-append, drop_past, put_uint32, uint32, uint32-put_uint32,
  length-put_uint32, ok,
}
use mathlib.Core.List.{append_assoc}
use kamune.Storage.PackedList.{copy_at, copy_items, serialize_list, elements, deserialize_list}

abbrev pub IsEntry : Bytes → Type 0
IsEntry b = length b ≡ 32

abbrev concat : List Bytes → Bytes
concat [] = []
concat (x ∷ xs) = x ++ concat xs

length-concat : (xs : List Bytes) → All IsEntry xs → length (concat xs) ≡ length xs * 32
length-concat [] v = refl
length-concat (x ∷ xs) v = omega (arith, length-append x (concat xs), length-concat xs v.1, v.0)

take_more : (n : ℕ) (xs : Bytes) → length xs ≤ n → take n xs ≡ xs
take_more zero [] h = refl
take_more zero (x ∷ xs) h = absurd (omega arith)
take_more (suc n) [] h = refl
take_more (suc n) (x ∷ xs) h = ap (◌∷◌ x) (take_more n xs (omega arith))

drop-replicate : (n m a : ℕ) → drop n (replicate (n + m) a) ≡ replicate m a
drop-replicate zero m a = ap (λ (k : ℕ). replicate k a) (let e : zero + m ≡ m = omega arith in e)
drop-replicate (suc n) m a =
    let e : suc n + m ≡ suc (n + m) = omega arith in rw e (drop-replicate n m a)

-- An entry goes where the zeros begin.
copy_at_end :
    (front item : Bytes) (off more : ℕ)
    → length front ≡ off
    → IsEntry item
    → copy_at off item (front ++ replicate (32 + more) 0) ≡ front ++ (item ++ replicate more 0)
unfolding copy_at
copy_at_end front item off more h v = λ i. kept i ++ (put i ++ left i)
  where
    zeros : Bytes
    zeros = replicate (32 + more) 0

    kept : take off (front ++ zeros) ≡ front
    kept = take-append off front zeros h

    put : take (length (front ++ zeros) - off) item ≡ item
    put =
        take_more (length (front ++ zeros) - off) item
          (omega (arith, length-append front zeros, length-replicate {A = ℕ} (32 + more) 0))

    left : drop (off + length item) (front ++ zeros) ≡ replicate more 0
    left = drop_past off (length item) front zeros h ∙ rw v (drop-replicate 32 more 0)

copy_items-concat :
    (i : ℕ) (front : Bytes) (xs : List Bytes)
    → length front ≡ 4 + i * 32
    → All IsEntry xs
    → copy_items i xs (front ++ replicate (length xs * 32) 0) ≡ front ++ concat xs
unfolding copy_items
copy_items-concat i front [] h v = refl
copy_items-concat i front (x ∷ xs) h v =
    ap (λ (k : ℕ). copy_items (i + 1) xs (copy_at (4 + i * 32) x (front ++ replicate k 0)))
      (let e : suc (length xs) * 32 ≡ 32 + length xs * 32 = omega arith in e)
    ∙ ap (copy_items (i + 1) xs) (copy_at_end front x (4 + i * 32) (length xs * 32) h v.0)
    ∙ ap (copy_items (i + 1) xs) (sym (append_assoc front x (replicate (length xs * 32) 0)))
    ∙ copy_items-concat (i + 1) (front ++ x) xs (omega (arith, length-append front x, v.0)) v.1
    ∙ append_assoc front x (concat xs)

elements-concat :
    (i : ℕ) (front : Bytes) (xs : List Bytes)
    → length front ≡ 4 + i * 32
    → All IsEntry xs
    → elements (length xs) i (front ++ concat xs) ≡ xs
unfolding elements
elements-concat i front [] h v = refl
elements-concat i front (x ∷ xs) h v =
    let first : take 32 (drop (4 + i * 32) (front ++ (x ++ concat xs))) ≡ x =
      ap (take 32) (drop-append (4 + i * 32) front (x ++ concat xs) h)
      ∙ take-append 32 x (concat xs) v.0 in
    let others : elements (length xs) (i + 1) (front ++ (x ++ concat xs)) ≡ xs =
      ap (elements (length xs) (i + 1)) (sym (append_assoc front x (concat xs)))
      ∙ elements-concat (i + 1) (front ++ x) xs (omega (arith, length-append front x, v.0)) v.1 in
    λ j. first j ∷ others j

serialize_list-concat :
    (xs : List Bytes)
    → All IsEntry xs
    → serialize_list xs ≡ put_uint32 (length xs % 4294967296) ++ concat xs
unfolding serialize_list
serialize_list-concat xs v =
    copy_items-concat 0 (put_uint32 (length xs % 4294967296)) xs (length-put_uint32 _) v

-- A list of 32-byte entries, fewer than 2 ^ 32, comes back from its packed form.
pub deserialize_list-serialize_list :
    (xs : List Bytes)
    → All IsEntry xs
    → length xs < 4294967296
    → deserialize_list (serialize_list xs) ≡ ok xs
unfolding deserialize_list
deserialize_list-serialize_list xs v h = rw (serialize_list-concat xs v) (
    rw (le→ltb (length packed) 4 long)
      (rw (counted, ==_iff_sized) (ap ok (elements-concat 0 header xs (length-put_uint32 _) v))))
  where
    header : Bytes
    header = put_uint32 (length xs % 4294967296)

    packed : Bytes
    packed = header ++ concat xs

    size : length packed ≡ 4 + length xs * 32
    size = omega (
      arith,
      length-append header (concat xs),
      length-concat xs v,
      length-put_uint32 (length xs % 4294967296),
    )

    long : 4 ≤ length packed
    long = omega (arith, size)

    counted : uint32 (take 4 packed) ≡ length xs
    counted =
        ap uint32 (take-append 4 header (concat xs) (length-put_uint32 _))
        ∙ uint32-put_uint32 (length xs % 4294967296)
        ∙ omega arith

    ==_iff_sized : (4 + length xs * 32 == length packed) ≡ true
    ==_iff_sized = rw size (==_refl (4 + length xs * 32))
