-- ===== src/Storage/PackedList.antt =====
-- pkg/storage/session.go: the packed form of a list of 32-byte entries, a count and then the entries.
pub mod RoundTrip
use kamune.Prelude.{
  ℕ, zero, suc, ◌+◌, ◌-◌, ◌*◌, ◌%◌, not, if◌then◌else◌, ltb, ◌==◌, List, [], ◌∷◌, ◌++◌, Bytes,
  length, take, drop, replicate, put_uint32, uint32, Result, ok, err,
}

abbrev pub elem_size : ℕ
elem_size = 32

pub data ListError : Type 0 where
  bad_format : ListError

-- `copy(data[off:], item)`: what does not fit is left out, and what is not covered stays.
unfoldable pub copy_at : ℕ → Bytes → Bytes → Bytes
copy_at off item packed =
    take off packed ++ (take (length packed - off) item ++ drop (off + length item) packed)

-- The loop of serializeList, from entry `i` on.
unfoldable pub copy_items : ℕ → List Bytes → Bytes → Bytes
copy_items i [] packed = packed
copy_items i (item ∷ rest) packed =
    copy_items (i + 1) rest (copy_at (4 + i * elem_size) item packed)

unfoldable pub serialize_list : List Bytes → Bytes
serialize_list list =
    copy_items 0 list
      (put_uint32 (length list % 4294967296) ++ replicate (length list * elem_size) 0)

-- The loop of deserializeList, from entry `i` on.
unfoldable pub elements : ℕ → ℕ → Bytes → List Bytes
elements zero i packed = []
elements (suc n) i packed =
    take elem_size (drop (4 + i * elem_size) packed) ∷ elements n (i + 1) packed

-- Too short for a count is the empty list.
unfoldable pub deserialize_list : Bytes → Result ListError (List Bytes)
deserialize_list packed =
    if ltb (length packed) 4
    then ok []
    else (if not (4 + uint32 (take 4 packed) * elem_size == length packed)
        then err bad_format
        else ok (elements (uint32 (take 4 packed)) 0 packed))
