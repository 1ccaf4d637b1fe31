-- ===== src/Build/Merge.antt =====
-- attribution/build.go: `mergeRecords` and its parts.
pub mod Union
pub mod Fields
pub mod Summary
use cloudip.Base.{
  ℕ, Bool, true, false, not, ◌&&◌, ltb, Text, text_eq, ◌==◌, List, [], ◌∷◌, Option, none, some,
  if◌then◌else◌, contains,
}
use cloudip.Base.Sort.{sort_texts}
use cloudip.Base.Dict.{Dict, get, put, put_all}
use cloudip.Storage.{Leaf, str, uint64, Value, leaf, slice, dict, Stored, strs}
use cloudip.Storage.Key

unfoldable pub same_string : Option Value → Option Value → Bool
same_string (some (leaf (str a))) (some (leaf (str b))) = a == b
same_string _ _ = false

abbrev pub uint_of : Option Value → ℕ
uint_of (some (leaf (uint64 n))) = n
uint_of _ = 0

unfoldable pub max_uint64 : Option Value → Option Value → ℕ
max_uint64 a b = if ltb (uint_of a) (uint_of b) then uint_of b else uint_of a

-- The strings of a slice; anything else holds none.
abbrev pub texts_of_leaves : List Leaf → List Text
texts_of_leaves [] = []
texts_of_leaves (str s ∷ ls) = s ∷ texts_of_leaves ls
texts_of_leaves (_ ∷ ls) = texts_of_leaves ls

abbrev pub texts_of : Option Value → List Text
texts_of (some (slice ls)) = texts_of_leaves ls
texts_of _ = []

-- `add`: the set `seen`, as a list without repetitions.
unfoldable pub add_seen : List Text → List Text → List Text
add_seen seen [] = seen
add_seen seen (s ∷ ss) = add_seen (if contains seen s then seen else s ∷ seen) ss

unfoldable pub union_slices : Option Value → Option Value → List Text
union_slices a b = sort_texts (add_seen (add_seen [] (texts_of a)) (texts_of b))

abbrev pub leaves_of : Option Value → Dict Leaf
leaves_of (some (dict m)) = m
leaves_of _ = []

unfoldable pub union_ext : Option Value → Option Value → Dict Leaf
union_ext a b = put_all (leaves_of b) (put_all (leaves_of a) [])

-- Categories are united whatever the provider; the key is set only if there are any.
unfoldable pub merge_categories : Stored → Stored → Stored
merge_categories incoming cur =
    elim (union_slices (get Key.categories cur) (get Key.categories incoming)) [
      | [] ↦ cur
      | c ∷ cs ↦ put Key.categories (slice (strs (c ∷ cs))) cur
    ]

-- The fields that are united only for one provider.
unfoldable pub merge_scoped : Stored → Stored → Stored → Stored
merge_scoped incoming cur merged =
    let services = union_slices (get Key.services cur) (get Key.services incoming) in
    let ext = union_ext (get Key.ext cur) (get Key.ext incoming) in
    let synced = max_uint64 (get Key.synced_at cur) (get Key.synced_at incoming) in
    put Key.synced_at (leaf (uint64 synced))
      (put Key.ext (dict ext) (put Key.services (slice (strs services)) merged))

-- The inserter on a slot that is taken.
unfoldable pub merge_taken : Stored → Stored → Stored
merge_taken incoming cur =
    let merged = merge_categories incoming cur in
    if not (same_string (get Key.provider cur) (get Key.provider incoming))
    then merged
    else merge_scoped incoming cur merged

-- `mergeRecords`: an empty slot takes the incoming record.
unfoldable pub merge_records : Stored → Option Stored → Stored
merge_records incoming none = incoming
merge_records incoming (some cur) = merge_taken incoming cur
