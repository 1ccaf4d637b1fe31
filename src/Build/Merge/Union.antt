-- ===== src/Build/Merge/Union.antt =====
-- attribution/build.go: `unionSlices` as an operation on sets.
use cloudip.Base.{
  ◌≡◌, refl, ◌∙◌, ◌||◌, Text, text_eq, List, [], ◌∷◌, Option, contains, arith, ap, Bool-cases, inl,
  inr,
}
use cloudip.Base.Sort.{contains-sort_texts, IsStrict, IsDistinct, sort_texts-IsStrict}
use cloudip.Storage.{Value, strs}
use cloudip.Build.Merge.{texts_of, texts_of_leaves, add_seen, union_slices}

contains-add_seen :
    (seen ss : List Text) (b : Text)
    → contains (add_seen seen ss) b ≡ (contains seen b || contains ss b)
unfolding add_seen
contains-add_seen seen [] b = ground arith
contains-add_seen seen (s ∷ ss) b = elim (Bool-cases (contains seen s)) [
  | inl h ↦ rw h (contains-add_seen seen ss b ∙ ground arith)
  | inr h ↦ rw h (contains-add_seen (s ∷ seen) ss b ∙ ground arith)
]

pub contains-union_slices :
    (a b : Option Value) (s : Text)
    → contains (union_slices a b) s ≡ (contains (texts_of a) s || contains (texts_of b) s)
unfolding union_slices
contains-union_slices a b s =
    contains-sort_texts _ s
    ∙ contains-add_seen (add_seen [] (texts_of a)) (texts_of b) s
    ∙ ap (λ t. t || contains (texts_of b) s) (contains-add_seen [] (texts_of a) s)

add_seen-IsDistinct : (seen ss : List Text) → IsDistinct seen → IsDistinct (add_seen seen ss)
unfolding add_seen
add_seen-IsDistinct seen [] d = d
add_seen-IsDistinct seen (s ∷ ss) d = elim (Bool-cases (contains seen s)) [
  | inl h ↦ rw h (add_seen-IsDistinct seen ss d)
  | inr h ↦ rw h (add_seen-IsDistinct (s ∷ seen) ss (h, d))
]

pub union_slices-IsStrict : (a b : Option Value) → IsStrict (union_slices a b)
unfolding union_slices
union_slices-IsStrict a b =
    sort_texts-IsStrict _
      (add_seen-IsDistinct _ (texts_of b) (add_seen-IsDistinct [] (texts_of a) tt))

pub texts_of_leaves-strs : (ss : List Text) → texts_of_leaves (strs ss) ≡ ss
texts_of_leaves-strs [] = refl
texts_of_leaves-strs (s ∷ ss) = rw (texts_of_leaves-strs ss)
