-- ===== src/Storage/Canonical.antt =====
-- attribution/storage.go: the lists that `dedupeSorted` gives.
use cloudip.Base.{
  ◌↔◌, ap, ◌≡◌, refl, sym, ◌∙◌, true, false, ◌||◌, Text, text_eq, ◌==◌, List, [], ◌∷◌, none, some,
  All, All-imp, contains, text_lt, text_lt_trans, text_lt_total, arith, Bool-cases, inl, inr,
}
use cloudip.Base.Sort.{
  sort_texts, contains-sort_texts, sort_texts-IsSorted, IsSorted, NotBelow, IsStrict, IsStrict-ext,
}
use cloudip.Storage.{dedupe, dedupe_sorted}

contains-dedupe-some :
    (last : Text) (ss : List Text) (b : Text)
    → (b == last || contains (dedupe (some last) ss) b) ≡ (b == last || contains ss b)
unfolding dedupe
contains-dedupe-some last [] b = refl
contains-dedupe-some last (s ∷ ss) b =
    ground (arith, contains-dedupe-some last ss b, contains-dedupe-some s ss b)

contains-dedupe : (ss : List Text) (b : Text) → contains (dedupe none ss) b ≡ contains ss b
unfolding dedupe
contains-dedupe [] b = refl
contains-dedupe (s ∷ ss) b = contains-dedupe-some s ss b

lt_of_NotBelow : (a x : Text) → NotBelow a x → (x == a) ≡ false → text_lt a x ≡ true
lt_of_NotBelow a x h n = ground (arith, text_lt_total a x, Bool-cases (text_lt a x))

dedupe-lower :
    (last : Text) (ss : List Text)
    → IsSorted (last ∷ ss)
    → All (λ y. text_lt last y ≡ true) (dedupe (some last) ss) × IsStrict (dedupe (some last) ss)
unfolding dedupe
dedupe-lower last [] s = (tt, tt)
dedupe-lower last (x ∷ ss) s = elim (Bool-cases (x == last)) [
  | inl e ↦ rw e (dedupe-lower last ss (s.0.1, s.1.1))
  | inr e ↦
      let lt = lt_of_NotBelow last x s.0.0 e in
      let (above, strict) = dedupe-lower x ss s.1 in
      rw e (
        (lt, All-imp _ _ (dedupe (some x) ss) (λ y h. text_lt_trans last x y lt h) above),
        (above, strict),
      )
]

pub contains-dedupe_sorted :
    (ss : List Text) (b : Text) → contains (dedupe_sorted ss) b ≡ contains ss b
unfolding dedupe_sorted
contains-dedupe_sorted [] b = refl
contains-dedupe_sorted (s ∷ ss) b =
    contains-dedupe (sort_texts (s ∷ ss)) b ∙ contains-sort_texts (s ∷ ss) b

dedupe-IsStrict : (ss : List Text) → IsSorted ss → IsStrict (dedupe none ss)
unfolding dedupe
dedupe-IsStrict [] s = tt
dedupe-IsStrict (x ∷ ss) s = dedupe-lower x ss s

pub dedupe_sorted-IsStrict : (ss : List Text) → IsStrict (dedupe_sorted ss)
unfolding dedupe_sorted
dedupe_sorted-IsStrict [] = tt
dedupe_sorted-IsStrict (s ∷ ss) =
    dedupe-IsStrict (sort_texts (s ∷ ss)) (sort_texts-IsSorted (s ∷ ss))

-- Two lists give one stored list exactly when they have the same elements.
pub dedupe_sorted_canonical :
    (xs ys : List Text)
    → (dedupe_sorted xs ≡ dedupe_sorted ys) ↔ ((b : Text) → contains xs b ≡ contains ys b)
dedupe_sorted_canonical xs ys = (
  λ same b.
      sym (contains-dedupe_sorted xs b)
      ∙ ap (λ ss. contains ss b) same
      ∙ contains-dedupe_sorted ys b,
  λ h.
      IsStrict-ext (dedupe_sorted xs) (dedupe_sorted ys) (dedupe_sorted-IsStrict xs)
        (dedupe_sorted-IsStrict ys)
        (λ b. contains-dedupe_sorted xs b ∙ h b ∙ sym (contains-dedupe_sorted ys b)),
)
