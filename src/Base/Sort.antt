-- ===== src/Base/Sort.antt =====
-- `sort.Strings`: a sort of strings has one possible result, given here by insertion.
-- Strictly increasing lists of strings stand for sets.
use mathlib.Core.Path.{◌≡◌, refl}
use mathlib.Core.Logic.{inl, inr}
use mathlib.Core.Bool.{true, false, ◌||◌}
use mathlib.Core.List.{List, [], ◌∷◌}
use native.Mathlib.Omega.{arith}
use cloudip.Base.Tests.{Text, ◌==◌, text_eq, if◌then◌else◌, Bool-cases}
use cloudip.Base.Order.{text_lt, text_lt_irrefl, text_lt_trans, text_lt_total, text_lt_asymm}
use cloudip.Base.Lists.{All, All-imp, contains}

insert_text : Text → List Text → List Text
insert_text a [] = a ∷ []
insert_text a (x ∷ xs) = if text_lt x a then x ∷ insert_text a xs else a ∷ x ∷ xs

unfoldable pub sort_texts : List Text → List Text
unfolding insert_text text_lt
sort_texts [] = []
sort_texts (x ∷ xs) = insert_text x (sort_texts xs)

contains-insert_text :
    (a : Text) (xs : List Text) (b : Text)
    → contains (insert_text a xs) b ≡ (b == a || contains xs b)
unfolding insert_text
contains-insert_text a [] b = refl
contains-insert_text a (x ∷ xs) b = ground (arith, contains-insert_text a xs b)

pub contains-sort_texts : (xs : List Text) (b : Text) → contains (sort_texts xs) b ≡ contains xs b
unfolding sort_texts
contains-sort_texts [] b = refl
contains-sort_texts (x ∷ xs) b =
    ground (arith, contains-insert_text x (sort_texts xs) b, contains-sort_texts xs b)

-- No element is below `a`.
abbrev pub NotBelow : Text → Text → Type 0
NotBelow a x = text_lt x a ≡ false

abbrev pub IsSorted : List Text → Type 0
IsSorted [] = Unit
IsSorted (x ∷ xs) = All (NotBelow x) xs × IsSorted xs

NotBelow-trans : (a x y : Text) → NotBelow a x → NotBelow x y → NotBelow a y
NotBelow-trans a x y h k = elim (Bool-cases (text_lt y a)) [
  | inr e ↦ e
  | inl e ↦
      ground (arith, text_lt_total x y, text_lt_total x a, text_lt_trans x y a, text_lt_asymm y a)
]

All-insert_text :
    (a b : Text) (xs : List Text)
    → NotBelow a b
    → All (NotBelow a) xs
    → All (NotBelow a) (insert_text b xs)
unfolding insert_text
All-insert_text a b [] h p = (h, tt)
All-insert_text a b (x ∷ xs) h p = ground (arith, All-insert_text a b xs h p.1)

insert_text-IsSorted : (a : Text) (xs : List Text) → IsSorted xs → IsSorted (insert_text a xs)
unfolding insert_text
insert_text-IsSorted a [] s = (tt, tt)
insert_text-IsSorted a (x ∷ xs) s = elim (Bool-cases (text_lt x a)) [
  | inl e ↦ rw e (
    All-insert_text x a xs (ground (arith, text_lt_asymm x a, Bool-cases (text_lt a x))) s.0,
    insert_text-IsSorted a xs s.1,
  )
  | inr e ↦ rw e ((e, All-imp (NotBelow x) (NotBelow a) xs (λ y. NotBelow-trans a x y e) s.0), s)
]

pub sort_texts-IsSorted : (xs : List Text) → IsSorted (sort_texts xs)
unfolding sort_texts
sort_texts-IsSorted [] = tt
sort_texts-IsSorted (x ∷ xs) = insert_text-IsSorted x (sort_texts xs) (sort_texts-IsSorted xs)

-- Strictly increasing: sorted, with no element twice.
abbrev pub IsStrict : List Text → Type 0
IsStrict [] = Unit
IsStrict (x ∷ xs) = All (λ y. text_lt x y ≡ true) xs × IsStrict xs

lt_of_contains :
    (x : Text) (xs : List Text) (b : Text)
    → All (λ y. text_lt x y ≡ true) xs
    → contains xs b ≡ true
    → text_lt x b ≡ true
lt_of_contains x [] b p m = absurd (cc)
lt_of_contains x (y ∷ ys) b p m = ground (arith, lt_of_contains x ys b p.1)

heads_equal :
    (x y : Text) (xs ys : List Text)
    → IsStrict (x ∷ xs)
    → IsStrict (y ∷ ys)
    → contains (y ∷ ys) x ≡ true
    → contains (x ∷ xs) y ≡ true
    → x ≡ y
heads_equal x y xs ys s t h k =
    ground (arith, lt_of_contains x xs y s.0, lt_of_contains y ys x t.0, text_lt_asymm x y)

not-contains_of_lt :
    (x : Text) (xs : List Text) → All (λ y. text_lt x y ≡ true) xs → contains xs x ≡ false
not-contains_of_lt x xs p =
    ground (arith, lt_of_contains x xs x p, text_lt_irrefl x, Bool-cases (contains xs x))

-- A strictly increasing list is determined by its members.
pub IsStrict-ext :
    (xs ys : List Text)
    → IsStrict xs
    → IsStrict ys
    → ((b : Text) → contains xs b ≡ contains ys b)
    → xs ≡ ys
IsStrict-ext [] [] s t h = refl
IsStrict-ext [] (y ∷ ys) s t h = ground (arith, h y)
IsStrict-ext (x ∷ xs) [] s t h = ground (arith, h x)
IsStrict-ext (x ∷ xs) (y ∷ ys) s t h = ground (arith, same, IsStrict-ext xs ys s.1 t.1 tails)
  where
    same : x ≡ y
    same = heads_equal x y xs ys s t (ground (arith, h x)) (ground (arith, h y))

    tails : (b : Text) → contains xs b ≡ contains ys b
    tails b = ground (arith, h b, same, not-contains_of_lt x xs s.0, not-contains_of_lt y ys t.0)

-- No element occurs twice.
abbrev pub IsDistinct : List Text → Type 0
IsDistinct [] = Unit
IsDistinct (x ∷ xs) = (contains xs x ≡ false) × IsDistinct xs

lt_insert_text :
    (y a : Text) (xs : List Text)
    → text_lt y a ≡ true
    → All (λ x. text_lt y x ≡ true) xs
    → All (λ x. text_lt y x ≡ true) (insert_text a xs)
unfolding insert_text
lt_insert_text y a [] h p = (h, tt)
lt_insert_text y a (x ∷ xs) h p = elim (Bool-cases (text_lt x a)) [
  | inl e ↦ rw e (p.0, lt_insert_text y a xs h p.1)
  | inr e ↦ rw e (h, p)
]

insert_text-IsStrict :
    (a : Text) (xs : List Text) → IsStrict xs → contains xs a ≡ false → IsStrict (insert_text a xs)
unfolding insert_text
insert_text-IsStrict a [] s n = (tt, tt)
insert_text-IsStrict a (x ∷ xs) s n = elim (Bool-cases (text_lt x a)) [
  | inl e ↦ rw e (lt_insert_text x a xs e s.0, insert_text-IsStrict a xs s.1 (ground arith))
  | inr e ↦
      let lt : text_lt a x ≡ true = ground (arith, text_lt_total a x, Bool-cases (text_lt a x)) in
      rw e ((lt, All-imp _ _ xs (λ y h. text_lt_trans a x y lt h) s.0), s)
]

pub sort_texts-IsStrict : (xs : List Text) → IsDistinct xs → IsStrict (sort_texts xs)
unfolding sort_texts
sort_texts-IsStrict [] d = tt
sort_texts-IsStrict (x ∷ xs) d =
    insert_text-IsStrict x (sort_texts xs) (sort_texts-IsStrict xs d.1) (rw contains-sort_texts d.0)
