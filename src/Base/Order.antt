-- ===== src/Base/Order.antt =====
-- The order of Go strings, code point by code point.
use mathlib.Core.Path.{◌≡◌, refl}
use mathlib.Core.Bool.{Bool, true, false}
use mathlib.Core.List.{[], ◌∷◌}
use native.Mathlib.Omega.{arith}
use cloudip.Base.Tests.{Text, ltb, ◌==◌, nat_eq, if◌then◌else◌}

unfoldable pub text_lt : Text → Text → Bool
unfolding nat_eq
text_lt [] [] = false
text_lt [] (y ∷ ys) = true
text_lt (x ∷ xs) [] = false
text_lt (x ∷ xs) (y ∷ ys) = if ltb x y then true else if x == y then text_lt xs ys else false

pub text_lt_irrefl : (a : Text) → text_lt a a ≡ false
unfolding text_lt
text_lt_irrefl [] = refl
text_lt_irrefl (x ∷ xs) = ground (arith, text_lt_irrefl xs)

pub text_lt_trans : (a b c : Text) → text_lt a b ≡ true → text_lt b c ≡ true → text_lt a c ≡ true
unfolding text_lt
text_lt_trans (x ∷ xs) (y ∷ ys) (z ∷ zs) h k = ground (arith, text_lt_trans xs ys zs)
text_lt_trans [] (y ∷ ys) (z ∷ zs) h k = refl
text_lt_trans _ _ _ h k = ground arith

-- Two strings are equal or ordered.
pub text_lt_total : (a b : Text) → text_lt a b ≡ false → text_lt b a ≡ false → a ≡ b
unfolding text_lt
text_lt_total (x ∷ xs) (y ∷ ys) h k = ground (arith, text_lt_total xs ys)
text_lt_total _ _ h k = ground arith

pub text_lt_asymm : (a b : Text) → text_lt a b ≡ true → text_lt b a ≡ true → ⊥
text_lt_asymm a b h k = ground (arith, text_lt_trans a b a h k, text_lt_irrefl a)
