-- ===== src/Base/Texts.antt =====
-- What the program uses of Go's `strings` and `strconv`, on strings as code points.
use Prim.Native.Nat.{ℕ, zero, suc, ◌+◌, ◌-◌, ◌*◌, ◌/◌, ◌%◌, ◌^◌}
use mathlib.Core.Path.{◌≡◌, refl}
use mathlib.Core.Bool.{Bool, true, false, ◌&&◌, ◌||◌}
use mathlib.Core.Option.{Option, none, some}
use mathlib.Core.List.{List, [], ◌∷◌, ◌++◌, map, reverse}
use cloudip.Base.Tests.{Text, codes, ltb, leb, ◌==◌, nat_eq, text_eq, if◌then◌else◌}

-- `unicode.IsSpace`
unfoldable pub is_space : ℕ → Bool
is_space c =
    (leb 9 c && leb c 13)
    || c == 32
    || c == 0x85
    || c == 0xa0
    || c == 0x1680
    || (leb 0x2000 c && leb c 0x200a)
    || c == 0x2028
    || c == 0x2029
    || c == 0x202f
    || c == 0x205f
    || c == 0x3000

unfoldable pub trim_left : Text → Text
trim_left [] = []
trim_left (c ∷ s) = if is_space c then trim_left s else c ∷ s

-- `strings.TrimSpace`
unfoldable pub trim_space : Text → Text
trim_space s = reverse (trim_left (reverse (trim_left s)))

-- `strings.HasPrefix(s, prefix)`
unfoldable pub has_prefix : Text → Text → Bool
has_prefix s [] = true
has_prefix [] (p ∷ prefix) = false
has_prefix (c ∷ s) (p ∷ prefix) = c == p && has_prefix s prefix

unfoldable pub push_head : ℕ → List Text → List Text
push_head c [] = (c ∷ []) ∷ []
push_head c (s ∷ ss) = (c ∷ s) ∷ ss

-- `strings.Split(s, sep)` for a separator of one character.
unfoldable pub split : ℕ → Text → List Text
split sep [] = [] ∷ []
split sep (c ∷ s) = if c == sep then [] ∷ split sep s else push_head c (split sep s)

-- `strings.Join(parts, sep)`
unfoldable pub join : Text → List Text → Text
join sep [] = []
join sep (s ∷ []) = s
join sep (s ∷ t ∷ ss) = s ++ (sep ++ join sep (t ∷ ss))

-- The text before and behind the first `sep`, if there is one (`strings.IndexByte`).
unfoldable pub cut : ℕ → Text → Option (Text × Text)
cut sep [] = none
cut sep (c ∷ s) =
    if c == sep
    then some ([], s)
    else elim (cut sep s) [ none ↦ none | some (before, after) ↦ some (c ∷ before, after) ]

unfoldable pub lower : ℕ → ℕ
lower c = if leb b'A' c && leb c b'Z' then c + 32 else c

-- `strings.EqualFold(a, b)` where one of the two is an ASCII text without k and s.
unfoldable pub equal_fold : Text → Text → Bool
equal_fold a b = map lower a == map lower b

unfoldable pub digits_below : ℕ → ℕ → Text → Text
digits_below zero n out = out
digits_below (suc fuel) n out =
    let rest = digits_below fuel (n / 10) ((n % 10 + b'0') ∷ out) in
    if ltb n 10 then (n + b'0') ∷ out else rest

-- `strconv.FormatUint(n, 10)`
unfoldable pub decimal : ℕ → Text
decimal n = digits_below (n + 1) n []

unfoldable pub digits_value : ℕ → Text → Option ℕ
digits_value acc [] = some acc
digits_value acc (c ∷ s) =
    if leb b'0' c && leb c b'9' then digits_value (10 * acc + (c - b'0')) s else none

-- `strconv.ParseUint(s, 10, bits)`: digits only, and in range.
unfoldable pub parse_uint : ℕ → Text → Option ℕ
parse_uint bits [] = none
parse_uint bits (c ∷ s) = elim (digits_value 0 (c ∷ s)) [
  | none ↦ none
  | some n ↦ if ltb n (2 ^ bits) then some n else none
]

decimal_run : decimal 16509 ≡ codes "16509"
unfolding decimal digits_below
decimal_run = refl

parse_uint_run : parse_uint 32 (codes "4294967296") ≡ none
unfolding parse_uint digits_value
parse_uint_run = refl

trim_space_run : trim_space (codes " \ta b ") ≡ codes "a b"
unfolding trim_space trim_left is_space nat_eq
trim_space_run = refl
