-- ===== src/Cmd/Flags/Names.antt =====
-- cmd/cloudattr/build.go: `splitCSV` on what `strings.Join` gives.
use mathlib.Core.List.{reverse, reverse_aux}
use cloudip.Base.{
  ℕ, ◌≡◌, refl, sym, ap, ◌∙◌, inl, inr, Bool, true, false, not, ◌||◌, Text, codes, text_eq, nat_eq,
  ◌==◌, List, [], ◌∷◌, ◌++◌, contains, All, Bool-cases, ==-sound, ==-differs, arith,
}
use cloudip.Base.Texts.{trim_space, trim_left, is_space, split, push_head, join}
use cloudip.Cmd.Flags.{split_csv, trimmed}

-- A name without a comma, that is not empty and has no space around it.
unfoldable pub IsName : Text → Type 0
IsName s = (trim_space s ≡ s) × ((s == []) ≡ false) × (contains s b',' ≡ false)

split-one : (sep : ℕ) (s : Text) → contains s sep ≡ false → split sep s ≡ s ∷ []
unfolding split push_head
split-one sep [] h = refl
split-one sep (c ∷ s) h = ground (arith, split-one sep s)

split-append :
    (sep : ℕ) (s t : Text) → contains s sep ≡ false → split sep (s ++ (sep ∷ t)) ≡ s ∷ split sep t
unfolding split push_head
split-append sep [] t h = elim (Bool-cases (sep == sep)) [
  | inl e ↦ rw e refl
  | inr e ↦ absurd (==-differs sep sep e refl)
]
split-append sep (c ∷ s) t h = ground (arith, split-append sep s t)

split-join :
    (s : Text) (ss : List Text)
    → All IsName (s ∷ ss)
    → split b',' (join (codes ",") (s ∷ ss)) ≡ s ∷ ss
unfolding join IsName
split-join s [] h = split-one b',' s h.0.2
split-join s (t ∷ ss) h =
    split-append b',' s (join (codes ",") (t ∷ ss)) h.0.2 ∙ ap (λ xs. s ∷ xs) (split-join t ss h.1)

trimmed-names : (ss : List Text) → All IsName ss → trimmed ss ≡ ss
unfolding trimmed IsName
trimmed-names [] h = refl
trimmed-names (s ∷ ss) h = rw (h.0.0, h.0.1, trimmed) (ap (λ xs. s ∷ xs) (trimmed-names ss h.1))

-- A character that is no space.
abbrev is_dark : Text → Bool
is_dark [] = false
is_dark (c ∷ s) = not (is_space c) || is_dark s

or_false : (b : Bool) → (b || false) ≡ b
or_false true = refl
or_false false = refl

is_dark-reverse_aux : (s t : Text) → is_dark (reverse_aux s t) ≡ (is_dark s || is_dark t)
is_dark-reverse_aux [] t = refl
is_dark-reverse_aux (c ∷ s) t = ground (arith, is_dark-reverse_aux s (c ∷ t))

is_dark-append : (s t : Text) → is_dark (s ++ t) ≡ (is_dark s || is_dark t)
is_dark-append [] t = refl
is_dark-append (c ∷ s) t = ground (arith, is_dark-append s t)

is_dark-reverse : (s : Text) → is_dark (reverse s) ≡ is_dark s
is_dark-reverse s = is_dark-reverse_aux s [] ∙ or_false (is_dark s)

is_dark-trim_left : (s : Text) → is_dark (trim_left s) ≡ is_dark s
unfolding trim_left
is_dark-trim_left [] = refl
is_dark-trim_left (c ∷ s) = ground (arith, is_dark-trim_left s)

is_dark-trim_space : (s : Text) → is_dark (trim_space s) ≡ is_dark s
unfolding trim_space
is_dark-trim_space s =
    is_dark-reverse _ ∙ (is_dark-trim_left _ ∙ (is_dark-reverse _ ∙ is_dark-trim_left s))

light-trim_left : (s : Text) → is_dark s ≡ false → trim_left s ≡ []
unfolding trim_left
light-trim_left [] h = refl
light-trim_left (c ∷ s) h = ground (arith, light-trim_left s)

light-trim_space : (s : Text) → is_dark s ≡ false → trim_space s ≡ []
unfolding trim_space trim_left
light-trim_space s h = rw (light-trim_left s h) refl

name_dark : (s : Text) → IsName s → is_dark s ≡ true
unfolding IsName
name_dark s n = elim (Bool-cases (is_dark s)) [
  | inl e ↦ e
  | inr e ↦ absurd (==-differs s [] n.1 (sym n.0 ∙ light-trim_space s e))
]

is_dark-join :
    (s : Text) (ss : List Text) → is_dark s ≡ true → is_dark (join (codes ",") (s ∷ ss)) ≡ true
unfolding join
is_dark-join s [] h = h
is_dark-join s (t ∷ ss) h = is_dark-append s _ ∙ rw h refl

dark_full : (s : Text) → is_dark s ≡ true → (s == []) ≡ false
dark_full s h = elim (Bool-cases (s == [])) [
  | inr e ↦ e
  | inl e ↦ absurd (let h' = rw (==-sound s [] e) at h in cc)
]

-- `splitCSV` gives back the names that were joined by commas, none or several, where each is without
-- a comma, not empty, and without space around it.
pub split_csv-join : (ss : List Text) → All IsName ss → split_csv (join (codes ",") ss) ≡ ss
unfolding split_csv join trim_space trim_left text_eq
split_csv-join [] h = refl
split_csv-join (s ∷ ss) h =
    let dark = is_dark-trim_space _ ∙ is_dark-join s ss (name_dark s h.0) in
    rw (dark_full _ dark, split_csv) (ap trimmed (split-join s ss h) ∙ trimmed-names (s ∷ ss) h)
