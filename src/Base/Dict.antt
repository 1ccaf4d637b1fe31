-- ===== src/Base/Dict.antt =====
-- A Go map with string keys, as an association list.
use mathlib.Core.Path.{◌≡◌, refl}
use mathlib.Core.Option.{Option, none, some}
use mathlib.Core.List.{List, [], ◌∷◌}
use native.Mathlib.Omega.{arith}
use cloudip.Base.Tests.{Text, text_eq, ◌==◌, if◌then◌else◌}

abbrev pub Dict : Type 0 → Type 0
Dict V = List (Text × V)

module _ {V : Type 0} where
  unfoldable pub get : Text → Dict V → Option V
  get k [] = none
  get k ((j, v) ∷ m) = if k == j then some v else get k m

  -- `m[k] = v`
  unfoldable pub put : Text → V → Dict V → Dict V
  put k v [] = (k, v) ∷ []
  put k v ((j, w) ∷ m) = if k == j then (j, v) ∷ m else (j, w) ∷ put k v m

  pub get-put :
      (j k : Text) (v : V) (m : Dict V) → get j (put k v m) ≡ (if j == k then some v else get j m)
  unfolding get put
  get-put j k v [] = refl
  get-put j k v (_ ∷ m) = ground (arith, get-put j k v m)

  pub get-nil : (k : Text) → get k [] ≡ none
  unfolding get
  get-nil k = refl

  -- `for k, v := range from { to[k] = v }`; Go leaves the order of the keys open.
  unfoldable pub put_all : Dict V → Dict V → Dict V
  put_all [] to = to
  put_all ((k, v) ∷ from) to = put k v (put_all from to)

  abbrev pub first_of_two : Option V → Option V → Option V
  first_of_two (some v) w = some v
  first_of_two none w = w

  pub get-put_all :
      (j : Text) (from to : Dict V) → get j (put_all from to) ≡ first_of_two (get j from) (get j to)
  unfolding get put_all
  get-put_all j [] to = refl
  get-put_all j ((k, v) ∷ from) to =
      ground (arith, get-put j k v (put_all from to), get-put_all j from to)
