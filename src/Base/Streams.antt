-- ===== src/Base/Streams.antt =====
-- Go's `iter.Seq2` iterators. A consumer is a `yield` on a state of its own that says whether it
-- wants more. A sequence of values that are there already is fed by `each`.
use mathlib.Core.Path.{◌≡◌, refl, ◌∙◌, fun_ext}
use mathlib.Core.Bool.{Bool, true, false}
use mathlib.Core.List.{List, [], ◌∷◌, ◌++◌, append-nil, append_assoc}

abbrev pub Yield : Type 0 → Type 0 → Type 0
Yield A S = A → S → Bool × S

-- `if !step { return false }; rest`
abbrev pub and_then : {S : Type 0} → Bool × S → (S → Bool × S) → Bool × S
and_then (true, s) rest = rest s
and_then (false, s) rest = (false, s)

pub and_then_congr :
    {S : Type 0} (r q : Bool × S) (f g : S → Bool × S)
    → r ≡ q
    → ((s : S) → f s ≡ g s)
    → and_then r f ≡ and_then q g
and_then_congr r q f g e h = rw (e, fun_ext h) refl

pub and_then_eta : {S : Type 0} (r : Bool × S) → and_then r (λ s. (true, s)) ≡ r
and_then_eta (true, s) = refl
and_then_eta (false, s) = refl

pub and_then_assoc :
    {S : Type 0} (r : Bool × S) (f g : S → Bool × S)
    → and_then (and_then r f) g ≡ and_then r (λ s. and_then (f s) g)
and_then_assoc (true, s) f g = refl
and_then_assoc (false, s) f g = refl

each-append_go :
    {S : Type 0} (r : Bool × S) (f g h : S → Bool × S)
    → ((s : S) → f s ≡ and_then (g s) h)
    → and_then r f ≡ and_then (and_then r g) h
each-append_go (true, s) f g h e = e s
each-append_go (false, s) f g h e = refl

module _ {A S : Type 0} where
  -- `for _, x := range xs { if !yield(x) { return false } }; return true`
  abbrev pub each : List A → Yield A S → S → Bool × S
  each [] yield s = (true, s)
  each (x ∷ xs) yield s = and_then (yield x s) (each xs yield)

  pub each-append :
      (xs ys : List A) (yield : Yield A S) (s : S)
      → each (xs ++ ys) yield s ≡ and_then (each xs yield s) (each ys yield)
  each-append [] ys yield s = refl
  each-append (x ∷ xs) ys yield s = each-append_go (yield x s) _ _ _ (each-append xs ys yield)

-- The consumer that keeps all that it is given.
abbrev pub keep_all : {A : Type 0} → Yield A (List A)
keep_all x xs = (true, xs ++ (x ∷ []))

pub each-keep_all : {A : Type 0} (xs out : List A) → each xs keep_all out ≡ (true, out ++ xs)
each-keep_all [] out = rw append-nil
each-keep_all (x ∷ xs) out = each-keep_all xs (out ++ (x ∷ [])) ∙ rw append_assoc
