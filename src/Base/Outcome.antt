-- ===== src/Base/Outcome.antt =====
-- A result or an error. An error is its message.
use mathlib.Core.Path.{◌≡◌, refl, subst}
use mathlib.Core.Bool.{Bool, true, false}
use mathlib.Core.Logic.{◌⊎◌, inl, inr}
use cloudip.Base.Tests.{Text, if◌then◌else◌}

pub data Outcome (A : Type 0) : Type 0 where
  ok : A → Outcome A
  err : Text → Outcome A

pub Outcome-cases :
    {A : Type 0} (o : Outcome A) → ((a : A) × (o ≡ ok a)) ⊎ ((e : Text) × (o ≡ err e))
Outcome-cases (ok a) = inl (a, refl)
Outcome-cases (err e) = inr (e, refl)

pub ok-inj : {A : Type 0} {a b : A} → ok a ≡ ok b → a ≡ b
ok-inj h = cc

-- What holds of the result, if there is one.
abbrev pub AllOk : {A : Type 0} → (A → Type 0) → Outcome A → Type 0
AllOk Q o = (a : _) → o ≡ ok a → Q a

module _ {A : Type 0} (Q : A → Type 0) where
  pub ok-AllOk : (a : A) → Q a → AllOk Q (ok a)
  ok-AllOk a q b e = subst Q (ok-inj e) q

  pub err-AllOk : (e : Text) → AllOk Q (err e)
  err-AllOk e b h = absurd (cc)

  pub if-AllOk : (b : Bool) (x y : Outcome A) → AllOk Q x → AllOk Q y → AllOk Q (if b then x else y)
  if-AllOk true x y hx hy = hx
  if-AllOk false x y hx hy = hy
