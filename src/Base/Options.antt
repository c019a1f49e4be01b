-- ===== src/Base/Options.antt =====
-- Chains of calls that may fail.
use mathlib.Core.Option.{Option, none, some}
use mathlib.Core.Path.{◌≡◌, refl, ap, ◌∙◌}

infixl 5 ◌>>=◌
abbrev pub ◌>>=◌ : {A B : Type 0} → Option A → (A → Option B) → Option B
none >>= f = none
some a >>= f = f a

-- A chain that succeeds has succeeded in its first call.
pub >>=-eq-some :
    {A B : Type 0} (o : Option A) (f : A → Option B) {b : B}
    → (o >>= f) ≡ some b
    → (a : A) × (o ≡ some a) × (f a ≡ some b)
>>=-eq-some none f e = cc
>>=-eq-some (some a) f e = (a, refl, e)

-- A chain goes on with the result of its first call.
pub >>=-some :
    {A B : Type 0} {o : Option A} {a : A} {r : Option B} (f : A → Option B)
    → o ≡ some a
    → f a ≡ r
    → (o >>= f) ≡ r
>>=-some f e h = ap (λ o. o >>= f) e ∙ h
