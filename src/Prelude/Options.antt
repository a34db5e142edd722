-- ===== src/Prelude/Options.antt =====
-- Chains of results that may be missing.
use mathlib.Core.Bool.{Bool, true, false}
use mathlib.Core.Logic.{◌⊎◌, inl, inr}
use beyond_protocol.Prelude.Tests.{if◌then◌else◌}
use mathlib.Core.Path.{◌≡◌, refl}
use mathlib.Core.Option.{Option, none, some}

infixl 5 ◌>>=◌
abbrev pub ◌>>=◌ {ℓ κ} : {A : Type ℓ} {B : Type κ} → Option A → (A → Option B) → Option B
none >>= f = none
some a >>= f = f a

-- What a chain that has a result went through.
pub >>=-eq-some {ℓ κ} :
    {A : Type ℓ} {B : Type κ} (m : Option A) (f : A → Option B) {b : B}
    → (m >>= f) ≡ some b
    → (a : A) × (m ≡ some a) × (f a ≡ some b)
>>=-eq-some none f h = cc
>>=-eq-some (some a) f h = (a, refl, h)

-- A result under a test is that of one of the branches.
pub if-eq-some {ℓ} :
    {A : Type ℓ} (b : Bool) (x y : Option A) {a : A}
    → (if b then x else y) ≡ some a
    → (x ≡ some a) ⊎ (y ≡ some a)
if-eq-some true x y h = inl h
if-eq-some false x y h = inr h
