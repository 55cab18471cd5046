-- ===== src/Base/Exec.antt =====
-- What a call of a C function comes to: it returns a value, or `assert` or `abort` stops the
-- program.
use mathlib.Core.Path.{◌≡◌, refl}
use mathlib.Core.Logic.{◌⊎◌, inl, inr}
use mathlib.Core.Bool.{Bool, true, false}
use oai_lte_5g_multi_ue_prox.Base.Tests.{if◌then◌else◌}

pub data Outcome {ℓ} (A : Type ℓ) : Type ℓ where
  returns : A → Outcome A
  aborts : Outcome A

infixl 5 ◌>>=◌
abbrev pub ◌>>=◌ {ℓ κ} : {A : Type ℓ} {B : Type κ} → Outcome A → (A → Outcome B) → Outcome B
returns a >>= f = f a
aborts >>= f = aborts

pub >>=-eq-returns {ℓ κ} :
    {A : Type ℓ} {B : Type κ} (m : Outcome A) (f : A → Outcome B) {b : B}
    → (m >>= f) ≡ returns b
    → (a : A) × (m ≡ returns a) × (f a ≡ returns b)
>>=-eq-returns (returns a) f h = (a, refl, h)
>>=-eq-returns aborts f h = cc

pub Outcome-cases {ℓ} : {A : Type ℓ} (m : Outcome A) → (m ≡ aborts) ⊎ ((a : A) × (m ≡ returns a))
Outcome-cases (returns a) = inr (a, refl)
Outcome-cases aborts = inl refl

-- The call returns.
abbrev pub Ends {ℓ} : {A : Type ℓ} → Outcome A → Type ℓ
Ends {A = A} m = (a : A) × (m ≡ returns a)

pub >>=-Ends {ℓ κ} :
    {A : Type ℓ} {B : Type κ} (m : Outcome A) (f : A → Outcome B)
    → Ends m
    → ((a : A) → Ends (f a))
    → Ends (m >>= f)
>>=-Ends m f (a, e) h = let (b, e') = h a in (b, rw (e, e') refl)

pub if-Ends {ℓ} :
    {A : Type ℓ} (b : Bool) (m n : Outcome A)
    → (b ≡ true → Ends m)
    → Ends n
    → Ends (if b then m else n)
if-Ends true m n h k = h refl
if-Ends false m n h k = k
