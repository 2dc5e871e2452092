-- ===== src/Base/Results.antt =====
-- Code that raises: a value, or the exception.
use mathlib.Core.Path.{◌≡◌, refl}
use mathlib.Core.Bool.{Bool, true, false}

pub data Result {ℓ κ} (E : Type κ) (A : Type ℓ) : Type (ℓ ⊔ κ) where
  ok : A → Result E A
  err : E → Result E A

infixl 10 ◌>>=◌ ◌>>◌
abbrev pub ◌>>=◌ {ℓ κ μ} :
    {E : Type κ} {A : Type ℓ} {B : Type μ} → Result E A → (A → Result E B) → Result E B
ok value >>= after = after value
err c >>= after = err c

abbrev pub ◌>>◌ {κ μ} : {E : Type κ} {B : Type μ} → Result E (Unit {0}) → Result E B → Result E B
m >> n = m >>= λ _. n

-- `if b: raise c`
abbrev pub raise_if {κ} : {E : Type κ} → Bool → E → Result E (Unit {0})
raise_if true c = err c
raise_if false c = ok tt

-- Inversion of a chain that raised nothing.
pub >>=-eq-ok {ℓ κ μ} :
    {E : Type κ} {A : Type ℓ} {B : Type μ} (action : Result E A) (after : A → Result E B) {end : B}
    → (action >>= after) ≡ ok end
    → (v : A) × (action ≡ ok v) × (after v ≡ ok end)
>>=-eq-ok (ok v) after ran = (v, refl, ran)
>>=-eq-ok (err c) after ran = cc
