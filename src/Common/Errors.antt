-- ===== src/Common/Errors.antt =====
-- A Python exception as a value: a call returns its result or raises. A transaction that raises is
-- rolled back, so `err` carries no state.
use mathlib.Core.Path.{◌≡◌, refl}
use mathlib.Core.Bool.{Bool, true, false}

pub data Result {ℓ} (E : Type 0) (A : Type ℓ) : Type ℓ where
  err : E → Result E A
  ok : A → Result E A

abbrev pub is_ok {ℓ} : {E : Type 0} {A : Type ℓ} → Result E A → Bool
is_ok (err raised) = false
is_ok (ok value) = true

infixl 5 ◌>>=◌ ◌>>◌
-- The next call on the value of the first, unless that raised.
abbrev pub ◌>>=◌ {ℓ κ} :
    {E : Type 0} {A : Type ℓ} {B : Type κ} → Result E A → (A → Result E B) → Result E B
err raised >>= next = err raised
ok value >>= next = next value

-- Two statements, the first without a value.
abbrev pub ◌>>◌ {ℓ} : {E : Type 0} {B : Type ℓ} → Result E (Unit {0}) → Result E B → Result E B
err raised >> next = err raised
ok done >> next = next

-- `if c: raise e`
abbrev pub raise_if : {E : Type 0} → Bool → E → Result E (Unit {0})
raise_if true e = err e
raise_if false e = ok tt

-- `if not c: raise e`
abbrev pub require : {E : Type 0} → Bool → E → Result E (Unit {0})
require true e = ok tt
require false e = err e

-- A bind that returned has returned in both of its parts.
pub >>=-eq-ok {ℓ κ} :
    {E : Type 0} {A : Type ℓ} {B : Type κ} (first : Result E A) (next : A → Result E B) {y : B}
    → (first >>= next) ≡ ok y
    → (x : A) × (first ≡ ok x) × (next x ≡ ok y)
>>=-eq-ok (err raised) next e = absurd cc
>>=-eq-ok (ok value) next e = (value, refl, e)

-- Inversion of a sequence that returned.
pub >>-eq-ok {ℓ} :
    {E : Type 0} {B : Type ℓ} (m : Result E (Unit {0})) (k : Result E B) {b : B}
    → (m >> k) ≡ ok b
    → (m ≡ ok tt) × (k ≡ ok b)
>>-eq-ok (ok tt) k h = (refl, h)
>>-eq-ok (err e) k h = cc

pub require-eq-ok : {E : Type 0} (c : Bool) (e : E) → require c e ≡ ok tt → c ≡ true
require-eq-ok true e h = refl
require-eq-ok false e h = cc

pub raise_if-eq-ok : {E : Type 0} (c : Bool) (e : E) → raise_if c e ≡ ok tt → c ≡ false
raise_if-eq-ok true e h = cc
raise_if-eq-ok false e h = refl

-- A call that cannot return raises.
pub is_ok-eq-false {ℓ} :
    {E : Type 0} {A : Type ℓ} (r : Result E A) → ((a : A) → ¬ (r ≡ ok a)) → is_ok r ≡ false
is_ok-eq-false (ok a) h = absurd (h a refl)
is_ok-eq-false (err e) h = refl

pub ok-inj {ℓ} : {E : Type 0} {A : Type ℓ} {a b : A} → ◌≡◌ {A = Result E A} (ok a) (ok b) → a ≡ b
ok-inj h = cc
