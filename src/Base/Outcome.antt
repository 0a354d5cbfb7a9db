-- ===== src/Base/Outcome.antt =====
-- What a Go call comes to: a value, an error value, or a panic.
use mathlib.Core.Path.{◌≡◌, refl}
use mathlib.Core.Logic.{◌≢◌, ◌⊎◌, inl, inr}

pub data Outcome {ℓ} (E A : Type ℓ) : Type ℓ where
  panic : Outcome E A
  err : E → Outcome E A
  ok : A → Outcome E A

infixl 5 ◌>>=◌
abbrev pub ◌>>=◌ {ℓ} : {E X Y : Type ℓ} → Outcome E X → (X → Outcome E Y) → Outcome E Y
panic >>= next = panic
err e >>= next = err e
ok x >>= next = next x

pub Outcome-cases {ℓ} :
    {E X : Type ℓ} (call : Outcome E X)
    → (call ≡ panic) ⊎ (((e : E) × (call ≡ err e)) ⊎ ((x : X) × (call ≡ ok x)))
Outcome-cases panic = inl refl
Outcome-cases (err e) = inr (inl (e, refl))
Outcome-cases (ok x) = inr (inr (x, refl))

pub >>=-ne-panic {ℓ} :
    {E X Y : Type ℓ} (call : Outcome E X) (next : X → Outcome E Y)
    → call ≢ panic
    → ((x : X) → next x ≢ panic)
    → (call >>= next) ≢ panic
>>=-ne-panic panic next first second = absurd (first refl)
>>=-ne-panic (err e) next first second = λ p. cc
>>=-ne-panic (ok x) next first second = second x

-- A chain that succeeds has succeeded at its first call.
pub >>=-eq-ok {ℓ} :
    {E X Y : Type ℓ} (call : Outcome E X) (next : X → Outcome E Y) {y : Y}
    → (call >>= next) ≡ ok y
    → (x : X) × (call ≡ ok x) × (next x ≡ ok y)
>>=-eq-ok panic next whole = cc
>>=-eq-ok (err e) next whole = cc
>>=-eq-ok (ok x) next whole = (x, refl, whole)

-- The call returns a value or panics.
abbrev pub Errless {ℓ} : {E A : Type ℓ} → Outcome E A → Type 0
Errless panic = Unit {0}
Errless (err e) = ⊥
Errless (ok a) = Unit {0}

pub >>=-Errless {ℓ} :
    {E A B : Type ℓ} (x : Outcome E A) (f : A → Outcome E B)
    → Errless x
    → ((a : A) → Errless (f a))
    → Errless (x >>= f)
>>=-Errless panic f h k = tt
>>=-Errless (err e) f h k = absurd h
>>=-Errless (ok a) f h k = k a

-- The value, if the call returns one.
abbrev pub OnOk {ℓ} : {E A : Type ℓ} → (A → Type 0) → Outcome E A → Type 0
OnOk P panic = Unit {0}
OnOk P (err e) = Unit {0}
OnOk P (ok a) = P a

pub >>=-OnOk {ℓ} :
    {E A B : Type ℓ} (P : B → Type 0) (x : Outcome E A) (f : A → Outcome E B)
    → ((a : A) → x ≡ ok a → OnOk P (f a))
    → OnOk P (x >>= f)
>>=-OnOk P panic f k = tt
>>=-OnOk P (err e) f k = tt
>>=-OnOk P (ok a) f k = k a refl

pub OnOk-map {ℓ} :
    {E A : Type ℓ} (P Q : A → Type 0) (x : Outcome E A)
    → OnOk P x
    → ((a : A) → P a → Q a)
    → OnOk Q x
OnOk-map P Q panic h k = tt
OnOk-map P Q (err e) h k = tt
OnOk-map P Q (ok a) h k = k a h
