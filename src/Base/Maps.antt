-- ===== src/Base/Maps.antt =====
-- Go maps with numbers as keys, as association lists; a nil map reads like an empty one.
use Prim.Native.Nat.{ℕ}
use mathlib.Core.Path.{◌≡◌, refl}
use mathlib.Core.Logic.{◌≢◌}
use mathlib.Core.Option.{Option, none, some}
use mathlib.Core.List.{List, [], ◌∷◌}
use native.Mathlib.Omega.{arith}
use mqtt_go.Base.Tests.{◌==◌, if◌then◌else◌, ==_refl, ne→==_false}

abbrev pub Map {ℓ} : Type ℓ → Type ℓ
Map A = List (ℕ × A)

unfoldable pub lookup {ℓ} : {A : Type ℓ} → ℕ → Map A → Option A
lookup k [] = none
lookup k ((i, a) ∷ m) = let rest = lookup k m in if i == k then some a else rest

unfoldable pub delete {ℓ} : {A : Type ℓ} → ℕ → Map A → Map A
delete k [] = []
delete k ((i, a) ∷ m) = let rest = delete k m in if i == k then rest else (i, a) ∷ rest

-- `m[k] = a`
unfoldable pub insert {ℓ} : {A : Type ℓ} → ℕ → A → Map A → Map A
insert k a m = (k, a) ∷ delete k m

pub lookup-delete {ℓ} : {A : Type ℓ} (k : ℕ) (m : Map A) → lookup k (delete k m) ≡ none
unfolding lookup delete
lookup-delete k [] = refl
lookup-delete k ((i, a) ∷ m) = ground (arith, lookup-delete k m)

pub lookup-delete_other {ℓ} :
    {A : Type ℓ} (k j : ℕ) (m : Map A) → k ≢ j → lookup j (delete k m) ≡ lookup j m
unfolding lookup delete
lookup-delete_other k j [] h = refl
lookup-delete_other k j ((i, a) ∷ m) h = ground (arith, lookup-delete_other k j m h)

pub lookup-delete_any {ℓ} :
    {A : Type ℓ} (k j : ℕ) (m : Map A)
    → lookup j (delete k m) ≡ (if j == k then none else lookup j m)
unfolding lookup delete
lookup-delete_any k j [] = ground arith
lookup-delete_any k j ((i, a) ∷ m) = ground (arith, lookup-delete_any k j m)

pub lookup-insert {ℓ} : {A : Type ℓ} (k : ℕ) (a : A) (m : Map A) → lookup k (insert k a m) ≡ some a
unfolding lookup insert
lookup-insert k a m = rw (==_refl k) refl

pub lookup-insert_other {ℓ} :
    {A : Type ℓ} (k j : ℕ) (a : A) (m : Map A) → k ≢ j → lookup j (insert k a m) ≡ lookup j m
unfolding lookup insert
lookup-insert_other k j a m h = rw (ne→==_false k j h) (lookup-delete_other k j m h)
