-- ===== src/Base/Bits.antt =====
-- Bytes, and the bit operations of the source as arithmetic: tables over one byte, and shifted
-- fields of any width by the recursion on binary digits.
use Prim.Native.Nat.{
  ℕ, zero, suc, ◌+◌, ◌-◌, ◌*◌, ◌/◌, ◌%◌, ◌^◌, ◌≤◌, ◌<◌, max, bit_and, bit_or, digits,
  bit_or-bitwise,
}
use mathlib.Core.Path.{◌≡◌, refl, ap, ◌∙◌}
use mathlib.Core.Bool.{Bool, true, false}
use mathlib.Core.Logic.{ite}
use mathlib.Core.List.{List}
use native.Mathlib.Decide.{ℕ_discrete}
use native.Mathlib.Omega.{arith}
use native.Mathlib.Nat.{pow-suc}
use mqtt_go.Base.Lists.{All}

abbrev pub Bytes : Type 0
Bytes = List ℕ

abbrev pub IsByte : ℕ → Type 0
IsByte b = b < 256

-- The Go conversion `byte(x)`.
abbrev pub byte : ℕ → ℕ
byte x = x % 256

-- The Go conversion `uint16(x)`.
abbrev pub uint16 : ℕ → ℕ
uint16 x = x % 65536

abbrev pub IsBytes : Bytes → Type 0
IsBytes = All IsByte

module _ (f g : ℕ → ℕ) where
  same_below : ℕ → Bool
  unfolding ℕ_discrete
  same_below zero = true
  same_below (suc n) = ite (ℕ_discrete (f n) (g n)) (same_below n) false

  same_below→eq : (n : ℕ) → same_below n ≡ true → (i : ℕ) → i < n → f i ≡ g i
  unfolding same_below
  same_below→eq zero e i h = absurd (omega arith)
  same_below→eq (suc n) e i h = ground (arith, same_below→eq n (ground arith) i)

pub and_7f : (b : ℕ) → b < 256 → bit_and b 0x7F ≡ b % 128
unfolding same_below
and_7f = same_below→eq _ _ 256 refl

pub and_80 : (b : ℕ) → b < 256 → bit_and b 0x80 ≡ b / 128 * 128
unfolding same_below
and_80 = same_below→eq _ _ 256 refl

pub and_f0 : (b : ℕ) → b < 256 → bit_and b 0xF0 ≡ b / 16 * 16
unfolding same_below
and_f0 = same_below→eq _ _ 256 refl

pub and_0f : (b : ℕ) → b < 256 → bit_and b 0x0F ≡ b % 16
unfolding same_below
and_0f = same_below→eq _ _ 256 refl

pub and_one : (b : ℕ) → b < 256 → bit_and b 0x01 ≡ b % 2
unfolding same_below
and_one = same_below→eq _ _ 256 refl

pub and_08 : (b : ℕ) → b < 256 → bit_and b 0x08 ≡ b / 8 % 2 * 8
unfolding same_below
and_08 = same_below→eq _ _ 256 refl

pub and_06 : (b : ℕ) → b < 256 → bit_and b 0x06 ≡ b / 2 % 4 * 2
unfolding same_below
and_06 = same_below→eq _ _ 256 refl

pub or_40 : (b : ℕ) → b < 256 → bit_or b 0x40 ≡ b / 128 * 128 + 64 + b % 64
unfolding same_below
or_40 = same_below→eq _ _ 256 refl

pub or_80 : (b : ℕ) → b < 256 → bit_or b 0x80 ≡ b % 128 + 128
unfolding same_below
or_80 = same_below→eq _ _ 256 refl

-- One binary digit of `|`, from the recursion that the native operation stands for.
abbrev or_digits : ℕ → ℕ → ℕ → ℕ
or_digits n a b = digits (λ y. y) max n a b

one_more : (n a b : ℕ) → a ≤ n → or_digits (suc n) a b ≡ or_digits n a b
one_more zero zero b h = refl
one_more zero (suc a) b h = absurd (omega arith)
one_more (suc n) zero b h = refl
one_more (suc n) (suc a) b h = omega (arith, one_more n (suc a / 2) (b / 2) (omega arith))

zero-add : (n : ℕ) → 0 + n ≡ n
zero-add n = omega arith

suc-add : (k n : ℕ) → suc k + n ≡ suc (k + n)
suc-add k n = omega arith

-- Fuel beyond `a` makes no difference.
spare_fuel : (k n a b : ℕ) → a ≤ n → or_digits (k + n) a b ≡ or_digits n a b
spare_fuel zero n a b h = ap (λ (m : ℕ). or_digits m a b) (zero-add n)
spare_fuel (suc k) n a b h =
    ap (λ (m : ℕ). or_digits m a b) (suc-add k n)
    ∙ one_more (k + n) a b (omega arith)
    ∙ spare_fuel k n a b h

zero-bit_or : (b : ℕ) → bit_or 0 b ≡ b
zero-bit_or b = bit_or-bitwise 0 b

the_fuel : (a : ℕ) → a - suc a / 2 + suc a / 2 ≡ a
the_fuel a = omega arith

bit_or_halves : (a b : ℕ) → bit_or a b ≡ bit_or (a / 2) (b / 2) * 2 + max (a % 2) (b % 2)
bit_or_halves zero b = omega (arith, zero-bit_or b, zero-bit_or (b / 2))
bit_or_halves (suc a) b = omega (
  arith,
  bit_or-bitwise (suc a) b,
  bit_or-bitwise (suc a / 2) (b / 2),
  spare_fuel (a - suc a / 2) (suc a / 2) (suc a / 2) (b / 2) (omega arith),
  ap (λ (n : ℕ). or_digits n (suc a / 2) (b / 2)) (the_fuel a),
)

bit_or-zero_below : (n a : ℕ) → a ≤ n → bit_or a 0 ≡ a
bit_or-zero_below n zero h = refl
bit_or-zero_below zero (suc a) h = absurd (omega arith)
bit_or-zero_below (suc n) (suc a) h =
    omega (arith, bit_or_halves (suc a) 0, bit_or-zero_below n (suc a / 2) (omega arith))

bit_or-zero : (a : ℕ) → bit_or a 0 ≡ a
bit_or-zero a = bit_or-zero_below a a (omega arith)

double_pow : (q k : ℕ) → q * 2 ^ suc k ≡ 2 * (q * 2 ^ k)
double_pow q k = omega (arith, ap (λ (t : ℕ). q * t) (pow-suc 2 k))

-- `low | q << k` is a sum when `low` fits `k` bits.
pub or_high : (k low q : ℕ) → low < 2 ^ k → bit_or low (q * 2 ^ k) ≡ low + q * 2 ^ k
or_high zero low q h = ground (arith, zero-bit_or q)
or_high (suc k) low q h = omega (
  arith,
  bit_or_halves low (q * 2 ^ suc k),
  double_pow q k,
  double_pow 1 k,
  ap (λ (t : ℕ). bit_or (low / 2) t) halved,
  or_high k (low / 2) q (omega (arith, double_pow 1 k)),
)
  where
    halved : q * 2 ^ suc k / 2 ≡ q * 2 ^ k
    halved = omega (arith, double_pow q k)

-- The same, with the high part written first.
pub or_low : (k q low : ℕ) → low < 2 ^ k → bit_or (q * 2 ^ k) low ≡ q * 2 ^ k + low
or_low zero q low h = ground (arith, bit_or-zero q)
or_low (suc k) q low h = omega (
  arith,
  bit_or_halves (q * 2 ^ suc k) low,
  double_pow q k,
  double_pow 1 k,
  ap (λ (t : ℕ). bit_or t (low / 2)) halved,
  or_low k q (low / 2) (omega (arith, double_pow 1 k)),
)
  where
    halved : q * 2 ^ suc k / 2 ≡ q * 2 ^ k
    halved = omega (arith, double_pow q k)
