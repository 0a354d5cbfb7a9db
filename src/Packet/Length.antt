-- ===== src/Packet/Length.antt =====
-- remainingLength and pack of packet.go against the length loop of readPacket of serve.go.
use mqtt_go.Base.{
  ℕ, ◌+◌, ◌*◌, ◌/◌, ◌%◌, ◌^◌, ◌≤◌, ◌<◌, bit_and, bit_or, ◌≡◌, ◌∙◌, [], ◌∷◌, ◌++◌, ltb, arith,
  if◌then◌else◌,
}
use mqtt_go.Base.Bits.{Bytes, byte, and_7f, and_80, or_80, or_high}
use mqtt_go.Base.Outcome.{ok, panic}
use mqtt_go.Errors.{Go}
use native.Mathlib.Nat.{mod-eq_of_lt}
use mqtt_go.Packet.{remaining_length, read_length}

-- The bytes of a length field in plain arithmetic: seven bits a byte, the lowest first.
unfoldable pub length_field : ℕ → Bytes
length_field n =
    if ltb n 128
    then n ∷ []
    else if ltb n 16384
    then (n % 128 + 128) ∷ n / 128 ∷ []
    else if ltb n 2097152
    then (n % 128 + 128) ∷ (n / 128 % 128 + 128) ∷ n / 16384 ∷ []
    else (n % 128 + 128) ∷ (n / 128 % 128 + 128) ∷ (n / 16384 % 128 + 128) ∷ n / 2097152 ∷ []

low_byte : (n : ℕ) → bit_or (byte n) 0x80 ≡ n % 128 + 128
low_byte n = omega (arith, or_80 (byte n) (omega arith))

last_byte : (n : ℕ) → n < 128 → bit_and (byte n) 0x7F ≡ n
last_byte n h = omega (arith, and_7f (byte n) (omega arith))

pub remaining_length-ok : (n : ℕ) → n < 2 ^ 28 → remaining_length n ≡ ok (length_field n)
unfolding remaining_length length_field
remaining_length-ok n h = ground (
  arith,
  low_byte n,
  low_byte (n / 2 ^ 7),
  low_byte (n / 2 ^ 14),
  last_byte (n / 2 ^ 7),
  last_byte (n / 2 ^ 14),
  last_byte (n / 2 ^ 21),
)

pub remaining_length-panic : (n : ℕ) → 2 ^ 28 ≤ n → remaining_length n ≡ panic
unfolding remaining_length
remaining_length-panic n h = ground arith

-- One round of the reading loop, on a last byte and on a byte with the top bit set.
read_length_last :
    (shift acc b : ℕ) (s : Bytes)
    → b < 128
    → read_length shift acc b s ≡ ok (bit_or acc (b * 2 ^ shift % 2 ^ 64), s)
unfolding read_length
read_length_last shift acc b [] h = ground (arith, and_7f b, and_80 b)
read_length_last shift acc b (c ∷ s) h = ground (arith, and_7f b, and_80 b)

read_length_more :
    (shift acc g c : ℕ) (s : Bytes)
    → g < 128
    → read_length shift acc (g + 128) (c ∷ s)
      ≡ read_length (shift + 7) (bit_or acc (g * 2 ^ shift % 2 ^ 64)) c s
unfolding read_length
read_length_more shift acc g c s h = ground (arith, and_7f (g + 128), and_80 (g + 128))

-- Adding a group of seven bits above the bits read so far.
add_group :
    (k acc g : ℕ)
    → acc < 2 ^ k
    → g * 2 ^ k < 2 ^ 64
    → bit_or acc (g * 2 ^ k % 2 ^ 64) ≡ acc + g * 2 ^ k
add_group k acc g h fits = rw (mod-eq_of_lt fits) (or_high k acc g h)

add_first : (g : ℕ) → g < 128 → bit_or 0 (g * 2 ^ 0 % 2 ^ 64) ≡ g
add_first g h = omega (arith, add_group 0 0 g (omega arith) (omega arith))

-- The loop started at the first byte of a list.
abbrev pub read_field : Bytes → Go (ℕ × Bytes)
read_field [] = panic
read_field (b ∷ s) = read_length 0 0 b s

field_one : (n : ℕ) (s : Bytes) → n < 128 → read_field (n ∷ s) ≡ ok (n, s)
field_one n s h = ground (arith, read_length_last 0 0 n s, add_first n)

field_two :
    (g0 g1 : ℕ) (s : Bytes)
    → g0 < 128
    → g1 < 128
    → read_field ((g0 + 128) ∷ g1 ∷ s) ≡ ok (g0 + g1 * 2 ^ 7, s)
field_two g0 g1 s h0 h1 =
    read_length_more 0 0 g0 g1 s h0
    ∙ rw (add_first g0 h0)
        (read_length_last 7 g0 g1 s h1 ∙ rw (add_group 7 g0 g1 (omega arith) (omega arith)))

field_three :
    (g0 g1 g2 : ℕ) (s : Bytes)
    → g0 < 128
    → g1 < 128
    → g2 < 128
    → read_field ((g0 + 128) ∷ (g1 + 128) ∷ g2 ∷ s) ≡ ok (g0 + g1 * 2 ^ 7 + g2 * 2 ^ 14, s)
field_three g0 g1 g2 s h0 h1 h2 =
    read_length_more 0 0 g0 (g1 + 128) (g2 ∷ s) h0
    ∙ rw (add_first g0 h0) (
        read_length_more 7 g0 g1 g2 s h1
        ∙ rw (add_group 7 g0 g1 (omega arith) (omega arith)) (
            read_length_last 14 _ g2 s h2
            ∙ rw (add_group 14 (g0 + g1 * 2 ^ 7) g2 (omega arith) (omega arith))))

field_four :
    (g0 g1 g2 g3 : ℕ) (s : Bytes)
    → g0 < 128
    → g1 < 128
    → g2 < 128
    → g3 < 128
    → read_field ((g0 + 128) ∷ (g1 + 128) ∷ (g2 + 128) ∷ g3 ∷ s)
      ≡ ok (g0 + g1 * 2 ^ 7 + g2 * 2 ^ 14 + g3 * 2 ^ 21, s)
field_four g0 g1 g2 g3 s h0 h1 h2 h3 =
    read_length_more 0 0 g0 (g1 + 128) ((g2 + 128) ∷ g3 ∷ s) h0
    ∙ rw (add_first g0 h0) (
        read_length_more 7 g0 g1 (g2 + 128) (g3 ∷ s) h1
        ∙ rw (add_group 7 g0 g1 (omega arith) (omega arith)) (
            read_length_more 14 _ g2 g3 s h2
            ∙ rw (add_group 14 (g0 + g1 * 2 ^ 7) g2 (omega arith) (omega arith)) (
                read_length_last 21 _ g3 s h3
                ∙ rw
                    (add_group 21 (g0 + g1 * 2 ^ 7 + g2 * 2 ^ 14) g3 (omega arith) (omega arith)))))

-- The loop reads back a length field, and leaves what follows it.
pub read_field-length_field :
    (n : ℕ) (s : Bytes) → n < 2 ^ 28 → read_field (length_field n ++ s) ≡ ok (n, s)
unfolding length_field
read_field-length_field n s h = ground (
  arith,
  field_one n s,
  field_two (n % 128) (n / 128) s,
  field_three (n % 128) (n / 128 % 128) (n / 16384) s,
  field_four (n % 128) (n / 128 % 128) (n / 16384 % 128) (n / 2097152) s,
)
