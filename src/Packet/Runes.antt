-- ===== src/Packet/Runes.antt =====
-- Go's conversions between strings and runes, which unpackString of packet.go goes through:
-- ill-formed UTF-8 becomes U+FFFD byte by byte, and so does a rune that has no encoding.
use mqtt_go.Base.{
  ℕ, zero, suc, ◌+◌, ◌-◌, ◌*◌, ◌/◌, ◌%◌, Bool, ◌&&◌, ◌||◌, List, [], ◌∷◌, ◌++◌, ltb, leb, ◌==◌,
  if◌then◌else◌,
}
use mqtt_go.Base.Bits.{Bytes}

abbrev pub rune_error : ℕ
rune_error = 0xFFFD

-- The byte at an index, or 0, which continues no sequence.
abbrev byte_at : Bytes → ℕ → ℕ
byte_at [] i = 0
byte_at (b ∷ s) zero = b
byte_at (b ∷ s) (suc i) = byte_at s i

-- The range of the second byte that the lead byte `a` admits.
abbrev second_low : ℕ → ℕ
second_low a = if a == 0xE0 then 0xA0 else if a == 0xF0 then 0x90 else 0x80

abbrev second_high : ℕ → ℕ
second_high a = if a == 0xED then 0x9F else if a == 0xF4 then 0x8F else 0xBF

abbrev in_range : ℕ → ℕ → ℕ → Bool
in_range lo hi b = leb lo b && leb b hi

-- The first rune of `a ∷ s` and the number of its bytes, `utf8.DecodeRune`.
unfoldable pub decode_rune : ℕ → Bytes → ℕ × ℕ
decode_rune a s =
    if ltb a 0x80
    then (a, 1)
    else if in_range 0xC2 0xDF a && in_range 0x80 0xBF (byte_at s 0)
    then ((a - 0xC0) * 64 + (byte_at s 0 - 0x80), 2)
    else if in_range 0xE0 0xEF a
        && (in_range (second_low a) (second_high a) (byte_at s 0)
            && in_range 0x80 0xBF (byte_at s 1))
    then ((a - 0xE0) * 4096 + (byte_at s 0 - 0x80) * 64 + (byte_at s 1 - 0x80), 3)
    else if in_range 0xF0 0xF4 a
        && (in_range (second_low a) (second_high a) (byte_at s 0)
            && (in_range 0x80 0xBF (byte_at s 1) && in_range 0x80 0xBF (byte_at s 2)))
    then (
      (a - 0xF0) * 262144
          + (byte_at s 0 - 0x80) * 4096
          + (byte_at s 1 - 0x80) * 64
          + (byte_at s 2 - 0x80),
      4,
    )
    else (rune_error, 1)

-- `k` bytes of the last rune are still to be passed over.
unfoldable pub runes_from : ℕ → Bytes → List ℕ
runes_from k [] = []
runes_from (suc k) (a ∷ s) = runes_from k s
runes_from zero (a ∷ s) = let r = decode_rune a s in r.0 ∷ runes_from (r.1 - 1) s

-- `[]rune(string(s))`.
unfoldable pub runes : Bytes → List ℕ
unfolding runes_from
runes s = runes_from 0 s

abbrev pub is_surrogate : ℕ → Bool
is_surrogate r = leb 0xD800 r && leb r 0xDFFF

unfoldable pub encode_rune : ℕ → Bytes
encode_rune r =
    if ltb r 0x80
    then r ∷ []
    else if ltb r 0x800
    then (0xC0 + r / 64) ∷ (0x80 + r % 64) ∷ []
    else if ltb 0x10FFFF r || is_surrogate r
    then 0xEF ∷ 0xBF ∷ 0xBD ∷ []
    else if ltb r 0x10000
    then (0xE0 + r / 4096) ∷ (0x80 + r / 64 % 64) ∷ (0x80 + r % 64) ∷ []
    else (0xF0 + r / 262144) ∷ (0x80 + r / 4096 % 64) ∷ (0x80 + r / 64 % 64) ∷ (0x80 + r % 64) ∷ []

-- `string(rs)`.
unfoldable pub encode_runes : List ℕ → Bytes
encode_runes [] = []
encode_runes (r ∷ rs) = encode_rune r ++ encode_runes rs
