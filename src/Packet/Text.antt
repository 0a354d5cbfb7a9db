-- ===== src/Packet/Text.antt =====
-- The strings of packets: packString and unpackString of packet.go, and UTF-8.
use mqtt_go.Base.{
  ℕ, zero, suc, ◌+◌, ◌-◌, ◌*◌, ◌/◌, ◌%◌, ◌≤◌, ◌<◌, ◌≡◌, ◌≢◌, ◌⊎◌, inl, inr, refl, ap, ◌∙◌, List, [],
  ◌∷◌, ◌++◌, All, arith,
}
use mqtt_go.Base.Bits.{Bytes}
use mqtt_go.Packet.Runes.{decode_rune, runes_from, runes, encode_rune, encode_runes}

-- A Unicode scalar value: what UTF-8 encodes.
abbrev pub IsScalar : ℕ → Type 0
IsScalar r = (r < 0x110000) × ((r < 0xD800) ⊎ (0xDFFF < r))

decode_rune-IsScalar : (a : ℕ) (s : Bytes) → IsScalar (decode_rune a s).0
unfolding decode_rune
decode_rune-IsScalar a s = ground arith

pub runes_from-IsScalar : (k : ℕ) (s : Bytes) → All IsScalar (runes_from k s)
unfolding runes_from
runes_from-IsScalar k [] = tt
runes_from-IsScalar (suc k) (a ∷ s) = runes_from-IsScalar k s
runes_from-IsScalar zero (a ∷ s) = (decode_rune-IsScalar a s, runes_from-IsScalar _ s)

decode_two :
    (q w : ℕ) (s : Bytes)
    → 2 ≤ q
    → q < 32
    → w < 64
    → decode_rune (0xC0 + q) ((0x80 + w) ∷ s) ≡ (q * 64 + w, 2)
unfolding decode_rune
decode_two q w s lo hi hw = ground arith

decode_three :
    (q v w : ℕ) (s : Bytes)
    → q < 16
    → v < 64
    → w < 64
    → (0 < q) ⊎ (32 ≤ v)
    → (q ≢ 13) ⊎ (v < 32)
    → decode_rune (0xE0 + q) ((0x80 + v) ∷ (0x80 + w) ∷ s) ≡ (q * 4096 + v * 64 + w, 3)
unfolding decode_rune
decode_three q v w s hq hv hw short surrogate = ground arith

decode_four :
    (q u v w : ℕ) (s : Bytes)
    → q < 5
    → u < 64
    → v < 64
    → w < 64
    → (0 < q) ⊎ (16 ≤ u)
    → (q < 4) ⊎ (u < 16)
    → decode_rune (0xF0 + q) ((0x80 + u) ∷ (0x80 + v) ∷ (0x80 + w) ∷ s)
      ≡ (q * 262144 + u * 4096 + v * 64 + w, 4)
unfolding decode_rune
decode_four q u v w s hq hu hv hw short high = ground arith

encode_one : (r : ℕ) → r < 0x80 → encode_rune r ≡ r ∷ []
unfolding encode_rune
encode_one r h = ground arith

encode_two : (r : ℕ) → 0x80 ≤ r → r < 0x800 → encode_rune r ≡ (0xC0 + r / 64) ∷ (0x80 + r % 64) ∷ []
unfolding encode_rune
encode_two r lo hi = ground arith

encode_three :
    (r : ℕ)
    → 0x800 ≤ r
    → r < 0x10000
    → IsScalar r
    → encode_rune r ≡ (0xE0 + r / 4096) ∷ (0x80 + r / 64 % 64) ∷ (0x80 + r % 64) ∷ []
unfolding encode_rune
encode_three r lo hi h = ground arith

encode_four :
    (r : ℕ)
    → 0x10000 ≤ r
    → r < 0x110000
    → encode_rune r
      ≡ (0xF0 + r / 262144) ∷ (0x80 + r / 4096 % 64) ∷ (0x80 + r / 64 % 64) ∷ (0x80 + r % 64) ∷ []
unfolding encode_rune
encode_four r lo hi = ground arith

decode_one : (r : ℕ) (s : Bytes) → r < 0x80 → decode_rune r s ≡ (r, 1)
unfolding decode_rune
decode_one r s h = ground arith

runes_from_step :
    (a : ℕ) (s : Bytes) {r w : ℕ}
    → decode_rune a s ≡ (r, w)
    → runes_from 0 (a ∷ s) ≡ r ∷ runes_from (w - 1) s
unfolding runes_from
runes_from_step a s e = rw e

abbrev SizeClass : ℕ → Type 0
SizeClass r =
    (r < 0x80) ⊎ (((0x80 ≤ r) × (r < 0x800)) ⊎ (((0x800 ≤ r) × (r < 0x10000)) ⊎ (0x10000 ≤ r)))

size_cases : (r : ℕ) → SizeClass r
size_cases r = grind arith

-- The rune in front of a string is read back, and then what follows it.
runes_from-encode_rune :
    (r : ℕ) (s : Bytes) → IsScalar r → runes_from 0 (encode_rune r ++ s) ≡ r ∷ runes_from 0 s
unfolding runes_from
runes_from-encode_rune r s h = elim (size_cases r) [
  | inl a ↦ rw (encode_one r a) (runes_from_step r s (decode_one r s a))
  | inr (inl (a, b)) ↦ rw (encode_two r a b) (
      runes_from_step _ _ (decode_two (r / 64) (r % 64) s (omega arith) (omega arith) (omega arith))
      ∙ ap (λ x. x ∷ runes_from 0 s) (omega arith))
  | inr (inr (inl (a, b))) ↦ rw (encode_three r a b h) (
      runes_from_step _ _ (
        decode_three (r / 4096) (r / 64 % 64) (r % 64) s (omega arith) (omega arith) (omega arith)
          (ground arith) (ground arith))
      ∙ ap (λ x. x ∷ runes_from 0 s) (omega arith))
  | inr (inr (inr a)) ↦ rw (encode_four r a h.0) (
      runes_from_step _ _ (
        decode_four (r / 262144) (r / 4096 % 64) (r / 64 % 64) (r % 64) s (omega arith)
          (omega arith) (omega arith) (omega arith) (ground arith) (ground arith))
      ∙ ap (λ x. x ∷ runes_from 0 s) (omega arith))
]

-- Decoding gives back the scalar values that were encoded.
pub runes-encode_runes : (rs : List ℕ) → All IsScalar rs → runes (encode_runes rs) ≡ rs
unfolding runes encode_runes
runes-encode_runes [] h = unfold runes_from in refl
runes-encode_runes (r ∷ rs) (h, hs) =
    runes_from-encode_rune r (encode_runes rs) h
    ∙ ap (λ t. r ∷ t) (unfold runes in runes-encode_runes rs hs)
