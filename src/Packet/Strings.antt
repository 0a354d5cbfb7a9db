-- ===== src/Packet/Strings.antt =====
-- packString and unpackString of packet.go.
use mqtt_go.Base.{
  ℕ, ◌+◌, ◌*◌, ◌/◌, ◌%◌, ◌^◌, ◌≤◌, ◌<◌, ◌≡◌, ◌≢◌, ◌↔◌, refl, sym, ap, ◌∙◌, false, List, [], ◌∷◌,
  ◌++◌, append_assoc, length, take, drop, ltb, length-append, take-append, All, arith, bit_or,
}
use mqtt_go.Base.Bits.{Bytes, uint16, or_low}
use mqtt_go.Base.Outcome.{ok, panic}
use mqtt_go.Packet.Runes.{runes, encode_runes}
use mqtt_go.Packet.Text.{IsScalar, runes_from-IsScalar, runes-encode_runes}
use mqtt_go.Packet.{
  append_uint16, append_bytes, pack_string, pack_bytes, unpack_uint16, unpack_contents,
  unpack_string, check_runes,
}

-- A number of two bytes, the high one first, and a string behind its length.
abbrev pub uint16_field : ℕ → Bytes
uint16_field v = v / 256 ∷ v % 256 ∷ []

abbrev pub string_field : Bytes → Bytes
string_field s = length s / 256 ∷ length s % 256 ∷ s

pub append_uint16-field : (b : Bytes) (v : ℕ) → v < 65536 → append_uint16 b v ≡ b ++ uint16_field v
unfolding append_uint16
append_uint16-field b v h = ap (λ (t : ℕ). b ++ t ∷ v % 256 ∷ []) (omega arith)

pub append_bytes-ok : (b s : Bytes) → length s < 65536 → append_bytes b s ≡ ok (b ++ string_field s)
unfolding append_bytes
append_bytes-ok b s h = ground (arith, append_assoc b (uint16_field (length s)) s)

pub append_bytes-panic : (b s : Bytes) → 65536 ≤ length s → append_bytes b s ≡ panic
unfolding append_bytes
append_bytes-panic b s h = ground arith

pub unpack_uint16-field :
    (v : ℕ) (s : Bytes) → v < 65536 → unpack_uint16 (uint16_field v ++ s) ≡ ok (2, v)
unfolding unpack_uint16
unpack_uint16-field v s h = ground (arith, or_low 8 (v / 256) (v % 256))

abbrev pub IsNonzero : ℕ → Type 0
IsNonzero r = r ≢ 0

check_runes-ok : (rs : List ℕ) → All IsScalar rs → All IsNonzero rs → check_runes rs ≡ ok tt
unfolding check_runes
check_runes-ok [] h k = refl
check_runes-ok (r ∷ rs) (h, hs) (k, ks) = ground (arith, check_runes-ok rs hs ks)

check_runes-inv : (rs : List ℕ) → check_runes rs ≡ ok tt → All IsNonzero rs
unfolding check_runes
check_runes-inv [] e = tt
check_runes-inv (r ∷ rs) e = (λ z. ground arith, check_runes-inv rs (ground arith))

runes-IsScalar : (s : Bytes) → All IsScalar (runes s)
unfolding runes
runes-IsScalar s = runes_from-IsScalar 0 s

unpack_contents-field :
    (c rest : Bytes)
    → All IsNonzero (runes c)
    → unpack_contents (string_field c ++ rest) 2 (length c)
      ≡ ok (length c + 2, encode_runes (runes c))
unfolding unpack_contents
unpack_contents-field c rest nz =
    rw fits (rw (take-append c rest) (rw (check_runes-ok (runes c) (runes-IsScalar c) nz)))
  where
    fits : ltb (length (string_field c ++ rest)) (length c + 2) ≡ false
    fits = ground (arith, length-append c rest)

-- unpackString on a string field: when no rune of the field is zero, the call succeeds with
-- the length of the field and the string that the conversion to runes and back gives.
pub unpack_string-field :
    (c rest : Bytes)
    → length c < 65536
    → All IsNonzero (runes c)
    → unpack_string (string_field c ++ rest) ≡ ok (length c + 2, encode_runes (runes c))
unfolding unpack_string
unpack_string-field c rest h nz = ground (
  arith,
  length-append c rest,
  unpack_uint16-field (length c) (c ++ rest) h,
  unpack_contents-field c rest nz,
)

-- A well-formed string without the null character comes through packString and unpackString
-- unchanged, with the number of its bytes and whatever bytes follow it.
pub unpack_string-pack_string :
    (rs : List ℕ) (rest : Bytes)
    → All IsScalar rs
    → All IsNonzero rs
    → length (encode_runes rs) < 65536
    → (p : Bytes) × (pack_string (encode_runes rs) ≡ ok p)
      × (unpack_string (p ++ rest) ≡ ok (length (encode_runes rs) + 2, encode_runes rs))
unfolding pack_string
unpack_string-pack_string rs rest hs nz h =
    let s = encode_runes rs in
    let back : runes s ≡ rs = runes-encode_runes rs hs in
    (
      string_field s,
      unfold pack_bytes in append_bytes-ok [] s h,
      unpack_string-field s rest h (rw back nz) ∙ rw back,
    )

unpack_contents-inv :
    (b : Bytes) (header m : ℕ) (s : Bytes) (n : ℕ)
    → unpack_contents b header m ≡ ok (n, s)
    → (n ≡ m + header)
      × (n ≤ length b)
      × (check_runes (runes (take m (drop header b))) ≡ ok tt)
      × (encode_runes (runes (take m (drop header b))) ≡ s)
unfolding unpack_contents
unpack_contents-inv b header m s n e = ground arith

abbrev pub IsWellFormed : Bytes → Type 0
IsWellFormed s = (rs : List ℕ) × All IsScalar rs × (encode_runes rs ≡ s)

-- The conversion to runes and back changes exactly what is not well-formed.
converted_iff : (c s : Bytes) → encode_runes (runes c) ≡ s → (s ≡ c) ↔ IsWellFormed c
converted_iff c s e = (
  λ same. (runes c, runes-IsScalar c, e ∙ same),
  λ (rs, scalars, encoded).
      sym e
      ∙ ap (λ x. encode_runes (runes x)) (sym encoded)
      ∙ ap encode_runes (runes-encode_runes rs scalars)
      ∙ encoded,
)

-- The string that unpackString returns is well-formed UTF-8 without the null character, whatever the
-- bytes behind the length were: it equals these bytes exactly if they were well-formed UTF-8. What was
-- read lies within the bytes given.
pub unpack_string-inv :
    (b s : Bytes) (n : ℕ)
    → unpack_string b ≡ ok (n, s)
    → (n ≤ length b)
      × ((rs : List ℕ) × All IsScalar rs × All IsNonzero rs × (encode_runes rs ≡ s))
      × (m : ℕ) × (n ≡ m + 2)
      × ((s ≡ take m (drop 2 b)) ↔ IsWellFormed (take m (drop 2 b)))
unfolding unpack_string
unpack_string-inv [] s n e = ground arith
unpack_string-inv (x ∷ []) s n e = ground arith
unpack_string-inv (x ∷ y ∷ b) s n e =
    let m = bit_or (uint16 (x * 2 ^ 8)) y in
    let inner : unpack_contents (x ∷ y ∷ b) 2 m ≡ ok (n, s) =
      unfold unpack_uint16 in ground arith in
    let (size, within, checked, same) = unpack_contents-inv (x ∷ y ∷ b) 2 m s n inner in
    (
      within,
      (runes (take m b), runes-IsScalar _, check_runes-inv _ checked, same),
      m,
      size,
      converted_iff (take m b) s same,
    )

check_runes-ne-panic : (rs : List ℕ) → check_runes rs ≢ panic
unfolding check_runes
check_runes-ne-panic [] e = cc
check_runes-ne-panic (r ∷ rs) e = ground (arith, check_runes-ne-panic rs)

unpack_contents-ne-panic : (b : Bytes) (header m : ℕ) → unpack_contents b header m ≢ panic
unfolding unpack_contents
unpack_contents-ne-panic b header m e =
    ground (arith, check_runes-ne-panic (runes (take m (drop header b))))

-- unpackString returns a value or an error on every input: its index and slice expressions
-- stay in range.
pub unpack_string-ne-panic : (b : Bytes) → unpack_string b ≢ panic
unfolding unpack_string
unpack_string-ne-panic [] e = ground arith
unpack_string-ne-panic (x ∷ []) e = ground arith
unpack_string-ne-panic (x ∷ y ∷ b) e =
    unpack_contents-ne-panic (x ∷ y ∷ b) 2 (bit_or (uint16 (x * 2 ^ 8)) y)
      (unfold unpack_uint16 in ground arith)
