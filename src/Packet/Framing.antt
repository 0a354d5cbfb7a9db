-- ===== src/Packet/Framing.antt =====
-- pack of packet.go and readPacket of serve.go: what one writes the other reads back.
use mqtt_go.Base.{
  ltb, false, ℕ, ◌+◌, ◌*◌, ◌/◌, ◌%◌, ◌^◌, ◌≤◌, ◌<◌, ◌≡◌, sym, ◌∙◌, List, [], ◌∷◌, ◌++◌, append-nil,
  append_assoc, length, flatten, le→leb, length-append, take-append, drop-append, arith,
}
use mqtt_go.Base.Bits.{Bytes, and_f0, and_0f}
use mqtt_go.Base.Outcome.{ok, panic, ◌>>=◌}
use native.Mathlib.Nat.{zero-add}
use mqtt_go.Packet.{max_alloc, total, append_all, pack, read_full, read_packet, read_contents}
use mqtt_go.Packet.Length.{
  length_field, remaining_length-ok, remaining_length-panic, read_field, read_field-length_field,
}

total_lem : (n : ℕ) (cs : List Bytes) → total n cs ≡ n + length (flatten cs)
unfolding total
total_lem n [] = omega arith
total_lem n (c ∷ cs) = omega (arith, total_lem (n + length c) cs, length-append c (flatten cs))

append_all_lem : (pkt : Bytes) (cs : List Bytes) → append_all pkt cs ≡ pkt ++ flatten cs
unfolding append_all
append_all_lem pkt [] = sym (append-nil pkt)
append_all_lem pkt (c ∷ cs) = append_all_lem (pkt ++ c) cs ∙ append_assoc pkt c (flatten cs)

-- The bytes of a packet in plain terms.
abbrev pub frame : ℕ → Bytes → Bytes
frame header contents = header ∷ length_field (length contents) ++ contents

pub pack-ok :
    (header : ℕ) (cs : List Bytes)
    → length (flatten cs) < 2 ^ 28
    → pack header cs ≡ ok (frame header (flatten cs))
unfolding pack
pack-ok header cs h = rw (total_lem 0 cs, zero-add, remaining_length-ok _ h) (rw append_all_lem)

pub pack-panic :
    (header : ℕ) (cs : List Bytes) → 2 ^ 28 ≤ length (flatten cs) → pack header cs ≡ panic
unfolding pack
pack-panic header cs h = rw (total_lem 0 cs, zero-add, remaining_length-panic _ h)

pub read_full-append : (xs ys : Bytes) → read_full (length xs) (xs ++ ys) ≡ ok (xs, ys)
unfolding read_full
read_full-append xs ys =
    rw (le→leb (length xs) (length (xs ++ ys)) (omega (arith, length-append xs ys)))
      (rw (take-append, drop-append))

read_contents-append :
    (h : ℕ) (xs ys : Bytes)
    → h < 256
    → length xs < 2 ^ 28
    → read_contents h (length xs) (xs ++ ys)
      ≡ ok (record { pkt_type = h / 16 * 16; pkt_flag = h % 16; contents = xs }, ys)
unfolding read_contents
read_contents-append h xs ys hh hx =
    rw (within, read_full-append xs ys) (rw (and_f0 h hh, and_0f h hh))
  where
    within : ltb max_alloc (length xs) ≡ false
    within = ground arith

-- The header byte and the first byte of the length are read together.
read_packet-append :
    (h : ℕ) (l s : Bytes)
    → 0 < length l
    → read_packet (h ∷ l ++ s) ≡ (read_field (l ++ s) >>= λ r. read_contents h r.0 r.1)
read_packet-append h [] s nonempty = absurd (omega arith)
read_packet-append h (b ∷ l) s nonempty = unfold read_packet read_full in ground arith

length_field-nonempty : (n : ℕ) → 0 < length (length_field n)
unfolding length_field
length_field-nonempty n = ground arith

-- Any packet that fits the length field is read back, and the rest of the stream is left.
pub read_packet-frame :
    (h : ℕ) (xs rest : Bytes)
    → h < 256
    → length xs < 2 ^ 28
    → read_packet (frame h xs ++ rest)
      ≡ ok (record { pkt_type = h / 16 * 16; pkt_flag = h % 16; contents = xs }, rest)
read_packet-frame h xs rest hh hx = rw append_assoc (
    read_packet-append h (length_field (length xs)) (xs ++ rest) (length_field-nonempty _)
    ∙ rw (read_field-length_field (length xs) (xs ++ rest) hx)
        (read_contents-append h xs rest hh hx))

-- The header byte as a type, in the high half, and flags, in the low half.
pub read_packet-typed :
    (k flag : ℕ) (xs rest : Bytes)
    → k < 16
    → flag < 16
    → length xs < 2 ^ 28
    → read_packet (frame (k * 16 + flag) xs ++ rest)
      ≡ ok (record { pkt_type = k * 16; pkt_flag = flag; contents = xs }, rest)
read_packet-typed k flag xs rest hk hf hx =
    let high : (k * 16 + flag) / 16 * 16 ≡ k * 16 = omega arith in
    let low : (k * 16 + flag) % 16 ≡ flag = omega arith in
    read_packet-frame (k * 16 + flag) xs rest (omega arith) hx ∙ λ i.
    ok (record { pkt_type = high i; pkt_flag = low i; contents = xs }, rest)

-- A packet that `pack` makes is read back by `readPacket` as its type, its flags and its
-- contents, whatever follows it in the stream. `pack` makes one, without a panic, for a
-- header byte and contents that together take less than 2 ^ 28 bytes.
pub read_packet-pack :
    (header : ℕ) (cs : List Bytes) (rest : Bytes)
    → header < 256
    → length (flatten cs) < 2 ^ 28
    → (pkt : Bytes) × (pack header cs ≡ ok pkt)
      × (read_packet (pkt ++ rest)
          ≡ ok (
            record { pkt_type = header / 16 * 16; pkt_flag = header % 16; contents = flatten cs },
            rest,
          ))
read_packet-pack header cs rest hh hx = (
  frame header (flatten cs),
  pack-ok header cs hx,
  read_packet-frame header (flatten cs) rest hh hx,
)
