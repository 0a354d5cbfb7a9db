-- ===== src/Packet/Progress.antt =====
-- readPacket takes bytes from the stream: what it leaves is shorter.
use mqtt_go.Base.{ℕ, ◌+◌, ◌≡◌, ◌≢◌, ◌++◌, refl, ◌≤◌, List, [], ◌∷◌, length, length-drop, arith}
use mqtt_go.Base.Bits.{Bytes}
use mqtt_go.Base.Outcome.{ok, >>=-eq-ok}
use mqtt_go.Packet.{
  RawPacket, append_all, total, pack, remaining_length, read_full, read_length, add_bits,
  read_contents, read_after_header, read_packet,
}

read_full-shorter : (n : ℕ) (s a r : Bytes) → read_full n s ≡ ok (a, r) → n + length r ≡ length s
unfolding read_full
read_full-shorter n s a r e = ground (arith, length-drop n s)

read_length-shorter :
    (shift acc b : ℕ) (s : Bytes) (n : ℕ) (r : Bytes)
    → read_length shift acc b s ≡ ok (n, r)
    → length r ≤ length s
unfolding read_length
read_length-shorter shift acc b [] n r e = ground arith
read_length-shorter shift acc b (c ∷ s) n r e =
    ground (arith, read_length-shorter (shift + 7) (add_bits shift acc b) c s n r)

read_contents-shorter :
    (h n : ℕ) (s : Bytes) (p : RawPacket) (r : Bytes)
    → read_contents h n s ≡ ok (p, r)
    → length r ≤ length s
unfolding read_contents read_full
read_contents-shorter h n s p r e = ground (arith, length-drop n s)

read_after_header-shorter :
    (h s : Bytes) (p : RawPacket) (r : Bytes)
    → read_after_header h s ≡ ok (p, r)
    → length r ≤ length s
unfolding read_after_header
read_after_header-shorter [] s p r e = ground arith
read_after_header-shorter (h ∷ []) s p r e = ground arith
read_after_header-shorter (h ∷ b ∷ t) s p r e =
    let ((n, rest), first, second) = >>=-eq-ok (read_length 0 0 b s) _ e in
    let within : length rest ≤ length s = read_length-shorter 0 0 b s n rest first in
    let rest_within : length r ≤ length rest = read_contents-shorter h n rest p r second in
    omega arith

-- A packet that readPacket returns took two bytes of the stream at least.
pub read_packet-shorter :
    (s : Bytes) (p : RawPacket) (r : Bytes) → read_packet s ≡ ok (p, r) → 2 + length r ≤ length s
unfolding read_packet
read_packet-shorter s p r e =
    let ((h, rest), first, second) = >>=-eq-ok (read_full 2 s) _ e in
    let within : 2 + length rest ≡ length s = read_full-shorter 2 s h rest first in
    let rest_within : length r ≤ length rest = read_after_header-shorter h rest p r second in
    omega arith

append_all-cons :
    (b : ℕ) (bs : Bytes) (cs : List Bytes) → (r : Bytes) × (append_all (b ∷ bs) cs ≡ b ∷ r)
unfolding append_all
append_all-cons b bs [] = (bs, refl)
append_all-cons b bs (c ∷ cs) = append_all-cons b (bs ++ c) cs

-- A packet is not empty.
pub pack-ne-nil : (h : ℕ) (cs : List Bytes) (b : Bytes) → pack h cs ≡ ok b → b ≢ []
unfolding pack
pack-ne-nil h cs b e none_there =
    let (len, first, second) = >>=-eq-ok (remaining_length (total 0 cs)) _ e in
    let (r, whole) = append_all-cons h len cs in cc
