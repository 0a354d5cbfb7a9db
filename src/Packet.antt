-- ===== src/Packet.antt =====
-- packet.go and the function readPacket of serve.go: packet types, the building blocks of packets
-- and their reading from the byte stream of the connection. A string of the source is its bytes,
-- and a stream is the list of the bytes that the peer sent before it closed the connection.
pub mod Runes
pub mod Length
pub mod Text
pub mod Framing
pub mod Strings
pub mod Progress
use mqtt_go.Base.{
  ℕ, ◌+◌, ◌*◌, ◌/◌, ◌%◌, ◌^◌, bit_and, bit_or, Bool, ◌||◌, ◌&&◌, List, [], ◌∷◌, ◌++◌, length, take,
  drop, ltb, leb, ◌==◌, if◌then◌else◌,
}
use mqtt_go.Base.Bits.{Bytes, byte, uint16}
use mqtt_go.Base.Outcome.{ok, err, panic, ◌>>=◌}
use mqtt_go.Errors.{
  sentinel, eof, unexpected_eof, invalid_rune, invalid_packet_length, fail_with, Err, Go,
}
use Runes.{runes, encode_runes}

abbrev pub packet_connect : ℕ
packet_connect = 0x10

abbrev pub packet_conn_ack : ℕ
packet_conn_ack = 0x20

abbrev pub packet_publish : ℕ
packet_publish = 0x30

abbrev pub packet_pub_ack : ℕ
packet_pub_ack = 0x40

abbrev pub packet_pub_rec : ℕ
packet_pub_rec = 0x50

abbrev pub packet_pub_rel : ℕ
packet_pub_rel = 0x60

abbrev pub packet_pub_comp : ℕ
packet_pub_comp = 0x70

abbrev pub packet_subscribe : ℕ
packet_subscribe = 0x80

abbrev pub packet_sub_ack : ℕ
packet_sub_ack = 0x90

abbrev pub packet_unsubscribe : ℕ
packet_unsubscribe = 0xA0

abbrev pub packet_unsub_ack : ℕ
packet_unsub_ack = 0xB0

abbrev pub packet_ping_req : ℕ
packet_ping_req = 0xC0

abbrev pub packet_ping_resp : ℕ
packet_ping_resp = 0xD0

abbrev pub packet_disconnect : ℕ
packet_disconnect = 0xE0

abbrev pub packet_from_client : ℕ
packet_from_client = 0x02

unfoldable pub remaining_length : ℕ → Go Bytes
remaining_length n =
    if leb n 0x7F
    then ok (byte n ∷ [])
    else if leb n 0x3FFF
    then ok (bit_or (byte n) 0x80 ∷ bit_and (byte (n / 2 ^ 7)) 0x7F ∷ [])
    else if leb n 0x1FFFFF
    then ok (
        bit_or (byte n) 0x80
        ∷ bit_or (byte (n / 2 ^ 7)) 0x80
        ∷ bit_and (byte (n / 2 ^ 14)) 0x7F
        ∷ [])
    else if leb n 0xFFFFFFF
    then ok (
        bit_or (byte n) 0x80
        ∷ bit_or (byte (n / 2 ^ 7)) 0x80
        ∷ bit_or (byte (n / 2 ^ 14)) 0x80
        ∷ bit_and (byte (n / 2 ^ 21)) 0x7F
        ∷ [])
    else panic

-- The two loops of `pack`: the sum of the lengths, and the appending.
pub total : ℕ → List Bytes → ℕ
total n [] = n
total n (c ∷ cs) = total (n + length c) cs

pub append_all : Bytes → List Bytes → Bytes
append_all pkt [] = pkt
append_all pkt (c ∷ cs) = append_all (pkt ++ c) cs

unfoldable pub pack : ℕ → List Bytes → Go Bytes
unfolding total append_all
pack packet_type contents = remaining_length (total 0 contents) >>= λ len.
    ok (append_all ((packet_type ∷ []) ++ len) contents)

unfoldable pub append_uint16 : Bytes → ℕ → Bytes
append_uint16 b v = b ++ byte (v / 2 ^ 8) ∷ byte v ∷ []

-- `appendBytes`; `appendString` is the same on the bytes of the string.
unfoldable pub append_bytes : Bytes → Bytes → Go Bytes
unfolding append_uint16
append_bytes b s =
    let n = length s in if ltb 0xFFFF n then panic else ok (append_uint16 b (uint16 n) ++ s)

unfoldable pub append_string : Bytes → Bytes → Go Bytes
unfolding append_bytes
append_string b s = append_bytes b s

unfoldable pub pack_bytes : Bytes → Go Bytes
unfolding append_bytes
pack_bytes s = append_bytes [] s

unfoldable pub pack_string : Bytes → Go Bytes
unfolding pack_bytes
pack_string s = pack_bytes s

unfoldable pub pack_uint16 : ℕ → Bytes
unfolding append_uint16
pack_uint16 v = append_uint16 [] v

-- The number of bytes read and the value; an index out of range panics.
unfoldable pub unpack_uint16 : Bytes → Go (ℕ × ℕ)
unpack_uint16 (b0 ∷ b1 ∷ b) = ok (2, bit_or (uint16 (b0 * 2 ^ 8)) b1)
unpack_uint16 _ = panic

-- The test of the loop over the runes.
abbrev pub is_bad_rune : ℕ → Bool
is_bad_rune r = r == 0x0000 || (leb 0xD800 r && leb r 0xDFFF)

unfoldable pub check_runes : List ℕ → Go (Unit {0})
check_runes [] = ok tt
check_runes (r ∷ rs) =
    let rest = check_runes rs in
    if is_bad_rune r then err (fail_with invalid_rune "unpacked string contains 0x%x") else rest

-- The part behind the header: `n` is the length that the header gives.
unfoldable pub unpack_contents : Bytes → ℕ → ℕ → Go (ℕ × Bytes)
unpack_contents b header n =
    if ltb (length b) (n + header)
    then err (fail_with invalid_packet_length "unpacking string contents")
    else (let rs = runes (take n (drop header b)) in
        check_runes rs >>= λ _. ok (n + header, encode_runes rs))

unfoldable pub unpack_string : Bytes → Go (ℕ × Bytes)
unpack_string b =
    if ltb (length b) 2
    then err (fail_with invalid_packet_length "unpacking string length")
    else unpack_uint16 b >>= λ h. unpack_contents b h.0 h.1

-- `io.ReadFull` on a buffer of `n` bytes: what was read and the rest of the stream.
unfoldable pub read_full : ℕ → Bytes → Go (Bytes × Bytes)
read_full n s =
    if leb n (length s)
    then ok (take n s, drop n s)
    else if length s == 0
    then err (sentinel eof)
    else err (sentinel unexpected_eof)

-- One round of the length loop on the byte `b`; an `int` is its bit pattern, below 2 ^ 64.
abbrev pub add_bits : ℕ → ℕ → ℕ → ℕ
add_bits shift acc b = bit_or acc (bit_and b 0x7F * 2 ^ shift % 2 ^ 64)

unfoldable pub read_length : ℕ → ℕ → ℕ → Bytes → Go (ℕ × Bytes)
read_length shift acc b [] =
    if bit_and b 0x80 == 0 then ok (add_bits shift acc b, []) else err (sentinel eof)
read_length shift acc b (c ∷ s) =
    let rest = read_length (shift + 7) (add_bits shift acc b) c s in
    if bit_and b 0x80 == 0 then ok (add_bits shift acc b, c ∷ s) else rest

pub record RawPacket : Type 0 where
  pub pkt_type : ℕ
  pub pkt_flag : ℕ
  pub contents : Bytes

-- The largest allocation of the runtime, on the usual systems of 64 bits.
abbrev pub max_alloc : ℕ
max_alloc = 2 ^ 48

-- `make([]byte, n)` panics at a negative length, and at one that is beyond the largest allocation.
pub read_contents : ℕ → ℕ → Bytes → Go (RawPacket × Bytes)
read_contents h n s =
    if ltb max_alloc n
    then panic
    else read_full n s >>= λ r.
        ok (record { pkt_type = bit_and h 0xF0; pkt_flag = bit_and h 0x0F; contents = r.0 }, r.1)

pub read_after_header : Bytes → Bytes → Go (RawPacket × Bytes)
unfolding read_contents
read_after_header (h ∷ b ∷ _) s = read_length 0 0 b s >>= λ l. read_contents h l.0 l.1
read_after_header _ s = panic

unfoldable pub read_packet : Bytes → Go (RawPacket × Bytes)
unfolding read_after_header
read_packet s = read_full 2 s >>= λ r. read_after_header r.0 r.1
