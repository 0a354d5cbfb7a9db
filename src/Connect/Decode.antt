-- ===== src/Connect/Decode.antt =====
-- What the reader of CONNECT packets makes of those that Pack makes.
use mqtt_go.Base.{
  ℕ, ◌+◌, ◌*◌, ◌/◌, ◌%◌, ◌^◌, ◌≤◌, ◌<◌, ◌≡◌, refl, ◌∙◌, Bool, true, false, [], ◌∷◌, ◌++◌,
  append-nil, append_assoc, length, length-append, take-append, drop-append, le→leb, ◌==◌, ◌||◌,
  not, arith, Option, none, some,
}
use mathlib.Core.Path.{subst}
use mqtt_go.Base.Bits.{Bytes}
use mqtt_go.Base.Outcome.{ok}
use mqtt_go.Message.{Message}
use mqtt_go.Packet.{packet_connect, read_packet}
use mqtt_go.Packet.Strings.{string_field}
use mqtt_go.Packet.Framing.{frame, read_packet-typed}
use mqtt_go.Publish.Wire.{bit}
use mqtt_go.Connect.{PktConnect, pack_connect}
use mqtt_go.Connect.Wire.{
  has, will_flags, optional_field, will_fields, connect_contents, WillFits, Fits, pack_connect-ok,
}
use mqtt_go.Connect.Reader.{
  ◌>>=◌, take_field, take_if, Connected, flag_at, when, finish, decode_payload, well_flagged,
  decode_connect,
}

abbrev pub testament_of : Option Message → Option (Bytes × Bytes × ℕ × Bool)
testament_of none = none
testament_of (some w) = some (w.topic, w.payload, w.qos, w.retain)

-- What the fields of the packet ask for.
abbrev pub requested : PktConnect → Connected
requested p = record {
  level = p.protocol_level;
  clean = p.clean_session;
  interval = p.keep_alive;
  client = p.client_id;
  user = when (has p.user_name) p.user_name;
  secret = when (has p.password) p.password;
  testament = testament_of p.will;
}

pub take_field-string_field :
    (t rest : Bytes) → length t < 65536 → take_field (string_field t ++ rest) ≡ some (t, rest)
unfolding take_field
take_field-string_field t rest h =
    let e : length t / 256 * 256 + length t % 256 ≡ length t = omega arith in
    rw (e, le→leb (length t) (length (t ++ rest)) (omega (arith, length-append t rest)))
      (rw (take-append, drop-append))

take_if-true :
    (t rest : Bytes) → length t < 65536 → take_if true (string_field t ++ rest) ≡ some (t, rest)
unfolding take_if
take_if-true t rest h = take_field-string_field t rest h

take_if-false : (s : Bytes) → take_if false s ≡ some ([], s)
unfolding take_if
take_if-false s = refl

take_if-optional_field :
    (t rest : Bytes)
    → length t < 65536
    → take_if (has t) (optional_field t ++ rest) ≡ some (t, rest)
unfolding take_if
take_if-optional_field [] rest h = refl
take_if-optional_field (x ∷ t) rest h = ground (arith, take_field-string_field (x ∷ t) rest h)

-- What the flags of a packet say, for a will `w`, a user name `u` and a password `s`.
abbrev flags_of : Bytes → Bytes → Option Message → Bool → ℕ
flags_of u s w clean = bit (has u) * 128 + bit (has s) * 64 + (will_flags w + bit clean * 2)

abbrev Says : ℕ → Bool → Bool → Bool → Type 0
Says f user secret clean =
    (flag_at 128 f ≡ user) × (flag_at 64 f ≡ secret) × (flag_at 2 f ≡ clean) × (f % 2 ≡ 0)

Says-none :
    (b1 b2 clean : Bool) → Says (bit b1 * 128 + bit b2 * 64 + (0 + bit clean * 2)) b1 b2 clean
Says-none b1 b2 clean = (ground arith, ground arith, ground arith, ground arith)

no_will_flag :
    (b1 b2 clean : Bool) → flag_at 4 (bit b1 * 128 + bit b2 * 64 + (0 + bit clean * 2)) ≡ false
no_will_flag b1 b2 clean = ground arith

Says-some :
    (b1 b2 clean r : Bool) (q : ℕ)
    → q ≤ 2
    → let f = bit b1 * 128 + bit b2 * 64 + (4 + q * 8 + bit r * 32 + bit clean * 2) in
      Says f b1 b2 clean × (flag_at 4 f ≡ true) × (flag_at 32 f ≡ r) × (f / 8 % 4 ≡ q)
Says-some b1 b2 clean r q h = (
  (ground arith, ground arith, ground arith, ground arith),
  ground arith,
  ground arith,
  ground arith,
)

well_flagged-none :
    (b1 b2 clean : Bool)
    → (not b2 || b1) ≡ true
    → well_flagged (bit b1 * 128 + bit b2 * 64 + (0 + bit clean * 2)) ≡ true
well_flagged-none true true true h = refl
well_flagged-none true true false h = refl
well_flagged-none true false true h = refl
well_flagged-none true false false h = refl
well_flagged-none false false true h = refl
well_flagged-none false false false h = refl
well_flagged-none false true clean h = absurd (cc)

well_flagged-some :
    (f q : ℕ) (user secret clean : Bool)
    → Says f user secret clean
    → flag_at 4 f ≡ true
    → f / 8 % 4 ≡ q
    → q ≤ 2
    → (not secret || user) ≡ true
    → well_flagged f ≡ true
well_flagged-some f q user secret clean (e0, e1, e2, e3) e4 e8 small h =
    rw (e0, e1, e3, e4, e8, h) (ground arith)

take_if-last : (s : Bytes) → length s < 65536 → take_if (has s) (optional_field s) ≡ some (s, [])
take_if-last s h =
    subst (λ x. take_if (has s) x ≡ some (s, [])) (append-nil (optional_field s))
      (take_if-optional_field s [] h)

module _ (level f k : ℕ) (c u s : Bytes) (hc : length c < 65536) (hu : length u < 65536)
    (hs : length s < 65536) (eu : flag_at 128 f ≡ has u) (es : flag_at 64 f ≡ has s) where
  -- The optional strings at the end, behind `x`.
  strings_lem :
      (t m : Bytes)
      → (take_if (flag_at 128 f) (optional_field u ++ optional_field s) >>= λ r.
          take_if (flag_at 64 f) r.1 >>= λ p. finish level f k c t m r.0 p.0 p.1)
        ≡ finish level f k c t m u s []
  strings_lem t m =
      rw eu (rw (take_if-optional_field u (optional_field s) hu) (rw es (rw (take_if-last s hs))))

  decode_payload-without :
      flag_at 4 f ≡ false
      → decode_payload level f k (string_field c ++ ([] ++ (optional_field u ++ optional_field s)))
        ≡ finish level f k c [] [] u s []
  unfolding decode_payload
  decode_payload-without e =
      rw (take_field-string_field c _ hc)
        (rw e (rw take_if-false (rw take_if-false (strings_lem [] []))))

  decode_payload-with :
      (t m : Bytes)
      → length t < 65536
      → length m < 65536
      → flag_at 4 f ≡ true
      → decode_payload level f k (
          string_field c
          ++ ((string_field t ++ string_field m) ++ (optional_field u ++ optional_field s)))
        ≡ finish level f k c t m u s []
  unfolding decode_payload
  decode_payload-with t m ht hm e = rw (take_field-string_field c _ hc) (
      rw (e, append_assoc (string_field t) (string_field m) (optional_field u ++ optional_field s))
        (rw (take_if-true t _ ht) (rw (take_if-true m _ hm) (strings_lem t m))))

finish-none :
    (p : PktConnect) (f : ℕ)
    → Says f (has p.user_name) (has p.password) p.clean_session
    → flag_at 4 f ≡ false
    → finish p.protocol_level f p.keep_alive p.client_id [] [] p.user_name p.password []
      ≡ some (record (requested p) { testament = none })
unfolding finish
finish-none p f (e0, e1, e2, e3) e4 = rw (e0, e1, e2, e4)

finish-some :
    (p : PktConnect) (f : ℕ) (w : Message)
    → Says f (has p.user_name) (has p.password) p.clean_session
    → flag_at 4 f ≡ true
    → flag_at 32 f ≡ w.retain
    → f / 8 % 4 ≡ w.qos
    → finish p.protocol_level f p.keep_alive p.client_id w.topic w.payload p.user_name p.password []
      ≡ some (record (requested p) { testament = some (w.topic, w.payload, w.qos, w.retain) })
unfolding finish
finish-some p f w (e0, e1, e2, e3) e4 e5 e6 = rw (e0, e1, e2, e4, e5, e6)

-- The payload of `p` with `w` for its will.
abbrev payload_of : PktConnect → Option Message → Bytes
payload_of p w =
    string_field p.client_id
    ++ (will_fields w ++ (optional_field p.user_name ++ optional_field p.password))

abbrev flags_with : PktConnect → Option Message → ℕ
flags_with p w = flags_of p.user_name p.password w p.clean_session

decode_payload-of :
    (p : PktConnect) (w : Option Message)
    → Fits p
    → (not (has p.password) || has p.user_name) ≡ true
    → WillFits w
    → (decode_payload p.protocol_level (flags_with p w) p.keep_alive (payload_of p w)
        ≡ some (record (requested p) { testament = testament_of w }))
      × (well_flagged (flags_with p w) ≡ true)
decode_payload-of p none h named wf =
    let says = Says-none (has p.user_name) (has p.password) p.clean_session in
    let f = flags_with p none in
    let no_will : flag_at 4 f ≡ false = no_will_flag _ _ _ in
    (
      decode_payload-without p.protocol_level f p.keep_alive p.client_id p.user_name p.password
            h.client_id_short h.user_name_short h.password_short says.0 says.1 no_will
          ∙ finish-none p f says no_will,
      well_flagged-none (has p.user_name) (has p.password) p.clean_session named,
    )
decode_payload-of p (some w) h named (q, t, m) =
    let f = flags_with p (some w) in
    let (says, e4, e32, e8) =
      Says-some (has p.user_name) (has p.password) p.clean_session w.retain w.qos q in
    (
      decode_payload-with p.protocol_level f p.keep_alive p.client_id p.user_name p.password
            h.client_id_short h.user_name_short h.password_short says.0 says.1 w.topic w.payload t m
            e4
          ∙ finish-some p f w says e4 e32 e8,
      well_flagged-some f w.qos (has p.user_name) (has p.password) p.clean_session says e4 e8 q
          named,
    )

decode_connect-contents :
    (p : PktConnect)
    → Fits p
    → p.protocol_level ≡ 4
    → (not (has p.password) || has p.user_name) ≡ true
    → decode_connect (connect_contents p) ≡ some (requested p)
unfolding decode_connect
decode_connect-contents p h four named =
    let (decoded, flagged) = decode_payload-of p p.will h named h.will_fits in
    let level : (p.protocol_level == 4) ≡ true = ground arith in
    let keep : p.keep_alive / 256 * 256 + p.keep_alive % 256 ≡ p.keep_alive = omega arith in
    rw (level, flagged, keep) decoded

-- With fields that fit, the level 4, and a user name if there is a password, Pack makes a CONNECT packet;
-- readPacket reads it as type 0x10 with flags 0, and a reader of the layout of section 3.1, which
-- refuses any other protocol name or level and any flags that this section forbids, recovers exactly
-- what the fields ask for: clean session, keep alive time, client identifier, the will with its topic,
-- message, QoS and retain flag, and a user name and a password exactly where they are not empty.
pub connect_round_trip :
    (p : PktConnect) (rest : Bytes)
    → Fits p
    → p.protocol_level ≡ 4
    → (not (has p.password) || has p.user_name) ≡ true
    → length (connect_contents p) < 2 ^ 28
    → (pkt : Bytes) × (contents : Bytes) × (pack_connect p ≡ ok pkt)
      × (read_packet (pkt ++ rest)
          ≡ ok (record { pkt_type = packet_connect; pkt_flag = 0; contents = contents }, rest))
      × (decode_connect contents ≡ some (requested p))
connect_round_trip p rest h four named short = (
  frame packet_connect (connect_contents p),
  connect_contents p,
  pack_connect-ok p h short,
  read_packet-typed 1 0 (connect_contents p) rest (omega arith) (omega arith) short,
  decode_connect-contents p h four named,
)
