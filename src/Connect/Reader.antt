-- ===== src/Connect/Reader.antt =====
-- A reader of the fields and flags of a CONNECT packet after section 3.1 of the MQTT 3.1.1 standard,
-- independent of the code: what a broker recovers from the contents that Pack makes. The contents of the
-- strings, and whether an empty client identifier may be refused, are not its concern.
use mqtt_go.Base.{
  ℕ, ◌+◌, ◌*◌, ◌/◌, ◌%◌, Bool, [], ◌∷◌, length, take, drop, leb, if◌then◌else◌, ◌==◌, ◌||◌, not,
  Option, none, some, ◌&&◌,
}
use mqtt_go.Base.Bits.{Bytes}

infixl 5 ◌>>=◌
abbrev pub ◌>>=◌ : {A B : Type 0} → Option A → (A → Option B) → Option B
some a >>= f = f a
none >>= f = none

-- A string behind its length of two bytes, and what follows it.
unfoldable pub take_field : Bytes → Option (Bytes × Bytes)
take_field (a ∷ b ∷ s) =
    let n = a * 256 + b in if leb n (length s) then some (take n s, drop n s) else none
take_field _ = none

-- A field that is there if a flag says so.
unfoldable pub take_if : Bool → Bytes → Option (Bytes × Bytes)
take_if b s = if b then take_field s else some ([], s)

-- What a CONNECT says, the will as topic, message, QoS and retain flag.
pub record Connected : Type 0 where
  pub level : ℕ
  pub clean : Bool
  pub interval : ℕ
  pub client : Bytes
  pub user : Option Bytes
  pub secret : Option Bytes
  pub testament : Option (Bytes × Bytes × ℕ × Bool)

abbrev pub flag_at : ℕ → ℕ → Bool
flag_at k flags = flags / k % 2 == 1

abbrev pub when : Bool → Bytes → Option Bytes
when b s = if b then some s else none

unfoldable pub finish : ℕ → ℕ → ℕ → Bytes → Bytes → Bytes → Bytes → Bytes → Bytes → Option Connected
finish level flags interval client topic message user secret [] = some (record {
  level = level;
  clean = flag_at 2 flags;
  interval = interval;
  client = client;
  user = when (flag_at 128 flags) user;
  secret = when (flag_at 64 flags) secret;
  testament =
      if flag_at 4 flags then some (topic, message, flags / 8 % 4, flag_at 32 flags) else none;
})
finish level flags interval client topic message user secret (x ∷ s) = none

unfoldable pub decode_payload : ℕ → ℕ → ℕ → Bytes → Option Connected
decode_payload level flags interval s = take_field s >>= λ c. take_if (flag_at 4 flags) c.1 >>= λ t.
    take_if (flag_at 4 flags) t.1 >>= λ m. take_if (flag_at 128 flags) m.1 >>= λ u.
    take_if (flag_at 64 flags) u.1 >>= λ p. finish level flags interval c.0 t.0 m.0 u.0 p.0 p.1

-- The lowest flag is 0, there is no password without a user name, and the QoS of the will is not 3, and
-- 0 without the retain flag where there is no will.
abbrev pub well_flagged : ℕ → Bool
well_flagged flags =
    flags % 2 == 0
    && ((not (flag_at 64 flags) || flag_at 128 flags)
        && (not (flags / 8 % 4 == 3)
            && (flag_at 4 flags || (flags / 8 % 4 == 0 && not (flag_at 32 flags)))))

-- The protocol name "MQTT", the level 4, the flags, the keep alive time.
unfoldable pub decode_connect : Bytes → Option Connected
decode_connect (n0 ∷ n1 ∷ n2 ∷ n3 ∷ n4 ∷ n5 ∷ level ∷ flags ∷ k0 ∷ k1 ∷ s) =
    if n0 == 0
      && (n1 == 4
          && (n2 == 77
              && (n3 == 81 && (n4 == 84 && (n5 == 84 && (level == 4 && well_flagged flags))))))
    then decode_payload level flags (k0 * 256 + k1) s
    else none
decode_connect _ = none
