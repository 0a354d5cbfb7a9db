-- ===== src/Connect/Options.antt =====
-- The connect options: which wills can reach the CONNECT packet.
use mqtt_go.Base.{ℕ, ◌≤◌, ◌≡◌, Bool, List, [], ◌∷◌, All, Option, none, some, arith}
use mathlib.Core.Path.{subst}
use mqtt_go.Base.Bits.{Bytes}
use mqtt_go.Base.Outcome.{ok, >>=-eq-ok}
use mqtt_go.Message.{Message}
use mqtt_go.Connect.{
  ConnectOptions, ConnectOption, with_user_name_password, with_keep_alive, with_clean_session,
  with_will, with_protocol_level, apply_options,
}

-- The options that the package offers.
pub data LibraryOption : ConnectOption → Type 0 where
  user_name_password : (u p : Bytes) → LibraryOption (with_user_name_password u p)
  keep_alive : (k : ℕ) → LibraryOption (with_keep_alive k)
  clean_session : (c : Bool) → LibraryOption (with_clean_session c)
  will : (w : Message) → LibraryOption (with_will w)
  protocol_level : (l : ℕ) → LibraryOption (with_protocol_level l)

abbrev pub WillValid : Option Message → Type 0
WillValid none = Unit {0}
WillValid (some w) = w.qos ≤ 2

option-WillValid :
    {opt : ConnectOption}
    → LibraryOption opt
    → (o o' : ConnectOptions) → WillValid o.will
    → opt o ≡ ok o'
    → WillValid o'.will
unfolding with_user_name_password with_keep_alive with_clean_session with_will with_protocol_level
option-WillValid (user_name_password u p) o o' v e = ground arith
option-WillValid (keep_alive k) o o' v e = ground arith
option-WillValid (clean_session c) o o' v e = ground arith
option-WillValid (will w) o o' v e = ground arith
option-WillValid (protocol_level l) o o' v e = ground arith

-- Whatever options of the package are applied, and in whatever order: where none of them fails,
-- the will that is left has a QoS of at most 2, if that held of the will at the start.
pub apply_options-WillValid :
    (opts : List ConnectOption) (o o' : ConnectOptions)
    → All LibraryOption opts
    → WillValid o.will
    → apply_options opts o ≡ ok o'
    → WillValid o'.will
unfolding apply_options
apply_options-WillValid [] o o' l v e =
    let same : o ≡ o' = cc e in subst (λ x. WillValid x.will) same v
apply_options-WillValid (opt ∷ opts) o o' (l, ls) v e =
    let (o1, first, rest) = >>=-eq-ok (opt o) (apply_options opts) e in
    apply_options-WillValid opts o1 o' ls (option-WillValid l o o1 v first) rest
