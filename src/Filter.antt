-- ===== src/Filter.antt =====
-- filter.go: topic filters, their validation and their match. Strings are their bytes.
pub mod Split
pub mod Valid
pub mod Matching
use mqtt_go.Base.{
  ℕ, zero, suc, ◌+◌, ◌-◌, Bool, true, false, not, ◌&&◌, ◌||◌, List, [], ◌∷◌, length, get_elem?,
  Option, none, some, ltb, leb, ◌==◌, if◌then◌else◌, String,
}
use mqtt_go.Base.Bits.{Bytes}
use mqtt_go.Base.Outcome.{ok, err, panic, ◌>>=◌}
use mqtt_go.Errors.{Go, invalid_topic_filter, fail_with}

abbrev pub TopicFilter : Type 0
TopicFilter = List Bytes

abbrev pub slash : ℕ
slash = b'/'

abbrev pub plus : ℕ
plus = b'+'

abbrev pub hash : ℕ
hash = b'#'

-- `==` on strings.
unfoldable pub bytes_eq : Bytes → Bytes → Bool
bytes_eq [] [] = true
bytes_eq [] (y ∷ t) = false
bytes_eq (x ∷ s) [] = false
bytes_eq (x ∷ s) (y ∷ t) = x == y && bytes_eq s t

-- `strings.Contains` at a string of one byte.
unfoldable pub contains : Bytes → ℕ → Bool
contains [] c = false
contains (x ∷ s) c = x == c || contains s c

-- `strings.Split(s, "/")`.
abbrev pub add_first : ℕ → List Bytes → List Bytes
add_first c [] = (c ∷ []) ∷ []
add_first c (w ∷ ws) = (c ∷ w) ∷ ws

unfoldable pub split : Bytes → List Bytes
split [] = [] ∷ []
split (c ∷ s) = let rest = split s in if c == slash then [] ∷ rest else add_first c rest

-- One round of the validation loop, at index `i` of `n` levels.
unfoldable pub check_level : ℕ → ℕ → Bytes → Go (Unit {0})
check_level i n f =
    if contains f plus && not (length f == 1)
    then err (fail_with invalid_topic_filter "invalid + usage")
    else if contains f hash && (not (length f == 1) || not (i == n - 1))
    then err (fail_with invalid_topic_filter "invalid # usage")
    else ok tt

unfoldable pub check_levels : ℕ → ℕ → List Bytes → Go (Unit {0})
check_levels i n [] = ok tt
check_levels i n (f ∷ fs) = check_level i n f >>= λ _. check_levels (suc i) n fs

unfoldable pub new_topic_filter : Bytes → Go TopicFilter
new_topic_filter filter =
    if length filter == 0
    then err (fail_with invalid_topic_filter "empty filter")
    else (let tf = split filter in check_levels 0 (length tf) tf >>= λ _. ok tf)

-- The loop of Match at index `i`, on the levels of the filter from `i` on.
unfoldable pub match_from : ℕ → TopicFilter → List Bytes → Bool
match_from i [] ts = i == length ts
match_from i (t ∷ f) ts =
    let rest = match_from (suc i) f ts in
    if bytes_eq t (hash ∷ []) then true else elim (get_elem? ts i) [
      | none ↦ false
      | some w ↦ if not (bytes_eq t (plus ∷ [])) && not (bytes_eq t w) then false else rest
    ]

-- The method Match of a filter at a topic.
unfoldable pub matches : TopicFilter → Bytes → Bool
matches f topic = match_from 0 f (split topic)
