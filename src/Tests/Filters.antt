-- ===== src/Tests/Filters.antt =====
-- Topic filters at concrete values.
use mqtt_go.Base.{◌≡◌, ◌≢◌, ◌↔◌, refl, true, false, List, [], ◌∷◌, arith}
use mqtt_go.Base.Bits.{Bytes}
use mqtt_go.Base.Outcome.{ok}
use mqtt_go.Filter.{
  bytes_eq, contains, split, check_level, check_levels, new_topic_filter, match_from, matches,
}
use mqtt_go.Filter.Split.{join, split-join}
use mqtt_go.Filter.Valid.{IsFilter, new_topic_filter_iff}
use mqtt_go.Filter.Matching.{Matches, matches_iff}

-- "a/+/#" and "a/b"
abbrev pattern_levels : List Bytes
pattern_levels = (b'a' ∷ []) ∷ (b'+' ∷ []) ∷ (b'#' ∷ []) ∷ []

abbrev pattern_text : Bytes
pattern_text = b'a' ∷ b'/' ∷ b'+' ∷ b'/' ∷ b'#' ∷ []

abbrev topic : Bytes
topic = b'a' ∷ b'/' ∷ b'b' ∷ []

pattern_accepted : new_topic_filter pattern_text ≡ ok pattern_levels
unfolding new_topic_filter check_levels check_level contains split
pattern_accepted = refl

matched : matches pattern_levels topic ≡ true
unfolding matches match_from bytes_eq split
matched = refl

not_matched : matches pattern_levels (b'a' ∷ []) ≡ false
unfolding matches match_from bytes_eq split
not_matched = refl

split-join_example : split (join pattern_levels) ≡ pattern_levels
split-join_example = split-join pattern_levels (λ e. cc) (omega arith)

new_topic_filter_iff_example :
    (new_topic_filter pattern_text ≡ ok pattern_levels)
    ↔ ((pattern_text ≢ []) × (pattern_levels ≡ split pattern_text) × IsFilter (split pattern_text))
new_topic_filter_iff_example = new_topic_filter_iff pattern_text pattern_levels

matches_iff_example : (matches pattern_levels topic ≡ true) ↔ Matches pattern_levels (split topic)
matches_iff_example = matches_iff pattern_text topic pattern_levels pattern_accepted
