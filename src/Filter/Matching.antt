-- ===== src/Filter/Matching.antt =====
-- What Match decides: the matching relation of section 4.7.1 of the MQTT 3.1.1 standard.
use mqtt_go.Base.{
  suc, ◌≡◌, ◌≢◌, ◌↔◌, inl, inr, refl, ◌∙◌, sym, Bool, true, false, ◌&&◌, ◌||◌, List, [], ◌∷◌, ◌++◌,
  append-nil, append_assoc, length-append, length, get_elem?-length, get_elem?-append, arith,
  Bool-cases,
}
use mathlib.Core.Path.{ap₂, subst}
use mqtt_go.Base.Bits.{Bytes}
use mqtt_go.Base.Outcome.{ok}
use mqtt_go.Filter.{TopicFilter, plus, hash, bytes_eq, split, match_from, matches, new_topic_filter}
use mqtt_go.Filter.Valid.{IsFilter, IsPlain, IsLevel, new_topic_filter_iff}

-- A filter, as its levels, against the levels of a topic.
pub data Matches : List Bytes → List Bytes → Type 0 where
  -- "#" stands for the level it follows and any number of levels below.
  all_below : {w : Bytes} {ts : List Bytes} → w ≡ hash ∷ [] → Matches (w ∷ []) ts
  any_level :
      {w t : Bytes} {f ts : List Bytes} → w ≡ plus ∷ [] → Matches f ts → Matches (w ∷ f) (t ∷ ts)
  same_level : {w t : Bytes} {f ts : List Bytes} → w ≡ t → Matches f ts → Matches (w ∷ f) (t ∷ ts)
  end : Matches [] []

pub bytes_eq_iff : (s t : Bytes) → (bytes_eq s t ≡ true) ↔ (s ≡ t)
unfolding bytes_eq
bytes_eq_iff [] [] = (λ e. refl, λ e. refl)
bytes_eq_iff [] (y ∷ t) = (λ e. cc, λ e. cc)
bytes_eq_iff (x ∷ s) [] = (λ e. cc, λ e. cc)
bytes_eq_iff (x ∷ s) (y ∷ t) =
    let (forth, back) = bytes_eq_iff s t in (λ e. ground arith, λ e. ground arith)

-- The loop at index `i` looks only at the levels of the topic from `i` on.
match_levels : TopicFilter → List Bytes → Bool
match_levels [] [] = true
match_levels [] (t ∷ ts) = false
match_levels (w ∷ f) [] = bytes_eq w (hash ∷ [])
match_levels (w ∷ f) (t ∷ ts) =
    bytes_eq w (hash ∷ []) || ((bytes_eq w (plus ∷ []) || bytes_eq w t) && match_levels f ts)

-- One more level of the topic is behind.
match_from-next :
    (f : TopicFilter) (before : List Bytes) (t : Bytes) (ts : List Bytes)
    → match_from (length (before ++ t ∷ [])) f ((before ++ t ∷ []) ++ ts)
      ≡ match_from (suc (length before)) f (before ++ t ∷ ts)
match_from-next f before t ts =
    let size : length (before ++ t ∷ []) ≡ suc (length before) =
      omega (arith, length-append before (t ∷ [])) in
    ap₂ (λ n l. match_from n f l) size (append_assoc before (t ∷ []) ts)

match_from_lem :
    (f : TopicFilter) (before ts : List Bytes)
    → match_from (length before) f (before ++ ts) ≡ match_levels f ts
unfolding match_from match_levels
match_from_lem [] before [] = ground (arith, append-nil before)
match_from_lem [] before (t ∷ ts) = ground (arith, length-append before (t ∷ ts))
match_from_lem (w ∷ f) before [] = rw (append-nil, get_elem?-length before) (ground arith)
match_from_lem (w ∷ f) before (t ∷ ts) =
    let later : match_from (suc (length before)) f (before ++ t ∷ ts) ≡ match_levels f ts =
      sym (match_from-next f before t ts) ∙ match_from_lem f (before ++ t ∷ []) ts in
    rw (get_elem?-append before ts t) (rw later (ground arith))

matches_lem : (f : TopicFilter) (topic : Bytes) → matches f topic ≡ match_levels f (split topic)
unfolding matches
matches_lem f topic = match_from_lem f [] (split topic)

IsFilter-tail : (w : Bytes) (f : List Bytes) → IsFilter (w ∷ f) → IsFilter f
IsFilter-tail w [] v = tt
IsFilter-tail w (u ∷ f) (l, v) = v

IsPlain-ne-hash : (w : Bytes) → IsPlain w → w ≢ hash ∷ []
IsPlain-ne-hash [] p e = cc
IsPlain-ne-hash (c ∷ w) (p, ps) e = p.1 (ground arith)

IsLevel-ne-hash : (w : Bytes) → IsLevel w → w ≢ hash ∷ []
IsLevel-ne-hash w (inl p) e = ground arith
IsLevel-ne-hash w (inr p) e = IsPlain-ne-hash w p e

-- In a valid filter nothing follows "#".
hash-Matches :
    (w : Bytes) (f ts : List Bytes) → IsFilter (w ∷ f) → w ≡ hash ∷ [] → Matches (w ∷ f) ts
hash-Matches w [] ts v e = all_below e
hash-Matches w (u ∷ f) ts (l, v) e = absurd (IsLevel-ne-hash w l e)

match_levels-Matches : (f ts : List Bytes) → IsFilter f → match_levels f ts ≡ true → Matches f ts
unfolding match_levels
match_levels-Matches [] [] v e = end
match_levels-Matches [] (t ∷ ts) v e = cc
match_levels-Matches (w ∷ f) [] v e = hash-Matches w f [] v ((bytes_eq_iff w (hash ∷ [])).0 e)
match_levels-Matches (w ∷ f) (t ∷ ts) v e =
    let rest = match_levels-Matches f ts (IsFilter-tail w f v) in
    elim (Bool-cases (bytes_eq w (hash ∷ []))) [
      | inl h ↦ hash-Matches w f (t ∷ ts) v ((bytes_eq_iff w (hash ∷ [])).0 h)
      | inr h ↦ elim (Bool-cases (bytes_eq w (plus ∷ []))) [
        | inl p ↦ any_level ((bytes_eq_iff w (plus ∷ [])).0 p) (rest (ground arith))
        | inr p ↦ same_level ((bytes_eq_iff w t).0 (ground arith)) (rest (ground arith))
      ]
    ]

Matches-match_levels : {f ts : List Bytes} → Matches f ts → match_levels f ts ≡ true
unfolding match_levels
Matches-match_levels (all_below {w} {ts = []} e) = (bytes_eq_iff w (hash ∷ [])).1 e
Matches-match_levels (all_below {w} {ts = t ∷ ts} e) = rw ((bytes_eq_iff w (hash ∷ [])).1 e)
Matches-match_levels (any_level {w} {t} {f} {ts} e m) =
    ground (arith, (bytes_eq_iff w (plus ∷ [])).1 e, Matches-match_levels m)
Matches-match_levels (same_level {w} {t} {f} {ts} e m) =
    ground (arith, (bytes_eq_iff w t).1 e, Matches-match_levels m)
Matches-match_levels end = refl

-- For a filter that newTopicFilter accepts, Match answers true exactly on the topics whose levels
-- match the filter's: "+" for any one level, "#" for its parent level and all below it, and any
-- other level for itself.
pub matches_iff :
    (filter topic : Bytes) (tf : TopicFilter)
    → new_topic_filter filter ≡ ok tf
    → (matches tf topic ≡ true) ↔ Matches tf (split topic)
matches_iff filter topic tf e =
    let (ne, same, v) = (new_topic_filter_iff filter tf).0 e in
    let valid : IsFilter tf = subst IsFilter (sym same) v in
    (
      λ m. match_levels-Matches tf (split topic) valid (rw matches_lem at m),
      λ m. matches_lem tf topic ∙ Matches-match_levels m,
    )
