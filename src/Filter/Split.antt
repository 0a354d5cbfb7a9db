-- ===== src/Filter/Split.antt =====
-- Splitting at slashes and joining are inverse.
use mqtt_go.Base.{
  ℕ, ◌≡◌, ◌≢◌, inl, inr, refl, ap, ◌∙◌, List, [], ◌∷◌, ◌++◌, All, ◌==◌, arith, Bool-cases, ==_iff,
  ne→==_false, sym,
}
use mathlib.Core.Path.{ap₂}
use mqtt_go.Base.Bits.{Bytes}
use mqtt_go.Filter.{slash, add_first, split}

-- The levels with a slash between each two.
abbrev pub join : List Bytes → Bytes
join [] = []
join (w ∷ []) = w
join (w ∷ v ∷ ws) = w ++ slash ∷ join (v ∷ ws)

abbrev pub NoSlash : Bytes → Type 0
NoSlash = All (λ c. c ≢ slash)

join-add_first : (c : ℕ) (ws : List Bytes) → ws ≢ [] → join (add_first c ws) ≡ c ∷ join ws
join-add_first c [] h = absurd (h refl)
join-add_first c (w ∷ []) h = refl
join-add_first c (w ∷ v ∷ ws) h = refl

add_first-ne-nil : (c : ℕ) (ws : List Bytes) → add_first c ws ≢ []
add_first-ne-nil c [] e = cc
add_first-ne-nil c (w ∷ ws) e = cc

pub split-ne-nil : (s : Bytes) → split s ≢ []
unfolding split
split-ne-nil [] e = cc
split-ne-nil (c ∷ s) e = ground (arith, add_first-ne-nil c (split s))

join-nil_first : (ws : List Bytes) → ws ≢ [] → join ([] ∷ ws) ≡ slash ∷ join ws
join-nil_first [] h = absurd (h refl)
join-nil_first (w ∷ ws) h = refl

pub join-split : (s : Bytes) → join (split s) ≡ s
unfolding split
join-split [] = refl
join-split (c ∷ s) = elim (Bool-cases (c == slash)) [
  | inl e ↦ rw e (
      join-nil_first (split s) (split-ne-nil s)
      ∙ ap₂ ◌∷◌ (sym ((==_iff c slash).0 e)) (join-split s))
  | inr e ↦ rw e (join-add_first c (split s) (split-ne-nil s) ∙ ap (λ t. c ∷ t) (join-split s))
]

split-level : (w : Bytes) → NoSlash w → split w ≡ w ∷ []
unfolding split
split-level [] h = refl
split-level (c ∷ w) (ne, h) = rw (ne→==_false c slash ne) (rw (split-level w h))

split-append : (w s : Bytes) → NoSlash w → split (w ++ slash ∷ s) ≡ w ∷ split s
unfolding split
split-append [] s h = refl
split-append (c ∷ w) s (ne, h) = rw (ne→==_false c slash ne) (rw (split-append w s h))

-- Levels without slashes, one at least, come back when their join is split.
pub split-join : (ws : List Bytes) → ws ≢ [] → All NoSlash ws → split (join ws) ≡ ws
split-join [] ne h = absurd (ne refl)
split-join (w ∷ []) ne (h, hs) = split-level w h
split-join (w ∷ v ∷ ws) ne (h, hs) =
    split-append w (join (v ∷ ws)) h ∙ ap (λ t. w ∷ t) (split-join (v ∷ ws) (λ e. cc) hs)

add_first-NoSlash :
    (c : ℕ) (ws : List Bytes) → c ≢ slash → All NoSlash ws → All NoSlash (add_first c ws)
add_first-NoSlash c [] ne h = ((ne, tt), tt)
add_first-NoSlash c (w ∷ ws) ne (h, hs) = ((ne, h), hs)

pub split-NoSlash : (s : Bytes) → All NoSlash (split s)
unfolding split
split-NoSlash [] = (tt, tt)
split-NoSlash (c ∷ s) = elim (Bool-cases (c == slash)) [
  | inl e ↦ rw e (tt, split-NoSlash s)
  | inr e ↦ rw e (add_first-NoSlash c (split s) (λ p. ground arith) (split-NoSlash s))
]
