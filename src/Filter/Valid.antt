-- ===== src/Filter/Valid.antt =====
-- Which filters newTopicFilter accepts: the rules of section 4.7.1 of the MQTT 3.1.1 standard.
use mqtt_go.Base.{
  ℕ, suc, ◌+◌, ◌-◌, ◌≡◌, ◌≢◌, ◌<◌, ◌↔◌, ◌⊎◌, inl, inr, refl, ap, ◌∙◌, true, false, List, [], ◌∷◌,
  length, All, arith, Bool-cases, sym,
}
use mqtt_go.Base.Bits.{Bytes}
use mqtt_go.Base.Outcome.{ok, ◌>>=◌, >>=-eq-ok}
use mqtt_go.Filter.{
  TopicFilter, plus, hash, contains, split, check_level, check_levels, new_topic_filter,
}

-- A level without wildcards, any level, and a level that may stand last.
abbrev pub IsPlain : Bytes → Type 0
IsPlain = All (λ c. (c ≢ plus) × (c ≢ hash))

abbrev pub IsLevel : Bytes → Type 0
IsLevel w = (w ≡ plus ∷ []) ⊎ IsPlain w

abbrev pub IsLastLevel : Bytes → Type 0
IsLastLevel w = (w ≡ hash ∷ []) ⊎ IsLevel w

abbrev pub IsFilter : TopicFilter → Type 0
IsFilter [] = Unit {0}
IsFilter (w ∷ []) = IsLastLevel w
IsFilter (w ∷ v ∷ ws) = IsLevel w × IsFilter (v ∷ ws)

IsPlain-contains : (w : Bytes) → IsPlain w → (contains w plus ≡ false) × (contains w hash ≡ false)
unfolding contains
IsPlain-contains [] h = (refl, refl)
IsPlain-contains (c ∷ w) h = ground (arith, IsPlain-contains w)

contains-IsPlain : (w : Bytes) → contains w plus ≡ false → contains w hash ≡ false → IsPlain w
unfolding contains
contains-IsPlain [] p q = tt
contains-IsPlain (c ∷ w) p q =
    ((λ e. ground arith, λ e. ground arith), contains-IsPlain w (ground arith) (ground arith))

contains_one : (c : ℕ) (w : Bytes) → length w ≡ 1 → contains w c ≡ true → w ≡ c ∷ []
unfolding contains
contains_one c [] h e = cc
contains_one c (x ∷ []) h e = ground arith
contains_one c (x ∷ y ∷ w) h e = absurd (omega arith)

-- What one round of the loop lets pass.
abbrev Passes : ℕ → ℕ → Bytes → Type 0
Passes i n w = IsLevel w ⊎ ((w ≡ hash ∷ []) × (i ≡ n - 1))

check_level-Passes : (i n : ℕ) (w : Bytes) → check_level i n w ≡ ok tt → Passes i n w
unfolding check_level
check_level-Passes i n w e = elim (Bool-cases (contains w plus)) [
  | inl p ↦ inl (inl (contains_one plus w (ground arith) p))
  | inr p ↦ elim (Bool-cases (contains w hash)) [
    | inl q ↦ inr (contains_one hash w (ground arith) q, ground arith)
    | inr q ↦ inl (inr (contains-IsPlain w p q))
  ]
]

Passes-check_level : (i n : ℕ) (w : Bytes) → Passes i n w → check_level i n w ≡ ok tt
unfolding check_level
Passes-check_level i n w (inl (inl e)) = rw e (unfold contains in refl)
Passes-check_level i n w (inl (inr h)) = let (p, q) = IsPlain-contains w h in rw (p, q)
Passes-check_level i n w (inr (e, l)) = rw e (unfold contains in ground arith)

Passes-last : (i n : ℕ) (w : Bytes) → Passes i n w → IsLastLevel w
Passes-last i n w (inl l) = inr l
Passes-last i n w (inr (e, l)) = inl e

last-Passes : (i n : ℕ) (w : Bytes) → i ≡ n - 1 → IsLastLevel w → Passes i n w
last-Passes i n w l (inl e) = inr (e, l)
last-Passes i n w l (inr h) = inl h

Passes-inner : (i n : ℕ) (w : Bytes) → suc i < n → Passes i n w → IsLevel w
Passes-inner i n w h (inl l) = l
Passes-inner i n w h (inr (e, l)) = absurd (omega arith)

-- The loop at index `i`, with the levels `ws` still to come, accepts exactly a filter.
check_levels_iff :
    (i n : ℕ) (ws : List Bytes) → i + length ws ≡ n → (check_levels i n ws ≡ ok tt) ↔ IsFilter ws
unfolding check_levels
check_levels_iff i n [] h = (λ e. tt, λ f. refl)
check_levels_iff i n (w ∷ []) h = (
  λ e.
      let (u, first, rest) = >>=-eq-ok (check_level i n w) _ e in
      Passes-last i n w (check_level-Passes i n w first),
  λ f. rw (Passes-check_level i n w (last-Passes i n w (omega arith) f)),
)
check_levels_iff i n (w ∷ v ∷ ws) h =
    let (forth, back) = check_levels_iff (suc i) n (v ∷ ws) (omega arith) in
    (
      λ e.
          let (u, first, rest) = >>=-eq-ok (check_level i n w) _ e in
          (Passes-inner i n w (omega arith) (check_level-Passes i n w first), forth rest),
      λ (l, f). rw (Passes-check_level i n w (inl l)) (back f),
    )

new_topic_filter-cons :
    (c : ℕ) (s : Bytes)
    → new_topic_filter (c ∷ s)
      ≡ (check_levels 0 (length (split (c ∷ s))) (split (c ∷ s)) >>= λ _. ok (split (c ∷ s)))
unfolding new_topic_filter
new_topic_filter-cons c s = ground arith

-- newTopicFilter returns the levels of a filter exactly when it is not empty and keeps the rules:
-- a level with a wildcard is that wildcard alone, and "#" stands last.
pub new_topic_filter_iff :
    (filter : Bytes) (tf : TopicFilter)
    → (new_topic_filter filter ≡ ok tf)
      ↔ ((filter ≢ []) × (tf ≡ split filter) × IsFilter (split filter))
new_topic_filter_iff [] tf =
    (λ e. unfold new_topic_filter in cc e, λ (ne, same, f). absurd (ne refl))
new_topic_filter_iff (c ∷ s) tf =
    let tf' = split (c ∷ s) in
    let levels = check_levels_iff 0 (length tf') tf' (omega arith) in
    (
      λ e.
          let (u, checked, same) =
            >>=-eq-ok (check_levels 0 (length tf') tf') (λ _. ok tf')
              (rw new_topic_filter-cons at e) in
          (λ z. cc, cc same, levels.0 checked),
      λ (ne, same, f). new_topic_filter-cons c s ∙ rw (levels.1 f) (ap ok (sym same)),
    )
