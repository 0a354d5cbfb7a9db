-- ===== src/Subscriptions/Removing.antt =====
-- One round of the unsubscribing loop: the entry that is overwritten, the last one that moves
-- to its place, and the places behind the shortened list.
use mqtt_go.Base.{
  suc, ◌≡◌, inl, inr, refl, ap, ◌∙◌, true, false, ◌||◌, List, [], ◌∷◌, ◌++◌, append_assoc, length,
  length-append, get_elem?, get_elem?-append, get_elem?-at, set-append, All, some, arith,
  Bool-cases,
}
use mathlib.Core.Path.{subst}
use mathlib.Core.List.{Permᴰ}
use mqtt_go.Base.Bits.{Bytes}
use mqtt_go.Base.Outcome.{ok}
use mqtt_go.Message.{Subscription}
use mqtt_go.Filter.{bytes_eq}
use mqtt_go.Filter.Matching.{bytes_eq_iff}
use mqtt_go.Subscriptions.{overwrite}
use mqtt_go.Subscriptions.Topics.{
  has_topic, has_name, without, DistinctTopics, bytes_eq_refl, has_topic-perm, without-perm,
  DistinctTopics-perm, without-absent,
}

pub overwrite_last :
    (pre stale : List Subscription) (e : Subscription)
    → overwrite (length pre) (length (pre ++ e ∷ [])) (pre ++ e ∷ stale)
      ≡ ok (length pre, pre ++ e ∷ stale)
unfolding overwrite
overwrite_last pre stale e =
    let size : length (pre ++ e ∷ []) ≡ suc (length pre) =
      omega (arith, length-append pre (e ∷ [])) in
    rw (size, overwrite) (rw (get_elem?-append pre stale e) (rw (set-append pre stale e e)))

pub overwrite_moved :
    (pre mid stale : List Subscription) (e last : Subscription)
    → overwrite
        (length pre)
        (length (pre ++ e ∷ (mid ++ last ∷ [])))
        (pre ++ e ∷ (mid ++ last ∷ stale))
      ≡ ok (length (pre ++ last ∷ mid), pre ++ last ∷ (mid ++ last ∷ stale))
unfolding overwrite
overwrite_moved pre mid stale e last =
    let d = pre ++ e ∷ (mid ++ last ∷ stale) in
    let size : length (pre ++ e ∷ (mid ++ last ∷ [])) ≡ suc (length (pre ++ last ∷ mid)) = omega (
      arith,
      length-append pre (e ∷ (mid ++ last ∷ [])),
      length-append mid (last ∷ []),
      length-append pre (last ∷ mid),
    ) in
    let found : get_elem? d (length (pre ++ last ∷ mid)) ≡ some last =
      rw (← append_assoc pre (e ∷ mid) (last ∷ stale)) (
        get_elem?-at (pre ++ e ∷ mid) stale last _
          (omega (arith, length-append pre (last ∷ mid), length-append pre (e ∷ mid)))) in
    rw (size, overwrite) (rw found (rw (set-append pre (mid ++ last ∷ stale) e last)))

-- A place that was given up holds a topic that is done with, or one that is still in the list.
abbrev pub Harmless : List Bytes → List Subscription → Subscription → Type 0
Harmless done live x = (has_name x.topic done || has_topic x.topic live) ≡ true

pub stale-absent :
    (t : Bytes) (done : List Bytes) (live stale : List Subscription)
    → has_name t done ≡ false
    → has_topic t live ≡ false
    → All (Harmless done live) stale
    → has_topic t stale ≡ false
stale-absent t done live [] n l h = refl
stale-absent t done live (x ∷ stale) n l (h, hs) = elim (Bool-cases (bytes_eq x.topic t)) [
  | inl e ↦
      let same : x.topic ≡ t = (bytes_eq_iff x.topic t).0 e in
      absurd (cc (subst (λ u. (has_name u done || has_topic u live) ≡ true) same h, n, l))
  | inr e ↦ rw e (stale-absent t done live stale n l hs)
]

pub Harmless-weaken :
    (t : Bytes) (done : List Bytes) (live stale : List Subscription)
    → All (Harmless done live) stale
    → All (Harmless (t ∷ done) live) stale
Harmless-weaken t done live [] h = tt
Harmless-weaken t done live (x ∷ stale) (h, hs) =
    (ground arith, Harmless-weaken t done live stale hs)

-- The entry of the topic `t` leaves the list.
module _ (t : Bytes) (done : List Bytes) (live live' : List Subscription) (e : Subscription)
    (p : Permᴰ live (e ∷ live')) (here : e.topic ≡ t) where
  Harmless-leave_one : (x : Subscription) → Harmless done live x → Harmless (t ∷ done) live' x
  Harmless-leave_one x h =
      let moved : has_topic x.topic live ≡ bytes_eq t x.topic || has_topic x.topic live' =
        has_topic-perm x.topic p ∙ ap (λ u. bytes_eq u x.topic || has_topic x.topic live') here in
      ground arith

  pub Harmless-leave :
      (stale : List Subscription)
      → All (Harmless done live) stale
      → All (Harmless (t ∷ done) live') stale
  Harmless-leave [] h = tt
  Harmless-leave (x ∷ stale) (h, hs) = (Harmless-leave_one x h, Harmless-leave stale hs)

  pub leave-absent : DistinctTopics live → has_topic t live' ≡ false
  leave-absent d = subst (λ u. has_topic u live' ≡ false) here (DistinctTopics-perm p d).0

  pub without-leave :
      (s : List Bytes) → DistinctTopics live → Permᴰ (without (t ∷ s) live) (without s live')
  without-leave s d =
      let gone : has_name e.topic (t ∷ s) ≡ true = rw here (rw (bytes_eq_refl t)) in
      subst (λ r. Permᴰ (without (t ∷ s) live) r)
        (rw gone (without-absent t s live' (leave-absent d))) (without-perm (t ∷ s) p)
