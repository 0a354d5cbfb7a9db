-- ===== src/Subscriptions/Duplicates.antt =====
-- What unsubscribing does where a topic stands twice, in the list or in the request.
use mqtt_go.Base.{
  ℕ, suc, ◌≡◌, refl, sym, ap, ◌∙◌, true, false, List, [], ◌∷◌, ◌++◌, append_assoc, length,
  take-append, arith, last-cases, if◌then◌else◌, inl, inr,
}
use mathlib.Core.Path.{subst, subst₂}
use mathlib.Core.List.{Permᴰ}
use mqtt_go.Base.Bits.{Bytes}
use mqtt_go.Base.Outcome.{ok, panic}
use mqtt_go.Message.{Subscription}
use mqtt_go.Filter.{bytes_eq}
use mqtt_go.Subscriptions.{
  subscribe_to, find_topic, overwrite, remove_topic, remove_topics, unsubscribe_from,
}
use mqtt_go.Subscriptions.Removing.{overwrite_last, overwrite_moved}
use mqtt_go.Subscriptions.Rounds.{remove_topic-some, leave_last, leave_moved, found}
use mqtt_go.Subscriptions.Topics.{has_topic, bytes_eq_refl, has_topic-Found}

-- A request that names the only topic of the list twice panics: the length that is left is 0 when
-- the place given up before is found again.
pub unsubscribe_twice-panic :
    (e : Subscription) (s : List Bytes)
    → unsubscribe_from (e.topic ∷ e.topic ∷ s) (subscribe_to (e ∷ []) []) ≡ panic
unfolding unsubscribe_from subscribe_to remove_topics remove_topic find_topic overwrite
unsubscribe_twice-panic e s = ground (arith, bytes_eq_refl e.topic)

-- How many subscriptions of the list have the topic.
abbrev pub count_topic : Bytes → List Subscription → ℕ
count_topic t [] = 0
count_topic t (e ∷ d) = let rest = count_topic t d in if bytes_eq e.topic t then suc rest else rest

count_topic-swap :
    (t : Bytes) (a b : Subscription) (l : List Subscription)
    → count_topic t (a ∷ b ∷ l) ≡ count_topic t (b ∷ a ∷ l)
count_topic-swap t a b l = ground arith

count_topic-perm :
    (t : Bytes) {a b : List Subscription} → Permᴰ a b → count_topic t a ≡ count_topic t b
count_topic-perm t Permᴰ.nil = refl
count_topic-perm t (Permᴰ.cons {a} {b} {l₁} {l₂} e p) =
    subst (λ x. count_topic t (a ∷ l₁) ≡ count_topic t (x ∷ l₂)) e
      (ap (λ r. if bytes_eq a.topic t then suc r else r) (count_topic-perm t p))
count_topic-perm t (Permᴰ.swap {a} {b} {l} e f) =
    subst₂ (λ x y. count_topic t (a ∷ b ∷ l) ≡ count_topic t (x ∷ y ∷ l)) f e
      (count_topic-swap t a b l)
count_topic-perm t (Permᴰ.trans p q) = count_topic-perm t p ∙ count_topic-perm t q

-- The whole call for one topic, where its round ends with `out` in front of `rest`.
one_round :
    (t : Bytes) (d out rest : List Subscription)
    → remove_topic t (length d) d ≡ ok (length out, out ++ rest)
    → unsubscribe_from (t ∷ []) d ≡ ok out
unfolding unsubscribe_from remove_topics
one_round t d out rest e = rw e (ap ok (take-append out rest))

remove_entry :
    (t : Bytes) (pre post : List Subscription) (e : Subscription)
    → has_topic t pre ≡ false
    → bytes_eq e.topic t ≡ true
    → (out : List Subscription) × (unsubscribe_from (t ∷ []) (pre ++ e ∷ post) ≡ ok out)
      × Permᴰ (pre ++ e ∷ post) (e ∷ out)
remove_entry t pre post e earlier here = elim (last-cases post) [
  | inl none_behind ↦ rw none_behind (
    pre,
    one_round t _ pre (e ∷ []) (
        remove_topic-some t _ _ (length pre) (found t pre e [] earlier here)
        ∙ overwrite_last pre [] e),
    leave_last pre e,
  )
  | inr (mid, last, at_end) ↦ rw at_end (
    pre ++ last ∷ mid,
    one_round t _ (pre ++ last ∷ mid) (last ∷ []) (
        remove_topic-some t _ _ (length pre) (found t pre e (mid ++ last ∷ []) earlier here)
        ∙ overwrite_moved pre mid [] e last
        ∙ ap (λ d'. ok (length (pre ++ last ∷ mid), d'))
            (sym (append_assoc pre (last ∷ mid) (last ∷ [])))),
    leave_moved pre mid e last,
  )
]

-- Unsubscribing from one topic removes exactly one of the subscriptions that have it. So a topic
-- that was subscribed to twice is still in the list after it was unsubscribed from.
pub unsubscribe_one-count :
    (t : Bytes) (d : List Subscription)
    → has_topic t d ≡ true
    → (out : List Subscription) × (unsubscribe_from (t ∷ []) d ≡ ok out)
      × (suc (count_topic t out) ≡ count_topic t d)
unsubscribe_one-count t d h =
    let f = has_topic-Found t d h in
    let (out, e, p) = remove_entry t f.before f.behind f.entry f.earlier f.here in
    (
      out,
      rw (f.whole) e,
      sym (ap (count_topic t) f.whole ∙ count_topic-perm t p ∙ rw (f.here) refl),
    )
