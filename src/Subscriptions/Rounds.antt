-- ===== src/Subscriptions/Rounds.antt =====
-- Unsubscribing from distinct topics of a list in which no topic stands twice.
use mqtt_go.Base.{
  ℕ, ◌≡◌, ◌⊎◌, inl, inr, refl, sym, ap, ◌∙◌, true, false, List, [], ◌∷◌, ◌++◌, append-nil,
  append_assoc, length, take-append, All, none, some, arith, Bool-cases, last-cases,
}
use mathlib.Core.Path.{subst}
use mathlib.Core.List.{Permᴰ, Perm}
use mathlib.Core.List.Permᴰ as PermD
use mqtt_go.Base.Bits.{Bytes}
use mqtt_go.Base.Outcome.{ok}
use mqtt_go.Message.{Subscription}
use mqtt_go.Filter.{bytes_eq}
use mqtt_go.Filter.Matching.{bytes_eq_iff}
use mqtt_go.Subscriptions.{find_topic, overwrite, remove_topic, remove_topics, unsubscribe_from}
use mqtt_go.Subscriptions.Topics.{
  has_topic, has_name, without, DistinctTopics, DistinctNames, bytes_eq_refl, bytes_eq_comm,
  DistinctTopics-perm, find_topic-none, find_topic-some, Found, has_topic-Found, without-absent,
  has_topic-append,
}
use mqtt_go.Subscriptions.Removing.{
  overwrite_last, overwrite_moved, Harmless, stale-absent, Harmless-weaken, Harmless-leave,
  without-leave,
}

module _ (t : Bytes) (l : ℕ) (d : List Subscription) where
  remove_topic-none : find_topic 0 t d ≡ none → remove_topic t l d ≡ ok (l, d)
  unfolding remove_topic
  remove_topic-none e = rw (e, remove_topic)

  pub remove_topic-some : (i : ℕ) → find_topic 0 t d ≡ some i → remove_topic t l d ≡ overwrite i l d
  unfolding remove_topic
  remove_topic-some i e = rw (e, remove_topic)

-- What one round does to the list and to the places behind it.
record Round (t : Bytes) (done : List Bytes) (live stale : List Subscription) : Type 0 where
  live' : List Subscription
  stale' : List Subscription
  result : remove_topic t (length live) (live ++ stale) ≡ ok (length live', live' ++ stale')
  distinct : DistinctTopics live'
  harmless : All (Harmless (t ∷ done) live') stale'
  remains : (s : List Bytes) → Permᴰ (without (t ∷ s) live) (without s live')

Round-absent :
    (t : Bytes) (done : List Bytes) (live stale : List Subscription)
    → has_name t done ≡ false
    → DistinctTopics live
    → All (Harmless done live) stale
    → has_topic t live ≡ false
    → Round t done live stale
Round-absent t done live stale n d h gone = record {
  live' = live;
  stale' = stale;
  result = remove_topic-none t _ _ (find_topic-none 0 t (live ++ stale) nowhere);
  distinct = d;
  harmless = Harmless-weaken t done live stale h;
  remains = λ s.
      subst (λ r. Permᴰ r (without s live)) (sym (without-absent t s live gone))
        (PermD.refl (without s live));
}
  where
    nowhere : has_topic t (live ++ stale) ≡ false
    nowhere = ground (arith, has_topic-append t live stale, stale-absent t done live stale n gone h)

pub leave_last : (pre : List Subscription) (e : Subscription) → Permᴰ (pre ++ e ∷ []) (e ∷ pre)
leave_last pre e =
    subst (λ r. Permᴰ (pre ++ e ∷ []) (e ∷ r)) (append-nil pre) (PermD.middle e pre [])

pub leave_moved :
    (pre mid : List Subscription) (e last : Subscription)
    → Permᴰ (pre ++ e ∷ (mid ++ last ∷ [])) (e ∷ (pre ++ last ∷ mid))
leave_moved pre mid e last =
    Permᴰ.trans (PermD.middle e pre (mid ++ last ∷ []))
      (Permᴰ.cons refl (PermD.append_left pre (leave_last mid last)))

pub found :
    (t : Bytes) (pre : List Subscription) (e : Subscription) (r : List Subscription)
    → has_topic t pre ≡ false
    → bytes_eq e.topic t ≡ true
    → find_topic 0 t (pre ++ e ∷ r) ≡ some (length pre)
found t pre e r h k = find_topic-some 0 t pre e r h k ∙ ap some (omega arith)

-- The topic stands last in the list, or before the last place.
Round-last :
    (t : Bytes) (done : List Bytes) (pre stale : List Subscription) (e : Subscription)
    → DistinctTopics (pre ++ e ∷ [])
    → All (Harmless done (pre ++ e ∷ [])) stale
    → has_topic t pre ≡ false
    → bytes_eq e.topic t ≡ true
    → Round t done (pre ++ e ∷ []) stale
Round-last t done pre stale e d h earlier here =
    let p = leave_last pre e in
    let same : e.topic ≡ t = (bytes_eq_iff e.topic t).0 here in
    record {
      live' = pre;
      stale' = e ∷ stale;
      result = rw (append_assoc pre (e ∷ []) stale) (
          remove_topic-some t _ _ (length pre) (found t pre e stale earlier here)
          ∙ overwrite_last pre stale e);
      distinct = (DistinctTopics-perm p d).1;
      harmless = (
        rw same (rw (bytes_eq_refl t)),
        Harmless-leave t done (pre ++ e ∷ []) pre e p same stale h,
      );
      remains = λ s. without-leave t done (pre ++ e ∷ []) pre e p same s d;
    }

Round-moved :
    (t : Bytes) (done : List Bytes) (pre mid stale : List Subscription) (e last : Subscription)
    → DistinctTopics (pre ++ e ∷ (mid ++ last ∷ []))
    → All (Harmless done (pre ++ e ∷ (mid ++ last ∷ []))) stale
    → has_topic t pre ≡ false
    → bytes_eq e.topic t ≡ true
    → Round t done (pre ++ e ∷ (mid ++ last ∷ [])) stale
Round-moved t done pre mid stale e last d h earlier here =
    let live = pre ++ e ∷ (mid ++ last ∷ []) in
    let after = pre ++ last ∷ mid in
    let p : Permᴰ live (e ∷ after) = leave_moved pre mid e last in
    let same : e.topic ≡ t = (bytes_eq_iff e.topic t).0 here in
    record {
      live' = after;
      stale' = last ∷ stale;
      result =
          rw (append_assoc pre (e ∷ (mid ++ last ∷ [])) stale, append_assoc mid (last ∷ []) stale)
            (remove_topic-some t _ _ (length pre) (found t pre e (mid ++ last ∷ stale) earlier here)
              ∙ overwrite_moved pre mid stale e last
              ∙ ap (λ d'. ok (length after, d'))
                  (sym (append_assoc pre (last ∷ mid) (last ∷ stale))));
      distinct = (DistinctTopics-perm p d).1;
      harmless = (
        ground (arith, has_topic-append last.topic pre (last ∷ mid), bytes_eq_refl last.topic),
        Harmless-leave t done live after e p same stale h,
      );
      remains = λ s. without-leave t done live after e p same s d;
    }

Round-present :
    (t : Bytes) (done : List Bytes) (live stale : List Subscription)
    → DistinctTopics live
    → All (Harmless done live) stale
    → Found t live
    → Round t done live stale
Round-present t done live stale d h f =
    subst (λ l. Round t done l stale) (sym f.whole)
      (split_behind (subst DistinctTopics f.whole d)
        (subst (λ l. All (Harmless done l) stale) f.whole h) (last-cases f.behind))
  where
    split_behind :
        DistinctTopics (f.before ++ f.entry ∷ f.behind)
        → All (Harmless done (f.before ++ f.entry ∷ f.behind)) stale
        → (f.behind ≡ [])
          ⊎ ((mid : List Subscription) × (last : Subscription) × (f.behind ≡ mid ++ last ∷ []))
        → Round t done (f.before ++ f.entry ∷ f.behind) stale
    split_behind d' h' (inl e) =
        rw e (Round-last t done f.before stale f.entry (rw e at d') (rw e at h') f.earlier f.here)
    split_behind d' h' (inr (mid, last, e)) = rw e (
        Round-moved t done f.before mid stale f.entry last (rw e at d') (rw e at h') f.earlier
          f.here)

round :
    (t : Bytes) (done : List Bytes) (live stale : List Subscription)
    → has_name t done ≡ false
    → DistinctTopics live
    → All (Harmless done live) stale
    → Round t done live stale
round t done live stale n d h = elim (Bool-cases (has_topic t live)) [
  | inl e ↦ Round-present t done live stale d h (has_topic-Found t live e)
  | inr e ↦ Round-absent t done live stale n d h e
]

-- Names still to come are not done with.
abbrev Fresh : List Bytes → List Bytes → Type 0
Fresh done = All (λ t. has_name t done ≡ false)

Fresh-cons :
    (t : Bytes) (done s : List Bytes) → has_name t s ≡ false → Fresh done s → Fresh (t ∷ done) s
Fresh-cons t done [] n f = tt
Fresh-cons t done (u ∷ s) n (f, fs) =
    (ground (arith, bytes_eq_comm t u), Fresh-cons t done s (ground arith) fs)

without-nil : (d : List Subscription) → without [] d ≡ d
without-nil [] = refl
without-nil (e ∷ d) = ap (λ r. e ∷ r) (without-nil d)

rounds :
    (s done : List Bytes) (live stale : List Subscription)
    → DistinctNames s
    → Fresh done s
    → DistinctTopics live
    → All (Harmless done live) stale
    → (out rest : List Subscription) × (remove_topics s (length live) (live ++ stale)
        ≡ ok (length out, out ++ rest))
      × DistinctTopics out
      × Permᴰ (without s live) out
unfolding remove_topics
rounds [] done live stale n f d h =
    (live, stale, refl, d, subst (λ r. Permᴰ r live) (sym (without-nil live)) (PermD.refl live))
rounds (t ∷ s) done live stale (n, ns) (f, fs) d h =
    let r = round t done live stale f d h in
    let (out, rest, e, d', p) =
      rounds s (t ∷ done) r.live' r.stale' ns (Fresh-cons t done s n fs) r.distinct r.harmless in
    (out, rest, rw r.result e, d', Permᴰ.trans (r.remains s) p)

fresh : (s : List Bytes) → Fresh [] s
fresh [] = tt
fresh (t ∷ s) = (refl, fresh s)

-- For distinct topics, and a list in which no topic stands twice, `applyTo` of unsubscriptions does
-- not panic: it leaves, in some order, exactly the subscriptions whose topics are not among
-- those given, and again no topic stands twice.
pub unsubscribe_from-perm :
    (s : List Bytes) (d : List Subscription)
    → DistinctNames s
    → DistinctTopics d
    → (out : List Subscription) × (unsubscribe_from s d ≡ ok out)
      × DistinctTopics out
      × Perm (without s d) out
unfolding unsubscribe_from
unsubscribe_from-perm s d n h =
    let (out, rest, e, d', p) = rounds s [] d [] n (fresh s) h tt in
    (
      out,
      rw (subst (λ l. remove_topics s (length d) l ≡ ok (length out, out ++ rest)) (append-nil d) e)
          (ap ok (take-append out rest)),
      d',
      ∣ p ∣₁,
    )
