-- ===== src/Subscriptions/Topics.antt =====
-- Topics in a list of subscriptions: which are there, what remains without some, and that neither
-- depends on the order.
use mqtt_go.Base.{
  ℕ, suc, ◌+◌, ◌≡◌, inl, inr, refl, sym, ap, ◌∙◌, Bool, true, false, ◌||◌, List, [], ◌∷◌, ◌++◌,
  length, if◌then◌else◌, arith, Bool-cases, none, some,
}
use mathlib.Core.Path.{subst, subst₂}
use mathlib.Core.List.{Permᴰ}
use mathlib.Core.List.Permᴰ as PermD
use mqtt_go.Base.Bits.{Bytes}
use mqtt_go.Message.{Subscription}
use mqtt_go.Filter.{bytes_eq}
use mqtt_go.Filter.Matching.{bytes_eq_iff}
use mqtt_go.Subscriptions.{find_topic}

abbrev pub has_topic : Bytes → List Subscription → Bool
has_topic t [] = false
has_topic t (e ∷ d) = bytes_eq e.topic t || has_topic t d

abbrev pub has_name : Bytes → List Bytes → Bool
has_name t [] = false
has_name t (u ∷ s) = bytes_eq u t || has_name t s

-- What remains of `d` without the topics of `s`.
abbrev pub without : List Bytes → List Subscription → List Subscription
without s [] = []
without s (e ∷ d) = let rest = without s d in if has_name e.topic s then rest else e ∷ rest

abbrev pub DistinctTopics : List Subscription → Type 0
DistinctTopics [] = Unit {0}
DistinctTopics (e ∷ d) = (has_topic e.topic d ≡ false) × DistinctTopics d

abbrev pub DistinctNames : List Bytes → Type 0
DistinctNames [] = Unit {0}
DistinctNames (t ∷ s) = (has_name t s ≡ false) × DistinctNames s

pub bytes_eq_comm : (s t : Bytes) → bytes_eq s t ≡ bytes_eq t s
unfolding bytes_eq
bytes_eq_comm [] [] = refl
bytes_eq_comm [] (y ∷ t) = refl
bytes_eq_comm (x ∷ s) [] = refl
bytes_eq_comm (x ∷ s) (y ∷ t) = ground (arith, bytes_eq_comm s t)

pub bytes_eq_refl : (s : Bytes) → bytes_eq s s ≡ true
bytes_eq_refl s = (bytes_eq_iff s s).1 refl

pub has_topic-append :
    (t : Bytes) (a b : List Subscription) → has_topic t (a ++ b) ≡ has_topic t a || has_topic t b
has_topic-append t [] b = refl
has_topic-append t (e ∷ a) b = ground (arith, has_topic-append t a b)

has_topic-swap :
    (t : Bytes) (a b : Subscription) (l : List Subscription)
    → has_topic t (a ∷ b ∷ l) ≡ has_topic t (b ∷ a ∷ l)
has_topic-swap t a b l = ground arith

pub has_topic-perm :
    (t : Bytes) {a b : List Subscription} → Permᴰ a b → has_topic t a ≡ has_topic t b
has_topic-perm t Permᴰ.nil = refl
has_topic-perm t (Permᴰ.cons {a} {b} {l₁} {l₂} e p) =
    subst (λ x. has_topic t (a ∷ l₁) ≡ has_topic t (x ∷ l₂)) e
      (ap (λ r. bytes_eq a.topic t || r) (has_topic-perm t p))
has_topic-perm t (Permᴰ.swap {a} {b} {l} e f) =
    subst₂ (λ x y. has_topic t (a ∷ b ∷ l) ≡ has_topic t (x ∷ y ∷ l)) f e (has_topic-swap t a b l)
has_topic-perm t (Permᴰ.trans p q) = has_topic-perm t p ∙ has_topic-perm t q

module _ {x y : List Subscription} (e : Subscription) (p : Permᴰ x y) where
  keep-perm : (b : Bool) → Permᴰ (if b then x else e ∷ x) (if b then y else e ∷ y)
  keep-perm true = p
  keep-perm false = Permᴰ.cons refl p

keep-swap :
    (a b : Subscription) (x : List Subscription) (p q : Bool)
    → Permᴰ
        (if p then (if q then x else b ∷ x) else a ∷ (if q then x else b ∷ x))
        (if q then (if p then x else a ∷ x) else b ∷ (if p then x else a ∷ x))
keep-swap a b x true true = PermD.refl x
keep-swap a b x true false = PermD.refl (b ∷ x)
keep-swap a b x false true = PermD.refl (a ∷ x)
keep-swap a b x false false = Permᴰ.swap refl refl

pub without-perm :
    (s : List Bytes) {a b : List Subscription} → Permᴰ a b → Permᴰ (without s a) (without s b)
without-perm s Permᴰ.nil = Permᴰ.nil
without-perm s (Permᴰ.cons {a} {b} {l₁} {l₂} e p) =
    subst (λ x. Permᴰ (without s (a ∷ l₁)) (without s (x ∷ l₂))) e
      (keep-perm a (without-perm s p) (has_name a.topic s))
without-perm s (Permᴰ.swap {a} {b} {l} e f) =
    subst₂ (λ x y. Permᴰ (without s (a ∷ b ∷ l)) (without s (x ∷ y ∷ l))) f e
      (keep-swap a b (without s l) (has_name a.topic s) (has_name b.topic s))
without-perm s (Permᴰ.trans p q) = Permᴰ.trans (without-perm s p) (without-perm s q)

DistinctTopics-swap :
    (a b : Subscription) (l : List Subscription)
    → DistinctTopics (a ∷ b ∷ l)
    → DistinctTopics (b ∷ a ∷ l)
DistinctTopics-swap a b l (p, (q, d)) =
    (ground (arith, bytes_eq_comm a.topic b.topic), (ground arith, d))

pub DistinctTopics-perm :
    {a b : List Subscription} → Permᴰ a b → DistinctTopics a → DistinctTopics b
DistinctTopics-perm Permᴰ.nil d = tt
DistinctTopics-perm (Permᴰ.cons {a} {b} {l₁} {l₂} e p) (h, d) =
    subst (λ x. DistinctTopics (x ∷ l₂)) e
      (sym (has_topic-perm a.topic p) ∙ h, DistinctTopics-perm p d)
DistinctTopics-perm (Permᴰ.swap {a} {b} {l} e f) d =
    subst₂ (λ x y. DistinctTopics (x ∷ y ∷ l)) f e (DistinctTopics-swap a b l d)
DistinctTopics-perm (Permᴰ.trans p q) d = DistinctTopics-perm q (DistinctTopics-perm p d)

pub find_topic-none :
    (i : ℕ) (t : Bytes) (d : List Subscription) → has_topic t d ≡ false → find_topic i t d ≡ none
unfolding find_topic
find_topic-none i t [] h = refl
find_topic-none i t (e ∷ d) h = ground (arith, find_topic-none (suc i) t d)

pub find_topic-some :
    (i : ℕ) (t : Bytes) (pre : List Subscription) (e : Subscription) (r : List Subscription)
    → has_topic t pre ≡ false
    → bytes_eq e.topic t ≡ true
    → find_topic i t (pre ++ e ∷ r) ≡ some (i + length pre)
unfolding find_topic
find_topic-some i t [] e r h k = ground arith
find_topic-some i t (x ∷ pre) e r h k = ground (arith, find_topic-some (suc i) t pre e r)

-- The first subscription to a topic, and what stands before and behind it.
pub record Found (t : Bytes) (d : List Subscription) : Type 0 where
  pub before : List Subscription
  pub entry : Subscription
  pub behind : List Subscription
  pub whole : d ≡ before ++ entry ∷ behind
  pub earlier : has_topic t before ≡ false
  pub here : bytes_eq entry.topic t ≡ true

pub has_topic-Found : (t : Bytes) (d : List Subscription) → has_topic t d ≡ true → Found t d
has_topic-Found t [] h = absurd (cc h)
has_topic-Found t (e ∷ d) h = elim (Bool-cases (bytes_eq e.topic t)) [
  | inl k ↦ record { before = []; entry = e; behind = d; whole = refl; earlier = refl; here = k }
  | inr k ↦
      let rest = has_topic-Found t d (ground arith) in
      record {
        before = e ∷ rest.before;
        entry = rest.entry;
        behind = rest.behind;
        whole = ap (λ x. e ∷ x) rest.whole;
        earlier = rw k rest.earlier;
        here = rest.here;
      }
]

-- One more topic to leave out, which none of `d` has.
pub without-absent :
    (t : Bytes) (s : List Bytes) (d : List Subscription)
    → has_topic t d ≡ false
    → without (t ∷ s) d ≡ without s d
without-absent t s [] h = refl
without-absent t s (e ∷ d) h = ground (arith, bytes_eq_comm e.topic t, without-absent t s d)
