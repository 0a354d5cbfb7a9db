-- ===== src/Serve/Balance.antt =====
-- An invariant of the reading loop: handing over at QoS 2 is paid for by PUBRECs.
use mqtt_go.Base.{
  ℕ, suc, ◌+◌, ◌≤◌, ◌≡◌, ◌≢◌, refl, sym, ap, ◌∙◌, Bool, true, false, ◌&&◌, List, [], ◌∷◌, Option,
  none, some, Map, lookup, delete, insert, lookup-insert, lookup-insert_other, lookup-delete,
  lookup-delete_other, ◌==◌, if◌then◌else◌, arith, ℕ_discrete,
}
use mathlib.Core.Path.{subst}
use mqtt_go.Base.Bits.{Bytes}
use mqtt_go.Base.Outcome.{ok, err, panic}
use mqtt_go.Errors.{Go}
use mqtt_go.Message.{Message}
use mqtt_go.Ack.{pack_pub_rec}
use mqtt_go.Filter.{bytes_eq}
use mqtt_go.Subscriptions.Topics.{bytes_eq_refl}
use mqtt_go.Serve.{Event, served, wrote, Server}

abbrev is_packed : Go Bytes → Bytes → Bool
is_packed (ok p) b = bytes_eq p b
is_packed (err e) b = false
is_packed panic b = false

-- How often the handler was called with a message of QoS 2 and this identifier.
abbrev pub handed_count : ℕ → List Event → ℕ
handed_count id [] = 0
handed_count id (served m ∷ l) =
    let rest = handed_count id l in if (m.qos == 2) && (m.id == id) then suc rest else rest
handed_count id (wrote b ∷ l) = handed_count id l

-- How many PUBRECs with this identifier were written.
abbrev pub rec_count : ℕ → List Event → ℕ
rec_count id [] = 0
rec_count id (served m ∷ l) = rec_count id l
rec_count id (wrote b ∷ l) =
    let rest = rec_count id l in
    if is_packed (pack_pub_rec (record { id = id })) b then suc rest else rest

abbrev held : Option Message → ℕ
held none = 0
held (some m) = 1

-- What is kept stands under its identifier and has QoS 2; and for every identifier, what was handed
-- over and what is kept do not exceed the PUBRECs.
pub record Balanced (kept : Map Message) (l : List Event) : Type 0 where
  pub keys : (id : ℕ) (m : Message) → lookup id kept ≡ some m → (m.qos ≡ 2) × (m.id ≡ id)
  pub balance : (id : ℕ) → handed_count id l + held (lookup id kept) ≤ rec_count id l

abbrev pub BalancedServer : Server → Type 0
BalancedServer s = Balanced s.sub_buffer s.trace

pub Balanced-start : Balanced [] []
unfolding lookup
Balanced-start = record { keys = λ id m k. cc; balance = λ id. omega arith }

rec_count-wrote :
    (id : ℕ) (b : Bytes) (l : List Event) → rec_count id l ≤ rec_count id (wrote b ∷ l)
rec_count-wrote id b l = ground arith

rec_count-packed :
    (id : ℕ) (b : Bytes) (l : List Event)
    → pack_pub_rec (record { id = id }) ≡ ok b
    → rec_count id (wrote b ∷ l) ≡ suc (rec_count id l)
rec_count-packed id b l e = rw e (rw (bytes_eq_refl b) refl)

module _ (kept : Map Message) (l : List Event) (h : Balanced kept l) where
  pub Balanced-wrote : (b : Bytes) → Balanced kept (wrote b ∷ l)
  Balanced-wrote b = record {
    keys = h.keys;
    balance = λ id. omega (arith, h.balance id, rec_count-wrote id b l);
  }

  -- The handler is called with a message of a lower QoS.
  pub Balanced-served_low : (m : Message) → m.qos ≢ 2 → Balanced kept (served m ∷ l)
  Balanced-served_low m low = record { keys = h.keys; balance = λ id. ground (arith, h.balance id) }

  -- PUBREC was sent, and the message is kept.
  pub Balanced-kept :
      (m : Message) (b : Bytes)
      → m.qos ≡ 2
      → pack_pub_rec (record { id = m.id }) ≡ ok b
      → Balanced (insert m.id m kept) (wrote b ∷ l)
  Balanced-kept m b two e = record {
    keys = λ id m' k. elim (ℕ_discrete m.id id) [
      | yes same ↦
          let found : some m ≡ some m' =
            sym (lookup-insert m.id m kept)
            ∙ subst (λ i. lookup i (insert m.id m kept) ≡ some m') (sym same) k in
          let it : m ≡ m' = cc in (sym (ap (λ x. x.qos) it) ∙ two, sym (ap (λ x. x.id) it) ∙ same)
      | no other ↦ h.keys id m' (sym (lookup-insert_other m.id id m kept other) ∙ k)
    ];
    balance = λ id. elim (ℕ_discrete m.id id) [
      | yes same ↦
          subst
            (λ i.
              handed_count i (wrote b ∷ l) + held (lookup i (insert m.id m kept))
              ≤ rec_count i (wrote b ∷ l))
            same
            (rw (lookup-insert m.id m kept)
              (omega (arith, h.balance m.id, rec_count-packed m.id b l e)))
      | no other ↦
          rw (lookup-insert_other m.id id m kept other)
            (omega (arith, h.balance id, rec_count-wrote id b l))
    ];
  }

  delete-keys :
      (id j : ℕ) (m : Message) → lookup j (delete id kept) ≡ some m → (m.qos ≡ 2) × (m.id ≡ j)
  delete-keys id j m k = elim (ℕ_discrete id j) [
    | yes same ↦
        let gone : lookup j (delete id kept) ≡ none =
          subst (λ i. lookup i (delete id kept) ≡ none) same (lookup-delete id kept) in
        cc
    | no other ↦ h.keys j m (sym (lookup-delete_other id j kept other) ∙ k)
  ]

  module _ (id : ℕ) (m : Message) (k : lookup id kept ≡ some m) where
    counted : handed_count id l + 1 ≤ rec_count id l
    counted = subst (λ o. handed_count id l + held o ≤ rec_count id l) k (h.balance id)

    -- The message kept for `id` is given up.
    Balanced-dropped : Balanced (delete id kept) l
    Balanced-dropped = record {
      keys = delete-keys id;
      balance = λ j. elim (ℕ_discrete id j) [
        | yes same ↦
            subst (λ i. handed_count i l + held (lookup i (delete id kept)) ≤ rec_count i l) same
              (rw (lookup-delete id kept) (omega (arith, counted)))
        | no other ↦ rw (lookup-delete_other id j kept other) (h.balance j)
      ];
    }

    -- The message kept for `id` is given up and handed over.
    Balanced-handed : Balanced (delete id kept) (served m ∷ l)
    Balanced-handed =
        let (two, same_id) = h.keys id m k in
        record {
          keys = delete-keys id;
          balance = λ j. elim (ℕ_discrete id j) [
            | yes same ↦
                subst
                  (λ i.
                    handed_count i (served m ∷ l) + held (lookup i (delete id kept))
                    ≤ rec_count i l)
                  same (rw (lookup-delete id kept) (ground (arith, counted, two, same_id)))
            | no other ↦
                rw (lookup-delete_other id j kept other) (ground (arith, h.balance j, two, same_id))
          ];
        }

    pub Balanced-released :
        (handler : Bool) → Balanced (delete id kept) (if handler then served m ∷ l else l)
    Balanced-released true = Balanced-handed
    Balanced-released false = Balanced-dropped
