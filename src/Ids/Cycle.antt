-- ===== src/Ids/Cycle.antt =====
-- The identifiers that newID gives one after the other.
use mqtt_go.Base.{
  ℕ, zero, suc, ◌+◌, ◌^◌, ◌%◌, ◌≤◌, ◌<◌, ◌≡◌, ◌≢◌, Option, none, some, ◌==◌, if◌then◌else◌, arith,
  Bool-cases, inl, inr,
}
use mqtt_go.Ids.{init_id, new_id}

-- One recursive call is enough: from any uint32 the identifier that follows comes, or 1 after 65535.
pub new_id-next :
    (last : ℕ)
    → last < 2 ^ 32
    → (id last' : ℕ) × (new_id 2 last ≡ some (id, last'))
      × (last' < 2 ^ 32)
      × (last' % 65536 ≡ id)
      × (1 ≤ id)
      × (id ≡ (if last % 65536 == 65535 then 1 else last % 65536 + 1))
unfolding new_id
new_id-next last h = elim (Bool-cases (last % 65536 == 65535)) [
  | inl e ↦ (
    1,
    ((last + 1) % 2 ^ 32 + 1) % 2 ^ 32,
    ground arith,
    omega arith,
    ground arith,
    omega arith,
    ground arith,
  )
  | inr e ↦ (
    last % 65536 + 1,
    (last + 1) % 2 ^ 32,
    ground arith,
    omega arith,
    ground arith,
    omega arith,
    ground arith,
  )
]

-- What the call numbered `k`, from 0 on, gives.
abbrev pub nth_id : ℕ → ℕ → Option (ℕ × ℕ)
nth_id zero last = new_id 2 last
nth_id (suc k) last = elim (new_id 2 last) [ none ↦ none | some r ↦ nth_id k r.1 ]

nth_id-closed :
    (k last : ℕ)
    → last < 2 ^ 32
    → (id last' : ℕ) × (nth_id k last ≡ some (id, last')) × (id ≡ (last % 65536 + k) % 65535 + 1)
nth_id-closed zero last h =
    let (id, last', e, small, low, positive, next) = new_id-next last h in
    (id, last', e, ground arith)
nth_id-closed (suc k) last h =
    let (id, last', e, small, low, positive, next) = new_id-next last h in
    let (id', last'', e', closed) = nth_id-closed k last' small in
    (id', last'', rw (e, nth_id) e', ground arith)

-- From initID on, each call of newID returns, with an identifier that is not 0 and fits 16 bits; and
-- no two of 65535 calls in a row give the same one.
pub new_id-distinct :
    (r j k : ℕ)
    → r < 0xFFFE
    → j < k
    → k < j + 65535
    → (id id' last last' : ℕ) × (nth_id j (init_id r) ≡ some (id, last))
      × (nth_id k (init_id r) ≡ some (id', last'))
      × (1 ≤ id)
      × (id < 65536)
      × (id ≢ id')
unfolding init_id
new_id-distinct r j k h after_it near =
    let (id, last, e, closed) = nth_id-closed j (init_id r) (omega arith) in
    let (id', last', e', closed') = nth_id-closed k (init_id r) (omega arith) in
    (id, id', last, last', e, e', omega arith, omega arith, λ same. omega arith)
