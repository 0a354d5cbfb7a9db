-- ===== src/State/Delays.antt =====
-- The statistics of pings.
use mqtt_go.Base.{ℕ, suc, ◌≡◌, ◌≤◌, refl, List, [], ◌∷◌, All, ◌||◌, ltb, ◌==◌, if◌then◌else◌, arith}
use mqtt_go.State.{BaseStats, store_ping_delay, store_ping_error}

-- A ping that was answered after `d`, or failed.
pub data Ping : Type 0 where
  answered_ping : ℕ → Ping
  failed_ping : Ping

abbrev pub record_ping : Ping → BaseStats → BaseStats
record_ping (answered_ping d) s = store_ping_delay d s
record_ping failed_ping s = store_ping_error s

-- The pings of a list, the latest first.
abbrev pub record_pings : List Ping → BaseStats → BaseStats
record_pings [] s = s
record_pings (p ∷ ps) s = record_ping p (record_pings ps s)

abbrev pub delays : List Ping → List ℕ
delays [] = []
delays (answered_ping d ∷ ps) = d ∷ delays ps
delays (failed_ping ∷ ps) = delays ps

abbrev pub failures : List Ping → ℕ
failures [] = 0
failures (answered_ping d ∷ ps) = failures ps
failures (failed_ping ∷ ps) = suc (failures ps)

abbrev pub maximum : List ℕ → ℕ
maximum [] = 0
maximum (d ∷ ds) = let rest = maximum ds in if ltb rest d then d else rest

-- The least element; 0 for no elements.
abbrev pub minimum : List ℕ → ℕ
minimum [] = 0
minimum (d ∷ []) = d
minimum (d ∷ e ∷ ds) = let rest = minimum (e ∷ ds) in if ltb d rest then d else rest

abbrev IsPositive : ℕ → Type 0
IsPositive d = 1 ≤ d

abbrev pub no_pings : BaseStats
no_pings = record {
  ping_delay_recent = 0;
  ping_delay_max = 0;
  ping_delay_min = 0;
  count_ping_error = 0;
}

minimum-IsPositive :
    (d : ℕ) (ds : List ℕ) → IsPositive d → All IsPositive ds → IsPositive (minimum (d ∷ ds))
minimum-IsPositive d [] h hs = h
minimum-IsPositive d (e ∷ ds) h (he, hs) = ground (arith, minimum-IsPositive e ds he hs)

minimum-step :
    (d : ℕ) (ds : List ℕ)
    → All IsPositive ds
    → (if ltb d (minimum ds) || minimum ds == 0 then d else minimum ds) ≡ minimum (d ∷ ds)
minimum-step d [] hs = ground arith
minimum-step d (e ∷ ds) (he, hs) = ground (arith, minimum-IsPositive e ds he hs)

-- From no pings on, and with delays that are positive: the maximum, the minimum and the count of
-- failures are those of the pings that were made.
pub record_pings-exact :
    (ps : List Ping)
    → All IsPositive (delays ps)
    → ((record_pings ps no_pings).ping_delay_max ≡ maximum (delays ps))
      × ((record_pings ps no_pings).ping_delay_min ≡ minimum (delays ps))
      × ((record_pings ps no_pings).count_ping_error ≡ failures ps)
unfolding store_ping_delay store_ping_error
record_pings-exact [] h = (refl, refl, refl)
record_pings-exact (answered_ping d ∷ ps) (h, hs) =
    let (most, least, errors) = record_pings-exact ps hs in
    (rw most refl, rw least (minimum-step d (delays ps) hs), errors)
record_pings-exact (failed_ping ∷ ps) hs =
    let (most, least, errors) = record_pings-exact ps hs in (most, least, rw errors refl)
