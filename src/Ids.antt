-- ===== src/Ids.antt =====
-- uniqid.go: packet identifiers. `idLast` is a uint32; the random number of initID is a parameter.
pub mod Cycle
use mqtt_go.Base.{ℕ, zero, suc, ◌+◌, ◌^◌, ◌%◌, Option, none, some, ◌==◌, if◌then◌else◌}
use mqtt_go.Base.Bits.{uint16}

-- `initID`, where `r` is what rand.Int31n returned.
unfoldable pub init_id : ℕ → ℕ
init_id r = (r + 1) % 2 ^ 32

-- `newID` on `idLast`: the identifier and the new `idLast`. The fuel bounds the recursive calls.
unfoldable pub new_id : ℕ → ℕ → Option (ℕ × ℕ)
new_id zero id_last = none
new_id (suc fuel) id_last =
    let next = (id_last + 1) % 2 ^ 32 in
    let id = uint16 next in
    let again = new_id fuel next in if id == 0 then again else some (id, next)
