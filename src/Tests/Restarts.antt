-- ===== src/Tests/Restarts.antt =====
-- utils/state_recovery.py at concrete inputs.
use binbot.Base.{◌≡◌, ◌≢◌, ◌⊎◌, refl, true, false, some, String, [], ◌∷◌, ℤ, pos, String_discrete}
use binbot.Float.Fixed.{fixed, units}
use binbot.Dict.{Dict, get}
use binbot.Core.Events.{DateTime, date}
use binbot.Risk.CircuitBreaker.{Snapshot, restore, reset_session, told}
use binbot.Risk.Engine.{update_position}
use binbot.Recovery.{
  StateRecoveryService, stored, read_snapshot, recover, restore_circuit_breaker, update_positions,
}
use binbot.Recovery.Restart.{recover_idempotent, recover_by_snapshot}
use binbot.Tests.Engine.{engine}

-- The day after the epoch, and a second later.
abbrev morning : DateTime
morning = 90000000000

abbrev later : DateTime
later = 90001000000

abbrev halted_today : Snapshot ℤ
halted_today = record {
  session_date = 1;
  starting_equity = units 900;
  peak_equity = units 950;
  halted = true;
  halt_reason = told "loss";
}

abbrev service : StateRecoveryService ℤ
service = record {
  risk_engine = engine;
  disk = stored halted_today "live:1";
  environment_id = "live:1";
}

abbrev held : Dict ℤ
held = ("ETHUSDT", pos 3) ∷ []

-- The halt of the morning is still there after a restart; for another account it is not.
halt_kept :
    ((recover held (units 800) morning later service).0.circuit_breaker_halted ≡ true)
    × ((recover held
          (units 800)
          morning
          later
          (record service { environment_id = "live:2" })).0.circuit_breaker_halted
        ≡ false)
unfolding recover restore_circuit_breaker update_positions update_position restore reset_session
    date String_discrete
halt_kept = (refl, refl)

recover_idempotent_example :
    let s₁ = (recover held (units 800) morning later service).1 in
    let s₂ = (recover held (units 790) later later s₁).1 in
    (s₂.risk_engine.circuit_breaker ≡ s₁.risk_engine.circuit_breaker)
    × (s₂.disk ≡ s₁.disk)
    × ((j : String) → get s₂.risk_engine.positions j ≡ get s₁.risk_engine.positions j)
unfolding date
recover_idempotent_example =
    recover_idempotent held (units 800) (units 790) morning later later later service refl refl

recover_by_snapshot_example :
    let (result, s') = recover held (units 800) morning later service in
    ((x : Snapshot ℤ)
      → read_snapshot service.disk ≡ some (x, "live:1")
      → x.session_date ≡ date morning
      → (result.circuit_breaker_restored_from_disk ≡ true)
        × (result.circuit_breaker_halted ≡ x.halted)
        × (s'.risk_engine.circuit_breaker.halt_reason ≡ x.halt_reason)
        × (s'.risk_engine.circuit_breaker.starting_equity ≡ x.starting_equity)
        × (s'.risk_engine.circuit_breaker.peak_equity ≡ x.peak_equity))
    × (((x : Snapshot ℤ) (id : String)
          → read_snapshot service.disk ≡ some (x, id)
          → (x.session_date ≢ date morning) ⊎ (id ≢ "live:1"))
        → (result.circuit_breaker_restored_from_disk ≡ false)
          × (result.circuit_breaker_halted ≡ false)
          × (s'.risk_engine.circuit_breaker.starting_equity ≡ units 800)
          × (s'.risk_engine.circuit_breaker.peak_equity ≡ units 800))
recover_by_snapshot_example = recover_by_snapshot held (units 800) morning later service
