-- ===== src/Recovery.antt =====
-- utils/state_recovery.py: recovery after a restart. The file is one of the forms of `Disk`; json.dumps and
-- json.loads, float and date.fromisoformat are taken to give back what was written. The circuit breaker of the
-- service is the one of its risk engine, the shared object of the live script.
pub mod Restart
use binbot.Base.{
  ℕ, Bool, true, false, Option, none, some, String, List, [], ◌∷◌, ℤ, ◌==◌, ◌&&◌, str_eq,
  if◌then◌else◌,
}
use binbot.Float.{Float}
use binbot.Dict.{Dict}
use binbot.Core.Events.{DateTime, Date, date}
use binbot.Risk.CircuitBreaker.{DrawdownCircuitBreaker, Snapshot, snapshot, restore, reset_session}
use binbot.Risk.Engine.{RiskEngine, update_position}

pub record RecoveryResult (F : Type 0) : Type 0 where
  pub positions : Dict ℤ
  pub account_equity : F
  pub circuit_breaker_restored_from_disk : Bool
  pub circuit_breaker_halted : Bool

-- The file at `state_path`: absent, not readable as a snapshot, or a snapshot with its environment. A file whose JSON has
-- another shape, such as null, raises a TypeError that nothing catches; it is no case here, since persist writes none.
pub data Disk (F : Type 0) : Type 0 where
  missing : Disk F
  unreadable : Disk F
  stored : Snapshot F → String → Disk F

pub record StateRecoveryService (F : Type 0) : Type 0 where
  pub risk_engine : RiskEngine F
  pub disk : Disk F
  pub environment_id : String

module _ {F : Type 0} where
  -- `_read_snapshot`
  abbrev pub read_snapshot : Disk F → Option (Snapshot F × String)
  read_snapshot missing = none
  read_snapshot unreadable = none
  read_snapshot (stored s environment) = some (s, environment)

  -- The snapshot is of today and of this environment.
  abbrev pub is_current : Date → String → Snapshot F → String → Bool
  is_current today environment_id s environment =
      (s.session_date == today) && str_eq environment environment_id

  unfoldable pub persist : StateRecoveryService F → StateRecoveryService F
  persist s = record s { disk = stored (snapshot s.risk_engine.circuit_breaker) s.environment_id }

  unfoldable pub update_positions : Dict ℤ → RiskEngine F → RiskEngine F
  update_positions [] e = e
  update_positions ((symbol, quantity) ∷ positions) e =
      update_positions positions (update_position symbol quantity e)

module _ {F : Type 0} ⦃f : Float F⦄ where
  abbrev pub restore_or_reset :
      F
      → Date
      → DateTime
      → String
      → Option (Snapshot F × String)
      → DrawdownCircuitBreaker F
      → Bool × DrawdownCircuitBreaker F
  restore_or_reset equity today now environment_id none b = (false, reset_session equity none now b)
  restore_or_reset equity today now environment_id (some (s, environment)) b =
      if is_current today environment_id s environment
      then (true, restore (record s { session_date = today }) b)
      else (false, reset_session equity none now b)

  -- `_restore_circuit_breaker`, which reads the clock, as `reset_session` does after it.
  unfoldable pub restore_circuit_breaker :
      F → DateTime → DateTime → StateRecoveryService F → Bool × StateRecoveryService F
  restore_circuit_breaker equity now now' s =
      let (restored, b) =
        restore_or_reset equity (date now) now' s.environment_id (read_snapshot s.disk)
          s.risk_engine.circuit_breaker in
      (restored, record s { risk_engine = record s.risk_engine { circuit_breaker = b } })

  -- `recover`, on the broker's answers
  unfoldable pub recover :
      Dict ℤ
      → F
      → DateTime
      → DateTime
      → StateRecoveryService F
      → RecoveryResult F × StateRecoveryService F
  unfolding restore_circuit_breaker persist
  recover positions equity now now' s =
      let s₁ = record s { risk_engine = update_positions positions s.risk_engine } in
      let (restored, s₂) = restore_circuit_breaker equity now now' s₁ in
      (
        record {
          positions = positions;
          account_equity = equity;
          circuit_breaker_restored_from_disk = restored;
          circuit_breaker_halted = s₂.risk_engine.circuit_breaker.halted;
        },
        persist s₂,
      )
