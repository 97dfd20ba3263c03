-- ===== src/Recovery/Restart.antt =====
-- One recovery and a second one after it.
use binbot.Base.{
  ◌≡◌, ◌≢◌, refl, sym, ap, ◌∙◌, ◌⊎◌, inl, inr, Bool, true, false, Option, none, some, String, [],
  ◌∷◌, ℤ, arith, if-cases, String_discrete,
}
use binbot.Float.{Float}
use binbot.Dict.{Dict, get, put, get-put_self, get-put_ne}
use binbot.Core.Events.{DateTime, Date, date}
use binbot.Risk.CircuitBreaker.{DrawdownCircuitBreaker, Snapshot, snapshot, restore, reset_session}
use binbot.Risk.Engine.{RiskEngine, update_position}
use binbot.Recovery.{
  StateRecoveryService, stored, read_snapshot, is_current, restore_or_reset,
  restore_circuit_breaker, persist, update_positions, recover,
}

module _ {F : Type 0} where
  abbrev breaker : StateRecoveryService F → DrawdownCircuitBreaker F
  breaker s = s.risk_engine.circuit_breaker

  update_positions-breaker :
      (ps : Dict ℤ) (e : RiskEngine F) → (update_positions ps e).circuit_breaker ≡ e.circuit_breaker
  unfolding update_positions update_position
  update_positions-breaker [] e = refl
  update_positions-breaker ((s, q) ∷ ps) e = update_positions-breaker ps (update_position s q e)

  -- The position of a symbol after the update is its own, or one that only the broker's answer decides.
  update_positions-cases :
      (ps : Dict ℤ) (s : String)
      → ((e : RiskEngine F) → get (update_positions ps e).positions s ≡ get e.positions s)
        ⊎ (q : ℤ) × ((e : RiskEngine F) → get (update_positions ps e).positions s ≡ some q)
  unfolding update_positions update_position
  update_positions-cases [] s = inl (λ e. refl)
  update_positions-cases ((j, q) ∷ ps) s = elim (update_positions-cases ps s) [
    | inl h ↦ elim (String_discrete j s) [
      | yes k ↦ inr (
        q,
        λ e.
            h (update_position j q e)
            ∙ ap (get (put e.positions j q)) (sym k)
            ∙ get-put_self e.positions j q,
      )
      | no k ↦ inl (λ e. h (update_position j q e) ∙ get-put_ne e.positions j s q k)
    ]
    | inr (q', h) ↦ inr (q', λ e. h (update_position j q e))
  ]

  update_positions-twice :
      (ps : Dict ℤ) (e : RiskEngine F) (b : DrawdownCircuitBreaker F) (s : String)
      → get
          (update_positions ps (record (update_positions ps e) { circuit_breaker = b })).positions
          s
        ≡ get (update_positions ps e).positions s
  update_positions-twice ps e b s = elim (update_positions-cases ps s) [
    | inl h ↦ h (record (update_positions ps e) { circuit_breaker = b })
    | inr (q, h) ↦ h (record (update_positions ps e) { circuit_breaker = b }) ∙ sym (h e)
  ]

module _ {F : Type 0} ⦃f : Float F⦄ where
  -- The breaker after a recovery, by what the file says.
  abbrev breaker_after : F → DateTime → DateTime → StateRecoveryService F → DrawdownCircuitBreaker F
  breaker_after equity now now' s =
      (restore_or_reset equity (date now) now' s.environment_id (read_snapshot s.disk)
        (breaker s)).1

  recover-breaker :
      (ps : Dict ℤ) (equity : F) (now now' : DateTime) (s : StateRecoveryService F)
      → breaker (recover ps equity now now' s).1 ≡ breaker_after equity now now' s
  unfolding recover restore_circuit_breaker persist
  recover-breaker ps equity now now' s =
      ap
        (λ b. (restore_or_reset equity (date now) now' s.environment_id (read_snapshot s.disk) b).1)
        (update_positions-breaker ps s.risk_engine)

  restore_or_reset-session_date :
      (equity : F) (today : Date) (now : DateTime) (id : String) (o : Option (Snapshot F × String))
      (b : DrawdownCircuitBreaker F)
      → date now ≡ today
      → (restore_or_reset equity today now id o b).1.session_date ≡ today
  unfolding restore reset_session
  restore_or_reset-session_date equity today now id none b e = e
  restore_or_reset-session_date equity today now id (some (s, environment)) b e = ground arith

  restored_same :
      (equity : F) (today : Date) (now : DateTime) (id : String) (b : DrawdownCircuitBreaker F)
      → b.session_date ≡ today
      → (restore_or_reset equity today now id (some (snapshot b, id)) b).1 ≡ b
  unfolding restore snapshot
  restored_same equity today now id b e =
      if-cases (λ (x : Bool × DrawdownCircuitBreaker F). x.1 ≡ b)
        (is_current today id (snapshot b) id) _ _
        (λ _. ap (λ d. record b { session_date = d }) (sym e)) (λ n. ground arith)

  -- A second recovery on the same day, whatever the equity then, leaves the circuit breaker, the file and every position
  -- as the first one did.
  pub recover_idempotent :
      (ps : Dict ℤ) (equity equity₂ : F) (now now' now₂ now₂' : DateTime)
      (s : StateRecoveryService F)
      → date now' ≡ date now
      → date now₂ ≡ date now
      → let s₁ = (recover ps equity now now' s).1 in
        let s₂ = (recover ps equity₂ now₂ now₂' s₁).1 in
        (breaker s₂ ≡ breaker s₁)
        × (s₂.disk ≡ s₁.disk)
        × ((j : String) → get s₂.risk_engine.positions j ≡ get s₁.risk_engine.positions j)
  unfolding recover restore_circuit_breaker persist
  recover_idempotent ps equity equity₂ now now' now₂ now₂' s e e₂ =
      let id = s.environment_id in
      let e₁ = update_positions ps s.risk_engine in
      let b =
        (restore_or_reset equity (date now) now' id (read_snapshot s.disk) e₁.circuit_breaker).1 in
      let same =
        ap (λ x. (restore_or_reset equity₂ (date now₂) now₂' id (some (snapshot b, id)) x).1)
          (update_positions-breaker ps (record e₁ { circuit_breaker = b }))
        ∙ restored_same equity₂ (date now₂) now₂' id b (
            restore_or_reset-session_date equity (date now) now' id (read_snapshot s.disk)
              e₁.circuit_breaker e
            ∙ sym e₂) in
      (same, ap (λ x. stored (snapshot x) id) same, update_positions-twice ps s.risk_engine b)

  restore_or_reset-current :
      (equity : F) (today : Date) (now : DateTime) (id : String) (o : Option (Snapshot F × String))
      (x : Snapshot F) (b : DrawdownCircuitBreaker F)
      → o ≡ some (x, id)
      → x.session_date ≡ today
      → let (restored, b') = restore_or_reset equity today now id o b in
        (restored ≡ true)
        × (b'.halted ≡ x.halted)
        × (b'.halt_reason ≡ x.halt_reason)
        × (b'.starting_equity ≡ x.starting_equity)
        × (b'.peak_equity ≡ x.peak_equity)
  unfolding restore reset_session
  restore_or_reset-current equity today now id none x b h e = ground arith
  restore_or_reset-current equity today now id (some (s, environment)) x b h e = ground arith

  restore_or_reset-other :
      (equity : F) (today : Date) (now : DateTime) (id : String) (o : Option (Snapshot F × String))
      (b : DrawdownCircuitBreaker F)
      → ((x : Snapshot F) (environment : String)
          → o ≡ some (x, environment)
          → (x.session_date ≢ today) ⊎ (environment ≢ id))
      → let (restored, b') = restore_or_reset equity today now id o b in
        (restored ≡ false)
        × (b'.halted ≡ false)
        × (b'.starting_equity ≡ equity)
        × (b'.peak_equity ≡ equity)
  unfolding restore reset_session
  restore_or_reset-other equity today now id none b h = (refl, refl, refl, refl)
  restore_or_reset-other equity today now id (some (s, environment)) b h =
      ground (arith, h s environment refl)

  -- A recovery takes over the session of the file, with a halt in it, if that is of today and of this environment;
  -- otherwise it starts one at the present equity that is not halted.
  pub recover_by_snapshot :
      (ps : Dict ℤ) (equity : F) (now now' : DateTime) (s : StateRecoveryService F)
      → let (result, s') = recover ps equity now now' s in
        ((x : Snapshot F)
          → read_snapshot s.disk ≡ some (x, s.environment_id)
          → x.session_date ≡ date now
          → (result.circuit_breaker_restored_from_disk ≡ true)
            × (result.circuit_breaker_halted ≡ x.halted)
            × ((breaker s').halt_reason ≡ x.halt_reason)
            × ((breaker s').starting_equity ≡ x.starting_equity)
            × ((breaker s').peak_equity ≡ x.peak_equity))
        × (((x : Snapshot F) (id : String)
              → read_snapshot s.disk ≡ some (x, id)
              → (x.session_date ≢ date now) ⊎ (id ≢ s.environment_id))
            → (result.circuit_breaker_restored_from_disk ≡ false)
              × (result.circuit_breaker_halted ≡ false)
              × ((breaker s').starting_equity ≡ equity)
              × ((breaker s').peak_equity ≡ equity))
  unfolding recover restore_circuit_breaker persist restore reset_session
  recover_by_snapshot ps equity now now' s =
      let e₁ = update_positions ps s.risk_engine in
      (
        λ x h e.
            restore_or_reset-current equity (date now) now' s.environment_id (read_snapshot s.disk)
              x e₁.circuit_breaker h e,
        λ h.
            restore_or_reset-other equity (date now) now' s.environment_id (read_snapshot s.disk)
              e₁.circuit_breaker h,
      )
