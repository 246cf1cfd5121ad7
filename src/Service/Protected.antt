-- ===== src/Service/Protected.antt =====
-- After a failed reconciliation: the switch is engaged and the breaker is open.
use alm_trading.Base.{
  ℕ, ◌+◌, String, ◌≡◌, ◌≢◌, inl, inr, refl, sym, subst, ap, ◌∙◌, Bool, true, Option, none, some, [],
  arith, Bool-cases, Result, ok, raise, ltb, dedup-nil, append-nil_right,
}
use alm_trading.Float.{Float}
use alm_trading.Order.{DemoOrderRequest}
use alm_trading.Lifecycle.{ExecutionLifecycle}
use alm_trading.KillSwitch.{ExecutionKillSwitch}
use alm_trading.Breaker.{
  BreakerSignals, BreakerTrigger, trigger_eq, CircuitBreaker, is_open, fires_if, given_and,
}
use alm_trading.Breaker.Trip.{fired, evaluate}
use alm_trading.Breaker.Recovery.{check-opens}
use alm_trading.Gates.{GateChainDecision}
use alm_trading.Approval.{ExecutionProposal}
use alm_trading.Client.{ExecutionClient, OrderResult, ExecutionStatus}
use alm_trading.Reconcile.{ReconciliationRecord, ReconciliationStatus}
use alm_trading.Service.{DemoService, DemoExecutionOutcome, World}
use alm_trading.Service.Shutdown.{
  emergency_signals, breaker_signals, shut_down, trip_breaker, check_emergency,
}
use alm_trading.Service.Sends.{transmit-send}
use alm_trading.Service.Transmit.{
  is_failure, one_if, begin, counted, protected, settle, refuse, finish, send, transmit,
}

counts_up : (n : ℕ) (b : Bool) → b ≡ true → ltb 0 (n + one_if b) ≡ true
counts_up n b h = ground arith

module _ {ℓ} {F : Type ℓ} where
  -- what an outcome with a failed reconciliation leaves
  IsStopped : DemoService F → Option ReconciliationRecord → Type 0
  IsStopped s none = Unit
  IsStopped s (some r) =
      is_failure r.status ≡ true → (s.switch.engaged ≡ true) × (is_open s.breaker ≡ true)

  IsStoppedResult : DemoService F → Result (DemoExecutionOutcome F) → Type 0
  unfolding IsStopped
  IsStoppedResult s (raise e) = Unit
  IsStoppedResult s (ok o) = IsStopped s o.reconciliation

module _ {ℓ} {F : Type ℓ} ⦃f : Float F⦄ where
  open f use {lt, le, mul}

  evaluate-reconciliation :
      (b : CircuitBreaker F) (s : BreakerSignals F)
      → ltb 0 s.reconciliation_failures ≡ true
      → evaluate b s ≢ []
  unfolding evaluate fired
  evaluate-reconciliation b s h e =
      let quiet = dedup-nil (fired b s) e in
      let second =
        append-nil_right
          (fires_if (given_and (le b.limits.max_daily_loss) s.daily_drawdown)
            BreakerTrigger.daily_loss_exceeded)
          _ quiet in
      let third =
        append-nil_right
          (fires_if (given_and (le b.limits.max_total_drawdown) s.total_drawdown)
            BreakerTrigger.drawdown_exceeded)
          _ second in
      ground arith

  -- where the breaker is enabled and a reconciliation has failed, both stop execution
  check_emergency-stops :
      (s : DemoService F) (w : World F)
      → s.breaker.enabled ≡ true
      → ltb 0 s.reconciliation_failures ≡ true
      → ((check_emergency s w).0.switch.engaged ≡ true)
        × (is_open (check_emergency s w).0.breaker ≡ true)
  unfolding check_emergency trip_breaker breaker_signals emergency_signals
  check_emergency-stops s w on failed =
      let signals = emergency_signals s w in
      let stopped =
        (check-opens (breaker_signals s signals) "circuit_breaker" w.now s.breaker
            (shut_down s w signals).0).0
          on (evaluate-reconciliation s.breaker (breaker_signals s signals) failed) in
      (stopped.2, stopped.0)

  protected-check :
      (s : DemoService F) (w : World F) (reconciled : ReconciliationStatus)
      → is_failure reconciled ≡ true
      → protected s w reconciled ≡ (check_emergency s w).0
  unfolding protected
  protected-check s w reconciled failed = ground arith

  protected-stops :
      (s : DemoService F) (w : World F) (status : ExecutionStatus)
      (reconciled : ReconciliationStatus)
      → s.breaker.enabled ≡ true
      → is_failure reconciled ≡ true
      → let safe = protected (counted s status reconciled) w reconciled in
        (safe.switch.engaged ≡ true) × (is_open safe.breaker ≡ true)
  unfolding counted
  protected-stops s w status reconciled on failed =
      let t = counted s status reconciled in
      subst (λ x. (x.switch.engaged ≡ true) × (is_open x.breaker ≡ true))
        (sym (protected-check t w reconciled failed))
        (check_emergency-stops t w on
          (counts_up s.reconciliation_failures (is_failure reconciled) failed))

  finish-IsStopped :
      (s : DemoService F) (w : World F) (request : DemoOrderRequest F) (d : GateChainDecision)
      (p : Option (ExecutionProposal F)) (l : ExecutionLifecycle) (actor : String)
      (out : Result (ExecutionClient F × OrderResult F))
      → s.breaker.enabled ≡ true
      → let (s', result) = finish s w request d p l actor out in IsStoppedResult s' result
  unfolding finish settle IsStopped IsStoppedResult
  finish-IsStopped s w request d p l actor (raise e) on = tt
  finish-IsStopped s w request d p l actor (ok (client, result)) on =
      protected-stops s w result.status _ on

  transmit-IsStopped :
      (s : DemoService F) (w : World F) (request : DemoOrderRequest F)
      (o : Option GateChainDecision) (p : Option (ExecutionProposal F)) (l : ExecutionLifecycle)
      (actor : String)
      → s.breaker.enabled ≡ true
      → let (s', result) = transmit s w request o p l actor in IsStoppedResult s' result
  unfolding transmit refuse send begin IsStopped IsStoppedResult
  transmit-IsStopped s w request none p l actor on = tt
  transmit-IsStopped s w request (some d) p l actor on = elim (Bool-cases d.approved) [
    | inr refused ↦ rw (refused, transmit) tt
    | inl approved ↦ elim (Bool-cases (is_open s.breaker)) [
      | inl opened ↦ rw (approved, opened, transmit) tt
      | inr closed ↦
          subst (λ x. IsStoppedResult x.0 x.1)
            (sym (transmit-send s w request d p l actor approved closed))
            (finish-IsStopped (begin s request l actor w.now) w request d p _ actor _ on)
    ]
  ]

  -- Where the breaker is enabled, a transmission whose reconciliation fails leaves the kill switch
  -- engaged and the breaker open.
  pub transmit-stops :
      (s s' : DemoService F) (w : World F) (request : DemoOrderRequest F)
      (d : Option GateChainDecision) (p : Option (ExecutionProposal F)) (l : ExecutionLifecycle)
      (actor : String) (o : DemoExecutionOutcome F) (r : ReconciliationRecord)
      → s.breaker.enabled ≡ true
      → transmit s w request d p l actor ≡ (s', ok o)
      → o.reconciliation ≡ some r
      → is_failure r.status ≡ true
      → (s'.switch.engaged ≡ true) × (is_open s'.breaker ≡ true)
  unfolding IsStopped IsStoppedResult
  transmit-stops s s' w request d p l actor o r on q e failed =
      let stopped =
        subst (λ x. IsStoppedResult x.0 x.1) q (transmit-IsStopped s w request d p l actor on) in
      subst (λ x. IsStopped s' x) e stopped failed

  finish-switch :
      (s t : DemoService F) (w : World F) (request : DemoOrderRequest F) (d : GateChainDecision)
      (p : Option (ExecutionProposal F)) (l : ExecutionLifecycle) (actor : String)
      (out : Result (ExecutionClient F × OrderResult F))
      → s.client ≡ t.client
      → (finish s w request d p l actor out).0.client
        ≡ (finish t w request d p l actor out).0.client
  unfolding finish settle
  finish-switch s t w request d p l actor (raise e) q = q
  finish-switch s t w request d p l actor (ok (client, result)) q = refl

  -- What a transmission sends and records with the client does not depend on the kill switch.
  pub transmit-switch :
      (s : DemoService F) (k : ExecutionKillSwitch) (w : World F) (request : DemoOrderRequest F)
      (o : Option GateChainDecision) (p : Option (ExecutionProposal F)) (l : ExecutionLifecycle)
      (actor : String)
      → (transmit (record s { switch = k }) w request o p l actor).0.client
        ≡ (transmit s w request o p l actor).0.client
  unfolding transmit refuse send begin
  transmit-switch s k w request none p l actor = refl
  transmit-switch s k w request (some d) p l actor = elim (Bool-cases d.approved) [
    | inr refused ↦ ground arith
    | inl approved ↦ elim (Bool-cases (is_open s.breaker)) [
      | inl opened ↦ ground arith
      | inr closed ↦
          let t = record s { switch = k } in
          ap (λ x. x.0.client) (transmit-send t w request d p l actor approved closed)
          ∙ (finish-switch (begin t request l actor w.now) (begin s request l actor w.now) w request
                d p _ actor _ refl
              ∙ ap (λ x. x.0.client) (sym (transmit-send s w request d p l actor approved closed)))
    ]
  ]
