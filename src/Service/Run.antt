-- ===== src/Service/Run.antt =====
-- Any run of the service: its calls as steps, and one transmission for one request through them.
use alm_trading.Base.{ℕ, ◌≤◌, String, ◌≡◌, refl, sym, subst, Option, [], arith, All}
use alm_trading.Float.{Float}
use alm_trading.Order.{DemoOrderRequest}
use alm_trading.Gates.{DemoExecutionContext}
use alm_trading.Approval.{find}
use alm_trading.Service.Proposed.{Once, propose-Once}
use alm_trading.Idempotency.{Lookup}
use alm_trading.Idempotency.Claims.{Remembers, check-Remembers}
use alm_trading.Service.Admitted.{approve-Once, submit-Once, reject-Once, released-Once}
use alm_trading.Service.{DemoService, World}
use alm_trading.Service.Propose.{propose}
use alm_trading.Service.Shutdown.{check_emergency, engage_kill_switch, release_kill_switch}
use alm_trading.Service.Submit.{approve, reject, submit}
use alm_trading.Service.Once.{sent_for, IsKeyed}

module _ {ℓ} {F : Type ℓ} ⦃f : Float F⦄ where
  -- A call of the service, with what it reads of the outside, or a change of the store.
  pub data Step : DemoService F → DemoService F → Type ℓ where
    proposes :
        (s : DemoService F) (w : World F) (request : DemoOrderRequest F)
        (o : Option (DemoExecutionContext F))
        → Step s (propose s w request o).0
    submits :
        (s : DemoService F) (w : World F) (request : DemoOrderRequest F)
        (o : Option (DemoExecutionContext F))
        → Step s (submit s w request o).0
    approves :
        (s : DemoService F) (w : World F) (id by reason : String) (now : ℕ)
        → Step s (approve s w id by reason now).0
    rejects :
        (s : DemoService F) (w : World F) (id reason actor : String)
        → Step s (reject s w id reason actor).0
    checks : (s : DemoService F) (w : World F) → Step s (check_emergency s w).0
    engages :
        (s : DemoService F) (reason actor : String) (now : ℕ)
        → Step s (engage_kill_switch s reason actor now)
    releases :
        (s : DemoService F) (reason actor : String) (now : ℕ)
        → Step s (release_kill_switch s reason actor now).0
    -- the store behind the registry, which the service and other processes write to
    stores :
        (s : DemoService F) (ask : Option (String → Lookup))
        → Remembers s.registry.repository ask
        → Step s (record s { registry = record s.registry { repository = ask } })

  -- Any sequence of calls.
  pub data Run : DemoService F → DemoService F → Type ℓ where
    idle : (s : DemoService F) → Run s s
    then_step : {s t u : DemoService F} → Run s t → Step t u → Run s u

  pub step-Once : {s t : DemoService F} → Step s t → Once s → Once t
  unfolding check_emergency engage_kill_switch release_kill_switch Once
  step-Once (Step.proposes s w request o) h = (propose-Once s w request o h).0
  step-Once (Step.submits s w request o) h = submit-Once s w request o h
  step-Once (Step.approves s w id by reason now) h = approve-Once s w id by reason now h
  step-Once (Step.rejects s w id reason actor) h = reject-Once s w id reason actor h
  step-Once (Step.checks s w) h = h
  step-Once (Step.engages s reason actor now) h = h
  step-Once (Step.stores s ask m) h = λ id. record {
    keyed = (h id).keyed;
    once = (h id).once;
    claimed = λ n. check-Remembers s.registry ask id m ((h id).claimed n);
    waiting = (h id).waiting;
  }
  step-Once (Step.releases s reason actor now) h = released-Once s _ h

  pub run-Once : {s t : DemoService F} → Run s t → Once s → Once t
  run-Once (Run.idle s) h = h
  run-Once (Run.then_step run step) h = step-Once step (run-Once run h)

  -- a service that has proposed and sent nothing
  pub fresh-Once : (s : DemoService F) → s.client.sent ≡ [] → s.approvals.proposals ≡ [] → Once s
  unfolding Once sent_for find
  fresh-Once s e q id = record {
    keyed = subst (λ x. All IsKeyed x) (sym q) tt;
    once = rw e (omega arith);
    claimed = λ n. absurd (ground arith);
    waiting = λ p w o. rw e refl;
  }

  -- Through any sequence of calls of a service that had proposed and sent nothing, and of changes
  -- of its store after which no identifier that had a row, or for which the store could not be
  -- asked, is answered to have none, at most one order is sent for a request.
  pub run-sent_once :
      {s t : DemoService F} (id : String)
      → s.client.sent ≡ []
      → s.approvals.proposals ≡ []
      → Run s t
      → sent_for id t.client.sent ≤ 1
  unfolding Once
  run-sent_once {s} id e q run = (run-Once run (fresh-Once s e q) id).once
