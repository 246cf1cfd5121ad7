-- ===== src/Service/Proposed.antt =====
-- A proposal keeps one transmission for one request, and waits only where nothing was sent.
use alm_trading.Base.{String, ◌≡◌, refl, true, Option, none, some, Result, ok, raise}
use alm_trading.Float.{Float}
use alm_trading.Order.{DemoOrderRequest}
use alm_trading.Mode.{ModeDecision, mode_name}
use alm_trading.Idempotency.{check}
use alm_trading.Gates.{DemoExecutionContext, GateChainDecision}
use alm_trading.Gates.Chain.{evaluate}
use alm_trading.Gates.Approval.{evaluate-allowed}
use alm_trading.Approval.{ExecutionProposal, find}
use alm_trading.Approval.Queue.{propose as record_proposal}
use alm_trading.Approval.Approved.{find-put}
use alm_trading.Service.{DemoService, DemoExecutionOutcome, World}
use alm_trading.Service.Context.{build_context, gathered}
use alm_trading.Service.Propose.{
  propose, propose_decided, propose_in, propose_resolved, proposal_context, record_decision,
}
use alm_trading.Service.Submit.{outcome_approved}
use alm_trading.Service.Once.{sent_for}
use alm_trading.Service.Sends.{OnceFor}
use alm_trading.Service.Queued.{propose-IsOnce, allowed-fresh}

module _ {ℓ} {F : Type ℓ} where
  -- at most one call of `order_send` for every request
  unfoldable pub Once : DemoService F → Type ℓ
  Once s = (id : String) → OnceFor id s

  -- what an approved outcome of `propose` leaves in the service
  pub record IsAdmitted (s : DemoService F) (request : DemoOrderRequest F)
      (o : DemoExecutionOutcome F) : Type ℓ where
    pub decision : GateChainDecision
    pub proposal : ExecutionProposal F
    pub decided : o.decision ≡ some decision
    pub proposed : o.proposal ≡ some proposal
    pub held : find proposal.proposal_id s.approvals.proposals ≡ some proposal
    pub named : request.request_id ≡ proposal.proposal_id
    pub fresh : sent_for request.request_id s.client.sent ≡ 0

  unfoldable pub Follows :
      DemoService F → DemoOrderRequest F → Result (DemoExecutionOutcome F) → Type ℓ
  Follows s request (raise e) = Unit
  Follows s request (ok o) = outcome_approved o.decision ≡ true → IsAdmitted s request o

module _ {ℓ} {F : Type ℓ} ⦃f : Float F⦄ where
  propose_decided-Once :
      (s : DemoService F) (w : World F) (request : DemoOrderRequest F)
      (out : Result GateChainDecision)
      → ((d : GateChainDecision)
          → out ≡ ok d
          → d.approved ≡ true
          → sent_for request.request_id s.client.sent ≡ 0)
      → Once s
      → Once (propose_decided s w request out).0
        × Follows (propose_decided s w request out).0 request (propose_decided s w request out).1
  unfolding propose_decided record_decision Once Follows record_proposal
  propose_decided-Once s w request (raise e) fresh h = (h, tt)
  propose_decided-Once s w request (ok d) fresh h = (
    λ id.
        propose-IsOnce id request d request.timestamp (mode_name d.mode.mode) s.client.sent
          s.registry s.approvals (fresh d refl) (h id),
    λ approved. record {
      decision = d;
      proposal =
          (record_proposal request d request.timestamp (mode_name d.mode.mode) s.approvals).1;
      decided = refl;
      proposed = refl;
      held = find-put _ s.approvals.proposals;
      named = refl;
      fresh = fresh d refl approved;
    },
  )

  proposal_context-checked :
      (s : DemoService F) (w : World F) (request : DemoOrderRequest F) (mode : ModeDecision)
      (o : Option (DemoExecutionContext F))
      → (proposal_context s w request mode o).1.idempotency
        ≡ some (check s.registry request.request_id)
  unfolding proposal_context build_context gathered
  proposal_context-checked s w request mode (some c) = refl
  proposal_context-checked s w request mode none = refl

  propose_resolved-Once :
      (s : DemoService F) (w : World F) (request : DemoOrderRequest F)
      (o : Option (DemoExecutionContext F)) (out : Result ModeDecision)
      → Once s
      → let (s', result) = propose_resolved s w request o out in Once s' × Follows s' request result
  unfolding propose_resolved propose_in Once Follows
  propose_resolved-Once s w request o (raise e) h = (h, tt)
  propose_resolved-Once s w request o (ok mode) h =
      let c = proposal_context s w request mode o in
      propose_decided-Once (record s { daily = c.0 }) w request
        (evaluate s.chain s.switch request (some c.1) w.now)
        (λ d e approved.
          allowed-fresh request.request_id s.client.sent s.registry s.approvals
            (h request.request_id)
            (evaluate-allowed s.chain s.switch request c.1 w.now d _ e approved
              (proposal_context-checked s w request mode o)))
        h

  pub propose-Once :
      (s : DemoService F) (w : World F) (request : DemoOrderRequest F)
      (o : Option (DemoExecutionContext F))
      → Once s
      → let (s', result) = propose s w request o in Once s' × Follows s' request result
  unfolding propose
  propose-Once s w request o h = propose_resolved-Once s w request o _ h
