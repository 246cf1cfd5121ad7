-- ===== src/Service/Wire.antt =====
-- What the service promises of the wire: a list of identifiers without repetition, which grows only
-- while the breaker is closed, and at most by one in a call. The calls of the service refine it.
use alm_trading.Base.{
  ℕ, String, ◌≡◌, inl, inr, refl, sym, subst, ap, ◌∙◌, Bool, false, Option, some, List, [], ◌∷◌,
  ◌++◌, arith, Bool-cases, Result, ok, raise, mem, string_eq,
}
use alm_trading.Float.{Float}
use alm_trading.KillSwitch.{ExecutionKillSwitch, KillSwitchEvent}
use alm_trading.Order.{DemoOrderRequest}
use alm_trading.Mode.{ModeDecision, resolve}
use alm_trading.Lifecycle.{ExecutionLifecycle}
use alm_trading.Breaker.{is_open}
use alm_trading.Gates.{DemoExecutionContext, GateChainDecision}
use alm_trading.Approval.{ExecutionProposal, ManualApprovalQueue}
use alm_trading.Approval.Queue.{approve as approve_proposal}
use alm_trading.Approval.Approved.{approve-IsAccepted}
use alm_trading.Client.{Payload}
use alm_trading.Service.{DemoService, DemoExecutionOutcome, World}
use alm_trading.Service.Propose.{
  propose, propose_decided, propose_in, propose_resolved, record_decision,
}
use alm_trading.Service.Transmit.{transmit}
use alm_trading.Service.Submit.{
  approve, approve_answered, reject, reject_answered, submit, submit_proposed, submit_approved,
  admit, admitted, outcome_approved, is_automated,
}
use alm_trading.Service.Shutdown.{
  released, check_emergency, engage_kill_switch, release_kill_switch,
}
use alm_trading.Service.Once.{sent_for}
use alm_trading.Service.Sends.{transmit-sent}
use alm_trading.Service.Proposed.{Once, Follows, propose-Once}
use alm_trading.Service.Admitted.{admitted-moved, accepted-IsReady}
use alm_trading.Service.Run.{Step, Run, run-Once, fresh-Once}

-- a step of the wire, under an open or a closed breaker
pub data WireStep : Bool → List String → List String → Type 0 where
  stutters : (opened : Bool) (ids : List String) → WireStep opened ids ids
  adds :
      (ids : List String) (id : String) → mem id ids ≡ false → WireStep false ids (ids ++ (id ∷ []))

module _ {ℓ} {F : Type ℓ} where
  -- the requests that orders were sent for, in order
  unfoldable pub sent_ids : List (String × Payload F) → List String
  sent_ids [] = []
  sent_ids ((id, payload) ∷ rest) = id ∷ sent_ids rest

  sent_ids-append :
      (sent : List (String × Payload F)) (id : String) (x : Payload F)
      → sent_ids (sent ++ ((id, x) ∷ [])) ≡ sent_ids sent ++ (id ∷ [])
  unfolding sent_ids
  sent_ids-append [] id x = refl
  sent_ids-append ((k, y) ∷ rest) id x = ap (λ l. k ∷ l) (sent_ids-append rest id x)

  sent_for-mem :
      (id : String) (sent : List (String × Payload F))
      → sent_for id sent ≡ 0
      → mem id (sent_ids sent) ≡ false
  unfolding sent_ids sent_for
  sent_for-mem id [] h = refl
  sent_for-mem id ((k, y) ∷ rest) h = ground (arith, sent_for-mem id rest)

  -- how a call of the service may change the calls of `order_send`
  data Grows (s t : DemoService F) : Type ℓ where
    quiet : t.client.sent ≡ s.client.sent → Grows s t
    one :
        (id : String) (x : Payload F)
        → sent_for id s.client.sent ≡ 0
        → is_open s.breaker ≡ false
        → t.client.sent ≡ s.client.sent ++ ((id, x) ∷ [])
        → Grows s t

  Grows-WireStep :
      (s t : DemoService F)
      → Grows s t
      → WireStep (is_open s.breaker) (sent_ids s.client.sent) (sent_ids t.client.sent)
  Grows-WireStep s t (Grows.quiet e) =
      subst (λ x. WireStep (is_open s.breaker) (sent_ids s.client.sent) (sent_ids x)) (sym e)
        (WireStep.stutters _ _)
  Grows-WireStep s t (Grows.one id x fresh closed e) =
      subst (λ b. WireStep b (sent_ids s.client.sent) (sent_ids t.client.sent)) (sym closed)
        (subst (λ l. WireStep false (sent_ids s.client.sent) l)
          (sym (ap sent_ids e ∙ sent_ids-append s.client.sent id x))
          (WireStep.adds _ id (sent_for-mem id s.client.sent fresh)))

module _ {ℓ} {F : Type ℓ} ⦃f : Float F⦄ where
  transmit-Grows :
      (s : DemoService F) (w : World F) (request : DemoOrderRequest F)
      (o : Option GateChainDecision) (p : Option (ExecutionProposal F)) (l : ExecutionLifecycle)
      (actor : String)
      → sent_for request.request_id s.client.sent ≡ 0
      → Grows s (transmit s w request o p l actor).0
  transmit-Grows s w request o p l actor fresh = elim (transmit-sent s w request o p l actor) [
    | inl same ↦ Grows.quiet same
    | inr sent ↦ Grows.one request.request_id _ fresh sent.closed sent.appended
  ]

  propose_decided-same :
      (s : DemoService F) (w : World F) (request : DemoOrderRequest F)
      (out : Result GateChainDecision)
      → let t = (propose_decided s w request out).0 in
        (t.client ≡ s.client) × (t.breaker ≡ s.breaker)
  unfolding propose_decided record_decision
  propose_decided-same s w request (raise e) = (refl, refl)
  propose_decided-same s w request (ok d) = (refl, refl)

  propose_resolved-same :
      (s : DemoService F) (w : World F) (request : DemoOrderRequest F)
      (o : Option (DemoExecutionContext F)) (out : Result ModeDecision)
      → let t = (propose_resolved s w request o out).0 in
        (t.client ≡ s.client) × (t.breaker ≡ s.breaker)
  unfolding propose_resolved propose_in
  propose_resolved-same s w request o (raise e) = (refl, refl)
  propose_resolved-same s w request o (ok mode) = propose_decided-same _ w request _

  -- a proposal sends nothing and leaves the breaker as it is
  pub propose-same :
      (s : DemoService F) (w : World F) (request : DemoOrderRequest F)
      (o : Option (DemoExecutionContext F))
      → let t = (propose s w request o).0 in (t.client ≡ s.client) × (t.breaker ≡ s.breaker)
  unfolding propose
  propose-same s w request o = propose_resolved-same s w request o _

  -- `admit` and `approvals` are not read by what is sent
  admit-Grows :
      (s t : DemoService F) (q : ManualApprovalQueue F) (l : ExecutionLifecycle)
      → Grows (admit (record s { approvals = q }) l) t
      → Grows s t
  unfolding admit
  admit-Grows s t q l (Grows.quiet e) = Grows.quiet e
  admit-Grows s t q l (Grows.one id x fresh closed e) = Grows.one id x fresh closed e

  approve_answered-Grows :
      (s : DemoService F) (w : World F) (q : ManualApprovalQueue F) (id by reason : String)
      (now : ℕ) (out : Result (ExecutionProposal F))
      → approve_proposal id by reason now s.approvals ≡ (q, out)
      → Once s
      → Grows s (approve_answered (record s { approvals = q }) w by reason out).0
  unfolding approve_answered
  approve_answered-Grows s w q id by reason now (raise e) same h = Grows.quiet refl
  approve_answered-Grows s w q id by reason now (ok p) same h =
      let s' = record s { approvals = q } in
      let l = admitted s' p.request.request_id by (reason ∷ []) w.now in
      let moved = admitted-moved s' p.request.request_id by (reason ∷ []) w.now in
      let ready =
        accepted-IsReady s q id by reason now p l
          (approve-IsAccepted id by reason now s.approvals q p same) moved h in
      admit-Grows s _ q l
        (transmit-Grows (admit s' l) w p.request (some p.decision) (some p) l by ready.fresh)

  submit_approved-Grows :
      (s : DemoService F) (w : World F) (request : DemoOrderRequest F) (o : DemoExecutionOutcome F)
      (mode : Result ModeDecision)
      → sent_for request.request_id s.client.sent ≡ 0
      → Grows s (submit_approved s w request o mode).0
  unfolding submit_approved admit
  submit_approved-Grows s w request o (raise e) fresh = Grows.quiet refl
  submit_approved-Grows s w request o (ok mode) fresh = elim (Bool-cases (is_automated mode.mode)) [
    | inr other ↦ elim (Bool-cases mode.requires_human_approval) [
      | inl manual ↦ rw (other, manual, submit_approved) (Grows.quiet refl)
      | inr neither ↦ rw (other, neither, submit_approved) (Grows.quiet refl)
    ]
    | inl automatic ↦
        let l = admitted s request.request_id "automation" [] w.now in
        rw (automatic, submit_approved)
          (admit-Grows s _ s.approvals l
            (transmit-Grows (admit s l) w request o.decision o.proposal l "automation" fresh))
  ]

  submit_proposed-Grows :
      (s : DemoService F) (w : World F) (request : DemoOrderRequest F)
      (out : Result (DemoExecutionOutcome F))
      → Follows s request out
      → Grows s (submit_proposed s w request out).0
  unfolding submit_proposed Follows
  submit_proposed-Grows s w request (raise e) a = Grows.quiet refl
  submit_proposed-Grows s w request (ok o) a = elim (Bool-cases (outcome_approved o.decision)) [
    | inr refused ↦ rw (refused, submit_proposed) (Grows.quiet refl)
    | inl approved ↦
        rw (approved, submit_proposed)
          (submit_approved-Grows s w request o (resolve s.default_mode s.settings)
            (a approved).fresh)
  ]

  -- growth after a proposal is growth before it
  after-Grows :
      (s t u : DemoService F) → t.client ≡ s.client → t.breaker ≡ s.breaker → Grows t u → Grows s u
  after-Grows s t u c b (Grows.quiet e) = Grows.quiet (e ∙ ap (λ x. x.sent) c)
  after-Grows s t u c b (Grows.one id x fresh closed e) =
      Grows.one id x (subst (λ y. sent_for id y.sent ≡ 0) c fresh)
        (subst (λ y. is_open y ≡ false) b closed) (e ∙ ap (λ y. y.sent ++ ((id, x) ∷ [])) c)

  reject_answered-same :
      (s : DemoService F) (w : World F) (reason actor : String) (out : Result (ExecutionProposal F))
      → (reject_answered s w reason actor out).0.client ≡ s.client
  unfolding reject_answered
  reject_answered-same s w reason actor (raise e) = refl
  reject_answered-same s w reason actor (ok p) = refl

  released-same :
      (s : DemoService F) (out : Result (ExecutionKillSwitch × KillSwitchEvent))
      → (released s out).0.client ≡ s.client
  unfolding released
  released-same s (raise e) = refl
  released-same s (ok out) = refl

  step-Grows : {s t : DemoService F} → Step s t → Once s → Grows s t
  unfolding approve submit reject check_emergency engage_kill_switch release_kill_switch
  step-Grows (Step.proposes s w request o) h =
      Grows.quiet (ap (λ x. x.sent) (propose-same s w request o).0)
  step-Grows (Step.submits s w request o) h =
      let proposed = propose-same s w request o in
      after-Grows s (propose s w request o).0 _ proposed.0 proposed.1 (
        submit_proposed-Grows (propose s w request o).0 w request _
          (propose-Once s w request o h).1)
  step-Grows (Step.approves s w id by reason now) h =
      approve_answered-Grows s w _ id by reason now _ refl h
  step-Grows (Step.rejects s w id reason actor) h =
      Grows.quiet (ap (λ x. x.sent) (reject_answered-same _ w reason actor _))
  step-Grows (Step.checks s w) h = Grows.quiet refl
  step-Grows (Step.engages s reason actor now) h = Grows.quiet refl
  step-Grows (Step.stores s ask m) h = Grows.quiet refl
  step-Grows (Step.releases s reason actor now) h =
      Grows.quiet (ap (λ x. x.sent) (released-same s _))

  -- After any sequence of calls of a service that had proposed and sent nothing, and of changes of
  -- its store after which no identifier that had a row, or for which the store could not be asked,
  -- is answered to have none, the next call leaves the list of the requests that were sent as it
  -- is, or, only while the breaker is closed, adds one request that was not in it.
  pub run-WireStep :
      {s t u : DemoService F}
      → s.client.sent ≡ []
      → s.approvals.proposals ≡ []
      → Run s t
      → Step t u
      → WireStep (is_open t.breaker) (sent_ids t.client.sent) (sent_ids u.client.sent)
  run-WireStep {s} {t} {u} e q run step =
      Grows-WireStep t u (step-Grows step (run-Once run (fresh-Once s e q)))
