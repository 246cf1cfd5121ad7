-- ===== src/Service/Admitted.antt =====
-- Approving, submitting and rejecting keep one transmission for one request.
use alm_trading.Base.{
  ℕ, String, ◌≡◌, inl, inr, refl, sym, subst, ◌∙◌, str_eq_iff, false, Option, some, List, [], ◌∷◌,
  arith, Bool-cases, Result, ok, raise,
}
use alm_trading.Float.{Float}
use alm_trading.Order.{DemoOrderRequest}
use alm_trading.Mode.{ModeDecision, resolve}
use alm_trading.Lifecycle.{ExecutionLifecycle}
use alm_trading.Gates.{DemoExecutionContext, GateChainDecision}
use alm_trading.Approval.{ExecutionProposal, ManualApprovalQueue, is_proposed, find, get}
use alm_trading.Approval.Queue.{approve as approve_proposal}
use alm_trading.Approval.Approved.{find-All, find-id, IsAccepted, approve-IsAccepted}
use alm_trading.KillSwitch.{ExecutionKillSwitch, KillSwitchEvent}
use alm_trading.Service.Proposed.{Once, Follows, IsAdmitted, propose-Once}
use alm_trading.Service.{DemoService, DemoExecutionOutcome, World}
use alm_trading.Service.Propose.{propose}
use alm_trading.Service.Shutdown.{released}
use alm_trading.Service.Transmit.{transmit}
use alm_trading.Service.Submit.{
  approve, approve_answered, reject, reject_answered, submit, submit_proposed, submit_approved,
  admit, admitted, approve_lifecycle, outcome_approved, is_automated,
}
use alm_trading.Service.Once.{sent_for, IsKeyed}
use alm_trading.Service.Sends.{OnceFor, IsReady, transmit-OnceFor}
use alm_trading.Service.Queued.{approve-IsOnce, reject-IsOnce}

approve_lifecycle-moved :
    (l : ExecutionLifecycle) (actor : String) (reasons : List String) (now : ℕ)
    → is_proposed (approve_lifecycle l actor reasons now).state ≡ false
unfolding approve_lifecycle
approve_lifecycle-moved l actor reasons now = ground arith

module _ {ℓ} {F : Type ℓ} where
  pub admitted-moved :
      (s : DemoService F) (key actor : String) (reasons : List String) (now : ℕ)
      → is_proposed (admitted s key actor reasons now).state ≡ false
  unfolding admitted
  admitted-moved s key actor reasons now = approve_lifecycle-moved _ actor reasons now

  -- a proposal under its own request, read the other way
  IsNamed : ExecutionProposal F → Type 0
  IsNamed p = p.request.request_id ≡ p.proposal_id

  admit-OnceFor :
      (id : String) (s : DemoService F) (l : ExecutionLifecycle)
      → OnceFor id s
      → OnceFor id (admit s l)
  unfolding admit
  admit-OnceFor id s l h = h

module _ {ℓ} {F : Type ℓ} ⦃f : Float F⦄ where
  -- what an approval that returns leaves
  pub accepted-IsReady :
      (s : DemoService F) (q : ManualApprovalQueue F) (id by reason : String) (now : ℕ)
      (p : ExecutionProposal F) (l : ExecutionLifecycle)
      → IsAccepted id by reason now s.approvals q p
      → is_proposed l.state ≡ false
      → Once s
      → IsReady (admit (record s { approvals = q }) l) p.request p l
  unfolding admit get Once IsNamed
  accepted-IsReady s q id by reason now p l a moved h =
      let before = a.before in
      let same = sym a.after in
      let own : id ≡ before.proposal_id =
        (str_eq_iff id before.proposal_id).0 (find-id id s.approvals.proposals before a.held) in
      let keyed : IsKeyed before =
        find-All IsKeyed id s.approvals.proposals before (h id).keyed a.held in
      let quiet : sent_for before.request.request_id s.client.sent ≡ 0 =
        subst (λ x. sent_for x s.client.sent ≡ 0) (own ∙ keyed)
          ((h id).waiting before a.held a.proposed) in
      record {
        held_proposal = p;
        held = subst (λ x. find x.proposal_id q.proposals ≡ some p) same a.kept;
        named = subst IsNamed same (sym keyed);
        fresh = subst (λ x. sent_for x.request.request_id s.client.sent ≡ 0) same quiet;
        moved = moved;
      }

  approve_answered-Once :
      (s : DemoService F) (w : World F) (q : ManualApprovalQueue F) (id by reason : String)
      (now : ℕ) (out : Result (ExecutionProposal F))
      → approve_proposal id by reason now s.approvals ≡ (q, out)
      → Once s
      → Once (record s { approvals = q })
      → Once (approve_answered (record s { approvals = q }) w by reason out).0
  unfolding approve_answered Once
  approve_answered-Once s w q id by reason now (raise e) same h h' = h'
  approve_answered-Once s w q id by reason now (ok p) same h h' =
      let s' = record s { approvals = q } in
      let l = admitted s' p.request.request_id by (reason ∷ []) w.now in
      let moved = admitted-moved s' p.request.request_id by (reason ∷ []) w.now in
      let ready =
        accepted-IsReady s q id by reason now p l
          (approve-IsAccepted id by reason now s.approvals q p same) moved h in
      λ key.
        transmit-OnceFor key (admit s' l) w p.request p.decision p l by ready
          (admit-OnceFor key s' l (h' key))

  pub approve-Once :
      (s : DemoService F) (w : World F) (id by reason : String) (now : ℕ)
      → Once s
      → Once (approve s w id by reason now).0
  unfolding approve Once
  approve-Once s w id by reason now h =
      approve_answered-Once s w _ id by reason now _ refl h
        (λ key. approve-IsOnce key id by reason now s.client.sent s.registry s.approvals (h key))

  transmit_admitted-Once :
      (s : DemoService F) (w : World F) (request : DemoOrderRequest F) (o : DemoExecutionOutcome F)
      (l : ExecutionLifecycle) (a : IsAdmitted s request o)
      → IsReady (admit s l) request a.proposal l
      → (d : Option GateChainDecision) (p : Option (ExecutionProposal F)) → d ≡ some a.decision
      → p ≡ some a.proposal
      → Once s
      → Once (transmit (admit s l) w request d p l "automation").0
  unfolding Once
  transmit_admitted-Once s w request o l a ready d p e q h id =
      subst (λ x. OnceFor id (transmit (admit s l) w request x p l "automation").0) (sym e)
        (subst
          (λ x. OnceFor id (transmit (admit s l) w request (some a.decision) x l "automation").0)
          (sym q)
          (transmit-OnceFor id (admit s l) w request a.decision a.proposal l "automation" ready
            (admit-OnceFor id s l (h id))))

  submit_approved-Once :
      (s : DemoService F) (w : World F) (request : DemoOrderRequest F) (o : DemoExecutionOutcome F)
      (mode : Result ModeDecision)
      → IsAdmitted s request o
      → Once s
      → Once (submit_approved s w request o mode).0
  unfolding submit_approved admit Once
  submit_approved-Once s w request o (raise e) a h = h
  submit_approved-Once s w request o (ok mode) a h = elim (Bool-cases (is_automated mode.mode)) [
    | inr other ↦ elim (Bool-cases mode.requires_human_approval) [
      | inl manual ↦ rw (other, manual, submit_approved) h
      | inr neither ↦ rw (other, neither, submit_approved) h
    ]
    | inl automatic ↦
        let l = admitted s request.request_id "automation" [] w.now in
        let ready : IsReady (admit s l) request a.proposal l = record {
          held_proposal = a.proposal;
          held = a.held;
          named = a.named;
          fresh = a.fresh;
          moved = admitted-moved s request.request_id "automation" [] w.now;
        } in
        rw (automatic, submit_approved)
          (transmit_admitted-Once s w request o l a ready o.decision o.proposal a.decided a.proposed
            h)
  ]

  submit_proposed-Once :
      (s : DemoService F) (w : World F) (request : DemoOrderRequest F)
      (out : Result (DemoExecutionOutcome F))
      → Follows s request out
      → Once s
      → Once (submit_proposed s w request out).0
  unfolding submit_proposed Follows
  submit_proposed-Once s w request (raise e) a h = h
  submit_proposed-Once s w request (ok o) a h = elim (Bool-cases (outcome_approved o.decision)) [
    | inr refused ↦ rw (refused, submit_proposed) h
    | inl approved ↦
        rw (approved, submit_proposed)
          (submit_approved-Once s w request o (resolve s.default_mode s.settings) (a approved) h)
  ]

  pub submit-Once :
      (s : DemoService F) (w : World F) (request : DemoOrderRequest F)
      (o : Option (DemoExecutionContext F))
      → Once s
      → Once (submit s w request o).0
  unfolding submit
  submit-Once s w request o h =
      let proposed = propose-Once s w request o h in
      submit_proposed-Once (propose s w request o).0 w request _ proposed.1 proposed.0

  reject_answered-Once :
      (s : DemoService F) (w : World F) (reason actor : String) (out : Result (ExecutionProposal F))
      → Once s
      → Once (reject_answered s w reason actor out).0
  unfolding reject_answered Once
  reject_answered-Once s w reason actor (raise e) h = h
  reject_answered-Once s w reason actor (ok p) h = h

  pub reject-Once :
      (s : DemoService F) (w : World F) (id reason actor : String)
      → Once s
      → Once (reject s w id reason actor).0
  unfolding reject Once
  reject-Once s w id reason actor h =
      reject_answered-Once _ w reason actor _
        (λ key. reject-IsOnce key id reason w.now s.client.sent s.registry s.approvals (h key))

  pub released-Once :
      (s : DemoService F) (out : Result (ExecutionKillSwitch × KillSwitchEvent))
      → Once s
      → Once (released s out).0
  unfolding released Once
  released-Once s (raise e) h = h
  released-Once s (ok out) h = h
