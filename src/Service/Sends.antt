-- ===== src/Service/Sends.antt =====
-- What a transmission of the service sends, and that it keeps one transmission for one request.
use alm_trading.Base.{
  ℕ, String, ◌≡◌, ◌⊎◌, inl, inr, refl, sym, subst, ◌∙◌, true, false, Option, none, some, List, [],
  ◌∷◌, ◌++◌, arith, Bool-cases, Result, ok, raise, str_eq_iff, string_eq,
}
use alm_trading.Float.{Float}
use alm_trading.Order.{DemoOrderRequest, to_order_request}
use alm_trading.Lifecycle.{DemoExecutionState, ExecutionLifecycle, advance_if_allowed}
use alm_trading.Idempotency.{register}
use alm_trading.Breaker.{is_open}
use alm_trading.Gates.{GateChainDecision}
use alm_trading.Approval.{ExecutionProposal, ManualApprovalQueue, is_proposed, find, get, saved}
use alm_trading.Approval.Queue.{mark, mark_found}
use alm_trading.Approval.Approved.{find-All, find-id}
use alm_trading.Client.{
  ExecutionStatus, ExecutionClient, OrderResult, state_for_result, Payload, Terminal,
}
use alm_trading.Client.Send.{send_market_order, payload_of}
use alm_trading.Client.Sent.{IsPermitted, send_market_order-sent}
use alm_trading.Reconcile.{ReconciliationStatus, is_matched}
use alm_trading.Service.{DemoService, World}
use alm_trading.Service.Once.{sent_for, IsKeyed, IsOnce, saved-IsOnce, register-IsOnce, sent-IsOnce}
use alm_trading.Service.Transmit.{
  closing, mark_proposal, begin, counted, settle, refuse, finish, send, transmit,
}

advance-moved :
    (l : ExecutionLifecycle) (target : DemoExecutionState) (actor : String) (reasons : List String)
    (now : ℕ)
    → is_proposed l.state ≡ false
    → is_proposed target ≡ false
    → is_proposed (advance_if_allowed l target actor reasons now).state ≡ false
unfolding advance_if_allowed
advance-moved l target actor reasons now h k = ground arith

result-moved : (status : ExecutionStatus) → is_proposed (state_for_result status) ≡ false
unfolding state_for_result
result-moved ExecutionStatus.rejected = refl
result-moved ExecutionStatus.submitted = refl
result-moved ExecutionStatus.filled = refl
result-moved ExecutionStatus.partial = refl
result-moved ExecutionStatus.failed = refl
result-moved ExecutionStatus.blocked = refl

closing-moved :
    (l : ExecutionLifecycle) (status : ExecutionStatus) (reasons : List String)
    (reconciled : ReconciliationStatus) (actor : String) (now : ℕ)
    → is_proposed l.state ≡ false
    → is_proposed (closing l status reasons reconciled actor now).state ≡ false
unfolding closing
closing-moved l status reasons reconciled actor now h =
    let answered = advance_if_allowed l (state_for_result status) actor reasons now in
    let first =
      advance-moved l (state_for_result status) actor reasons now h (result-moved status) in
    elim (Bool-cases (is_matched reconciled)) [
      | inl agreed ↦
          rw (agreed, closing)
            (advance-moved answered DemoExecutionState.reconciled "reconciler" [] now first refl)
      | inr other ↦ rw (other, closing) first
    ]

module _ {ℓ} {F : Type ℓ} where
  -- at most one call of `order_send` for a request, in a state of the service
  abbrev pub OnceFor : String → DemoService F → Type ℓ
  OnceFor id s = IsOnce id s.client.sent s.registry s.approvals

  mark_proposal-held :
      (p p0 : ExecutionProposal F) (state : DemoExecutionState) (q : ManualApprovalQueue F)
      → find p.proposal_id q.proposals ≡ some p0
      → mark_proposal (some p) state q ≡ saved q (record p0 { state = state })
  unfolding mark_proposal mark mark_found get
  mark_proposal-held p p0 state q h = ground arith

module _ {ℓ} {F : Type ℓ} ⦃f : Float F⦄ where
  -- what an approved request brings to its transmission
  pub record IsReady (s : DemoService F) (request : DemoOrderRequest F) (p : ExecutionProposal F)
      (l : ExecutionLifecycle) : Type ℓ where
    pub held_proposal : ExecutionProposal F
    pub held : find p.proposal_id s.approvals.proposals ≡ some held_proposal
    pub named : request.request_id ≡ p.proposal_id
    pub fresh : sent_for request.request_id s.client.sent ≡ 0
    pub moved : is_proposed l.state ≡ false

  -- after the call of the client, whether it sent or not
  marked-IsOnce :
      (id : String) (s : DemoService F) (request : DemoOrderRequest F) (p : ExecutionProposal F)
      (l : ExecutionLifecycle) (state : DemoExecutionState) (sent : List (String × Payload F))
      (x : Payload F)
      → (sent ≡ s.client.sent) ⊎ (sent ≡ s.client.sent ++ ((request.request_id, x) ∷ []))
      → is_proposed state ≡ false
      → IsReady s request p l
      → OnceFor id s
      → IsOnce id sent
          (register s.registry request.request_id request.timestamp).0
          (mark_proposal (some p) state s.approvals)
  marked-IsOnce id s request p l state sent x out closed ready h =
      let p0 = ready.held_proposal in
      let marked : ExecutionProposal F = record p0 { state = state } in
      let own : p.proposal_id ≡ p0.proposal_id =
        (str_eq_iff p.proposal_id p0.proposal_id).0
          (find-id p.proposal_id s.approvals.proposals p0 ready.held) in
      let keyed : IsKeyed marked =
        find-All IsKeyed p.proposal_id s.approvals.proposals p0 h.keyed ready.held in
      let r = (register s.registry request.request_id request.timestamp).0 in
      subst (λ q. IsOnce id sent r q) (sym (mark_proposal-held p p0 state s.approvals ready.held))
        (elim out [
          | inl quiet ↦
              subst (λ y. IsOnce id y r (saved s.approvals marked)) (sym quiet)
                (saved-IsOnce id s.client.sent r s.approvals marked keyed
                  (λ waits. absurd (ground arith))
                  (register-IsOnce id s.client.sent s.registry s.approvals request.request_id
                    request.timestamp h))
          | inr grown ↦
              subst (λ y. IsOnce id y r (saved s.approvals marked)) (sym grown)
                (sent-IsOnce id s.client.sent s.registry s.approvals request.request_id
                  request.timestamp x marked (ready.named ∙ own) keyed closed ready.fresh h)
        ])

  sent-or-not :
      (c c' : ExecutionClient F) (t : Terminal F) (request : DemoOrderRequest F)
      (d : GateChainDecision) (result : OrderResult F)
      → send_market_order c t (to_order_request request) (some d.guard) ≡ ok (c', result)
      → (c'.sent ≡ c.sent)
        ⊎ (c'.sent
            ≡ c.sent ++ ((request.request_id, payload_of c t (to_order_request request)) ∷ []))
  unfolding to_order_request
  sent-or-not c c' t request d result q =
      elim (send_market_order-sent c c' t (to_order_request request) (some d.guard) result q) [
        | inl quiet ↦ inl quiet
        | inr (_, grown) ↦ inr grown
      ]

  finish-OnceFor :
      (id : String) (s : DemoService F) (w : World F) (request : DemoOrderRequest F)
      (d : GateChainDecision) (p : ExecutionProposal F) (l : ExecutionLifecycle) (actor : String)
      (out : Result (ExecutionClient F × OrderResult F))
      → send_market_order s.client w.terminal (to_order_request request) (some d.guard) ≡ out
      → IsReady s request p l
      → OnceFor id s
      → OnceFor id
          (finish
            (begin s request l actor w.now)
            w
            request
            d
            (some p)
            (advance_if_allowed l DemoExecutionState.submitted actor [] w.now)
            actor
            out).0
  unfolding finish settle begin counted
  finish-OnceFor id s w request d p l actor (raise e) q ready h =
      register-IsOnce id s.client.sent s.registry s.approvals request.request_id request.timestamp h
  finish-OnceFor id s w request d p l actor (ok (client, result)) q ready h =
      marked-IsOnce id s request p l _ client.sent
        (payload_of s.client w.terminal (to_order_request request))
        (sent-or-not s.client client w.terminal request d result q)
        (closing-moved (advance_if_allowed l DemoExecutionState.submitted actor [] w.now)
          result.status result.reasons _ actor w.now
          (advance-moved l DemoExecutionState.submitted actor [] w.now ready.moved refl))
        ready h

  -- an approved request while the breaker is closed
  pub transmit-send :
      (s : DemoService F) (w : World F) (request : DemoOrderRequest F) (d : GateChainDecision)
      (p : Option (ExecutionProposal F)) (l : ExecutionLifecycle) (actor : String)
      → d.approved ≡ true
      → is_open s.breaker ≡ false
      → transmit s w request (some d) p l actor ≡ send s w request d p l actor
  unfolding transmit
  transmit-send s w request d p l actor h k = ground arith

  pub transmit-OnceFor :
      (id : String) (s : DemoService F) (w : World F) (request : DemoOrderRequest F)
      (d : GateChainDecision) (p : ExecutionProposal F) (l : ExecutionLifecycle) (actor : String)
      → IsReady s request p l
      → OnceFor id s
      → OnceFor id (transmit s w request (some d) (some p) l actor).0
  unfolding transmit send refuse
  transmit-OnceFor id s w request d p l actor ready h = elim (Bool-cases d.approved) [
    | inr refused ↦ rw (refused, transmit) h
    | inl approved ↦ elim (Bool-cases (is_open s.breaker)) [
      | inl opened ↦ rw (approved, opened, transmit) h
      | inr closed ↦
          subst (λ x. OnceFor id x.0)
            (sym (transmit-send s w request d (some p) l actor approved closed))
            (finish-OnceFor id s w request d p l actor _ refl ready h)
    ]
  ]

  finish-sent :
      (s : DemoService F) (w : World F) (request : DemoOrderRequest F) (d : GateChainDecision)
      (p : Option (ExecutionProposal F)) (l : ExecutionLifecycle) (actor : String)
      (out : Result (ExecutionClient F × OrderResult F))
      → send_market_order s.client w.terminal (to_order_request request) (some d.guard) ≡ out
      → let s' =
          (finish
            (begin s request l actor w.now)
            w
            request
            d
            p
            (advance_if_allowed l DemoExecutionState.submitted actor [] w.now)
            actor
            out).0 in
        (s'.client.sent ≡ s.client.sent)
        ⊎ (IsPermitted w.terminal (to_order_request request) (some d.guard)
            × (s'.client.sent
                ≡ s.client.sent
                  ++ ((
                    request.request_id,
                    payload_of s.client w.terminal (to_order_request request),
                  )
                      ∷ [])))
  unfolding finish settle begin to_order_request
  finish-sent s w request d p l actor (raise e) q = inl refl
  finish-sent s w request d p l actor (ok (client, result)) q =
      send_market_order-sent s.client client w.terminal (to_order_request request) (some d.guard)
        result q

  -- What a transmission that sends rests on.
  pub record IsSent (s s' : DemoService F) (w : World F) (request : DemoOrderRequest F)
      (o : Option GateChainDecision) : Type ℓ where
    pub decision : GateChainDecision
    pub given : o ≡ some decision
    pub approved : decision.approved ≡ true
    pub closed : is_open s.breaker ≡ false
    pub permitted : IsPermitted w.terminal (to_order_request request) (some decision.guard)
    pub appended :
        s'.client.sent
        ≡ s.client.sent
          ++ ((request.request_id, payload_of s.client w.terminal (to_order_request request)) ∷ [])

  -- A transmission by the service sends nothing, or sends the payload of the request once, and
  -- then under a decision of the gates that approved it, with a closed breaker, under the approval
  -- of the guard, to an account that was read and is not REAL.
  pub transmit-sent :
      (s : DemoService F) (w : World F) (request : DemoOrderRequest F)
      (o : Option GateChainDecision) (p : Option (ExecutionProposal F)) (l : ExecutionLifecycle)
      (actor : String)
      → let s' = (transmit s w request o p l actor).0 in
        (s'.client.sent ≡ s.client.sent) ⊎ IsSent s s' w request o
  unfolding transmit send refuse
  transmit-sent s w request none p l actor = inl refl
  transmit-sent s w request (some d) p l actor = elim (Bool-cases d.approved) [
    | inr refused ↦ rw (refused, transmit) (inl refl)
    | inl approved ↦ elim (Bool-cases (is_open s.breaker)) [
      | inl opened ↦ rw (approved, opened, transmit) (inl refl)
      | inr closed ↦
          let same = sym (transmit-send s w request d p l actor approved closed) in
          elim (finish-sent s w request d p l actor _ refl) [
            | inl quiet ↦ inl (subst (λ x. x.0.client.sent ≡ s.client.sent) same quiet)
            | inr (permitted, grown) ↦ inr (record {
              decision = d;
              given = refl;
              approved = approved;
              closed = closed;
              permitted = permitted;
              appended =
                  subst
                    (λ x.
                      x.0.client.sent
                      ≡ s.client.sent
                        ++ ((
                          request.request_id,
                          payload_of s.client w.terminal (to_order_request request),
                        )
                            ∷ []))
                    same grown;
            })
          ]
    ]
  ]
