-- ===== src/Exits/Reasons.antt =====
-- An exit always has a reason, and between checkpoints only some reasons count.
use alm_trading.Base.{
  ap, sym, ◌∙◌, String, ◌≡◌, ◌≢◌, refl, Bool, true, false, not, ◌||◌, List, [], arith, is_some,
  Bool-cases, inl, inr,
}
use alm_trading.Float.{Float}
use alm_trading.Observation.Checkpoint.{ExitDecision, TimeExitAnalyzer}
use alm_trading.Observation.Exit.{
  TimeExitAnalysis, ExitRequest, analyse, held_out, on_checkpoint, decide as decide_request,
}
use alm_trading.Exits.{ExitAction, ExitCase, at_stop, at_target, checkpoint_choice, choose, decide}

abbrev pub is_exit : ExitAction → Bool
is_exit ExitAction.exit = true
is_exit _ = false

abbrev pub is_wait : ExitAction → Bool
is_wait ExitAction.wait = true
is_wait _ = false

checkpoint_choice-reason :
    (b : Bool) (d : ExitDecision) (reasons : List String)
    → reasons ≢ []
    → let chosen = checkpoint_choice b d reasons in
      (is_exit chosen.0 ≡ is_some chosen.1) × (chosen.2 ≢ [])
unfolding checkpoint_choice
checkpoint_choice-reason b ExitDecision.hold reasons n = (refl, n)
checkpoint_choice-reason b ExitDecision.exit reasons n = (refl, n)
checkpoint_choice-reason b ExitDecision.wait reasons n = (refl, n)

module _ {ℓ} {F : Type ℓ} ⦃f : Float F⦄ where
  -- a condition that does not wait for the clock
  abbrev pub immediate : ExitCase F → Bool
  immediate c =
      c.manual_exit
      || not c.request.risk_allowed
      || at_stop c
      || at_target c
      || not c.request.structure_valid
      || c.strategy_exit

  choose-reason :
      (c : ExitCase F) (a : TimeExitAnalysis F)
      → a.reasons ≢ []
      → (is_exit (choose c a).0 ≡ is_some (choose c a).1) × ((choose c a).2 ≢ [])
  unfolding choose
  choose-reason c a n =
      let last = checkpoint_choice-reason c.request.liquidity_valid a.decision a.reasons n in
      (ground arith, λ e. ground arith)

  analyse-reasons : (a : TimeExitAnalyzer F) (q : ExitRequest F) → (analyse a q).reasons ≢ []
  unfolding analyse
  analyse-reasons a q e = ground arith

  -- The exit engine gives an exit reason exactly if it exits, and always gives codes.
  pub decide-reason :
      (analyzer : TimeExitAnalyzer F) (c : ExitCase F)
      → let v = decide analyzer c in (is_exit v.action ≡ is_some v.reason) × (v.reasons ≢ [])
  unfolding decide
  decide-reason analyzer c =
      choose-reason c (analyse analyzer c.request) (analyse-reasons analyzer c.request)

  waits :
      (a : TimeExitAnalyzer F) (q : ExitRequest F)
      → q.risk_allowed ≡ true
      → q.structure_valid ≡ true
      → held_out a q ≡ false
      → on_checkpoint a.checkpoint_hours q.now ≡ false
      → (analyse a q).decision ≡ ExitDecision.wait
  unfolding analyse decide_request
  waits a q r s h k = ground arith

  choose-immediate :
      (c : ExitCase F) (a : TimeExitAnalysis F)
      → immediate c ≡ true
      → (is_exit (choose c a).0 ≡ true) × (is_wait (choose c a).0 ≡ false)
  unfolding choose
  choose-immediate c a h = (ground arith, ground arith)

  choose-rest :
      (c : ExitCase F) (a : TimeExitAnalysis F)
      → immediate c ≡ false
      → choose c a ≡ checkpoint_choice c.request.liquidity_valid a.decision a.reasons
  unfolding choose
  choose-rest c a h = ground arith

  -- Off a checkpoint and before the longest holding, the exit engine exits exactly on a manual
  -- exit, a block by the risk engine, a price at the stop or at the target, a broken structure or
  -- an exit of the strategy, and waits otherwise.
  pub decide-between :
      (analyzer : TimeExitAnalyzer F) (c : ExitCase F)
      → held_out analyzer c.request ≡ false
      → on_checkpoint analyzer.checkpoint_hours c.request.now ≡ false
      → let v = decide analyzer c in
        (is_exit v.action ≡ immediate c) × (is_wait v.action ≡ not (immediate c))
  unfolding decide checkpoint_choice
  decide-between analyzer c h k = elim (Bool-cases (immediate c)) [
    | inl now ↦
        let out = choose-immediate c (analyse analyzer c.request) now in
        (ground arith, ground arith)
    | inr none_now ↦
        let rest = choose-rest c (analyse analyzer c.request) none_now in
        let idle = waits analyzer c.request (ground arith) (ground arith) h k in
        let waiting : (choose c (analyse analyzer c.request)).0 ≡ ExitAction.wait =
          ap (λ x. x.0) rest
          ∙ ap
              (λ d.
                (checkpoint_choice c.request.liquidity_valid d
                  (analyse analyzer c.request).reasons).0)
              idle in
        (ap is_exit waiting ∙ sym none_now, ap is_wait waiting ∙ sym (ap not none_now))
  ]
