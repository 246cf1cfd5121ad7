-- ===== src/Account/Verdict.antt =====
-- What a verdict on an account says of it.
use alm_trading.Base.{
  ◌≡◌, refl, ◌≢◌, Bool, true, false, Option, none, some, [], ◌∷◌, ◌++◌, arith, Bool-cases, inl, inr,
  lower, strip, is_blank, or_else, append-nil_right, append-nil_left, nil_of_is_empty,
  is_empty-ne-nil, mem-ne-nil, string_eq, mem, is_empty, if◌then◌else◌,
}
use alm_trading.Account.{
  Mt5Account, TerminalInfo, DemoValidation, DemoAccountValidator, is_demo_mode, is_real_mode,
  any_pattern, validator_server_reasons, permission_reasons, terminal_missing, validate, judge,
  broker_reasons,
}

-- A terminal's permissions are known and its trading interface is not disabled, or they are
-- unknown and not required.
abbrev pub IsPermitted : DemoAccountValidator → Option TerminalInfo → Type 0
IsPermitted v none = v.require_permissions ≡ false
IsPermitted v (some t) =
    if t.permissions_known then t.tradeapi_disabled ≡ false else v.require_permissions ≡ false

permission_reasons-nil :
    (v : DemoAccountValidator) (t : Option TerminalInfo)
    → permission_reasons v t ≡ []
    → IsPermitted v t
unfolding permission_reasons
permission_reasons-nil v none h = ground arith
permission_reasons-nil v (some t) h = elim (Bool-cases t.permissions_known) [
  | inl known ↦ rw known (ground arith)
  | inr unknown ↦ rw unknown (ground arith)
]

module _ {ℓ} {F : Type ℓ} where
  judge-reasons :
      (v : DemoAccountValidator) (a : Mt5Account F) (t : Option TerminalInfo)
      → (judge v a t).reasons ≢ []
  unfolding judge
  judge-reasons v a t h =
      let rs = broker_reasons a ++ validator_server_reasons v a in
      let ps = permission_reasons v t in
      elim (Bool-cases (mem "SERVER_NOT_DEMO" rs)) [
        | inl wrong ↦ mem-ne-nil "SERVER_NOT_DEMO" rs wrong (rw wrong at h)
        | inr fine ↦ elim (Bool-cases (mem "TERMINAL_API_DISABLED" ps)) [
          | inl off ↦
              mem-ne-nil "TERMINAL_API_DISABLED" ps off
                (append-nil_right rs ps (rw (fine, off) at h))
          | inr on ↦ elim (Bool-cases (is_empty (rs ++ ps))) [
            | inl none_left ↦ cc (rw (fine, on, none_left) at h)
            | inr some_left ↦ is_empty-ne-nil (rs ++ ps) some_left (rw (fine, on, some_left) at h)
          ]
        ]
      ]

  -- No verdict on an account comes without a reason.
  pub validate-reasons-ne-nil :
      (v : DemoAccountValidator) (a : Option (Mt5Account F)) (t : Option TerminalInfo)
      (c : Option Bool)
      → (validate v a t c).reasons ≢ []
  unfolding validate
  validate-reasons-ne-nil v none t c h = ground arith
  validate-reasons-ne-nil v (some a) t c h = ground (arith, judge-reasons v a t)

  -- What has been verified of an account.
  pub record IsVerified (v : DemoAccountValidator) (a : Mt5Account F) (t : Option TerminalInfo)
      (c : Option Bool) : Type 0 where
    pub demo : is_demo_mode a.trade_mode ≡ true
    pub named_broker : is_blank (strip a.broker) ≡ false
    pub demo_server : any_pattern v.server_patterns (lower (strip (or_else a.server ""))) ≡ true
    pub available : (i : TerminalInfo) → t ≡ some i → i.available ≡ true
    pub not_disconnected : c ≢ some false
    pub permitted : IsPermitted v t

  judge-valid :
      (v : DemoAccountValidator) (a : Mt5Account F) (t : Option TerminalInfo)
      → (judge v a t).status ≡ DemoValidation.valid_demo
      → (broker_reasons a ++ validator_server_reasons v a) ++ permission_reasons v t ≡ []
  unfolding judge
  judge-valid v a t h = ground (
    arith,
    nil_of_is_empty ((broker_reasons a ++ validator_server_reasons v a) ++ permission_reasons v t),
  )

  broker_named : (a : Mt5Account F) → broker_reasons a ≡ [] → is_blank (strip a.broker) ≡ false
  unfolding broker_reasons
  broker_named a h = ground arith

  server_matched :
      (v : DemoAccountValidator) (a : Mt5Account F)
      → validator_server_reasons v a ≡ []
      → any_pattern v.server_patterns (lower (strip (or_else a.server ""))) ≡ true
  unfolding validator_server_reasons
  server_matched v a h = ground arith

  -- An account is VALID_DEMO only in a DEMO or CONTEST mode, with a named broker, on a server with
  -- a DEMO name, if the terminal, where one is given, is available, and is not known to be
  -- disconnected, and if the permissions are known and the trading interface is not disabled, or
  -- they are unknown and not required.
  pub validate-IsVerified :
      (v : DemoAccountValidator) (account : Option (Mt5Account F)) (t : Option TerminalInfo)
      (c : Option Bool)
      → (validate v account t c).status ≡ DemoValidation.valid_demo
      → (a : Mt5Account F) × (account ≡ some a) × IsVerified v a t c
  unfolding validate
  validate-IsVerified v none t c h = absurd (ground arith)
  validate-IsVerified v (some a) t c h =
      let judged : (judge v a t).status ≡ DemoValidation.valid_demo = ground arith in
      let left = append-nil_left _ _ (judge-valid v a t judged) in
      (
        a,
        refl,
        record {
          demo = ground arith;
          named_broker = broker_named a (append-nil_left _ _ left);
          demo_server = server_matched v a (append-nil_right (broker_reasons a) _ left);
          available = λ i e. ground arith;
          not_disconnected = λ e. ground arith;
          permitted = permission_reasons-nil v t (
              append-nil_right (broker_reasons a ++ validator_server_reasons v a) _
                (judge-valid v a t judged));
        },
      )

  -- A REAL account is INVALID_ACCOUNT for that reason alone, unless the terminal is missing.
  pub validate-real :
      (v : DemoAccountValidator) (a : Mt5Account F) (t : Option TerminalInfo) (c : Option Bool)
      → is_real_mode a.trade_mode ≡ true
      → terminal_missing t ≡ false
      → let r = validate v (some a) t c in
        (r.status ≡ DemoValidation.invalid_account) × (r.reasons ≡ "ACCOUNT_IS_REAL" ∷ [])
  unfolding validate
  validate-real v a t c h k = ground arith
