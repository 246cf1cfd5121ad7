-- ===== src/Mode/Resolve.antt =====
-- Which configurations can send an order.
use alm_trading.Base.{
  ◌≡◌, ◌↔◌, true, false, not, ◌&&◌, arith, ok, string_eq, is_blank, if◌then◌else◌,
}
use alm_trading.Settings.{Settings, execution_mode}
use alm_trading.Mode.{
  ExecutionMode, ModeDecision, is_broker_mode, is_manual, is_automated, parse_mode, resolve,
}

-- A mode that is resolved sends orders exactly if one is configured, it may reach a broker and,
-- for DEMO_AUTOMATED, its own setting is on; it asks for a human exactly if one is configured and
-- it is the manual one; and it is the mode that the setting names, or the default where none is
-- configured.
pub resolve-sends_orders :
    (default_mode : ExecutionMode) (s : Settings) {d : ModeDecision}
    → resolve default_mode s ≡ ok d
    → ((d.sends_orders ≡ true) ↔ (
        (is_blank (execution_mode s) ≡ false)
        × (is_broker_mode d.mode ≡ true)
        × (is_automated d.mode ≡ true → s.demo_automated_execution_enabled ≡ true)))
      × (d.requires_human_approval ≡ (not (is_blank (execution_mode s)) && is_manual d.mode))
      × ((if is_blank (execution_mode s) then ok default_mode else parse_mode (execution_mode s))
          ≡ ok d.mode)
unfolding resolve
resolve-sends_orders default_mode s {d} e = (
  (λ h. ground (arith, parse_mode), λ h. ground (arith, parse_mode)),
  ground (arith, parse_mode),
  ground (arith, parse_mode),
)
