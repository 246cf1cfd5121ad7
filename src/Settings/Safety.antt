-- ===== src/Settings/Safety.antt =====
-- What a configuration that starts up has promised.
use alm_trading.Base.{◌≡◌, true, false, arith, ok, mem, ◌=?◌, string_eq}
use alm_trading.Settings.{
  Settings, environment, execution_mode, execution_modes, enforce_phase_safety,
  broker_execution_configured,
}

-- A start-up check that succeeds returns the settings as they are, and they trade no live and no
-- real account, name a known mode, let no model promote or train itself, and ask for a mode that
-- reaches a broker, or for automation, only where its own switch is on.
pub enforce_phase_safety-ok :
    (s s' : Settings)
    → enforce_phase_safety s ≡ ok s'
    → (s' ≡ s)
      × (s.live_trading_enabled ≡ false)
      × (s.real_account_execution ≡ false)
      × ((environment s =? "DEMO") ≡ true)
      × (mem (execution_mode s) execution_modes ≡ true)
      × (s.ai_auto_promote ≡ false)
      × (s.ai_online_learning_enabled ≡ false)
      × (s.ai_automatic_training ≡ false)
      × (s.demo_trading_enabled ≡ true → s.mt5_read_only ≡ false)
      × (broker_execution_configured s ≡ true → s.demo_trading_enabled ≡ true)
      × ((execution_mode s =? "DEMO_AUTOMATED") ≡ true → s.demo_automated_execution_enabled ≡ true)
unfolding enforce_phase_safety broker_execution_configured
enforce_phase_safety-ok s s' e = ground arith
