-- ===== src/Guard/Approval.antt =====
-- What an approval of the guard means: every check has been passed, and what the checks rule out.
use alm_trading.Base.{
  ℕ, String, ◌≡◌, refl, Bool, true, false, not, Option, none, some, List, [], ◌∷◌, arith, ◌<◌,
  dedup, dedup-nil, is_empty, nil_of_is_empty, append-nil_left, append-nil_right, string_eq, All,
  ◌=?◌, lower, or_else,
}
use alm_trading.Float.{Float, nought}
use alm_trading.Order.{OrderRequest, intent_is_dca, intent_is_manual_test}
use alm_trading.KillSwitch.{ExecutionKillSwitch, blocking_reasons}
use alm_trading.Settings.{Settings, environment}
use alm_trading.Account.{Mt5Account, is_demo_mode, any_pattern}
use alm_trading.Guard.{
  ExecutionGuard, GuardContext, quoted_bid, quoted_ask, environment_reasons, account_reasons,
  strategy_reasons,
}
use alm_trading.Guard.Quotes.{
  volume_reasons, quoted_price_reasons, quoted_spread_reasons, price_reasons, spread_reasons,
  risk_reasons,
}
use alm_trading.Guard.Evaluate.{groups, all_reasons, evaluate}

all_reasons-nil : (gs : List (String × List String)) → all_reasons gs ≡ [] → All (λ g. g.1 ≡ []) gs
all_reasons-nil [] h = tt
all_reasons-nil ((name, group) ∷ gs) h = (
  append-nil_left group (all_reasons gs) h,
  all_reasons-nil gs (append-nil_right group (all_reasons gs) h),
)

module _ {ℓ} {F : Type ℓ} ⦃f : Float F⦄ where
  evaluate-groups :
      (g : ExecutionGuard F) (switch : ExecutionKillSwitch) (request : OrderRequest F)
      (context : GuardContext F) (now : ℕ)
      → (evaluate g switch request context now).approved ≡ true
      → All (λ x. x.1 ≡ []) (groups g switch request context now)
  unfolding evaluate
  evaluate-groups g switch request context now h =
      let found = groups g switch request context now in
      all_reasons-nil found
        (dedup-nil (all_reasons found) (nil_of_is_empty (dedup (all_reasons found)) h))

-- The five switches of the configuration, each in its safe position.
pub record IsArmed (s : Settings) : Type 0 where
  pub demo_environment : (environment s =? "DEMO") ≡ true
  pub live_off : s.live_trading_enabled ≡ false
  pub demo_on : s.demo_trading_enabled ≡ true
  pub mt5_on : s.mt5_execution_enabled ≡ true
  pub writable : s.mt5_read_only ≡ false

environment_reasons-IsArmed : (s : Settings) → environment_reasons s ≡ [] → IsArmed s
unfolding environment_reasons
environment_reasons-IsArmed s h = ground arith

blocking_reasons-engaged :
    (k : ExecutionKillSwitch) (d : Bool)
    → is_empty (blocking_reasons (not d) d k) ≡ true
    → k.engaged ≡ false
unfolding blocking_reasons
blocking_reasons-engaged k d h = ground arith

module _ {ℓ} {F : Type ℓ} where
  -- A DEMO or CONTEST account on a server with a DEMO name.
  pub record IsDemoAccount (g : ExecutionGuard F) (account : Mt5Account F) : Type 0 where
    pub mode : is_demo_mode account.trade_mode ≡ true
    pub server : any_pattern g.demo_server_patterns (lower (or_else account.server "")) ≡ true

  account_reasons-IsDemoAccount :
      (g : ExecutionGuard F) (o : Option (Mt5Account F))
      → account_reasons g o ≡ []
      → (a : Mt5Account F) × (o ≡ some a) × IsDemoAccount g a
  unfolding account_reasons
  account_reasons-IsDemoAccount g none h = absurd (ground arith)
  account_reasons-IsDemoAccount g (some a) h = (a, refl, ground arith)

module _ {ℓ} {F : Type ℓ} ⦃f : Float F⦄ where
  open f use {lt, le, eq, sub}

  -- A volume that is a positive number within the guard's bounds.
  pub record IsTradable (g : ExecutionGuard F) (volume : F) : Type 0 where
    pub number : eq volume volume ≡ true
    pub positive : le volume nought ≡ false
    pub not_small : lt volume g.min_volume ≡ false
    pub not_large : lt g.max_volume volume ≡ false

  volume_reasons-IsTradable :
      (g : ExecutionGuard F) (r : OrderRequest F) → volume_reasons g r ≡ [] → IsTradable g r.volume
  unfolding volume_reasons
  volume_reasons-IsTradable g r h = ground arith

  -- A quote with both sides, that no test of the signs or of the spread refuses.
  pub record IsQuoted (g : ExecutionGuard F) (b a : Option F) : Type ℓ where
    pub bid : F
    pub ask : F
    pub bid_given : b ≡ some bid
    pub ask_given : a ≡ some ask
    pub bid_positive : le bid nought ≡ false
    pub ask_positive : le ask nought ≡ false
    pub uncrossed : lt ask bid ≡ false
    pub narrow : lt g.max_spread (sub ask bid) ≡ false

  price_reasons-IsQuoted :
      (g : ExecutionGuard F) (r : OrderRequest F) (b a : Option F)
      → quoted_price_reasons g r b a ≡ []
      → quoted_spread_reasons g b a ≡ []
      → IsQuoted g b a
  unfolding quoted_price_reasons quoted_spread_reasons
  price_reasons-IsQuoted g r none none h k = absurd (ground arith)
  price_reasons-IsQuoted g r none (some a) h k = absurd (ground arith)
  price_reasons-IsQuoted g r (some b) none h k = absurd (ground arith)
  price_reasons-IsQuoted g r (some b) (some a) h k = record {
    bid = b;
    ask = a;
    bid_given = refl;
    ask_given = refl;
    bid_positive = ground arith;
    ask_positive = ground arith;
    uncrossed = ground arith;
    narrow = ground arith;
  }

  -- A risk verdict that allows, and room under the guard's own limits.
  pub record HasRoom (g : ExecutionGuard F) (r : OrderRequest F) (c : GuardContext F) : Type 0 where
    pub allowed : c.risk_allowed ≡ true
    pub drawdown : le g.max_daily_drawdown c.daily_drawdown ≡ false
    pub exposure : le g.max_exposure c.exposure ≡ false
    pub levels : intent_is_dca r.intent ≡ true → c.dca_entries < g.max_dca_entries
    pub positions : intent_is_dca r.intent ≡ false → c.open_positions < g.max_open_positions

  risk_reasons-HasRoom :
      (g : ExecutionGuard F) (r : OrderRequest F) (c : GuardContext F)
      → risk_reasons g r c ≡ []
      → HasRoom g r c
  unfolding risk_reasons
  risk_reasons-HasRoom g r c h = ground arith

  strategy_reasons-eq :
      (r : OrderRequest F) (c : GuardContext F)
      → strategy_reasons r c ≡ []
      → intent_is_manual_test r.intent ≡ false
      → (or_else c.strategy_status "" =? "EXECUTABLE_SIMULATION") ≡ true
  unfolding strategy_reasons
  strategy_reasons-eq r c h k = ground arith

  -- What an approval rests on.
  pub record IsCleared (g : ExecutionGuard F) (k : ExecutionKillSwitch) (r : OrderRequest F)
      (c : GuardContext F) : Type ℓ where
    pub armed : IsArmed g.settings
    pub released : k.engaged ≡ false
    pub connected : c.connected ≡ true
    pub account : (a : Mt5Account F) × (c.account ≡ some a) × IsDemoAccount g a
    pub tradable : IsTradable g r.volume
    pub quoted : IsQuoted g (quoted_bid c.quote) (quoted_ask c.quote)
    pub room : HasRoom g r c
    pub executable :
        intent_is_manual_test r.intent ≡ false
        → (or_else c.strategy_status "" =? "EXECUTABLE_SIMULATION") ≡ true

  -- The guard approves only on an armed DEMO configuration, a released kill switch, a connection,
  -- a DEMO account, a volume within bounds, a two-sided quote that no test of its signs, its
  -- crossing or its spread refuses, room under the risk limits and, but for a manual test, an
  -- executable strategy.
  pub evaluate-IsCleared :
      (g : ExecutionGuard F) (k : ExecutionKillSwitch) (r : OrderRequest F) (c : GuardContext F)
      (now : ℕ)
      → (evaluate g k r c now).approved ≡ true
      → IsCleared g k r c
  unfolding groups price_reasons spread_reasons
  evaluate-IsCleared g k r c now h =
      let clear = evaluate-groups g k r c now h in
      record {
        armed = environment_reasons-IsArmed g.settings clear.0;
        released = blocking_reasons-engaged k (intent_is_dca r.intent) (ground arith);
        connected = ground arith;
        account = account_reasons-IsDemoAccount g c.account clear.1.1.1.0;
        tradable = volume_reasons-IsTradable g r clear.1.1.1.1.1.0;
        quoted = price_reasons-IsQuoted g r _ _ clear.1.1.1.1.1.1.0 clear.1.1.1.1.1.1.1.0;
        room = risk_reasons-HasRoom g r c clear.1.1.1.1.1.1.1.1.1.0;
        executable = strategy_reasons-eq r c clear.1.1.1.1.1.1.1.1.1.1.1.0;
      }
