-- ===== src/Lifecycle.antt =====
-- The states of a DEMO order and the only moves between them (execution/demo/states.py). A
-- transition's free-form `details`, which nothing reads, are left out.
pub mod Reach
use alm_trading.Base.{
  ℕ, String, Bool, true, false, Option, none, some, List, [], ◌∷◌, ◌++◌, if◌then◌else◌, Result, ok,
  raise, state_error,
}

pub data DemoExecutionState : Type 0 where
  proposed approved blocked submitted accepted partially_filled filled : DemoExecutionState
  rejected cancelled error reconciled : DemoExecutionState

-- `ALLOWED_TRANSITIONS`, as the membership of a target in the row of a state.
unfoldable pub allowed : DemoExecutionState → DemoExecutionState → Bool
allowed proposed approved = true
allowed proposed blocked = true
allowed proposed cancelled = true
allowed proposed error = true
allowed approved submitted = true
allowed approved blocked = true
allowed approved cancelled = true
allowed approved error = true
allowed submitted accepted = true
allowed submitted partially_filled = true
allowed submitted filled = true
allowed submitted rejected = true
allowed submitted cancelled = true
allowed submitted error = true
allowed accepted partially_filled = true
allowed accepted filled = true
allowed accepted rejected = true
allowed accepted cancelled = true
allowed accepted error = true
allowed partially_filled filled = true
allowed partially_filled reconciled = true
allowed partially_filled error = true
allowed filled reconciled = true
allowed filled error = true
allowed _ _ = false

-- `TERMINAL_STATES`
unfoldable pub is_terminal : DemoExecutionState → Bool
is_terminal blocked = true
is_terminal rejected = true
is_terminal cancelled = true
is_terminal error = true
is_terminal reconciled = true
is_terminal _ = false

pub record StateTransition : Type 0 where
  pub request_id : String
  pub state : DemoExecutionState
  pub previous : Option DemoExecutionState
  pub timestamp : ℕ
  pub actor : String
  pub reasons : List String

pub record ExecutionLifecycle : Type 0 where
  pub request_id : String
  pub state : DemoExecutionState
  pub history : List StateTransition

unfoldable pub create : String → DemoExecutionState → String → List String → ℕ → ExecutionLifecycle
create request_id state actor reasons now = record {
  request_id = request_id;
  state = state;
  history =
      (record {
        request_id = request_id;
        state = state;
        previous = none;
        timestamp = now;
        actor = actor;
        reasons = reasons;
      })
      ∷ [];
}

unfoldable pub can_advance : ExecutionLifecycle → DemoExecutionState → Bool
unfolding allowed
can_advance l target = allowed l.state target

-- the lifecycle after an advance that is allowed
abbrev pub advanced :
    ExecutionLifecycle → DemoExecutionState → String → List String → ℕ → ExecutionLifecycle
advanced l target actor reasons now = record l {
  state = target;
  history =
      l.history
      ++ ((record {
        request_id = l.request_id;
        state = target;
        previous = some l.state;
        timestamp = now;
        actor = actor;
        reasons = reasons;
      })
          ∷ []);
}

unfoldable pub advance :
    ExecutionLifecycle → DemoExecutionState → String → List String → ℕ → Result ExecutionLifecycle
unfolding can_advance
advance l target actor reasons now =
    if can_advance l target then ok (advanced l target actor reasons now) else raise state_error

-- the lifecycle after an advance; one that raises leaves it as it was
abbrev pub kept : ExecutionLifecycle → Result ExecutionLifecycle → ExecutionLifecycle
kept l (ok l') = l'
kept l (raise e) = l

-- `if lifecycle.can_advance(target): lifecycle.advance(target, ...)`
unfoldable pub advance_if_allowed :
    ExecutionLifecycle → DemoExecutionState → String → List String → ℕ → ExecutionLifecycle
unfolding can_advance advance
advance_if_allowed l target actor reasons now =
    if can_advance l target then kept l (advance l target actor reasons now) else l
