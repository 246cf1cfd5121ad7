-- ===== src/KillSwitch.antt =====
-- The execution kill switch (execution/mt5/kill_switch.py). An operation returns the new switch and
-- the event that it recorded. An event's free-form `details`, which nothing reads, are left out.
pub mod Release
use alm_trading.Base.{
  ℕ, String, Bool, true, false, not, ◌&&◌, ◌||◌, List, [], ◌∷◌, ◌++◌, if◌then◌else◌, Result, ok,
  raise, value_error, strip, is_blank, is_empty,
}

pub data ExecutionState : Type 0 where
  enabled disabled : ExecutionState

pub record KillSwitchEvent : Type 0 where
  pub timestamp : ℕ
  pub state : ExecutionState
  pub engaged : Bool
  pub reason : String
  pub actor : String

pub record ExecutionKillSwitch : Type 0 where
  pub engaged : Bool
  pub events : List KillSwitchEvent

abbrev pub new_entry_blocked : String
new_entry_blocked = "NEW_ENTRY_BLOCKED"

abbrev pub dca_blocked : String
dca_blocked = "DCA_BLOCKED"

-- the property `state`
abbrev pub switch_state : Bool → ExecutionState
switch_state engaged = if engaged then ExecutionState.disabled else ExecutionState.enabled

-- `__init__`; `now` is the clock at the call
unfoldable pub create : Bool → String → ℕ → ExecutionKillSwitch
create engaged reason now = record {
  engaged = engaged;
  events =
      (record {
        timestamp = now;
        state = switch_state engaged;
        engaged = engaged;
        reason = reason;
        actor = "config";
      })
      ∷ [];
}

-- `_record`, after the flag is set
unfoldable pub record_event :
    Bool → String → String → ℕ → ExecutionKillSwitch → ExecutionKillSwitch × KillSwitchEvent
record_event engaged reason actor now k =
    let event : KillSwitchEvent = record {
      timestamp = now;
      state = switch_state engaged;
      engaged = engaged;
      reason = reason;
      actor = actor;
    } in
    (record { engaged = engaged; events = k.events ++ (event ∷ []) }, event)

unfoldable pub engage :
    String → String → ℕ → ExecutionKillSwitch → ExecutionKillSwitch × KillSwitchEvent
unfolding record_event
engage reason actor now k = record_event true reason actor now k

unfoldable pub release :
    String → String → ℕ → ExecutionKillSwitch → Result (ExecutionKillSwitch × KillSwitchEvent)
unfolding record_event
release reason actor now k =
    if is_blank (strip reason)
    then raise value_error
    else ok (record_event false reason actor now k)

unfoldable pub permits : Bool → Bool → ExecutionKillSwitch → Bool
permits new_entry increases_exposure k =
    if not k.engaged then true else not (new_entry || increases_exposure)

abbrev when_blocked : Bool → String → List String
when_blocked b code = if b then code ∷ [] else []

unfoldable pub blocking_reasons : Bool → Bool → ExecutionKillSwitch → List String
blocking_reasons new_entry increases_exposure k =
    if not k.engaged
    then []
    else (let reasons =
          when_blocked new_entry new_entry_blocked ++ when_blocked increases_exposure dca_blocked in
        if is_empty reasons then new_entry_blocked ∷ [] else reasons)
