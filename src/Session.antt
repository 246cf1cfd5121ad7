-- ===== src/Session.antt =====
-- The trading session of a moment (features/session/session_engine.py). Moments are whole seconds,
-- and a window is a pair of seconds of the day. How the configured time zone places a moment on the
-- clock is not the repository's: `time_of_day` is a parameter.
use alm_trading.Base.{ℕ, String, Bool, ◌&&◌, ◌||◌, ltb, leb, if◌then◌else◌}

pub data SessionName : Type 0 where
  asia london new_york london_new_york_overlap off_session : SessionName

-- `.value`
abbrev pub session_value : SessionName → String
session_value SessionName.asia = "ASIA"
session_value SessionName.london = "LONDON"
session_value SessionName.new_york = "NEW_YORK"
session_value SessionName.london_new_york_overlap = "LONDON_NEW_YORK_OVERLAP"
session_value SessionName.off_session = "OFF_SESSION"

abbrev pub Window : Type 0
Window = ℕ × ℕ

pub record SessionEngine : Type 0 where
  pub time_of_day : ℕ → ℕ
  pub asia : Window
  pub london : Window
  pub new_york : Window

unfoldable pub inside : ℕ → Window → Bool
inside value (start, end) =
    if ltb start end then leb start value && ltb value end else leb start value || ltb value end

unfoldable pub session_for : SessionEngine → ℕ → SessionName
unfolding inside
session_for e timestamp =
    let local_time = e.time_of_day timestamp in
    let london = inside local_time e.london in
    let new_york = inside local_time e.new_york in
    if london && new_york
    then SessionName.london_new_york_overlap
    else if london
    then SessionName.london
    else if new_york
    then SessionName.new_york
    else if inside local_time e.asia
    then SessionName.asia
    else SessionName.off_session
