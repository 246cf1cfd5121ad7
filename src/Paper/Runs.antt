-- ===== src/Paper/Runs.antt =====
-- Any run of calls of the paper trading service (paper/service.py), and the close after it.
use alm_trading.Base.{
  ℕ, String, ◌≡◌, refl, ap, ◌∙◌, Bool, true, false, Option, some, List, [], ◌∷◌, Result, ok, raise,
  arith,
}
use alm_trading.Float.{Float}
use alm_trading.Paper.{PositionState, PaperPosition, PaperOrderRequest, moves}
use alm_trading.Paper.Trading.{
  PaperService, PaperServiceState, Conditions, lookup, enter, mark, dca, close_position, on_key,
  bind,
}
use alm_trading.Paper.Held.{
  Sound, HoldsOpen, IsClosing, moves-opened, lookup-All, enter-HoldsOpen, mark-HoldsOpen,
  dca-HoldsOpen, close_position-IsClosing,
}

-- a call; a state that `start`, `pause` or `stop` sets
pub data Call {ℓ} (F : Type ℓ) : Type ℓ where
  switched : PaperServiceState → Call F
  entry : String → String → PaperOrderRequest F → Conditions F → Call F
  marking : String → F → ℕ → Call F
  averaging : String → String → PaperOrderRequest F → Conditions F → Call F
  closing : String → F → ℕ → Call F

-- the service after a call; one that raises leaves it as it was
abbrev pub kept {ℓ κ} : {A : Type ℓ} {B : Type κ} → A → Result (A × B) → A
kept s (ok x) = x.0
kept s (raise e) = s

abbrev is_ok {ℓ} : {A : Type ℓ} → Result A → Bool
is_ok (ok a) = true
is_ok (raise e) = false

kept-Sound {ℓ κ} :
    {A : Type ℓ} {B : Type κ} (P : A → Type 0) (s : A) (r : Result (A × B))
    → P s
    → Sound (λ x. P x.0) r
    → P (kept s r)
kept-Sound P s (ok x) p h = h.holds x refl
kept-Sound P s (raise e) p h = p

returned {ℓ} :
    {A : Type ℓ} {P : A → Type 0} (r : Result A)
    → is_ok r ≡ true
    → Sound P r
    → (x : A) × (r ≡ ok x) × P x
returned (ok x) o h = (x, refl, h.holds x refl)
returned (raise e) o h = absurd (ground arith)

on_key-ok {ℓ κ} :
    {A : Type ℓ} {B : Type κ} (o : Option A) (k : A → Result B) (a : A)
    → o ≡ some a
    → is_ok (k a) ≡ true
    → is_ok (on_key o k) ≡ true
unfolding on_key
on_key-ok o k a e h = ap (λ x. is_ok (on_key x k)) e ∙ h

bind-ok {ℓ κ} :
    {A : Type ℓ} {B : Type κ} (r : Result A) (k : A → Result B) (a : A)
    → r ≡ ok a
    → is_ok (k a) ≡ true
    → is_ok (bind r k) ≡ true
unfolding bind
bind-ok r k a e h = ap (λ x. is_ok (bind x k)) e ∙ h

module _ {ℓ} {F : Type ℓ} ⦃f : Float F⦄ where
  unfoldable pub after : Call F → PaperService F → PaperService F
  after (switched state) s = record s { state = state }
  after (entry id order_id request c) s = kept s (enter s id order_id request c)
  after (marking id price now) s = kept s (mark s id price now)
  after (averaging id order_id request c) s = kept s (dca s id order_id request c)
  after (closing id price now) s = kept s (close_position s id price now)

  unfoldable pub run : List (Call F) → PaperService F → PaperService F
  run [] s = s
  run (call ∷ rest) s = run rest (after call s)

  after-HoldsOpen : (c : Call F) (s : PaperService F) → HoldsOpen s → HoldsOpen (after c s)
  unfolding after
  after-HoldsOpen (switched state) s h = h
  after-HoldsOpen (entry id order_id request c) s h =
      kept-Sound HoldsOpen s (enter s id order_id request c) h
        (enter-HoldsOpen s id order_id request c h)
  after-HoldsOpen (marking id price now) s h =
      kept-Sound HoldsOpen s (mark s id price now) h (mark-HoldsOpen s id price now h)
  after-HoldsOpen (averaging id order_id request c) s h =
      kept-Sound HoldsOpen s (dca s id order_id request c) h
        (dca-HoldsOpen s id order_id request c h)
  after-HoldsOpen (closing id price now) s h =
      let closes = close_position-IsClosing s id price now h in
      kept-Sound HoldsOpen s (close_position s id price now) h
        (record { holds = λ x e. (closes.holds x e).2 })

  run-HoldsOpen :
      (calls : List (Call F)) (s : PaperService F) → HoldsOpen s → HoldsOpen (run calls s)
  unfolding run
  run-HoldsOpen [] s h = h
  run-HoldsOpen (call ∷ rest) s h = run-HoldsOpen rest (after call s) (after-HoldsOpen call s h)

  close_position-ok :
      (s : PaperService F) (id : String) (p : PaperPosition F) (price : F) (now : ℕ)
      → HoldsOpen s
      → lookup id s.positions ≡ some p
      → is_ok (close_position s id price now) ≡ true
  unfolding close_position
  close_position-ok s id p price now h e =
      let o = lookup-All id s.positions p h e in
      let steps = PositionState.exit_pending ∷ PositionState.closed ∷ [] in
      on_key-ok _ _ p e
        (bind-ok _ _ PositionState.closed (ap (λ x. moves x steps) o ∙ moves-opened.2) refl)

  -- After any run of calls of a service whose positions were open, calls that raise being skipped,
  -- a position that it holds can be closed: the call returns, the position ends CLOSED and is no
  -- longer held, and all that are still held are open.
  pub run-closes :
      (calls : List (Call F)) (s : PaperService F) (id : String) (p : PaperPosition F) (price : F)
      (now : ℕ)
      → HoldsOpen s
      → lookup id (run calls s).positions ≡ some p
      → (x : PaperService F × PaperPosition F) × (close_position (run calls s) id price now ≡ ok x)
        × IsClosing id x
  run-closes calls s id p price now h e =
      let s' = run calls s in
      let open_after = run-HoldsOpen calls s h in
      returned (close_position s' id price now) (close_position-ok s' id p price now open_after e)
        (close_position-IsClosing s' id price now open_after)
