-- ===== src/Paper/Held.antt =====
-- Between the calls of the paper trading service (paper/service.py), the positions it holds are open.
use alm_trading.Base.{
  ℕ, String, ◌≡◌, inl, inr, refl, ap, sym, subst, ◌∙◌, Error, key_error, not, Bool, true, false,
  Option, none, some, List, [], ◌∷◌, All, Result, ok, raise, arith, Bool-cases, ◌=?◌, string_eq,
  if◌then◌else◌, some_injective, is_some, ok_injective,
}
use alm_trading.Float.{Float}
use alm_trading.Paper.{
  PositionState, PaperPosition, PaperOrderRequest, PaperExecutionResult, allowed, transition, moves,
  open_position, mark_position, add_entry,
}
use alm_trading.Paper.Trading.{
  PaperService, Conditions, lookup, put, pop, entered, enter, mark, averaged, dca_blocked, dca,
  close_position, on_key, bind, given, gate, is_running,
}

-- what holds of a result, if it is one
pub record Sound {ℓ} {A : Type ℓ} (P : A → Type 0) (r : Result A) : Type ℓ where
  pub holds : (a : A) → r ≡ ok a → P a

pub sound {ℓ} : {A : Type ℓ} {P : A → Type 0} (a : A) → P a → Sound P (ok a)
sound {P = P} a p = record { holds = λ b e. subst P (ok_injective e) p }

raised {ℓ} : {A : Type ℓ} {P : A → Type 0} (e : Error) → Sound P (raise e)
raised e = record { holds = λ b h. absurd (ground arith) }

on_key-Sound {ℓ κ} :
    {A : Type ℓ} {B : Type κ} {P : B → Type 0} (o : Option A) (k : A → Result B)
    → ((a : A) → o ≡ some a → Sound P (k a))
    → Sound P (on_key o k)
unfolding on_key
on_key-Sound none k h = raised key_error
on_key-Sound (some a) k h = h a refl

bind-Sound {ℓ κ} :
    {A : Type ℓ} {B : Type κ} {P : B → Type 0} (r : Result A) (k : A → Result B)
    → ((a : A) → r ≡ ok a → Sound P (k a))
    → Sound P (bind r k)
unfolding bind
bind-Sound (ok a) k h = h a refl
bind-Sound (raise e) k h = raised e

given-Sound {ℓ κ} :
    {A : Type ℓ} {B : Type κ} {P : B → Type 0} (o : Option A) (d : Result B) (k : A → Result B)
    → Sound P d
    → ((a : A) → Sound P (k a))
    → Sound P (given o d k)
unfolding given
given-Sound none d k p h = p
given-Sound (some a) d k p h = h a

if-Sound {ℓ} :
    {A : Type ℓ} {P : A → Type 0} (b : Bool) (x y : Result A)
    → Sound P x
    → Sound P y
    → Sound P (if b then x else y)
if-Sound true x y p q = p
if-Sound false x y p q = q

pub moves-opened :
    (moves PositionState.opened (PositionState.dca_allowed ∷ PositionState.opened ∷ [])
      ≡ ok PositionState.opened)
    × (moves PositionState.opened (PositionState.dca_blocked ∷ PositionState.opened ∷ [])
        ≡ ok PositionState.opened)
    × (moves PositionState.opened (PositionState.exit_pending ∷ PositionState.closed ∷ [])
        ≡ ok PositionState.closed)
    × (moves PositionState.watching (PositionState.entry_ready ∷ PositionState.opened ∷ [])
        ≡ ok PositionState.opened)
unfolding moves transition allowed
moves-opened = (refl, refl, refl, refl)

module _ {ℓ} {F : Type ℓ} where
  abbrev pub IsOpen : PaperPosition F → Type 0
  IsOpen p = p.state ≡ PositionState.opened

  abbrev pub HoldsOpen : PaperService F → Type 0
  HoldsOpen s = All IsOpen s.positions

  put-All :
      (p : PaperPosition F) (ps : List (PaperPosition F))
      → IsOpen p
      → All IsOpen ps
      → All IsOpen (put p ps)
  unfolding put
  put-All p [] h a = (h, tt)
  put-All p (q ∷ ps) h a = elim (Bool-cases (q.position_id =? p.position_id)) [
    | inl same ↦ rw same (h, a.1)
    | inr other ↦ rw other (a.0, put-All p ps h a.1)
  ]

  pop-All : (id : String) (ps : List (PaperPosition F)) → All IsOpen ps → All IsOpen (pop id ps)
  unfolding pop
  pop-All id [] a = tt
  pop-All id (q ∷ ps) a = elim (Bool-cases (q.position_id =? id)) [
    | inl same ↦ rw same (pop-All id ps a.1)
    | inr other ↦ rw other (a.0, pop-All id ps a.1)
  ]

  pub lookup-All :
      (id : String) (ps : List (PaperPosition F)) (p : PaperPosition F)
      → All IsOpen ps
      → lookup id ps ≡ some p
      → IsOpen p
  unfolding lookup
  lookup-All id [] p a h = absurd (ground arith)
  lookup-All id (q ∷ ps) p a h = elim (Bool-cases (q.position_id =? id)) [
    | inl same ↦
        let e : some q ≡ some p = ground arith in ap (λ x. x.state) (sym (some_injective e)) ∙ a.0
    | inr other ↦ lookup-All id ps p a.1 (ground arith)
  ]

  lookup-pop : (id : String) (ps : List (PaperPosition F)) → lookup id (pop id ps) ≡ none
  unfolding lookup pop
  lookup-pop id [] = refl
  lookup-pop id (q ∷ ps) = elim (Bool-cases (q.position_id =? id)) [
    | inl same ↦ rw same (lookup-pop id ps)
    | inr other ↦ rw (other, other) (lookup-pop id ps)
  ]

module _ {ℓ} {F : Type ℓ} ⦃f : Float F⦄ where
  pub entered-HoldsOpen :
      (s : PaperService F) (id : String) (q : PaperOrderRequest F) (r : PaperExecutionResult F)
      → HoldsOpen s
      → Sound (λ x. HoldsOpen x.0) (entered s id q r)
  unfolding entered open_position
  entered-HoldsOpen s id q r h = given-Sound _ _ _ (sound (s, _) h) (λ order.
      bind-Sound _ _ (λ reached e. sound _ (
        put-All (open_position id q order.executed_price reached) s.positions
          (sym (ok_injective (sym moves-opened.3 ∙ e))) h)))

  pub enter-HoldsOpen :
      (s : PaperService F) (id order_id : String) (q : PaperOrderRequest F) (c : Conditions F)
      → HoldsOpen s
      → Sound (λ x. HoldsOpen x.0) (enter s id order_id q c)
  unfolding enter
  enter-HoldsOpen s id order_id q c h = if-Sound (not (is_running s.state)) _ _ (sound (s, _) h) (
      if-Sound (not (gate s c true 0 q.quantity).allowed) _ _ (sound (s, _) h)
        (bind-Sound _ _ (λ r e. entered-HoldsOpen s id q r h)))

  pub mark-HoldsOpen :
      (s : PaperService F) (id : String) (price : F) (now : ℕ)
      → HoldsOpen s
      → Sound (λ x. HoldsOpen x.0) (mark s id price now)
  unfolding mark mark_position
  mark-HoldsOpen s id price now h = on_key-Sound _ _ (λ p e.
      sound _ (put-All (mark_position p price now) s.positions (lookup-All id s.positions p h e) h))

  averaged-HoldsOpen :
      (s : PaperService F) (p : PaperPosition F) (q : PaperOrderRequest F)
      (r : PaperExecutionResult F)
      → HoldsOpen s
      → IsOpen p
      → Sound (λ x. HoldsOpen x.0) (averaged s p q r)
  unfolding averaged
  averaged-HoldsOpen s p q r h o = given-Sound _ _ _ (sound (s, _) h) (λ order.
      bind-Sound _ _ (λ reached e. sound _ (
        put-All
          (record (add_entry p order.executed_price order.quantity q.timestamp) { state = reached })
          s.positions
          (sym (
            ok_injective (
              sym moves-opened.0
              ∙ ap (λ x. moves x (PositionState.dca_allowed ∷ PositionState.opened ∷ [])) (sym o)
              ∙ e)))
          h)))

  dca_blocked-HoldsOpen :
      (s : PaperService F) (p : PaperPosition F) (reasons : List String)
      → HoldsOpen s
      → IsOpen p
      → Sound (λ x. HoldsOpen x.0) (dca_blocked s p reasons)
  unfolding dca_blocked
  dca_blocked-HoldsOpen s p reasons h o = bind-Sound _ _ (λ reached e. sound _ (
      put-All (record p { state = reached }) s.positions
        (sym (
          ok_injective (
            sym moves-opened.1
            ∙ ap (λ x. moves x (PositionState.dca_blocked ∷ PositionState.opened ∷ [])) (sym o)
            ∙ e)))
        h))

  pub dca-HoldsOpen :
      (s : PaperService F) (id order_id : String) (q : PaperOrderRequest F) (c : Conditions F)
      → HoldsOpen s
      → Sound (λ x. HoldsOpen x.0) (dca s id order_id q c)
  unfolding dca
  dca-HoldsOpen s id order_id q c h = on_key-Sound _ _ (λ p e.
      let o = lookup-All id s.positions p h e in
      if-Sound (not (gate s c false p.dca_entries q.quantity).allowed) _ _
        (dca_blocked-HoldsOpen s p _ h o) (bind-Sound _ _ (λ r _. averaged-HoldsOpen s p q r h o)))

  -- a position that is closed ends CLOSED, is no longer held, and the others stay open
  abbrev pub IsClosing : String → PaperService F × PaperPosition F → Type 0
  IsClosing id x =
      (x.1.state ≡ PositionState.closed)
      × (is_some (lookup id x.0.positions) ≡ false)
      × HoldsOpen x.0

  pub close_position-IsClosing :
      (s : PaperService F) (id : String) (price : F) (now : ℕ)
      → HoldsOpen s
      → Sound (IsClosing id) (close_position s id price now)
  unfolding close_position
  close_position-IsClosing s id price now h = on_key-Sound _ _ (λ p e.
      let o = lookup-All id s.positions p h e in
      bind-Sound _ _ (λ reached m. sound _ (
        sym (
            ok_injective (
              sym moves-opened.2
              ∙ ap (λ x. moves x (PositionState.exit_pending ∷ PositionState.closed ∷ [])) (sym o)
              ∙ m)),
        ap is_some (lookup-pop id s.positions),
        pop-All id s.positions h,
      )))
