-- ===== src/Lifecycle/Reach.antt =====
-- What a lifecycle can go through: every history is a path of the transition table from the state in
-- which it was created, and every path is short.
use alm_trading.Base.{
  ℕ, ◌+◌, ◌≤◌, ◌<◌, String, ◌≡◌, refl, sym, subst, ◌⊎◌, inl, inr, Bool, true, false, Option, none,
  some, List, [], ◌∷◌, ◌++◌, arith, ok, raise, Result, Bool-cases, length,
}
use alm_trading.Lifecycle.{
  DemoExecutionState, proposed, approved, submitted, accepted, partially_filled, filled, rejected,
  reconciled, allowed, is_terminal, StateTransition, ExecutionLifecycle, create, can_advance,
  advance, advanced, kept,
}

-- A state is in the list of terminal states exactly when the table allows no move from it.
pub is_terminal_iff_stuck :
    (s : DemoExecutionState)
    → (is_terminal s ≡ true → (t : DemoExecutionState) → allowed s t ≡ false)
      × (is_terminal s ≡ false → (t : DemoExecutionState) × (allowed s t ≡ true))
unfolding is_terminal allowed
is_terminal_iff_stuck proposed = (λ h. cc, λ h. (approved, refl))
is_terminal_iff_stuck approved = (λ h. cc, λ h. (submitted, refl))
is_terminal_iff_stuck submitted = (λ h. cc, λ h. (accepted, refl))
is_terminal_iff_stuck accepted = (λ h. cc, λ h. (filled, refl))
is_terminal_iff_stuck partially_filled = (λ h. cc, λ h. (filled, refl))
is_terminal_iff_stuck filled = (λ h. cc, λ h. (reconciled, refl))
is_terminal_iff_stuck _ = (λ h t. refl, λ h. cc)

-- How far along its way a state is.
abbrev pub rank : DemoExecutionState → ℕ
rank proposed = 0
rank approved = 1
rank submitted = 2
rank accepted = 3
rank partially_filled = 4
rank filled = 5
rank _ = 6

rank-le : (s : DemoExecutionState) → rank s ≤ 6
rank-le proposed = omega arith
rank-le _ = omega arith

allowed-rank : (s t : DemoExecutionState) → allowed s t ≡ true → rank s < rank t
unfolding allowed
allowed-rank s t h = ground arith

-- The state cannot be had without a submission.
abbrev pub is_after_submission : DemoExecutionState → Bool
is_after_submission accepted = true
is_after_submission partially_filled = true
is_after_submission filled = true
is_after_submission rejected = true
is_after_submission reconciled = true
is_after_submission _ = false

allowed_after :
    (s t : DemoExecutionState)
    → allowed s t ≡ true
    → is_after_submission t ≡ true
    → (is_after_submission s ≡ true) ⊎ (s ≡ submitted)
unfolding allowed
allowed_after s t h a = ground arith

abbrev Moves : Option DemoExecutionState → DemoExecutionState → Type 0
Moves none t = Unit
Moves (some s) t = allowed s t ≡ true

-- Each entry names the state before it, and the table allows the move.
abbrev pub Linked : Option DemoExecutionState → List StateTransition → Type 0
Linked p [] = Unit
Linked p (t ∷ ts) = (t.previous ≡ p) × Moves p t.state × Linked (some t.state) ts

abbrev pub last_state : Option DemoExecutionState → List StateTransition → Option DemoExecutionState
last_state p [] = p
last_state p (t ∷ ts) = last_state (some t.state) ts

abbrev pub Visits : DemoExecutionState → List StateTransition → Type 0
Visits s [] = ⊥
Visits s (t ∷ ts) = (t.state ≡ s) ⊎ Visits s ts

-- The history of a lifecycle is a path of the table that ends in its state.
pub record IsValid (l : ExecutionLifecycle) : Type 0 where
  pub linked : Linked none l.history
  pub current : last_state none l.history ≡ some l.state

Linked-append :
    (p : Option DemoExecutionState) (ts : List StateTransition) (t : StateTransition)
    → Linked p ts
    → t.previous ≡ last_state p ts
    → Moves (last_state p ts) t.state
    → Linked p (ts ++ (t ∷ []))
Linked-append p [] t h e m = (e, m, tt)
Linked-append p (x ∷ ts) t h e m = (h.0, h.1, Linked-append (some x.state) ts t h.2 e m)

last_state-append :
    (p : Option DemoExecutionState) (ts : List StateTransition) (t : StateTransition)
    → last_state p (ts ++ (t ∷ [])) ≡ some t.state
last_state-append p [] t = refl
last_state-append p (x ∷ ts) t = last_state-append (some x.state) ts t

-- A lifecycle starts valid in any state.
pub create-IsValid :
    (i : String) (s : DemoExecutionState) (a : String) (rs : List String) (now : ℕ)
    → IsValid (create i s a rs now)
unfolding create
create-IsValid i s a rs now = record { linked = (refl, tt, tt); current = refl }

pub advanced-IsValid :
    (l : ExecutionLifecycle) (t : DemoExecutionState) (a : String) (rs : List String) (now : ℕ)
    → can_advance l t ≡ true
    → IsValid l
    → IsValid (advanced l t a rs now)
unfolding can_advance
advanced-IsValid l t a rs now h v = record {
  linked = Linked-append none l.history _ v.linked (sym v.current) (rw v.current h);
  current = last_state-append none l.history _;
}

-- An advance that succeeds makes a move of the table, to the target, and keeps the history valid.
pub advance-IsValid :
    (l l' : ExecutionLifecycle) (t : DemoExecutionState) (a : String) (rs : List String) (now : ℕ)
    → IsValid l
    → advance l t a rs now ≡ ok l'
    → IsValid l' × (l'.state ≡ t) × (allowed l.state t ≡ true)
unfolding advance
advance-IsValid l l' t a rs now v e = elim (Bool-cases (can_advance l t)) [
  | inl yes_it_can ↦
      let same : advanced l t a rs now ≡ l' = ground arith in
      subst (λ x. IsValid x × (x.state ≡ t) × (allowed l.state t ≡ true)) same
        (advanced-IsValid l t a rs now yes_it_can v, refl, yes_it_can)
  | inr it_cannot ↦ absurd (ground arith)
]

Linked-length :
    (s : DemoExecutionState) (ts : List StateTransition)
    → Linked (some s) ts
    → length ts + rank s ≤ 6
Linked-length s [] h = omega (arith, rank-le s)
Linked-length s (t ∷ ts) h = omega (arith, allowed-rank s t.state h.1, Linked-length t.state ts h.2)

length-le : (ts : List StateTransition) → Linked none ts → length ts ≤ 7
length-le [] h = omega arith
length-le (t ∷ ts) h = omega (arith, Linked-length t.state ts h.2)

Linked-submitted :
    (s u : DemoExecutionState) (ts : List StateTransition)
    → Linked (some s) ts
    → last_state (some s) ts ≡ some u
    → is_after_submission u ≡ true
    → (is_after_submission s ≡ true) ⊎ ((s ≡ submitted) ⊎ Visits submitted ts)
Linked-submitted s u [] h e a = ground arith
Linked-submitted s u (t ∷ ts) h e a =
    ground (arith, Linked-submitted t.state u ts h.2 e a, allowed_after s t.state h.1)

abbrev pub first_state : List StateTransition → Option DemoExecutionState
first_state [] = none
first_state (t ∷ ts) = some t.state

Linked-Visits :
    (u : DemoExecutionState) (ts : List StateTransition)
    → Linked none ts
    → first_state ts ≡ some proposed
    → last_state none ts ≡ some u
    → is_after_submission u ≡ true
    → Visits submitted ts
Linked-Visits u [] h f e a = cc
Linked-Visits u (t ∷ ts) h f e a = ground (arith, Linked-submitted t.state u ts h.2 e a)

-- the arguments of an `advance`: its target, actor and reasons, and its moment
abbrev pub Attempt : Type 0
Attempt = DemoExecutionState × String × List String × ℕ

-- `advance` with its error caught, for each attempt in turn.
unfoldable pub attempts : List Attempt → ExecutionLifecycle → ExecutionLifecycle
attempts [] l = l
attempts ((t, actor, reasons, now) ∷ rest) l =
    attempts rest (kept l (advance l t actor reasons now))

keep :
    (l : ExecutionLifecycle) (r : Result ExecutionLifecycle) (t : DemoExecutionState) (a : String)
    (rs : List String) (now : ℕ)
    → advance l t a rs now ≡ r
    → IsValid l
    → IsValid (kept l r)
keep l (ok l') t a rs now e v = (advance-IsValid l l' t a rs now v e).0
keep l (raise x) t a rs now e v = v

first_state-append :
    (ts us : List StateTransition) (s : DemoExecutionState)
    → first_state ts ≡ some s
    → first_state (ts ++ us) ≡ some s
first_state-append [] us s h = cc
first_state-append (t ∷ ts) us s h = h

keep_first :
    (l : ExecutionLifecycle) (t s : DemoExecutionState) (a : String) (rs : List String) (now : ℕ)
    → first_state l.history ≡ some s
    → first_state (kept l (advance l t a rs now)).history ≡ some s
unfolding advance
keep_first l t s a rs now h = elim (Bool-cases (can_advance l t)) [
  | inl it_can ↦ rw it_can (first_state-append l.history _ s h)
  | inr it_cannot ↦ rw it_cannot h
]

-- However a valid lifecycle that began in PROPOSED is advanced, advances that raise being skipped,
-- its history stays a chain of allowed moves of at most seven entries, and a state after
-- submission has passed through SUBMITTED.
pub attempts-IsValid :
    (ts : List Attempt) (l : ExecutionLifecycle)
    → IsValid l
    → first_state l.history ≡ some proposed
    → let l' = attempts ts l in
      IsValid l'
      × (length l'.history ≤ 7)
      × (is_after_submission l'.state ≡ true → Visits submitted l'.history)
unfolding attempts
attempts-IsValid [] l v f =
    (v, length-le l.history v.linked, Linked-Visits l.state l.history v.linked f v.current)
attempts-IsValid ((t, actor, reasons, now) ∷ rest) l v f =
    attempts-IsValid rest (kept l (advance l t actor reasons now))
      (keep l (advance l t actor reasons now) t actor reasons now refl v)
      (keep_first l t proposed actor reasons now f)
