-- ===== src/Sizing/Sized.antt =====
-- What a size that is not refused rests on.
use alm_trading.Base.{
  ok_injective, String, ◌≡◌, ◌≢◌, ◌⊎◌, inl, inr, refl, sym, subst, ap, ◌∙◌, true, false, not, ◌||◌,
  Option, none, some, List, [], ◌∷◌, ◌++◌, arith, Bool-cases, Result, ok, raise, or_else,
}
use alm_trading.Float.{Float, IsOrdered, nought}
use alm_trading.Limits.{DemoRiskLimits}
use alm_trading.Sizing.{PositionSize, usable, floor_to_step}
use alm_trading.Sizing.Calculate.{
  SizeRequest, limited, floor_volume, sized, step_of, loss_per_lot, raw_volume, size_stop,
  calculate_stop, calculate_equity, calculate_risk, calculate,
}

append-ne-nil {ℓ} : {A : Type ℓ} (xs : List A) (x : A) → xs ++ (x ∷ []) ≢ []
append-ne-nil [] x e = ground arith
append-ne-nil (y ∷ ys) x e = ground arith

module _ {ℓ} {F : Type ℓ} ⦃f : Float F⦄ where
  open f use {lt, le, mul, round, sub, abs}

  -- a size that was not refused
  pub record IsSized (limits : DemoRiskLimits F) (q : SizeRequest F) (size : PositionSize F)
      : Type ℓ where
    pub requested : F
    pub distance : F
    pub reasons : List String
    pub stepped : F
    pub stop : F
    -- the risk is the one asked for, within the limit
    pub risk : size.risk_percent ≡ requested
    pub within : lt limits.max_risk_per_trade requested ≡ false
    -- a stop at a distance that is not below the least
    pub given : q.stop_loss ≡ some stop
    pub apart : distance ≡ abs (sub q.entry_price stop)
    pub far : lt distance limits.min_stop_distance ≡ false
    pub economics : usable q.contract ≡ true
    -- the capped volume, floored to a step, is not below the smallest one, and is then rounded
    pub floored :
        floor_to_step
          (limited limits q (raw_volume q requested distance) reasons).0
          (step_of limits q)
        ≡ ok stepped
    pub enough : lt stepped (floor_volume limits q) ≡ false
    pub rounded : size.volume ≡ round 6 stepped

  -- no volume, with a reason
  abbrev pub IsRefused : PositionSize F → Type ℓ
  IsRefused size = (size.volume ≡ nought) × (size.reasons ≢ [])

  ok-IsRefused :
      {r size : PositionSize F} (reasons : List String) (code : String)
      → r.volume ≡ nought
      → r.reasons ≡ reasons ++ (code ∷ [])
      → ok r ≡ ok size
      → IsRefused size
  ok-IsRefused reasons code v w e =
      subst IsRefused (ok_injective e) (v, λ n. append-ne-nil reasons code (sym w ∙ n))

module _ {ℓ} {F : Type ℓ} ⦃f : Float F⦄ (laws : IsOrdered F) where
  open f use {lt}

  sized-IsSized :
      (limits : DemoRiskLimits F) (q : SizeRequest F) (risk_amount distance requested raw stop : F)
      (reasons : List String) (codes : List String) (o : Result F) (size : PositionSize F)
      → lt limits.max_risk_per_trade requested ≡ false
      → q.stop_loss ≡ some stop
      → distance ≡ f.abs (f.sub q.entry_price stop)
      → lt distance limits.min_stop_distance ≡ false
      → usable q.contract ≡ true
      → floor_to_step
          (limited limits q (raw_volume q requested distance) reasons).0
          (step_of limits q)
        ≡ o
      → sized limits q risk_amount distance requested raw codes o ≡ ok size
      → IsRefused size ⊎ IsSized limits q size
  unfolding sized
  sized-IsSized limits q risk_amount distance requested raw stop reasons codes (raise e) size a b c
        d u g h =
      absurd (ground arith)
  sized-IsSized limits q risk_amount distance requested raw stop reasons codes (ok v) size a b c d u
        g h =
      elim (Bool-cases (lt v (floor_volume limits q))) [
        | inl below ↦
            inl (ok-IsRefused codes "BELOW_MINIMUM_VOLUME" refl refl (rw (below, sized) at h))
        | inr enough ↦ inr (record {
          requested = requested;
          distance = distance;
          reasons = reasons;
          stepped = v;
          stop = stop;
          risk = ap (λ x. x.risk_percent) (sym (ok_injective (rw (enough, sized) at h)));
          within = a;
          given = b;
          apart = c;
          far = d;
          economics = u;
          floored = g;
          enough = enough;
          rounded = ap (λ x. x.volume) (sym (ok_injective (rw (enough, sized) at h)));
        })
      ]

  calculate_stop-IsSized :
      (limits : DemoRiskLimits F) (q : SizeRequest F) (requested distance stop : F)
      (reasons : List String) (size : PositionSize F)
      → lt limits.max_risk_per_trade requested ≡ false
      → q.stop_loss ≡ some stop
      → distance ≡ f.abs (f.sub q.entry_price stop)
      → calculate_stop limits q requested reasons distance ≡ ok size
      → IsRefused size ⊎ IsSized limits q size
  unfolding calculate_stop size_stop
  calculate_stop-IsSized limits q requested distance stop reasons size a b c h =
      elim (Bool-cases (f.le distance nought || lt distance limits.min_stop_distance)) [
        | inl near ↦
            inl (ok-IsRefused reasons "NO_STOP_DISTANCE" refl refl (rw (near, calculate_stop) at h))
        | inr far ↦ elim (Bool-cases (usable q.contract)) [
          | inr without ↦ inl (
              ok-IsRefused reasons "NO_TICK_ECONOMICS" refl refl
                (rw (far, without, calculate_stop) at h))
          | inl economics ↦ elim (Bool-cases (f.le (loss_per_lot q distance) nought)) [
            | inl free ↦ inl (
                ok-IsRefused reasons "NO_TICK_ECONOMICS" refl refl
                  (rw (far, economics, free, calculate_stop) at h))
            | inr costly ↦
                sized-IsSized limits q (f.mul q.equity requested) distance requested
                  (raw_volume q requested distance) stop reasons
                  (limited limits q (raw_volume q requested distance) reasons).1 _ size a b c
                  (ground arith) economics refl (rw (far, economics, costly, calculate_stop) at h)
          ]
        ]
      ]

  calculate_equity-IsSized :
      (limits : DemoRiskLimits F) (q : SizeRequest F) (requested : F) (reasons : List String)
      (o : Option F) (size : PositionSize F)
      → lt limits.max_risk_per_trade requested ≡ false
      → q.stop_loss ≡ o
      → calculate_equity limits q requested reasons o ≡ ok size
      → IsRefused size ⊎ IsSized limits q size
  unfolding calculate_equity
  calculate_equity-IsSized limits q requested reasons none size a b h =
      inl (ok-IsRefused reasons "NO_STOP_DISTANCE" refl refl h)
  calculate_equity-IsSized limits q requested reasons (some stop) size a b h =
      elim (Bool-cases (not (f.is_finite stop) || f.le stop nought)) [
        | inl wrong ↦
            inl (
              ok-IsRefused reasons "NO_STOP_DISTANCE" refl refl (rw (wrong, calculate_equity) at h))
        | inr fine ↦
            calculate_stop-IsSized limits q requested _ stop reasons size a b refl
              (rw (fine, calculate_equity) at h)
      ]

  calculate_risk-IsSized :
      (limits : DemoRiskLimits F) (q : SizeRequest F) (requested : F) (reasons : List String)
      (size : PositionSize F)
      → lt limits.max_risk_per_trade requested ≡ false
      → calculate_risk limits q requested reasons ≡ ok size
      → IsRefused size ⊎ IsSized limits q size
  unfolding calculate_risk
  calculate_risk-IsSized limits q requested reasons size a h =
      elim (Bool-cases (not (f.is_finite q.equity) || f.le q.equity nought)) [
        | inl poor ↦ inl (ok-IsRefused [] "NO_EQUITY" refl refl (rw (poor, calculate_risk) at h))
        | inr funded ↦
            calculate_equity-IsSized limits q requested reasons q.stop_loss size a refl
              (rw (funded, calculate_risk) at h)
      ]

  lt-irreflexive : (x : F) → lt x x ≡ false
  lt-irreflexive x = elim (Bool-cases (lt x x)) [
    | inr no_less ↦ no_less
    | inl less ↦ laws.not_lt_of_le x x (laws.le_refl x (laws.lt_number x x less).0)
  ]

  -- A calculation that returns either refuses, with no volume and a reason, or rests on a risk
  -- within the limit, a stop at a distance that is not below the least and usable tick economics,
  -- and its volume is the capped one floored to a step, which is not below the smallest volume,
  -- and then rounded to six decimals.
  pub calculate-IsSized :
      (limits : DemoRiskLimits F) (q : SizeRequest F) (size : PositionSize F)
      → calculate limits q ≡ ok size
      → IsRefused size ⊎ IsSized limits q size
  unfolding calculate
  calculate-IsSized limits q size h =
      let asked = or_else q.risk_percent limits.max_risk_per_trade in
      elim (Bool-cases (not (f.is_finite asked) || f.le asked nought)) [
        | inl wrong ↦
            inl (ok-IsRefused [] "INVALID_RISK_PERCENT" refl refl (rw (wrong, calculate) at h))
        | inr fine ↦ elim (Bool-cases (lt limits.max_risk_per_trade asked)) [
          | inl above ↦
              calculate_risk-IsSized limits q limits.max_risk_per_trade _ size
                (lt-irreflexive limits.max_risk_per_trade) (rw (fine, above, calculate) at h)
          | inr within ↦
              calculate_risk-IsSized limits q asked [] size within
                (rw (fine, within, calculate) at h)
        ]
      ]
