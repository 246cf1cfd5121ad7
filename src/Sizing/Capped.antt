-- ===== src/Sizing/Capped.antt =====
-- Every cap holds of the volume that the caps leave.
use alm_trading.Base.{
  some_injective, String, ◌≡◌, inl, inr, refl, subst, true, Option, none, some, List, arith,
  Bool-cases,
}
use alm_trading.Float.{Float, IsOrdered, IsNumber, nought, ◌≼◌}
use alm_trading.Limits.{DemoRiskLimits}
use alm_trading.Sizing.{capped, room_volume, exposure_caps, margin_cap}
use alm_trading.Sizing.Calculate.{
  SizeRequest, per_lot, allowed_margin, symbol_room, total_room, limited,
}

module _ {ℓ} {F : Type ℓ} ⦃f : Float F⦄ where
  open f use {lt, le, mul, round, sub, abs}

  -- every cap that applies, on a volume
  pub record IsCapped (limits : DemoRiskLimits F) (q : SizeRequest F) (v : F) : Type ℓ where
    pub position : v ≼ limits.max_position_size
    pub broker : v ≼ q.contract.volume_max
    pub symbol_exposure :
        lt nought (per_lot q) ≡ true → v ≼ room_volume (symbol_room limits q) (per_lot q)
    pub total_exposure :
        lt nought (per_lot q) ≡ true → v ≼ room_volume (total_room limits q) (per_lot q)
    pub margin : (allowed : F) → allowed_margin limits q ≡ some allowed → v ≼ allowed

module _ {ℓ} {F : Type ℓ} ⦃f : Float F⦄ (laws : IsOrdered F) where
  open f use {lt}

  -- one cap: within it, and not above what it was
  capped-le :
      (limit : F) (code : String) (state : F × List String)
      → IsNumber limit
      → IsNumber state.0
      → ((capped limit code state).0 ≼ limit)
        × ((capped limit code state).0 ≼ state.0)
        × IsNumber (capped limit code state).0
  capped-le limit code state n m = elim (Bool-cases (lt limit state.0)) [
    | inl above ↦ rw above (laws.le_refl limit n, laws.le_of_lt limit state.0 above, n)
    | inr below ↦ rw below (laws.le_of_not_lt limit state.0 n m below, laws.le_refl state.0 m, m)
  ]

  exposure_caps-le :
      (a b : F) (lot : F) (state : F × List String)
      → IsNumber state.0
      → (lt nought lot ≡ true → IsNumber (room_volume a lot) × IsNumber (room_volume b lot))
      → let v = (exposure_caps a b lot state).0 in
        (v ≼ state.0)
        × IsNumber v
        × (lt nought lot ≡ true → (v ≼ room_volume a lot) × (v ≼ room_volume b lot))
  unfolding exposure_caps
  exposure_caps-le a b lot state m n = elim (Bool-cases (lt nought lot)) [
    | inr without ↦
        rw (without, exposure_caps) (laws.le_refl state.0 m, m, λ h. absurd (ground arith))
    | inl with_lot ↦
        let first =
          capped-le (room_volume a lot) "CAPPED_BY_SYMBOL_EXPOSURE" state (n with_lot).0 m in
        let by_symbol = capped (room_volume a lot) "CAPPED_BY_SYMBOL_EXPOSURE" state in
        let second =
          capped-le (room_volume b lot) "CAPPED_BY_TOTAL_EXPOSURE" by_symbol (n with_lot).1
            first.2 in
        let last = (capped (room_volume b lot) "CAPPED_BY_TOTAL_EXPOSURE" by_symbol).0 in
        rw (with_lot, exposure_caps)
          (
            laws.le_trans last by_symbol.0 state.0 second.1 first.1,
            second.2,
            λ h. (laws.le_trans last by_symbol.0 (room_volume a lot) second.1 first.0, second.0),
          )
  ]

  margin_cap-le :
      (o : Option F) (state : F × List String)
      → IsNumber state.0
      → ((allowed : F) → o ≡ some allowed → IsNumber allowed)
      → let v = (margin_cap o state).0 in
        (v ≼ state.0) × ((allowed : F) → o ≡ some allowed → v ≼ allowed)
  margin_cap-le none state m n = (laws.le_refl state.0 m, λ allowed e. absurd (ground arith))
  margin_cap-le (some x) state m n =
      let c = capped-le x "CAPPED_BY_MARGIN" state (n x refl) m in
      (
        c.1,
        λ allowed e. subst (λ y. (capped x "CAPPED_BY_MARGIN" state).0 ≼ y) (some_injective e) c.0,
      )

  -- the figures that the caps compare are numbers
  pub record IsNumeric (limits : DemoRiskLimits F) (q : SizeRequest F) (raw : F) : Type ℓ where
    pub volume : IsNumber raw
    pub position : IsNumber limits.max_position_size
    pub broker : IsNumber q.contract.volume_max
    pub rooms :
        lt nought (per_lot q) ≡ true
        → IsNumber (room_volume (symbol_room limits q) (per_lot q))
          × IsNumber (room_volume (total_room limits q) (per_lot q))
    pub margin : (allowed : F) → allowed_margin limits q ≡ some allowed → IsNumber allowed

  -- Where the figures compared are numbers, the volume that the caps leave is at most the one that
  -- the risk pays for, the largest position, the largest volume of the broker, what either
  -- exposure leaves room for, and what the margin pays for.
  pub limited-IsCapped :
      (limits : DemoRiskLimits F) (q : SizeRequest F) (raw : F) (reasons : List String)
      → IsNumeric limits q raw
      → let v = (limited limits q raw reasons).0 in IsCapped limits q v × (v ≼ raw)
  unfolding limited
  limited-IsCapped limits q raw reasons n =
      let s1 = capped limits.max_position_size "CAPPED_BY_MAX_POSITION_SIZE" (raw, reasons) in
      let c1 =
        capped-le limits.max_position_size "CAPPED_BY_MAX_POSITION_SIZE" (raw, reasons) n.position
          n.volume in
      let s2 = capped q.contract.volume_max "CAPPED_BY_BROKER_MAXIMUM" s1 in
      let c2 = capped-le q.contract.volume_max "CAPPED_BY_BROKER_MAXIMUM" s1 n.broker c1.2 in
      let s3 = exposure_caps (symbol_room limits q) (total_room limits q) (per_lot q) s2 in
      let c3 =
        exposure_caps-le (symbol_room limits q) (total_room limits q) (per_lot q) s2 c2.2 n.rooms in
      let v = (margin_cap (allowed_margin limits q) s3).0 in
      let c4 = margin_cap-le (allowed_margin limits q) s3 c3.1 n.margin in
      let to_broker = laws.le_trans v s3.0 s2.0 c4.0 c3.0 in
      let to_position = laws.le_trans v s2.0 s1.0 to_broker c2.1 in
      (
        (record {
          position = laws.le_trans v s1.0 limits.max_position_size to_position c1.0;
          broker = laws.le_trans v s2.0 q.contract.volume_max to_broker c2.0;
          symbol_exposure = λ h. laws.le_trans v s3.0 _ c4.0 (c3.2 h).0;
          total_exposure = λ h. laws.le_trans v s3.0 _ c4.0 (c3.2 h).1;
          margin = c4.1;
        }),
        laws.le_trans v s1.0 raw to_position c1.1,
      )
