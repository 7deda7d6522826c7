-- ===== src/Types/Fee.antt =====
-- src/types/fee.rs: fee rates and fee estimates.
use bdk_wasm.Base.{ℕ, Option, none, some, List, [], ◌∷◌, ◌==◌, if◌then◌else◌}
use bdk_wasm.Bdk.Opaque.{BdkTypes}
use bdk_wasm.Bdk.Fees.{FeeLib}
use bdk_wasm.Types.Wrapper.{Wrapper, wrap, deref}

abbrev pub FeeRate : BdkTypes → Type 0
FeeRate T = Wrapper T.FeeRate

module _ {T : BdkTypes} (L : FeeLib T) where
  -- `FeeRate::new`
  unfoldable pub fee_rate_new : ℕ → FeeRate T
  fee_rate_new sat_vb = wrap (L.from_sat_per_vb_unchecked sat_vb)

  -- `FeeRate::to_sat_per_kwu`
  unfoldable pub fee_rate_to_sat_per_kwu : FeeRate T → ℕ
  fee_rate_to_sat_per_kwu r = L.to_sat_per_kwu (deref r)

  -- `FeeRate::to_sat_per_vb_ceil`
  unfoldable pub fee_rate_to_sat_per_vb_ceil : FeeRate T → ℕ
  fee_rate_to_sat_per_vb_ceil r = L.to_sat_per_vb_ceil (deref r)

  -- `FeeRate::to_sat_per_vb_floor`
  unfoldable pub fee_rate_to_sat_per_vb_floor : FeeRate T → ℕ
  fee_rate_to_sat_per_vb_floor r = L.to_sat_per_vb_floor (deref r)

-- The hash map from confirmation targets to rates, as its entries. `F` is `f64`.
abbrev pub FeeEstimates : Type 0 → Type 0
FeeEstimates F = List (ℕ × F)

-- `FeeEstimates::get`
unfoldable pub fee_estimates_get : {F : Type 0} → FeeEstimates F → ℕ → Option F
fee_estimates_get [] k = none
fee_estimates_get ((j, rate) ∷ rest) k = if j == k then some rate else fee_estimates_get rest k
