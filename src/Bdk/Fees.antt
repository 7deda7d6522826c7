-- ===== src/Bdk/Fees.antt =====
-- `bitcoin::FeeRate`, as an interface over an unknown type.
use bdk_wasm.Base.{ℕ}
use bdk_wasm.Bdk.Opaque.{BdkTypes}

pub record FeeLib (T : BdkTypes) : Type 0 where
  pub from_sat_per_vb_unchecked : ℕ → T.FeeRate
  pub to_sat_per_kwu : T.FeeRate → ℕ
  pub to_sat_per_vb_ceil : T.FeeRate → ℕ
  pub to_sat_per_vb_floor : T.FeeRate → ℕ
