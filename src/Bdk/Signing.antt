-- ===== src/Bdk/Signing.antt =====
-- bdk_wallet's `SignOptions`.
use bdk_wasm.Base.{ℕ, Bool, Option}

pub record BdkSignOptions : Type 0 where
  pub trust_witness_utxo : Bool
  pub assume_height : Option ℕ
  pub allow_all_sighashes : Bool
  pub try_finalize : Bool
  pub sign_with_tap_internal_key : Bool
  pub allow_grinding : Bool
