-- ===== src/Types/Error/Values.antt =====
-- The values that the crate attaches to its errors, one constructor for each type that
-- `BdkError::new` is called at.
use bdk_wasm.Base.{ℕ}
use bdk_wasm.Bdk.Kinds.{BdkKeychainKind}
use bdk_wasm.Bdk.Opaque.{BdkTypes, BdkOutPoint}
use bdk_wasm.Types.Wrapper.{Wrapper}

-- `InsufficientFunds` of src/bitcoin/tx_builder.rs, over `Amount`.
pub record InsufficientFunds (T : BdkTypes) : Type 0 where
  pub needed : Wrapper T.Amount
  pub available : Wrapper T.Amount

pub data Payload (T : BdkTypes) : Type 0 where
  unit : Payload T
  txid : T.Txid → Payload T
  outpoint : BdkOutPoint T → Payload T
  keychain : BdkKeychainKind → Payload T
  amount : T.Amount → Payload T
  fee_rate : T.FeeRate → Payload T
  limit : ℕ → Payload T
  funds : InsufficientFunds T → Payload T
