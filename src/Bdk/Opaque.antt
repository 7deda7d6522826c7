-- ===== src/Bdk/Opaque.antt =====
-- The types of bdk_wallet, bitcoin and the host whose contents the crate never looks into.
use bdk_wasm.Base.{ℕ}

pub record BdkTypes : Type 1 where
  pub Txid : Type 0
  pub BlockHash : Type 0
  pub Script : Type 0
  pub Amount : Type 0
  pub FeeRate : Type 0
  pub Transaction : Type 0
  pub Psbt : Type 0
  -- What an error variant carries beyond what the crate reads.
  pub Detail : Type 0
  pub JsValue : Type 0

pub record BdkOutPoint (T : BdkTypes) : Type 0 where
  pub txid : T.Txid
  pub vout : ℕ

pub record BdkBlockId (T : BdkTypes) : Type 0 where
  pub height : ℕ
  pub hash : T.BlockHash

pub record BdkConfirmationBlockTime (T : BdkTypes) : Type 0 where
  pub block_id : BdkBlockId T
  pub confirmation_time : ℕ
