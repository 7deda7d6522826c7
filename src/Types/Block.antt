-- ===== src/Types/Block.antt =====
-- src/types/block.rs: block references, confirmation times and evictions.
pub mod Contents
use Prim.Native.String.{◌++◌ as ◌<>◌}
use bdk_wasm.Base.{ℕ, String, Result, ok}
use bdk_wasm.Base.Results.{JsResult, map_err, ◌>>=◌}
use bdk_wasm.Bdk.Opaque.{BdkTypes, BdkBlockId, BdkConfirmationBlockTime}
use bdk_wasm.Types.Wrapper.{Wrapper, wrap, deref, into_inner}
use bdk_wasm.Types.Output.{Txid}

abbrev pub BlockId : BdkTypes → Type 0
BlockId T = Wrapper (BdkBlockId T)

abbrev pub ConfirmationBlockTime : BdkTypes → Type 0
ConfirmationBlockTime T = Wrapper (BdkConfirmationBlockTime T)

-- The text of a block hash, read and written by bitcoin. An error is given by its text.
pub record HashText (T : BdkTypes) : Type 0 where
  pub from_str : String → Result String T.BlockHash
  pub to_string : T.BlockHash → String

module _ {T : BdkTypes} (X : HashText T) where
  -- `BlockId::new`
  unfoldable pub block_id_new : ℕ → String → JsResult (BlockId T)
  block_id_new height hash = do
    block_hash ← map_err (λ e. record { text = "Invalid block hash: " <> e }) (X.from_str hash)
    ok (wrap (record { height = height; hash = block_hash }))

  -- `BlockId::hash`
  unfoldable pub block_id_hash : BlockId T → String
  block_id_hash b = X.to_string (deref b).hash

module _ {T : BdkTypes} where
  -- `BlockId::height`
  unfoldable pub block_id_height : BlockId T → ℕ
  block_id_height b = (deref b).height

  -- `ConfirmationBlockTime::block_id`
  unfoldable pub confirmation_block_id : ConfirmationBlockTime T → BlockId T
  confirmation_block_id c = wrap (deref c).block_id

  -- `ConfirmationBlockTime::confirmation_time`
  unfoldable pub confirmation_time : ConfirmationBlockTime T → ℕ
  confirmation_time c = (deref c).confirmation_time

-- `EvictedTx`
pub record EvictedTx (T : BdkTypes) : Type 0 where
  pub txid : T.Txid
  pub evicted_at : ℕ

-- `EvictedTx::new`
unfoldable pub evicted_tx_new : {T : BdkTypes} → Txid T → ℕ → EvictedTx T
evicted_tx_new txid evicted_at = record { txid = into_inner txid; evicted_at = evicted_at }
