-- ===== src/Types/Block/Contents.antt =====
-- The methods of `Block`.
use Prim.Native.String.{◌++◌ as ◌<>◌}
use bdk_wasm.Base.{ℕ, String, List, map, length}
use bdk_wasm.Base.Results.{JsResult, map_ok, map_err}
use bdk_wasm.Bdk.Opaque.{BdkTypes}
use bdk_wasm.Bdk.Values.{BlockLib}
use bdk_wasm.Types.Wrapper.{Wrapper, wrap, deref}
use bdk_wasm.Types.Block.{HashText}
use bdk_wasm.Types.Event.{Transaction}

module _ {T : BdkTypes} (L : BlockLib T) where
  abbrev pub Block : Type 0
  Block = Wrapper L.Block

module _ {T : BdkTypes} (X : HashText T) (L : BlockLib T) where
  -- `Block::block_hash`
  unfoldable pub block_hash : Block L → String
  block_hash b = X.to_string (L.block_hash (deref b))

  -- `Block::prev_blockhash`
  unfoldable pub block_prev_blockhash : Block L → String
  block_prev_blockhash b = X.to_string (L.prev_blockhash (deref b))

module _ {T : BdkTypes} (L : BlockLib T) where
  -- `Block::from_bytes`
  unfoldable pub block_from_bytes : List ℕ → JsResult (Block L)
  block_from_bytes bytes =
      map_ok wrap (
        map_err (λ e. record { text = "Failed to deserialize block: " <> e }) (L.deserialize bytes))

  -- `Block::time`
  unfoldable pub block_time : Block L → ℕ
  block_time b = L.time (deref b)

  -- `Block::txdata`
  unfoldable pub block_txdata : Block L → List (Transaction T)
  block_txdata b = map wrap (L.txdata (deref b))

  -- `Block::tx_count`
  unfoldable pub block_tx_count : Block L → ℕ
  block_tx_count b = length (L.txdata (deref b))
