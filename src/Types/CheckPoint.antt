-- ===== src/Types/CheckPoint.antt =====
-- src/types/checkpoint.rs: checkpoints of the chain.
use bdk_wasm.Base.{ℕ, String, Option, map_option}
use bdk_wasm.Bdk.Values.{CheckPointLib}
use bdk_wasm.Bdk.Opaque.{BdkTypes}
use bdk_wasm.Types.Wrapper.{Wrapper, wrap, deref}
use bdk_wasm.Types.Block.{BlockId, HashText}

module _ {T : BdkTypes} (L : CheckPointLib T) where
  abbrev pub CheckPoint : Type 0
  CheckPoint = Wrapper L.CheckPoint

module _ {T : BdkTypes} (L : CheckPointLib T) where
  -- `CheckPoint::block_id`
  unfoldable pub checkpoint_block_id : CheckPoint L → BlockId T
  checkpoint_block_id c = wrap (L.block_id (deref c))

  -- `CheckPoint::height`
  unfoldable pub checkpoint_height : CheckPoint L → ℕ
  checkpoint_height c = L.height (deref c)

  -- `CheckPoint::prev`
  unfoldable pub checkpoint_prev : CheckPoint L → Option (CheckPoint L)
  checkpoint_prev c = map_option wrap (L.prev (deref c))

  -- `CheckPoint::get`
  unfoldable pub checkpoint_get : CheckPoint L → ℕ → Option (CheckPoint L)
  checkpoint_get c height = map_option wrap (L.get (deref c) height)

module _ {T : BdkTypes} (X : HashText T) (L : CheckPointLib T) where
  -- `CheckPoint::hash`
  unfoldable pub checkpoint_hash : CheckPoint L → String
  checkpoint_hash c = X.to_string (L.hash (deref c))
