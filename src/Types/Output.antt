-- ===== src/Types/Output.antt =====
-- src/types/output.rs: references to transaction outputs.
use bdk_wasm.Base.{ℕ}
use bdk_wasm.Bdk.Opaque.{BdkTypes, BdkOutPoint}
use bdk_wasm.Types.Wrapper.{Wrapper, wrap, deref, into_inner}

abbrev pub Txid : BdkTypes → Type 0
Txid T = Wrapper T.Txid

abbrev pub OutPoint : BdkTypes → Type 0
OutPoint T = Wrapper (BdkOutPoint T)

module _ {T : BdkTypes} where
  -- `OutPoint::new`
  unfoldable pub outpoint_new : Txid T → ℕ → OutPoint T
  outpoint_new txid vout = wrap (record { txid = into_inner txid; vout = vout })

  -- `OutPoint::vout`
  unfoldable pub outpoint_vout : OutPoint T → ℕ
  outpoint_vout o = (deref o).vout

  -- `OutPoint::txid`
  unfoldable pub outpoint_txid : OutPoint T → Txid T
  outpoint_txid o = wrap (deref o).txid
