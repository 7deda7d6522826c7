-- ===== src/Types/LocalOutput.antt =====
-- The wallet's outputs, of src/types/output.rs.
use bdk_wasm.Base.{ℕ}
use bdk_wasm.Bdk.Values.{BdkLocalOutput}
use bdk_wasm.Bdk.Opaque.{BdkTypes}
use bdk_wasm.Types.Wrapper.{Wrapper, wrap, deref}
use bdk_wasm.Types.Keychain.{KeychainKind, keychain_from_bdk}
use bdk_wasm.Types.Output.{OutPoint}

abbrev pub LocalOutput : BdkTypes → Type 0 → Type 0
LocalOutput T TxOut = Wrapper (BdkLocalOutput T TxOut)

module _ {T : BdkTypes} {TxOut : Type 0} where
  -- `LocalOutput::txout`
  unfoldable pub local_txout : LocalOutput T TxOut → Wrapper TxOut
  local_txout o = wrap (deref o).txout

  -- `LocalOutput::derivation_index`
  unfoldable pub local_derivation_index : LocalOutput T TxOut → ℕ
  local_derivation_index o = (deref o).derivation_index

  -- `LocalOutput::outpoint`
  unfoldable pub local_outpoint : LocalOutput T TxOut → OutPoint T
  local_outpoint o = wrap (deref o).outpoint

  -- `LocalOutput::keychain`
  unfoldable pub local_keychain : LocalOutput T TxOut → KeychainKind
  local_keychain o = keychain_from_bdk (deref o).keychain
