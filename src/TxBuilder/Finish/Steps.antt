-- ===== src/TxBuilder/Finish/Steps.antt =====
-- The branches of `finish`, one equation for each, so that what uses them can leave the functions
-- shut.
use bdk_wasm.Base.{String, ◌≡◌, true, false, none, some, map, ok, err}
use bdk_wasm.Base.{returned, panicked, is_empty}
use bdk_wasm.Bdk.Opaque.{BdkTypes}
use bdk_wasm.Bdk.Errors.{AddUtxoError, BuildFeeBumpError}
use bdk_wasm.Bdk.Builder.{BuilderLib}
use bdk_wasm.Types.Wrapper.{into_inner}
use bdk_wasm.Types.Error.{Host}
use bdk_wasm.TxBuilder.{TxBuilder}
use bdk_wasm.TxBuilder.Errors.{from_add_utxo_error, from_build_fee_bump_error}
use bdk_wasm.TxBuilder.Finish.{
  finish_builder, finish_data, finish_utxos, finish_fee_bump, finish_on, configure_fee_bump,
  configure_first, configure_rest, configure_last, try_some, finish_rest,
}

module _ {T : BdkTypes} (H : Host T) (L : BuilderLib T) (b : TxBuilder T) where
  open L use {Wallet, Builder, wallet_of}

  pub finish_on_normal :
      (w : Wallet)
      → b.is_fee_bump ≡ false
      → finish_on H L b w ≡ finish_utxos H L b (configure_first L b (L.build_tx w))
  unfolding finish_on
  finish_on_normal w e = simp e

  pub finish_on_bump :
      (w : Wallet) (t : T.Txid)
      → b.is_fee_bump ≡ true
      → b.fee_bump_txid ≡ some t
      → finish_on H L b w ≡ finish_fee_bump H L b t w
  unfolding finish_on
  finish_on_bump w t e f = simp (e, f)

  pub finish_on_missing :
      (w : Wallet)
      → b.is_fee_bump ≡ true
      → b.fee_bump_txid ≡ none
      → finish_on H L b w ≡ (panicked "fee bump txid must be set", w)
  unfolding finish_on
  finish_on_missing w e f = simp (e, f)

  pub finish_utxos_empty :
      (x : Builder) → is_empty b.utxos ≡ true → finish_utxos H L b x ≡ finish_rest H L b x
  unfolding finish_utxos
  finish_utxos_empty x e = simp e

  pub finish_utxos_known :
      (x : Builder)
      → is_empty b.utxos ≡ false
      → (L.add_utxos (map into_inner b.utxos) x).0 ≡ none
      → finish_utxos H L b x ≡ finish_rest H L b (L.add_utxos (map into_inner b.utxos) x).1
  unfolding finish_utxos
  finish_utxos_known x e known = simp (e, known)

  pub finish_utxos_unknown :
      (x : Builder) (u : AddUtxoError T)
      → is_empty b.utxos ≡ false
      → (L.add_utxos (map into_inner b.utxos) x).0 ≡ some u
      → finish_utxos H L b x ≡ (
        returned (err (from_add_utxo_error H u)),
        wallet_of (L.add_utxos (map into_inner b.utxos) x).1,
      )
  unfolding finish_utxos
  finish_utxos_unknown x u e unknown = simp (e, unknown)

  pub finish_rest_returned :
      (x z : Builder)
      → try_some b.current_height L.current_height (configure_rest L b x) ≡ returned z
      → finish_rest H L b x ≡ finish_data H L b.data_bytes (configure_last L b z)
  unfolding finish_rest
  finish_rest_returned x z e = rw (e, finish_rest)

  pub finish_rest_panicked :
      (x : Builder) (message : String)
      → try_some b.current_height L.current_height (configure_rest L b x) ≡ panicked message
      → finish_rest H L b x ≡ (panicked message, wallet_of (configure_rest L b x))
  unfolding finish_rest
  finish_rest_panicked x message e = rw (e, finish_rest)

  pub finish_fee_bump_accepted :
      (t : T.Txid) (w : Wallet) (x : Builder)
      → L.build_fee_bump w t ≡ ok x
      → finish_fee_bump H L b t w ≡ finish_builder H L (configure_fee_bump L b x)
  unfolding finish_fee_bump
  finish_fee_bump_accepted t w x e = rw (e, finish_fee_bump)

  pub finish_fee_bump_refused :
      (t : T.Txid) (w v : Wallet) (u : BuildFeeBumpError T)
      → L.build_fee_bump w t ≡ err (u, v)
      → finish_fee_bump H L b t w ≡ (returned (err (from_build_fee_bump_error H u)), v)
  unfolding finish_fee_bump
  finish_fee_bump_refused t w v u e = rw (e, finish_fee_bump)
