-- ===== src/Wallet/Create.antt =====
-- Making a wallet. A new wallet goes into a cell of its own; `h` is the handle that the allocation
-- yields.
pub mod Laws
use bdk_wasm.Base.{ℕ, String, Option, none, some, Result, ok, err, is_some, if◌then◌else◌}
use bdk_wasm.Base.Results.{JsResult, js_error}
use bdk_wasm.Base.RefCell.{Borrow, Heap, update}
use bdk_wasm.Bdk.Opaque.{BdkTypes}
use bdk_wasm.Bdk.Builder.{BuilderLib}
use bdk_wasm.Bdk.Wallet.{WalletLib}
use bdk_wasm.Types.Wrapper.{Wrapper, into_inner}
use bdk_wasm.Types.Network.{Network, network_into_bdk}
use bdk_wasm.Types.Keychain.{KeychainKind, keychain_into_bdk}

module _ {T : BdkTypes} {L : BuilderLib T} (V : WalletLib L) where
  open L use {Wallet}

  -- `Ok(Wallet(Rc::new(RefCell::new(wallet))))`, or the error.
  abbrev pub in_new_cell : ℕ → JsResult Wallet → Heap Wallet → JsResult ℕ × Heap Wallet
  in_new_cell h (ok w) heap = (ok h, update heap h (record { value = w; state = Borrow.unused }))
  in_new_cell h (err e) heap = (err e, heap)

  -- `Wallet::create_single`
  unfoldable pub create_single : ℕ → Network → String → Heap Wallet → JsResult ℕ × Heap Wallet
  create_single h network descriptor =
      in_new_cell h (js_error (V.create_single descriptor (network_into_bdk network)))

  -- `Wallet::create`
  unfoldable pub create : ℕ → Network → String → String → Heap Wallet → JsResult ℕ × Heap Wallet
  create h network external internal =
      in_new_cell h (js_error (V.create external internal (network_into_bdk network)))

  -- `Wallet::create_from_two_path_descriptor`
  unfoldable pub create_from_two_path_descriptor :
      ℕ → Network → String → Heap Wallet → JsResult ℕ × Heap Wallet
  create_from_two_path_descriptor h network descriptor =
      in_new_cell h
        (js_error (V.create_from_two_path_descriptor descriptor (network_into_bdk network)))

  -- The builder of `Wallet::load`, before the keys are extracted.
  unfoldable pub load_params : Option String → Option String → V.LoadParams
  unfolding keychain_into_bdk
  load_params external internal =
      let builder =
        if is_some external
        then V.descriptor (keychain_into_bdk KeychainKind.external) external V.load
        else V.load in
      if is_some internal
      then V.descriptor (keychain_into_bdk KeychainKind.internal) internal builder
      else builder

  -- What `load` makes of the wallet that is found, or not.
  unfoldable pub loaded : Result String (Option Wallet) → JsResult Wallet
  loaded (ok (some w)) = ok w
  loaded (ok none) = err (record { text = "Failed to load wallet, check the changeset" })
  loaded (err message) = err (record { text = message })

  -- `Wallet::load`
  unfoldable pub load :
      ℕ
      → Wrapper V.ChangeSet
      → Option String
      → Option String
      → Heap Wallet
      → JsResult ℕ × Heap Wallet
  load h changeset external internal = in_new_cell h (
      loaded (
        V.load_wallet_no_persist (into_inner changeset)
          (V.extract_keys (load_params external internal))))
