-- ===== src/Wallet/Create/Laws.antt =====
-- Where a new wallet goes.
use bdk_wasm.Base.{ℕ, ◌≡◌, refl, String, Option, none, some, Result, ok, err, ◌==◌, if◌then◌else◌}
use bdk_wasm.Base.{arith}
use bdk_wasm.Base.Results.{JsResult, js_error}
use bdk_wasm.Base.RefCell.{Borrow, Heap}
use bdk_wasm.Bdk.Opaque.{BdkTypes}
use bdk_wasm.Bdk.Builder.{BuilderLib}
use bdk_wasm.Bdk.Wallet.{WalletLib}
use bdk_wasm.Types.Wrapper.{Wrapper, into_inner}
use bdk_wasm.Types.Network.{Network, network_into_bdk}
use bdk_wasm.Wallet.Create.{in_new_cell, loaded, load_params}
use bdk_wasm.Wallet.Create.{create_single, create, create_from_two_path_descriptor, load}

-- The wallet that bdk_wallet made or found, if any.
abbrev pub made : {W : Type 0} → Result String W → Option W
made (ok w) = some w
made (err _) = none

abbrev pub found : {W : Type 0} → Result String (Option W) → Option W
found (ok o) = o
found (err _) = none

abbrev pub handle_of : JsResult ℕ → Option ℕ
handle_of (ok h) = some h
handle_of (err _) = none

-- A wallet is in the cell `h`, free, and its handle is given out; without one there is no handle.
-- All other cells are as they were, and without a wallet all cells are.
abbrev pub IsStored : {W : Type 0} → Option W → ℕ → Heap W → JsResult ℕ × Heap W → Type 0
IsStored (some w) h heap (r, after) =
    (handle_of r ≡ some h)
    × (after h ≡ record { value = w; state = Borrow.unused })
    × ((i : ℕ) → after i ≡ (if i == h then after h else heap i))
IsStored none h heap (r, after) = (handle_of r ≡ none) × (after ≡ heap)

module _ {T : BdkTypes} {L : BuilderLib T} (V : WalletLib L) where
  in_new_cell-IsStored :
      (h : ℕ) (r : Result String L.Wallet) (heap : Heap L.Wallet)
      → IsStored (made r) h heap (in_new_cell V h (js_error r) heap)
  in_new_cell-IsStored h (ok w) heap = (refl, ground arith, λ i. ground arith)
  in_new_cell-IsStored h (err _) heap = (refl, refl)

  loaded-IsStored :
      (h : ℕ) (r : Result String (Option L.Wallet)) (heap : Heap L.Wallet)
      → IsStored (found r) h heap (in_new_cell V h (loaded V r) heap)
  unfolding loaded
  loaded-IsStored h (ok (some w)) heap = (refl, ground arith, λ i. ground arith)
  loaded-IsStored h (ok none) heap = (refl, refl)
  loaded-IsStored h (err _) heap = (refl, refl)

  -- Each of the four constructors gives out the new handle exactly if bdk_wallet makes or finds a
  -- wallet, which is then in the cell of that handle and free; all other wallets stay as they are,
  -- and all wallets do when there is none.
  pub constructors_store :
      (h : ℕ) (network : Network) (external internal : String) (changeset : Wrapper V.ChangeSet)
      (e i : Option String) (heap : Heap L.Wallet)
      → let n = network_into_bdk network in
        IsStored
          (made (V.create_single external n))
          h
          heap
          (create_single V h network external heap)
        × IsStored
            (made (V.create external internal n))
            h
            heap
            (create V h network external internal heap)
        × IsStored
            (made (V.create_from_two_path_descriptor external n))
            h
            heap
            (create_from_two_path_descriptor V h network external heap)
        × IsStored
            (found (
              V.load_wallet_no_persist (into_inner changeset) (V.extract_keys (load_params V e i))))
            h
            heap
            (load V h changeset e i heap)
  unfolding create_single create create_from_two_path_descriptor load
  constructors_store h network external internal changeset e i heap =
      let n = network_into_bdk network in
      (
        in_new_cell-IsStored h (V.create_single external n) heap,
        in_new_cell-IsStored h (V.create external internal n) heap,
        in_new_cell-IsStored h (V.create_from_two_path_descriptor external n) heap,
        loaded-IsStored h
            (V.load_wallet_no_persist (into_inner changeset) (V.extract_keys (load_params V e i)))
            heap,
      )
