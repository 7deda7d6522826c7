-- ===== src/Types/Records.antt =====
-- The copies of bdk_wallet's transaction records are read back whole by their getters.
use bdk_wasm.Base.{◌≡◌, refl, ap, Option, none, some, List, [], ◌∷◌, map, map_option}
use bdk_wasm.Bdk.Opaque.{BdkTypes}
use bdk_wasm.Bdk.Transactions.{BdkWalletTx, BdkTxDetails}
use bdk_wasm.Types.Wrapper.{wrap, into_inner}
use bdk_wasm.Types.WalletTx.{
  wallet_tx_from_bdk, wallet_tx_txid, wallet_tx_tx, wallet_tx_anchors, wallet_tx_last_seen,
  wallet_tx_first_seen, wallet_tx_chain_position,
}
use bdk_wasm.Types.TxDetails.{
  details_from_bdk, details_txid, details_sent, details_received, details_fee, details_fee_rate,
  details_balance_delta_sat, details_chain_position, details_tx,
}

map-into_inner-map_wrap : {A : Type 0} (l : List A) → map into_inner (map wrap l) ≡ l
map-into_inner-map_wrap [] = refl
map-into_inner-map_wrap (a ∷ l) = ap (λ m. a ∷ m) (map-into_inner-map_wrap l)

option_into_inner-wrap : {A : Type 0} (o : Option A) → map_option into_inner (map_option wrap o) ≡ o
option_into_inner-wrap none = refl
option_into_inner-wrap (some a) = refl

module _ {T : BdkTypes} where
  -- What bdk_wallet says of a transaction is put together again, field by field, from the getters of
  -- the `WalletTx` and of the `TxDetails` that are made of it, unwrapped: the conversions drop
  -- nothing and swap nothing.
  pub records_read_back :
      (x : BdkWalletTx T) (y : BdkTxDetails T)
      → (record {
        tx_node = record {
          txid = into_inner (wallet_tx_txid (wallet_tx_from_bdk x));
          tx = into_inner (wallet_tx_tx (wallet_tx_from_bdk x));
          anchors = map into_inner (wallet_tx_anchors (wallet_tx_from_bdk x));
          last_seen = wallet_tx_last_seen (wallet_tx_from_bdk x);
          first_seen = wallet_tx_first_seen (wallet_tx_from_bdk x);
        };
        chain_position = into_inner (wallet_tx_chain_position (wallet_tx_from_bdk x));
      }
          ≡ x)
        × (record {
          txid = into_inner (details_txid (details_from_bdk y));
          sent = into_inner (details_sent (details_from_bdk y));
          received = into_inner (details_received (details_from_bdk y));
          fee = map_option into_inner (details_fee (details_from_bdk y));
          fee_rate = map_option into_inner (details_fee_rate (details_from_bdk y));
          balance_delta = details_balance_delta_sat (details_from_bdk y);
          chain_position = into_inner (details_chain_position (details_from_bdk y));
          tx = into_inner (details_tx (details_from_bdk y));
        }
            ≡ y)
  unfolding wallet_tx_from_bdk details_from_bdk wallet_tx_txid wallet_tx_tx wallet_tx_anchors
      wallet_tx_last_seen wallet_tx_first_seen wallet_tx_chain_position details_txid details_sent
      details_received details_fee details_fee_rate details_balance_delta_sat details_chain_position
      details_tx
  records_read_back x y = (
    simp (map-into_inner-map_wrap x.tx_node.anchors),
    simp (option_into_inner-wrap y.fee, option_into_inner-wrap y.fee_rate),
  )
